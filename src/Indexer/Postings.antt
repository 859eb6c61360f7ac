-- ===== src/Indexer/Postings.antt =====
-- src/main.rs, `index_document`: what it leaves in the index of a node that owns everything.
use stage.Prelude.{
  ℕ, suc, ◌≡◌, refl, ap, ◌∙◌, true, false, Option, none, some, List, [], ◌∷◌, ◌++◌, Str, Eq, ◌==◌,
  ==_iff, ==_refl, str_eq, any, if◌then◌else◌, if_cases, Bool-cases, inl, inr, arith,
}
use stage.DashMap.{DashMap}
use stage.Effects.{ok, ◌>>◌, bind_of_ok}
use stage.Site.{IsAlone}
use stage.Storage.Protocol.{Request}
use stage.Storage.Memory.{Store}
use stage.Storage.Memory.Alone.{put_with_op_alone}
use stage.App.{App, Setting, get_postings, put_postings}
use stage.App.Alone.{postings_in, get_postings_alone}
use stage.Prelude.{str}
use stage.Indexer.{or_default, push_absent, index_tokens}

pub any_snoc : (id : Str) (ids : List Str) → any (λ i. i == id) (ids ++ id ∷ []) ≡ true
any_snoc id [] = rw (==_refl id) refl
any_snoc id (i ∷ ids) = ground (arith, any_snoc id ids)

pub push_absent_twice :
    (id : Str) (ids : List Str) → push_absent id (push_absent id ids) ≡ push_absent id ids
unfolding push_absent
push_absent_twice id ids = elim (Bool-cases (any (λ i. i == id) ids)) [
  | inl e ↦ rw e (rw e refl)
  | inr e ↦ rw e (rw (any_snoc id ids) refl)
]

same_beq : (k : Eq Str) (a b : Str) → k.same a b ≡ (a == b)
same_beq k a b = ground (arith, k.same_iff a b, ==_iff a b)

-- What one write and those that follow it come to.
posting_step :
    (k : Eq Str) (book_id token j : Str) (tokens : List Str) (old : Str → Option (List Str))
    (mid : Option (List Str))
    → mid ≡ (if k.same token j then some (push_absent book_id (or_default (old token))) else old j)
    → (if any (λ w. w == j) tokens then some (push_absent book_id (or_default mid)) else mid) ≡ (
        if any (λ w. w == j) (token ∷ tokens)
        then some (push_absent book_id (or_default (old j)))
        else old j)
posting_step k book_id token j tokens old mid e = elim (Bool-cases (token == j)) [
  | inl same ↦
      let h : mid ≡ some (push_absent book_id (or_default (old j))) =
        e
        ∙ rw (same_beq k token j, same)
            (ap (λ w. some (push_absent book_id (or_default (old w)))) ((==_iff token j).0 same)) in
      rw (h, same)
        (if_cases (λ o. o ≡ some (push_absent book_id (or_default (old j))))
          (any (λ w. w == j) tokens) (λ _. ap some (push_absent_twice book_id (or_default (old j))))
          (λ _. refl))
  | inr other ↦ let h : mid ≡ old j = e ∙ rw (same_beq k token j, other) refl in rw (h, other) refl
]

module _ (dm : DashMap) (x : Setting dm) where
  -- None of the operations that the loop draws has been seen, and no two are the same.
  abbrev pub IsFresh : Store dm Str (List Str) → (ℕ → Str) → Type 0
  IsFresh s op_ids =
      ((i : ℕ) → dm.get s.processed_ops (op_ids i) ≡ none)
      × ((i j : ℕ) → op_ids i ≡ op_ids j → i ≡ j)

  IsFresh-next :
      (s t : Store dm Str (List Str)) (op_ids : ℕ → Str)
      → IsFresh s op_ids
      → ((other : Str)
          → op_ids 0 == other ≡ false
          → dm.get s.processed_ops other ≡ none
          → dm.get t.processed_ops other ≡ none)
      → IsFresh t (λ i. op_ids (suc i))
  IsFresh-next s t op_ids (unseen, apart) later = (
    λ i. later (op_ids (suc i)) (differ i) (unseen (suc i)),
    λ i j e. omega (arith, apart (suc i) (suc j) e),
  )
    where
      differ : (i : ℕ) → op_ids 0 == op_ids (suc i) ≡ false
      differ i = elim (Bool-cases (op_ids 0 == op_ids (suc i))) [
        | inl e ↦ absurd (omega (arith, apart 0 (suc i) ((==_iff (op_ids 0) (op_ids (suc i))).0 e)))
        | inr e ↦ e
      ]

  pub index_tokens_alone :
      (clock : ℕ → ℕ) (op_ids : ℕ → Str) (book_id : Str) (tokens : List Str) (a : App dm)
      (log : List Request)
      → IsAlone dm x.site
      → IsFresh a.index op_ids
      → (t : Store dm Str (List Str)) × (index_tokens dm x clock op_ids book_id tokens (a, log)
          ≡ (ok tt, (record a { index = t }, log)))
        × ((j : Str)
            → postings_in dm x (record a { index = t }) j ≡ (
                if any (λ w. w == j) tokens
                then some (push_absent book_id (or_default (postings_in dm x a j)))
                else postings_in dm x a j))
  unfolding index_tokens
  index_tokens_alone clock op_ids book_id [] a log alone fresh = (a.index, refl, λ j. refl)
  index_tokens_alone clock op_ids book_id (token ∷ tokens) a log alone (unseen, apart) =
      let v = push_absent book_id (or_default (postings_in dm x a token)) in
      let (s, wrote, reads, later) =
        put_with_op_alone dm x.formats.index x.site (str "/index") x.wire (clock 0) token v
          (op_ids 0) a.index log alone (unseen 0) in
      let b = record a { index = s } in
      let shift = λ (i : ℕ). op_ids (suc i) in
      let (t, ran, final) =
        index_tokens_alone (λ i. clock (suc i)) shift book_id tokens b log alone
          (IsFresh-next a.index s op_ids (unseen, apart) later) in
      (
        t,
        bind_of_ok (get_postings dm x token)
              (λ found.
                put_postings dm x (clock 0) (op_ids 0) token
                  (push_absent book_id (or_default found))
                >> index_tokens dm x (λ i. clock (suc i)) shift book_id tokens)
              (get_postings_alone dm x a token log alone)
            ∙ bind_of_ok (put_postings dm x (clock 0) (op_ids 0) token v)
                (λ _. index_tokens dm x (λ i. clock (suc i)) shift book_id tokens)
                (ap (λ r. (r.0, (record a { index = r.1.0 }, r.1.1))) wrote)
            ∙ ran,
        λ j.
            final j
            ∙ posting_step x.formats.index.key_eq book_id token j tokens (postings_in dm x a)
                (postings_in dm x b j) (reads j),
      )
