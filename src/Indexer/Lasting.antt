-- ===== src/Indexer/Lasting.antt =====
-- src/main.rs, `index_document`, and the writes of the services: a book that is posted under a term
-- and has metadata stays so.
use stage.Prelude.{
  ℕ, ◌≡◌, refl, ap, sym, ◌∙◌, true, Bool-cases, if_cases, inl, inr, ◌⊎◌, Option, some, List, [],
  ◌∷◌, ◌++◌, Str, str, str_eq, ◌==◌, any, arith,
}
use stage.DashMap.{DashMap}
use stage.Effects.Preserves.{Preserves}
use stage.Site.{IsAlone}
use stage.Storage.Memory.{Store}
use stage.Storage.Handlers.Written.{IsSettled}
use stage.Executor.Types.{Task}
use stage.App.{App, Setting}
use stage.App.Alone.{postings_in, books_in}
use stage.Search.Types.{BookMetadata}
use stage.Indexer.{or_default, push_absent, index_document}
use stage.Indexer.Pushes.{KeepsPush}
use stage.Indexer.Pushes
use stage.Indexer.Postings.{any_snoc}

any_snoc_more :
    (id other : Str) (ids : List Str)
    → any (λ i. i == id) ids ≡ true
    → any (λ i. i == id) (ids ++ other ∷ []) ≡ true
any_snoc_more id other [] h = absurd (ground (arith, h))
any_snoc_more id other (i ∷ ids) h = ground (arith, any_snoc_more id other ids)

any_pushed : (id : Str) (ids : List Str) → any (λ i. i == id) (push_absent id ids) ≡ true
unfolding push_absent
any_pushed id ids = elim (Bool-cases (any (λ i. i == id) ids)) [
  | inl e ↦ rw e e
  | inr e ↦ rw e (any_snoc id ids)
]

any_push_more :
    (id other : Str) (ids : List Str)
    → any (λ i. i == id) ids ≡ true
    → any (λ i. i == id) (push_absent other ids) ≡ true
unfolding push_absent
any_push_more id other ids h =
    if_cases (λ l. any (λ i. i == id) l ≡ true) (any (λ i. i == other) ids) (λ _. h)
      (λ _. any_snoc_more id other ids h)

-- An id that has been pushed stays when others are pushed.
push_absent_more :
    (id other : Str) (ids : List Str)
    → push_absent other (push_absent id ids)
      ≡ push_absent id (push_absent other (push_absent id ids))
unfolding push_absent
push_absent_more id other ids =
    sym (rw (any_push_more id other (push_absent id ids) (any_pushed id ids), push_absent) refl)

push_absent_present :
    (id : Str) (ids : List Str) → any (λ i. i == id) ids ≡ true → ids ≡ push_absent id ids
unfolding push_absent
push_absent_present id ids h = sym (rw h refl)

module _ (dm : DashMap) (x : Setting dm) (id term : Str) where
  -- The book has metadata, which name its id, and its id is in the postings of the term.
  abbrev pub IsFindable : App dm → Type 0
  IsFindable a =
      ((m : BookMetadata) × (books_in dm x a id ≡ some m) × (m.book_id ≡ id))
      × ((ids : List Str) × (postings_in dm x a term ≡ some (push_absent id ids)))

  -- A direct write to the term's postings keeps the id among them.
  abbrev pub Posts : Str → List Str → Type 0
  Posts k v = k ≡ term → any (λ i. i == id) v ≡ true

  pub book_written-IsFindable :
      (a : App dm) (k : Str) (v : BookMetadata) (t : Store dm Str BookMetadata)
      → v.book_id ≡ k
      → IsSettled dm x.formats.books x.site (str "/books") x.wire k v a.books t
      → IsFindable a
      → IsFindable (record a { books = t })
  book_written-IsFindable a k v t named which h = (
    elim (which id) [ inl e ↦ (h.0.0, e ∙ h.0.1, h.0.2) | inr (same, e) ↦ (v, e, named ∙ same) ],
    h.1,
  )

  pub posting_written-IsFindable :
      (a : App dm) (k : Str) (v : List Str) (t : Store dm Str (List Str))
      → Posts k v
      → IsSettled dm x.formats.index x.site (str "/index") x.wire k v a.index t
      → IsFindable a
      → IsFindable (record a { index = t })
  posting_written-IsFindable a k v t has which h = (
    h.0,
    elim (which term) [
      | inl e ↦ (h.1.0, e ∙ h.1.1)
      | inr (same, e) ↦ (v, e ∙ ap some (push_absent_present id v (has same)))
    ],
  )

  module _ (alone : IsAlone dm x.site) where
    pushed :
        (book_id token : Str) (old now : Option (List Str)) (found : Option (List Str))
        → ((ids : List Str) × (old ≡ some (push_absent id ids)))
        → (token ≡ term → found ≡ old)
        → ((now ≡ old) ⊎ ((token ≡ term) × (now ≡ some (push_absent book_id (or_default found)))))
        → (ids : List Str) × (now ≡ some (push_absent id ids))
    pushed book_id token old now found (ids, posted) same (inl e) = (ids, e ∙ posted)
    pushed book_id token old now found (ids, posted) same (inr (here, e)) = (
      push_absent book_id (push_absent id ids),
      e
          ∙ ap (λ o. some (push_absent book_id (or_default o))) (same here ∙ posted)
          ∙ ap some (push_absent_more id book_id ids),
    )

    IsFindable-KeepsPush : (book_id : Str) → KeepsPush dm x IsFindable alone book_id
    IsFindable-KeepsPush book_id a token t h which = (
      h.0,
      pushed book_id token (postings_in dm x a term)
          (postings_in dm x (record a { index = t }) term) (postings_in dm x a token) h.1
          (λ e. ap (postings_in dm x a) e) (which term),
    )

    pub index_document-Preserves :
        (shuffle : List Str → List Str) (clock : ℕ → ℕ) (op_ids : ℕ → Str) (task : Task)
        → Preserves IsFindable (index_document dm x shuffle clock op_ids task)
    index_document-Preserves shuffle clock op_ids task =
        Pushes.index_document-Preserves dm x IsFindable alone shuffle clock op_ids task
          (λ a book_id doc h there. IsFindable-KeepsPush book_id)
