-- ===== src/Indexer/Race.antt =====
-- src/main.rs, `index_document`: the read and the write of a token's postings are two requests.
-- Two workers, or two nodes, that index documents with a common term may both read before either
-- writes.
use stage.Prelude.{
  ℕ, ◌≡◌, refl, ap, ◌∙◌, false, none, List, [], ◌∷◌, ◌++◌, Str, str, ◌==◌, str_eq, any, if_cases,
  arith,
}
use stage.DashMap.{DashMap}
use stage.Effects.{ok, ◌>>=◌, ◌>>◌, bind_of_ok}
use stage.Site.{IsAlone}
use stage.Storage.Protocol.{Request}
use stage.Storage.Memory.Alone.{put_with_op_alone}
use stage.App.{App, Act, Setting, get_postings, put_postings}
use stage.App.Alone.{postings_in, get_postings_alone}
use stage.Indexer.{or_default, push_absent}

any_snoc_other :
    (id other : Str) (ids : List Str)
    → any (λ i. i == id) ids ≡ false
    → other == id ≡ false
    → any (λ i. i == id) (ids ++ other ∷ []) ≡ false
any_snoc_other id other [] h k = rw k refl
any_snoc_other id other (i ∷ ids) h k = ground (arith, h, k, any_snoc_other id other ids)

module _ (dm : DashMap) (x : Setting dm) where
  -- The iterations for one token of two index tasks, each reading before the other has written.
  unfoldable pub interleaved : ℕ → Str → Str → Str → Str → Str → Act dm (Unit {0})
  interleaved now op op' book_id book_id' token = do
    found ← get_postings dm x token
    found' ← get_postings dm x token
    put_postings dm x now op token (push_absent book_id (or_default found))
    put_postings dm x now op' token (push_absent book_id' (or_default found'))

  any-push_absent :
      (id other : Str) (ids : List Str)
      → any (λ i. i == id) ids ≡ false
      → other == id ≡ false
      → any (λ i. i == id) (push_absent other ids) ≡ false
  unfolding push_absent
  any-push_absent id other ids h k =
      if_cases (λ l. any (λ i. i == id) l ≡ false) (any (λ i. i == other) ids) (λ _. h)
        (λ _. any_snoc_other id other ids h k)

  pub interleaved_lost :
      (now : ℕ) (op op' book_id book_id' token : Str) (a : App dm) (log : List Request)
      → IsAlone dm x.site
      → dm.get a.index.processed_ops op ≡ none
      → dm.get a.index.processed_ops op' ≡ none
      → op == op' ≡ false
      → any (λ i. i == book_id) (or_default (postings_in dm x a token)) ≡ false
      → book_id' == book_id ≡ false
      → (b : App dm) × (interleaved now op op' book_id book_id' token (a, log) ≡ (ok tt, (b, log)))
        × (any (λ i. i == book_id) (or_default (postings_in dm x b token)) ≡ false)
  unfolding interleaved
  interleaved_lost now op op' book_id book_id' token a log alone new new' apart absent other =
      let ids = or_default (postings_in dm x a token) in
      let f = x.formats.index in
      let (s, wrote, _, later) =
        put_with_op_alone dm f x.site (str "/index") x.wire now token (push_absent book_id ids) op
          a.index log alone new in
      let (t, wrote', reads, _) =
        put_with_op_alone dm f x.site (str "/index") x.wire now token (push_absent book_id' ids) op'
          s log alone (later op' apart new') in
      let first = put_postings dm x now op token (push_absent book_id ids) in
      let second = put_postings dm x now op' token (push_absent book_id' ids) in
      (
        record a { index = t },
        bind_of_ok (get_postings dm x token)
              (λ found. get_postings dm x token >>= λ found'.
                put_postings dm x now op token (push_absent book_id (or_default found))
                >> put_postings dm x now op' token (push_absent book_id' (or_default found')))
              (get_postings_alone dm x a token log alone)
            ∙ bind_of_ok (get_postings dm x token)
                (λ found'.
                  first
                  >> put_postings dm x now op' token (push_absent book_id' (or_default found')))
                (get_postings_alone dm x a token log alone)
            ∙ bind_of_ok first (λ _. second)
                (ap (λ r. (r.0, (record a { index = r.1.0 }, r.1.1))) wrote)
            ∙ ap (λ r. (r.0, (record a { index = r.1.0 }, r.1.1))) wrote',
        rw (reads token, (f.key_eq.same_iff token token).1 refl)
            (any-push_absent book_id book_id' ids absent other),
      )
