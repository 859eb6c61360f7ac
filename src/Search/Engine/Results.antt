-- ===== src/Search/Engine/Results.antt =====
-- src/search/engine.rs, `search`: which books are found, with which scores and in which order.
use stage.Prelude.{
  ℕ, ◌≡◌, refl, ap, sym, ◌∙◌, ◌↔◌, Option, none, some, List, [], ◌∷◌, Str, str_eq, In, inl, inr,
  ◌⊎◌, arith,
}
use stage.DashMap.{DashMap, get-empty}
use stage.Effects.{ok, bind_of_ok, ◌>>=◌, pure}
use stage.Storage.Protocol.{Request}
use stage.App.{App, Setting, Act, get_postings, get_book}
use stage.Search.Types.{BookMetadata}
use stage.Search.Tokenizer.{tokenize_query}
use stage.Search.Engine.{
  Scored, Scores, add_found, push_found, score_tokens, hydrate, search, sort_by_score,
}
use stage.Search.Engine.Scores.{hits, plus_points, scores_of, get-scores_of}
use stage.Search.Engine.Ranking.{IsRanked, sort_by_score-IsRanked, In-sort_by_score_iff}

module _ (dm : DashMap) (x : Setting dm) (a : App dm) where
  -- A read answers as the function says, whatever has been sent, and changes nothing here.
  abbrev pub Answers : {V : Type 0} → (Str → Act dm (Option V)) → (Str → Option V) → Type 0
  Answers read value =
      (k : Str) (log : List Request)
      → (sent : List Request) × (read k (a, log) ≡ (ok (value k), (a, sent)))

  module _ (postings : Str → Option (List Str))
      (indexed : Answers (get_postings dm x) postings) where
    score_tokens_lem :
        (tokens : List Str) (scores : Scores dm) (log : List Request)
        → (sent : List Request) × (score_tokens dm x scores tokens (a, log)
            ≡ (ok (scores_of dm postings scores tokens), (a, sent)))
    unfolding score_tokens scores_of
    score_tokens_lem [] scores log = (log, refl)
    score_tokens_lem (token ∷ tokens) scores log =
        let (l, e) = indexed token log in
        let (sent, h) = score_tokens_lem tokens (add_found dm scores (postings token)) l in
        (
          sent,
          bind_of_ok (get_postings dm x token)
                (λ found. score_tokens dm x (add_found dm scores found) tokens) e
              ∙ h,
        )

  In-push_found_iff :
      (o : Option BookMetadata) (score : ℕ) (rest : List Scored) (m : BookMetadata) (n : ℕ)
      → In (m, n) (push_found dm x o score rest) ↔ (((o ≡ some m) × (n ≡ score)) ⊎ In (m, n) rest)
  In-push_found_iff none score rest m n = (inr, λ h. ground (arith, h))
  In-push_found_iff (some v) score rest m n = (
    λ h. elim h [ inl e ↦ inl (ap (λ q. some q.0) (sym e), ap (λ q. q.1) e) | inr i ↦ inr i ],
    λ h. elim h [ inl (e, same) ↦ inl (ground (arith, e, same)) | inr i ↦ inr i ],
  )

  module _ (metadata : Str → Option BookMetadata) (stored : Answers (get_book dm x) metadata) where
    unfoldable hydrated : List (Str × ℕ) → List Scored
    hydrated [] = []
    hydrated ((id, score) ∷ l) = push_found dm x (metadata id) score (hydrated l)

    hydrate_lem :
        (l : List (Str × ℕ)) (log : List Request)
        → (sent : List Request) × (hydrate dm x l (a, log) ≡ (ok (hydrated l), (a, sent)))
    unfolding hydrate hydrated
    hydrate_lem [] log = (log, refl)
    hydrate_lem ((id, score) ∷ l) log =
        let (mid, e) = stored id log in
        let (sent, h) = hydrate_lem l mid in
        (
          sent,
          bind_of_ok (get_book dm x id)
                (λ found. hydrate dm x l >>= λ rest. pure (push_found dm x found score rest)) e
              ∙ bind_of_ok (hydrate dm x l)
                  (λ rest. pure (push_found dm x (metadata id) score rest)) h,
        )

    In-hydrated_iff :
        (m : BookMetadata) (n : ℕ) (l : List (Str × ℕ))
        → In (m, n) (hydrated l) ↔ ((id : Str) × In (id, n) l × (metadata id ≡ some m))
    unfolding hydrated
    In-hydrated_iff m n [] = (λ h. elim h [ ], λ (id, h, e). elim h [ ])
    In-hydrated_iff m n ((j, score) ∷ l) =
        let (to, from) = In-push_found_iff (metadata j) score (hydrated l) m n in
        let (down, up) = In-hydrated_iff m n l in
        (
          λ h. elim (to h) [
            | inl (e, same) ↦ (j, inl (ap (λ k. (j, k)) same), e)
            | inr i ↦ (let (id, there, e) = down i in (id, inr there, e))
          ],
          λ (id, i, e). from (elim i [
            | inl p ↦ inl (ap (λ q. metadata q.0) (sym p) ∙ e, ap (λ q. q.1) p)
            | inr there ↦ inr (up (id, there, e))
          ]),
        )

  -- Where the index and the metadata can be read, the search succeeds and changes nothing. The
  -- books that it finds are those with metadata that stand in the postings of a token of the
  -- query, each scored by how often (as a usize), and the scores never increase.
  pub search_lem :
      (postings : Str → Option (List Str)) (metadata : Str → Option BookMetadata)
      → Answers (get_postings dm x) postings
      → Answers (get_book dm x) metadata
      → (query : Str) (log : List Request)
      → (results : List Scored) × (sent : List Request) × (search dm x query (a, log)
          ≡ (ok results, (a, sent)))
        × IsRanked results
        × ((m : BookMetadata) (n : ℕ)
            → In (m, n) results ↔ (
                (id : Str) × (metadata id ≡ some m)
                × (plus_points none (hits postings id (tokenize_query x.unicode query)) ≡ some n)))
  unfolding search
  search_lem postings metadata indexed stored query log =
      let tokens = tokenize_query x.unicode query in
      let scores = scores_of dm postings dm.empty tokens in
      let score_known : (id : Str) → dm.get scores id ≡ plus_points none (hits postings id tokens) =
        λ id.
          get-scores_of dm postings tokens dm.empty id
          ∙ ap (λ o. plus_points o (hits postings id tokens)) (get-empty dm id) in
      let (mid, e) = score_tokens_lem postings indexed tokens dm.empty log in
      let (sent, h) = hydrate_lem metadata stored (dm.entries scores) mid in
      let found = hydrated metadata stored (dm.entries scores) in
      (
        sort_by_score found,
        sent,
        bind_of_ok (score_tokens dm x dm.empty tokens)
              (λ s. hydrate dm x (dm.entries s) >>= λ l. pure (sort_by_score l)) e
            ∙ bind_of_ok (hydrate dm x (dm.entries scores)) (λ l. pure (sort_by_score l)) h,
        sort_by_score-IsRanked found,
        λ m n.
            let (from_sorted, to_sorted) = In-sort_by_score_iff (m, n) found in
            let (from_found, to_found) = In-hydrated_iff metadata stored m n (dm.entries scores) in
            (
              λ i.
                  let (id, j, e) = from_found (from_sorted i) in
                  (id, e, sym (score_known id) ∙ (dm.In-entries scores id n).0 j),
              λ (id, e, h).
                  to_sorted (to_found (id, (dm.In-entries scores id n).1 (score_known id ∙ h), e)),
            ),
      )
