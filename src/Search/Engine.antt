-- ===== src/Search/Engine.antt =====
-- src/search/engine.rs: scoring, hydration and ranking of the books for a query.
pub mod Scores
pub mod Ranking
pub mod Results
use stage.Prelude.{
  ℕ, ◌+◌, ◌%◌, ◌^◌, Option, none, some, List, [], ◌∷◌, Str, str_eq, leb, if◌then◌else◌,
}
use stage.DashMap.{DashMap}
use stage.Effects.{◌>>=◌, pure}
use stage.App.{Act, Setting, get_postings, get_book}
use stage.Search.Types.{BookMetadata}
use stage.Search.Tokenizer.{tokenize_query}

abbrev pub Scored : Type 0
Scored = BookMetadata × ℕ

-- `sort_by(|a, b| b.1.cmp(&a.1))`: a stable sort, the highest score first.
unfoldable pub insert_by_score : Scored → List Scored → List Scored
insert_by_score x [] = x ∷ []
insert_by_score x (y ∷ ys) =
    let rest = insert_by_score x ys in if leb y.1 x.1 then x ∷ y ∷ ys else y ∷ rest

unfoldable pub sort_by_score : List Scored → List Scored
unfolding insert_by_score
sort_by_score [] = []
sort_by_score (x ∷ xs) = insert_by_score x (sort_by_score xs)

module _ (dm : DashMap) where
  abbrev pub Scores : Type 0
  Scores = dm.Map Str ℕ

  -- `entry(id).and_modify(|score| *score += 1).or_insert(1)` on usize.
  unfoldable pub add_point : Scores → Str → Scores
  add_point scores id =
      dm.insert scores id (elim (dm.get scores id) [ none ↦ 1 | some score ↦ (score + 1) % 2 ^ 64 ])

  -- The loop over the book ids of one token.
  unfoldable pub add_points : Scores → List Str → Scores
  unfolding add_point
  add_points scores [] = scores
  add_points scores (id ∷ ids) = add_points (add_point scores id) ids

  abbrev pub add_found : Scores → Option (List Str) → Scores
  add_found scores none = scores
  add_found scores (some book_index) = add_points scores book_index

  module _ (x : Setting dm) where
    -- The scoring phase.
    unfoldable pub score_tokens : Scores → List Str → Act dm Scores
    score_tokens scores [] = pure scores
    score_tokens scores (token ∷ tokens) = do
      found ← get_postings dm x token
      score_tokens (add_found scores found) tokens

    abbrev pub push_found : Option BookMetadata → ℕ → List Scored → List Scored
    push_found none score rest = rest
    push_found (some metadata) score rest = (metadata, score) ∷ rest

    -- The hydration phase.
    unfoldable pub hydrate : List (Str × ℕ) → Act dm (List Scored)
    hydrate [] = pure []
    hydrate ((book_id, score) ∷ scores) = do
      found ← get_book dm x book_id
      rest ← hydrate scores
      pure (push_found found score rest)

    unfoldable pub search : Str → Act dm (List Scored)
    unfolding score_tokens hydrate sort_by_score
    search query = do
      scores ← score_tokens dm.empty (tokenize_query x.unicode query)
      results ← hydrate (dm.entries scores)
      pure (sort_by_score results)
