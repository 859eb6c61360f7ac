-- ===== src/Search/Engine/Scores.antt =====
-- src/search/engine.rs: the score of a book is the number of times that it stands in the postings
-- of the query's tokens.
use stage.Prelude.{
  ℕ, suc, zero, ◌+◌, ◌%◌, ◌^◌, ◌≡◌, refl, ◌∙◌, Option, none, some, List, [], ◌∷◌, Str, ◌==◌, ==_iff,
  str_eq, if◌then◌else◌, Bool-cases, inl, inr, arith,
}
use stage.DashMap.{DashMap}
use stage.Search.Engine.{Scores, add_point, add_points, add_found}

-- How often an id stands in a list.
unfoldable pub occurrences : Str → List Str → ℕ
occurrences id [] = 0
occurrences id (j ∷ ids) = (if j == id then 1 else 0) + occurrences id ids

-- How often an id stands in the postings of the tokens.
unfoldable pub hits : (Str → Option (List Str)) → Str → List Str → ℕ
unfolding occurrences
hits postings id [] = 0
hits postings id (token ∷ tokens) =
    (elim (postings token) [ none ↦ 0 | some ids ↦ occurrences id ids ]) + hits postings id tokens

-- A usize score after `n` more points.
abbrev pub plus_points : Option ℕ → ℕ → Option ℕ
plus_points score zero = score
plus_points none (suc n) = some (suc n % 2 ^ 64)
plus_points (some m) (suc n) = some ((m + suc n) % 2 ^ 64)

plus_points_add : (o : Option ℕ) (m n : ℕ) → plus_points (plus_points o m) n ≡ plus_points o (m + n)
plus_points_add o m n = ground arith

plus_points_one :
    (o : Option ℕ)
    → some (elim o [ none ↦ 1 | some score ↦ (score + 1) % 2 ^ 64 ]) ≡ plus_points o 1
plus_points_one none = refl
plus_points_one (some n) = refl

module _ (dm : DashMap) where
  get-add_point :
      (scores : Scores dm) (j id : Str)
      → dm.get (add_point dm scores j) id
        ≡ plus_points (dm.get scores id) (if j == id then 1 else 0)
  unfolding add_point
  get-add_point scores j id = elim (Bool-cases (j == id)) [
    | inl e ↦ rw (dm.get-insert, e) (rw (← (==_iff j id).0 e) (plus_points_one (dm.get scores j)))
    | inr e ↦ rw (dm.get-insert, e) refl
  ]

  get-add_points :
      (ids : List Str) (scores : Scores dm) (id : Str)
      → dm.get (add_points dm scores ids) id ≡ plus_points (dm.get scores id) (occurrences id ids)
  unfolding add_points occurrences
  get-add_points [] scores id = refl
  get-add_points (j ∷ ids) scores id =
      get-add_points ids (add_point dm scores j) id
      ∙ rw get-add_point
          (plus_points_add (dm.get scores id) (if j == id then 1 else 0) (occurrences id ids))

  pub get-add_found :
      (found : Option (List Str)) (scores : Scores dm) (id : Str)
      → dm.get (add_found dm scores found) id
        ≡ plus_points (dm.get scores id) (elim found [ none ↦ 0 | some ids ↦ occurrences id ids ])
  get-add_found none scores id = refl
  get-add_found (some ids) scores id = get-add_points ids scores id

  -- The scores after the tokens, when their postings are given.
  unfoldable pub scores_of : (Str → Option (List Str)) → Scores dm → List Str → Scores dm
  scores_of postings scores [] = scores
  scores_of postings scores (token ∷ tokens) =
      scores_of postings (add_found dm scores (postings token)) tokens

  pub get-scores_of :
      (postings : Str → Option (List Str)) (tokens : List Str) (scores : Scores dm) (id : Str)
      → dm.get (scores_of postings scores tokens) id
        ≡ plus_points (dm.get scores id) (hits postings id tokens)
  unfolding scores_of hits
  get-scores_of postings [] scores id = refl
  get-scores_of postings (token ∷ tokens) scores id =
      get-scores_of postings tokens (add_found dm scores (postings token)) id
      ∙ rw get-add_found (
          plus_points_add (dm.get scores id)
            (elim (postings token) [ none ↦ 0 | some ids ↦ occurrences id ids ])
            (hits postings id tokens))
