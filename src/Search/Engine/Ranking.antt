-- ===== src/Search/Engine/Ranking.antt =====
-- src/search/engine.rs: the sort of the results.
use stage.Prelude.{ℕ, ◌≤◌, ◌≡◌, ◌↔◌, ◌⊎◌, List, [], ◌∷◌, All, In, leb, if_cases, arith}
use stage.Search.Engine.{Scored, insert_by_score, sort_by_score}

-- The scores never increase.
abbrev pub IsRanked : List Scored → Type 0
IsRanked [] = Unit
IsRanked (x ∷ xs) = All (λ y. y.1 ≤ x.1) xs × IsRanked xs

In-insert_by_score_iff :
    (a x : Scored) (ys : List Scored) → In a (insert_by_score x ys) ↔ ((a ≡ x) ⊎ In a ys)
unfolding insert_by_score
In-insert_by_score_iff a x [] = (λ h. h, λ h. h)
In-insert_by_score_iff a x (y ∷ ys) = ground (arith, In-insert_by_score_iff a x ys)

pub In-sort_by_score_iff : (a : Scored) (xs : List Scored) → In a (sort_by_score xs) ↔ In a xs
unfolding sort_by_score
In-sort_by_score_iff a [] = (λ h. h, λ h. h)
In-sort_by_score_iff a (x ∷ xs) =
    ground (arith, In-insert_by_score_iff a x (sort_by_score xs), In-sort_by_score_iff a xs)

All-le : (n m : ℕ) (ys : List Scored) → n ≤ m → All (λ y. y.1 ≤ n) ys → All (λ y. y.1 ≤ m) ys
All-le n m [] h a = tt
All-le n m (y ∷ ys) h a = (omega (arith, a.0), All-le n m ys h a.1)

All-insert_by_score :
    (n : ℕ) (x : Scored) (ys : List Scored)
    → x.1 ≤ n
    → All (λ y. y.1 ≤ n) ys
    → All (λ y. y.1 ≤ n) (insert_by_score x ys)
unfolding insert_by_score
All-insert_by_score n x [] h a = (h, tt)
All-insert_by_score n x (y ∷ ys) h a =
    if_cases (All (λ y. y.1 ≤ n)) (leb y.1 x.1) (λ _. (h, a))
      (λ _. (a.0, All-insert_by_score n x ys h a.1))

insert_by_score-IsRanked :
    (x : Scored) (ys : List Scored) → IsRanked ys → IsRanked (insert_by_score x ys)
unfolding insert_by_score
insert_by_score-IsRanked x [] r = (tt, tt)
insert_by_score-IsRanked x (y ∷ ys) r =
    if_cases IsRanked (leb y.1 x.1)
      (λ e. let h : y.1 ≤ x.1 = ground (arith, e) in ((h, All-le y.1 x.1 ys h r.0), r))
      (λ e.
        (All-insert_by_score y.1 x ys (ground (arith, e)) r.0, insert_by_score-IsRanked x ys r.1))

pub sort_by_score-IsRanked : (xs : List Scored) → IsRanked (sort_by_score xs)
unfolding sort_by_score
sort_by_score-IsRanked [] = tt
sort_by_score-IsRanked (x ∷ xs) =
    insert_by_score-IsRanked x (sort_by_score xs) (sort_by_score-IsRanked xs)
