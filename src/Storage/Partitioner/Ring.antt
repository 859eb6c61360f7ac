-- ===== src/Storage/Partitioner/Ring.antt =====
-- src/storage/partitioner.rs, the walk round the ring of sorted ids: its length, its members and
-- that it meets no node twice.
use stage.Prelude.{
  ℕ, zero, suc, ◌+◌, ◌-◌, ◌%◌, ◌≤◌, ◌<◌, ◌≡◌, ◌≢◌, refl, sym, ap, subst, ◌∙◌, some, List, [], ◌∷◌,
  length, get_elem?, In, Distinct, ◌⊎◌, inl, inr, arith,
}
use stage.Membership.Types.{NodeId}
use stage.Storage.Partitioner.{ring}

get_elem?_of_lt :
    (ids : List NodeId) (i : ℕ)
    → i < length ids
    → (id : NodeId) × (get_elem? ids i ≡ some id) × In id ids
get_elem?_of_lt [] i h = absurd (omega arith)
get_elem?_of_lt (x ∷ xs) zero h = (x, refl, inl refl)
get_elem?_of_lt (x ∷ xs) (suc i) h =
    let (id, e, j) = get_elem?_of_lt xs i (omega arith) in (id, e, inr j)

pub get_elem?-In : (ids : List NodeId) (i : ℕ) {id : NodeId} → get_elem? ids i ≡ some id → In id ids
get_elem?-In [] i h = absurd (ground arith)
get_elem?-In (x ∷ xs) zero h = inl (ground arith)
get_elem?-In (x ∷ xs) (suc i) h = inr (get_elem?-In xs i h)

-- In a list without repetitions a node stands at one position.
get_elem?-injective :
    (ids : List NodeId) (i j : ℕ) (id : NodeId)
    → Distinct ids
    → get_elem? ids i ≡ some id
    → get_elem? ids j ≡ some id
    → i ≡ j
get_elem?-injective [] i j id d p q = absurd (ground arith)
get_elem?-injective (x ∷ xs) zero zero id d p q = refl
get_elem?-injective (x ∷ xs) zero (suc j) id d p q =
    absurd (ground (arith, d.0, get_elem?-In xs j q))
get_elem?-injective (x ∷ xs) (suc i) zero id d p q =
    absurd (ground (arith, d.0, get_elem?-In xs i p))
get_elem?-injective (x ∷ xs) (suc i) (suc j) id d p q =
    ap suc (get_elem?-injective xs i j id d.1 p q)

-- Numbers less than `n` apart have different remainders.
mod-apart : (n x d : ℕ) → 0 < d → d < n → x % n ≢ (x + d) % n
mod-apart n x d pos small e = grind arith

module _ (ids : List NodeId) (start : ℕ) (nonempty : 0 < length ids) where
  index-lt : (offset : ℕ) → (start + offset) % length ids < length ids
  index-lt offset = grind arith

  pub length-ring : (offset k : ℕ) → length (ring ids start offset k) ≡ k
  unfolding ring
  length-ring offset zero = refl
  length-ring offset (suc k) =
      let (id, e, _) = get_elem?_of_lt ids ((start + offset) % length ids) (index-lt offset) in
      rw e (omega (arith, length-ring (offset + 1) k))

  -- A node of the ring stands at one of its offsets.
  pub In-ring :
      (offset k : ℕ) (id : NodeId)
      → In id (ring ids start offset k)
      → (o : ℕ) × (offset ≤ o)
        × (o < offset + k)
        × (get_elem? ids ((start + o) % length ids) ≡ some id)
  unfolding ring
  In-ring offset zero id h = elim h [ ]
  In-ring offset (suc k) id h =
      let (x, e, _) = get_elem?_of_lt ids ((start + offset) % length ids) (index-lt offset) in
      let h' : (id ≡ x) ⊎ In id (ring ids start (offset + 1) k) = rw e at h in
      elim h' [
        | inl p ↦ (offset, omega arith, omega arith, e ∙ ap some (sym p))
        | inr i ↦ let (o, a, b, q) = In-ring (offset + 1) k id i in (o, omega arith, omega arith, q)
      ]

  pub ring-Distinct :
      (offset k : ℕ) → Distinct ids → k ≤ length ids → Distinct (ring ids start offset k)
  unfolding ring
  ring-Distinct offset zero d h = tt
  ring-Distinct offset (suc k) d h =
      let (x, e, _) = get_elem?_of_lt ids ((start + offset) % length ids) (index-lt offset) in
      rw e (
        λ i.
            let (o, a, b, q) = In-ring (offset + 1) k x i in
            mod-apart (length ids) (start + offset) (o - offset) (omega arith) (omega arith) (
              get_elem?-injective ids _ _ x d e
                (subst (λ (t : ℕ). get_elem? ids (t % length ids) ≡ some x) (omega arith) q)),
        ring-Distinct (offset + 1) k d (omega arith),
      )
