-- ===== src/Assoc.antt =====
-- Association lists without repeated keys meet the laws of the interface.
use stage.Prelude.{
  ◌+◌, ◌≡◌, refl, ap, Option, none, some, List, [], ◌∷◌, map, length, Eq, ◌==◌, ==_iff, Bool-cases,
  In-map, if◌then◌else◌, In, Distinct, ◌↔◌, ◌⊎◌, inl, inr, arith,
}
use mathlib.Core.Option
use stage.DashMap.{DashMap}

module _ {K V : Type 0} where
  abbrev pub keys : List (K × V) → List K
  keys l = map (λ entry. entry.0) l

  abbrev pub map_values : (V → V) → List (K × V) → List (K × V)
  map_values f [] = []
  map_values f ((k, v) ∷ l) = (k, f v) ∷ map_values f l

  pub keys-map_values : (f : V → V) (l : List (K × V)) → keys (map_values f l) ≡ keys l
  keys-map_values f [] = refl
  keys-map_values f ((k, v) ∷ l) = ap (◌∷◌ k) (keys-map_values f l)

module _ {K V : Type 0} ⦃e : Eq K⦄ where
  abbrev pub lookup : K → List (K × V) → Option V
  lookup k [] = none
  lookup k ((j, v) ∷ l) = if j == k then some v else lookup k l

  abbrev pub put : K → V → List (K × V) → List (K × V)
  put k v [] = (k, v) ∷ []
  put k v ((j, w) ∷ l) = if j == k then (k, v) ∷ l else (j, w) ∷ put k v l

  pub lookup-put :
      (k : K) (v : V) (j : K) (l : List (K × V))
      → lookup j (put k v l) ≡ (if k == j then some v else lookup j l)
  lookup-put k v j [] = refl
  lookup-put k v j ((i, w) ∷ l) =
      ground (arith, ==_iff k j, ==_iff i k, ==_iff i j, lookup-put k v j l)

  pub lookup-map_values :
      (f : V → V) (k : K) (l : List (K × V)) → lookup k (map_values f l) ≡ Option.map f (lookup k l)
  lookup-map_values f k [] = refl
  lookup-map_values f k ((j, v) ∷ l) = ground (arith, lookup-map_values f k l)

  pub length-put :
      (k : K) (v : V) (l : List (K × V))
      → length (put k v l) ≡ (elim (lookup k l) [ none ↦ length l + 1 | some _ ↦ length l ])
  length-put k v [] = omega arith
  length-put k v ((j, w) ∷ l) = ground (arith, length-put k v l)

  pub In-keys-put :
      (i k : K) (v : V) (l : List (K × V)) → In i (keys (put k v l)) → (i ≡ k) ⊎ In i (keys l)
  In-keys-put i k v [] h = h
  In-keys-put i k v ((j, w) ∷ l) h = ground (arith, In-keys-put i k v l)

  pub put-Distinct :
      (k : K) (v : V) (l : List (K × V)) → Distinct (keys l) → Distinct (keys (put k v l))
  put-Distinct k v [] d = (λ h. h, tt)
  put-Distinct k v ((j, w) ∷ l) d = elim (Bool-cases (j == k)) [
    | inl e ↦ rw e (rw (← (==_iff j k).0 e) d)
    | inr e ↦ rw e (λ h. ground (arith, In-keys-put j k v l h, ==_iff j k), put-Distinct k v l d.1)
  ]

  lookup_sound : (k : K) (v : V) (l : List (K × V)) → lookup k l ≡ some v → In (k, v) l
  lookup_sound k v [] h = absurd (ground arith)
  lookup_sound k v ((j, w) ∷ l) h = ground (arith, ==_iff j k, lookup_sound k v l)

  lookup_complete :
      (k : K) (v : V) (l : List (K × V)) → Distinct (keys l) → In (k, v) l → lookup k l ≡ some v
  lookup_complete k v [] d h = elim h [ ]
  lookup_complete k v ((j, w) ∷ l) d h =
      ground (arith, ==_iff j k, lookup_complete k v l d.1, In-map (λ (e : K × V). e.0) (k, v) l)

  pub In-lookup_iff :
      (k : K) (v : V) (l : List (K × V)) → Distinct (keys l) → In (k, v) l ↔ (lookup k l ≡ some v)
  In-lookup_iff k v l d = (lookup_complete k v l d, lookup_sound k v l)

-- The keys of a list are distinct, so a lookup sees every entry.
abbrev Map : Type 0 → Type 0 → Type 0
Map K V = (l : List (K × V)) × Distinct (keys l)

abbrev update : {K V : Type 0} → (V → V) → Map K V → Map K V
update f m = (map_values f m.0, rw keys-map_values m.1)

abbrev pub assoc : DashMap
assoc = record {
  Map = Map;
  empty = ([], tt);
  get = λ m k. lookup k m.0;
  insert = λ m k v. (put k v m.0, put-Distinct k v m.0 m.1);
  update = update;
  entries = λ m. m.0;
  entries-empty = refl;
  get-insert = λ m k v j. lookup-put k v j m.0;
  get-update = λ f m k. lookup-map_values f k m.0;
  In-entries = λ m k v. In-lookup_iff k v m.0 m.1;
  keys-Distinct = λ m. m.1;
  length-entries-insert = λ m k v. length-put k v m.0;
}
