-- ===== src/Storage/Sort.antt =====
-- `sort_by(|a, b| a.0.cmp(&b.0))` of src/storage/partitioner.rs: a stable sort of node ids in the
-- byte order. A list without repetitions has one sorted form, whatever its order was.
use stage.Prelude.{
  suc, ◌≡◌, refl, ap₂, sym, ◌∙◌, subst, true, List, [], ◌∷◌, Str, str_leb, str_leb-total,
  str_leb_antisymm, str_leb_trans, length, All, In, Distinct, ◌↔◌, ◌⊎◌, inl, inr, if◌then◌else◌,
  if_cases, arith,
}

unfoldable pub insert_by : Str → List Str → List Str
insert_by x [] = x ∷ []
insert_by x (y ∷ ys) = if str_leb x y then x ∷ y ∷ ys else y ∷ insert_by x ys

unfoldable pub sort_ids : List Str → List Str
unfolding insert_by
sort_ids [] = []
sort_ids (x ∷ xs) = insert_by x (sort_ids xs)

abbrev pub IsSorted : List Str → Type 0
IsSorted [] = Unit
IsSorted (x ∷ xs) = All (λ y. str_leb x y ≡ true) xs × IsSorted xs

In-insert_by-to : (a x : Str) (ys : List Str) → In a (insert_by x ys) → (a ≡ x) ⊎ In a ys
unfolding insert_by
In-insert_by-to a x [] h = h
In-insert_by-to a x (y ∷ ys) h = ground (arith, In-insert_by-to a x ys)

In-insert_by-from : (a x : Str) (ys : List Str) → (a ≡ x) ⊎ In a ys → In a (insert_by x ys)
unfolding insert_by
In-insert_by-from a x [] h = h
In-insert_by-from a x (y ∷ ys) h = ground (arith, In-insert_by-from a x ys)

In-sort-to : (a : Str) (xs : List Str) → In a (sort_ids xs) → In a xs
unfolding sort_ids
In-sort-to a [] h = h
In-sort-to a (x ∷ xs) h = ground (arith, In-insert_by-to a x (sort_ids xs) h, In-sort-to a xs)

In-sort-from : (a : Str) (xs : List Str) → In a xs → In a (sort_ids xs)
unfolding sort_ids
In-sort-from a [] h = h
In-sort-from a (x ∷ xs) h = In-insert_by-from a x (sort_ids xs) (ground (arith, In-sort-from a xs))

pub In-sort_ids_iff : (a : Str) (xs : List Str) → In a (sort_ids xs) ↔ In a xs
In-sort_ids_iff a xs = (In-sort-to a xs, In-sort-from a xs)

All-insert_by :
    (z x : Str) (ys : List Str)
    → str_leb z x ≡ true
    → All (λ y. str_leb z y ≡ true) ys
    → All (λ y. str_leb z y ≡ true) (insert_by x ys)
unfolding insert_by
All-insert_by z x [] h a = (h, tt)
All-insert_by z x (y ∷ ys) h a = ground (arith, All-insert_by z x ys h a.1)

All-leb :
    (x y : Str) (ys : List Str)
    → str_leb x y ≡ true
    → All (λ z. str_leb y z ≡ true) ys
    → All (λ z. str_leb x z ≡ true) ys
All-leb x y [] h a = tt
All-leb x y (z ∷ zs) h a = (str_leb_trans x y z h a.0, All-leb x y zs h a.1)

insert_by-IsSorted : (x : Str) (ys : List Str) → IsSorted ys → IsSorted (insert_by x ys)
unfolding insert_by
insert_by-IsSorted x [] s = (tt, tt)
insert_by-IsSorted x (y ∷ ys) s =
    if_cases IsSorted (str_leb x y) (λ h. ((h, All-leb x y ys h s.0), s))
      (λ h.
        (All-insert_by y x ys (ground (arith, str_leb-total x y)) s.0, insert_by-IsSorted x ys s.1))

pub sort_ids-IsSorted : (xs : List Str) → IsSorted (sort_ids xs)
unfolding sort_ids
sort_ids-IsSorted [] = tt
sort_ids-IsSorted (x ∷ xs) = insert_by-IsSorted x (sort_ids xs) (sort_ids-IsSorted xs)

insert_by-Distinct : (x : Str) (ys : List Str) → ¬ In x ys → Distinct ys → Distinct (insert_by x ys)
unfolding insert_by
insert_by-Distinct x [] n d = (n, tt)
insert_by-Distinct x (y ∷ ys) n d =
    if_cases Distinct (str_leb x y) (λ h. (n, d))
      (λ h. (
        λ i. ground (arith, In-insert_by-to y x ys i),
        insert_by-Distinct x ys (λ i. n (inr i)) d.1,
      ))

pub sort_ids-Distinct : (xs : List Str) → Distinct xs → Distinct (sort_ids xs)
unfolding sort_ids
sort_ids-Distinct [] d = tt
sort_ids-Distinct (x ∷ xs) d =
    insert_by-Distinct x (sort_ids xs) (λ i. d.0 (In-sort-to x xs i)) (sort_ids-Distinct xs d.1)

length-insert_by : (x : Str) (ys : List Str) → length (insert_by x ys) ≡ suc (length ys)
unfolding insert_by
length-insert_by x [] = refl
length-insert_by x (y ∷ ys) = ground (arith, length-insert_by x ys)

pub length-sort_ids : (xs : List Str) → length (sort_ids xs) ≡ length xs
unfolding sort_ids
length-sort_ids [] = refl
length-sort_ids (x ∷ xs) = omega (arith, length-insert_by x (sort_ids xs), length-sort_ids xs)

All-In :
    (x z : Str) (xs : List Str) → All (λ y. str_leb x y ≡ true) xs → In z xs → str_leb x z ≡ true
All-In x z [] a h = elim h [ ]
All-In x z (y ∷ ys) a (inl e) = rw e a.0
All-In x z (y ∷ ys) a (inr h) = All-In x z ys a.1 h

abbrev pub SameMembers : List Str → List Str → Type 0
SameMembers xs ys = (a : Str) → In a xs ↔ In a ys

heads_agree :
    (x y : Str) (xs ys : List Str)
    → IsSorted (x ∷ xs)
    → IsSorted (y ∷ ys)
    → In x (y ∷ ys)
    → In y (x ∷ xs)
    → x ≡ y
heads_agree x y xs ys s t (inl e) j = e
heads_agree x y xs ys s t (inr i) (inl e) = sym e
heads_agree x y xs ys s t (inr i) (inr j) =
    str_leb_antisymm x y (All-In x y xs s.0 j) (All-In y x ys t.0 i)

tails_agree :
    (x y a : Str) (xs ys : List Str) → x ≡ y → ¬ In x xs → In a (y ∷ ys) → In a xs → In a ys
tails_agree x y a xs ys e d (inl p) i = absurd (d (subst (λ z. In z xs) (p ∙ sym e) i))
tails_agree x y a xs ys e d (inr j) i = j

-- Sorted lists without repetitions and with the same members are equal.
IsSorted-unique :
    (xs ys : List Str)
    → IsSorted xs
    → IsSorted ys
    → Distinct xs
    → Distinct ys
    → SameMembers xs ys
    → xs ≡ ys
IsSorted-unique [] [] s t d e m = refl
IsSorted-unique [] (y ∷ ys) s t d e m = absurd ((m y).1 (inl refl))
IsSorted-unique (x ∷ xs) [] s t d e m = absurd ((m x).0 (inl refl))
IsSorted-unique (x ∷ xs) (y ∷ ys) s t d e m =
    let h : x ≡ y = heads_agree x y xs ys s t ((m x).0 (inl refl)) ((m y).1 (inl refl)) in
    ap₂ ◌∷◌ h (
      IsSorted-unique xs ys s.1 t.1 d.1 e.1 λ a. (
        λ i. tails_agree x y a xs ys h d.0 ((m a).0 (inr i)) i,
        λ i. tails_agree y x a ys xs (sym h) e.0 ((m a).1 (inr i)) i,
      ))

pub sort_ids_agree :
    (xs ys : List Str) → Distinct xs → Distinct ys → SameMembers xs ys → sort_ids xs ≡ sort_ids ys
sort_ids_agree xs ys d e m =
    IsSorted-unique (sort_ids xs) (sort_ids ys) (sort_ids-IsSorted xs) (sort_ids-IsSorted ys)
      (sort_ids-Distinct xs d) (sort_ids-Distinct ys e)
      λ a. (
        λ h. In-sort-from a ys ((m a).0 (In-sort-to a xs h)),
        λ h. In-sort-from a xs ((m a).1 (In-sort-to a ys h)),
      )
