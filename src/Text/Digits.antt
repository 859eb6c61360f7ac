-- ===== src/Text/Digits.antt =====
-- Decimal digits, as src/storage/memory.rs, src/executor/queue.rs and ui/src/main.rs write them in
-- URLs and as a server reads them.
use native.Mathlib.Nat.{pow-suc}
use stage.Prelude.{
  ℕ, zero, suc, ◌+◌, ◌-◌, ◌*◌, ◌/◌, ◌%◌, ◌^◌, ◌<◌, ◌≤◌, ◌≡◌, ◌≢◌, refl, ◌∙◌, Bool, true, ◌&&◌, some,
  [], ◌∷◌, ◌++◌, Str, ltb, leb, All, Bool-cases, inl, inr, arith,
}
use stage.Text.{digits, parse_digits, parse_unsigned}

-- The number that digits stand for.
abbrev pub number : ℕ → Str → ℕ
number n [] = n
number n (c ∷ s) = number (n * 10 + (c - 48)) s

number_snoc : (n : ℕ) (s : Str) (c : ℕ) → number n (s ++ c ∷ []) ≡ number n s * 10 + (c - 48)
number_snoc n [] c = refl
number_snoc n (d ∷ s) c = number_snoc (n * 10 + (d - 48)) s c

-- Digits that are enough for a number stand for it; twenty are enough for a usize.
pub digits_enough : (fuel n : ℕ) → n < 10 ^ fuel → number 0 (digits fuel n) ≡ n
unfolding digits
digits_enough zero n h = omega (arith, h)
digits_enough (suc fuel) n h = elim (Bool-cases (ltb n 10)) [
  | inl e ↦ let small : n < 10 = ground (arith, e) in rw e (omega (arith, small))
  | inr e ↦
      let tenth : n / 10 < 10 ^ fuel = omega (arith, h, pow-suc 10 fuel) in
      rw e (
        number_snoc 0 (digits fuel (n / 10)) (48 + n % 10)
        ∙ rw (digits_enough fuel (n / 10) tenth) (omega arith))
]

abbrev pub is_digit : ℕ → Bool
is_digit c = leb 48 c && leb c 57

All-snoc_digit :
    (s : Str) (c : ℕ)
    → All (λ c. is_digit c ≡ true) s
    → is_digit c ≡ true
    → All (λ c. is_digit c ≡ true) (s ++ c ∷ [])
All-snoc_digit [] c h e = (e, tt)
All-snoc_digit (d ∷ s) c (h, hs) e = (h, All-snoc_digit s c hs e)

pub digits-All : (fuel n : ℕ) → All (λ c. is_digit c ≡ true) (digits fuel n)
unfolding digits
digits-All zero n = tt
digits-All (suc fuel) n = elim (Bool-cases (ltb n 10)) [
  | inl e ↦ let small : n < 10 = ground (arith, e) in rw e (ground arith, tt)
  | inr e ↦ rw e (
      All-snoc_digit (digits fuel (n / 10)) (48 + n % 10) (digits-All fuel (n / 10)) (ground arith))
]

snoc_ne-nil : (s : Str) (c : ℕ) → s ++ c ∷ [] ≢ []
snoc_ne-nil [] c h = ground arith
snoc_ne-nil (d ∷ s) c h = ground arith

pub digits-ne-nil : (fuel n : ℕ) → digits (suc fuel) n ≢ []
unfolding digits
digits-ne-nil fuel n = elim (Bool-cases (ltb n 10)) [
  | inl e ↦ rw e (λ h. ground arith)
  | inr e ↦ rw e (snoc_ne-nil (digits fuel (n / 10)) (48 + n % 10))
]

number_grows : (n : ℕ) (s : Str) → n ≤ number n s
number_grows n [] = omega arith
number_grows n (c ∷ s) = omega (arith, number_grows (n * 10 + (c - 48)) s)

parse_digits-number :
    (limit n : ℕ) (s : Str)
    → All (λ c. is_digit c ≡ true) s
    → number n s < limit
    → parse_digits limit n s ≡ some (number n s)
unfolding parse_digits
parse_digits-number limit n [] h b = refl
parse_digits-number limit n (c ∷ s) (d, h) b =
    let m = n * 10 + (c - 48) in ground (arith, number_grows m s, parse_digits-number limit m s h b)

parse_unsigned-number :
    (limit : ℕ) (s : Str)
    → s ≢ []
    → All (λ c. is_digit c ≡ true) s
    → number 0 s < limit
    → parse_unsigned limit s ≡ some (number 0 s)
unfolding parse_unsigned
parse_unsigned-number limit [] n h b = absurd (n refl)
parse_unsigned-number limit (c ∷ s) n h b = ground (arith, parse_digits-number limit 0 (c ∷ s) h b)

-- An unsigned number is read back from its digits.
pub parse_unsigned-digits :
    (limit n : ℕ) → limit ≤ 10 ^ 20 → n < limit → parse_unsigned limit (digits 20 n) ≡ some n
parse_unsigned-digits limit n small h =
    let same = digits_enough 20 n (omega (arith, small, h)) in
    parse_unsigned-number limit (digits 20 n) (digits-ne-nil 19 n) (digits-All 20 n) (rw same h)
    ∙ rw same
