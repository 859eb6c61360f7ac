-- ===== src/Prelude/Keys.antt =====
-- Keys: types with the Boolean equality that `derive(PartialEq, Eq)` gives, and text as the code
-- points of its characters, whose order is that of the UTF-8 bytes that Rust's `str` compares by.
use Prim.Native.Nat.{ℕ}
use Prim.Native.Char.{code}
use Prim.Native.String.{String}
use mathlib.Core.Bool.{Bool, true, false, ◌&&◌}
use mathlib.Core.List.{List, [], ◌∷◌}
use mathlib.Core.Logic.{◌↔◌, ◌⊎◌}
use mathlib.Core.Path.{◌≡◌, refl}
use native.Mathlib.Omega.{arith}
use stage.Prelude.Tests.{ltb, nat_beq, if◌then◌else◌}

-- `Eq` of the standard library: a decidable test for the same value.
pub record Eq {ℓ} (A : Type ℓ) : Type ℓ where
  pub same : A → A → Bool
  pub same_iff : (x y : A) → (same x y ≡ true) ↔ (x ≡ y)

infix 50 ◌==◌
abbrev pub ◌==◌ {ℓ} : {A : Type ℓ} ⦃key : Eq A⦄ → A → A → Bool
◌==◌ ⦃key⦄ x y = key.same x y

module _ {ℓ} {A : Type ℓ} ⦃key : Eq A⦄ where
  pub ==_iff : (x y : A) → (x == y ≡ true) ↔ (x ≡ y)
  ==_iff x y = key.same_iff x y

  pub ==_refl : (x : A) → (x == x) ≡ true
  ==_refl x = (==_iff x x).1 refl

pub nat_beq_iff : (a b : ℕ) → (nat_beq a b ≡ true) ↔ (a ≡ b)
nat_beq_iff a b = (λ h. ground arith, λ h. ground arith)

instance abbrev pub nat_eq : Eq ℕ
nat_eq = record { same = nat_beq; same_iff = nat_beq_iff }

-- A text, or a buffer of bytes.
abbrev pub Str : Type 0
Str = List ℕ

abbrev pub str : String → Str
str String.[] = []
str (String.◌∷◌ c s) = code c ∷ str s

abbrev pub str_beq : Str → Str → Bool
str_beq [] [] = true
str_beq [] (b ∷ t) = false
str_beq (a ∷ s) [] = false
str_beq (a ∷ s) (b ∷ t) = nat_beq a b && str_beq s t

str_beq_sound : (s t : Str) → str_beq s t ≡ true → s ≡ t
str_beq_sound [] [] h = refl
str_beq_sound [] (b ∷ t) h = ground arith
str_beq_sound (a ∷ s) [] h = ground arith
str_beq_sound (a ∷ s) (b ∷ t) h = ground (arith, str_beq_sound s t)

str_beq_refl : (s : Str) → str_beq s s ≡ true
str_beq_refl [] = refl
str_beq_refl (a ∷ s) = ground (arith, str_beq_refl s)

pub str_beq_iff : (s t : Str) → (str_beq s t ≡ true) ↔ (s ≡ t)
str_beq_iff s t = (str_beq_sound s t, λ e. rw e (str_beq_refl t))

instance abbrev pub str_eq : Eq Str
str_eq = record { same = str_beq; same_iff = str_beq_iff }

-- `a <= b` in the order of texts: a proper prefix comes first.
abbrev pub str_leb : Str → Str → Bool
str_leb [] t = true
str_leb (a ∷ s) [] = false
str_leb (a ∷ s) (b ∷ t) = if ltb a b then true else (nat_beq a b && str_leb s t)

pub str_leb-total : (s t : Str) → (str_leb s t ≡ true) ⊎ (str_leb t s ≡ true)
str_leb-total [] t = ground arith
str_leb-total (a ∷ s) [] = ground arith
str_leb-total (a ∷ s) (b ∷ t) = ground (arith, str_leb-total s t)

pub str_leb_antisymm : (s t : Str) → str_leb s t ≡ true → str_leb t s ≡ true → s ≡ t
str_leb_antisymm [] [] h k = refl
str_leb_antisymm [] (b ∷ t) h k = ground arith
str_leb_antisymm (a ∷ s) [] h k = ground arith
str_leb_antisymm (a ∷ s) (b ∷ t) h k = ground (arith, str_leb_antisymm s t)

pub str_leb_trans : (s t u : Str) → str_leb s t ≡ true → str_leb t u ≡ true → str_leb s u ≡ true
str_leb_trans [] t u h k = refl
str_leb_trans (a ∷ s) [] u h k = ground arith
str_leb_trans (a ∷ s) (b ∷ t) [] h k = ground arith
str_leb_trans (a ∷ s) (b ∷ t) (c ∷ u) h k = ground (arith, str_leb_trans s t u)
