-- ===== src/Text/Edges.antt =====
-- What trimming and splitting a text leave.
use mathlib.Core.List.{append-nil, append_assoc}
use stage.Prelude.{
  ℕ, ◌≡◌, ◌≢◌, refl, ap, sym, ◌∙◌, subst, Bool, false, ◌&&◌, List, [], ◌∷◌, ◌++◌, Str, All, In,
  is_empty, inl, inr, ◌⊎◌, arith, if◌then◌else◌, Bool-cases,
}
use stage.Text.{
  is_whitespace, trim_start_matches, trim_end_matches, trim_matches, split_from, split_whitespace,
}

All-append_snoc : (P : ℕ → Type 0) (s : Str) (c : ℕ) → All P s → P c → All P (s ++ c ∷ [])
All-append_snoc P [] c h p = (p, tt)
All-append_snoc P (a ∷ s) c h p = (h.0, All-append_snoc P s c h.1 p)

-- Nothing is trimmed where nothing matches.
trim_start_matches_keep :
    (p : ℕ → Bool) (s : Str) → All (λ c. p c ≡ false) s → trim_start_matches p s ≡ s
unfolding trim_start_matches
trim_start_matches_keep p [] h = refl
trim_start_matches_keep p (c ∷ s) h = rw h.0 refl

trim_end_matches_keep :
    (p : ℕ → Bool) (s : Str) → All (λ c. p c ≡ false) s → trim_end_matches p s ≡ s
unfolding trim_end_matches
trim_end_matches_keep p [] h = refl
trim_end_matches_keep p (c ∷ s) h = ground (arith, trim_end_matches_keep p s h.1)

pub trim_matches_keep : (p : ℕ → Bool) (s : Str) → All (λ c. p c ≡ false) s → trim_matches p s ≡ s
unfolding trim_matches
trim_matches_keep p s h = rw (trim_start_matches_keep p s h) (trim_end_matches_keep p s h)

-- What has been trimmed at its end stays as it is.
pub trim_end_matches_twice :
    (p : ℕ → Bool) (s : Str) → trim_end_matches p (trim_end_matches p s) ≡ trim_end_matches p s
unfolding trim_end_matches
trim_end_matches_twice p [] = refl
trim_end_matches_twice p (c ∷ s) = elim (Bool-cases (is_empty (trim_end_matches p s) && p c)) [
  | inl e ↦ rw e refl
  | inr e ↦ rw e (rw (trim_end_matches_twice p s) (rw e refl))
]

-- A text without white space is one word.
split_from_word :
    (w s : Str)
    → w ++ s ≢ []
    → All (λ c. is_whitespace c ≡ false) s
    → split_from w s ≡ (w ++ s) ∷ []
unfolding split_from
split_from_word [] [] n h = absurd (n refl)
split_from_word (a ∷ w) [] n h = ap (λ v. v ∷ []) (sym (append-nil (a ∷ w)))
split_from_word w (c ∷ s) n h =
    let e = append_assoc w (c ∷ []) s in
    rw h.0 (split_from_word (w ++ c ∷ []) s (λ z. n (sym e ∙ z)) h.1 ∙ ap (λ v. v ∷ []) e)

pub split_whitespace_word :
    (s : Str) → s ≢ [] → All (λ c. is_whitespace c ≡ false) s → split_whitespace s ≡ s ∷ []
unfolding split_whitespace
split_whitespace_word s n h = split_from_word [] s n h

In-snoc : (w : Str) (a c : ℕ) → In c (w ++ a ∷ []) → In c w ⊎ (c ≡ a)
In-snoc [] a c (inl e) = inr e
In-snoc [] a c (inr h) = elim h [ ]
In-snoc (b ∷ w) a c (inl e) = inl (inl e)
In-snoc (b ∷ w) a c (inr h) = ground (arith, In-snoc w a c h)

In-flushed :
    (w v : Str) (rest : List Str) (c : ℕ)
    → In v (if is_empty w then rest else w ∷ rest)
    → In c v
    → In c w ⊎ In v rest
In-flushed [] v rest c i j = inr i
In-flushed (a ∷ w) v rest c (inl e) j = inl (subst (λ x. In c x) e j)
In-flushed (a ∷ w) v rest c (inr i) j = inr i

-- The characters of a word are characters of the text.
In-split_from : (w s v : Str) (c : ℕ) → In v (split_from w s) → In c v → In c w ⊎ In c s
unfolding split_from
In-split_from w [] v c i j = In-flushed w v [] c i j
In-split_from w (a ∷ s) v c i j = elim (Bool-cases (is_whitespace a)) [
  | inl e ↦ elim (In-flushed w v (split_from [] s) c (rw e at i) j) [
    | inl h ↦ inl h
    | inr h ↦ elim (In-split_from [] s v c h j) [ inl k ↦ elim k [ ] | inr k ↦ inr (inr k) ]
  ]
  | inr e ↦ elim (In-split_from (w ++ a ∷ []) s v c (rw e at i) j) [
    | inl h ↦ elim (In-snoc w a c h) [ inl k ↦ inl k | inr k ↦ inr (inl k) ]
    | inr h ↦ inr (inr h)
  ]
]

pub In-split_whitespace : (s w : Str) (c : ℕ) → In w (split_whitespace s) → In c w → In c s
unfolding split_whitespace
In-split_whitespace s w c i j = elim (In-split_from [] s w c i j) [ inl h ↦ elim h [ ] | inr h ↦ h ]
