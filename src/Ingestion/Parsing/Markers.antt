-- ===== src/Ingestion/Parsing/Markers.antt =====
-- src/ingestion/handlers.rs, `split_gutenberg_text`: the markers cannot overlap, so the slices
-- never panic.
use stage.Prelude.{
  ℕ, zero, suc, ◌+◌, ◌-◌, ◌≤◌, ◌<◌, ◌≡◌, refl, ap, sym, ◌∙◌, ◌⊎◌, Bool, true, false, not, Option,
  none, some, List, [], ◌∷◌, ◌++◌, Str, str, leb, nat_beq, if◌then◌else◌, length, take, drop, any,
  Option-cases, Bool-cases, inl, inr, arith,
}
use stage.Text.{starts_with, find, trim}
use stage.Ingestion.Parsing.{start_marker, end_marker, slice, split_at, split_gutenberg_text}

starts_with-split : (s p : Str) → starts_with s p ≡ true → (rest : Str) × (s ≡ p ++ rest)
unfolding starts_with
starts_with-split s [] h = (s, refl)
starts_with-split [] (c ∷ p) h = absurd (ground arith)
starts_with-split (a ∷ s) (c ∷ p) h =
    let (rest, e) = starts_with-split s p (ground arith) in (rest, ground (arith, e))

-- Where a text is found, it stands, and within the text.
find_sound :
    (s p : Str) (i : ℕ) → find s p ≡ some i → (starts_with (drop i s) p ≡ true) × (i ≤ length s)
unfolding find
find_sound [] p zero h = (ground (arith, h), omega arith)
find_sound [] p (suc i) h = absurd (ground (arith, h))
find_sound (a ∷ s) p zero h = (ground (arith, h), omega arith)
find_sound (a ∷ s) p (suc i) h = ground (arith, h, find_sound s p i)

-- No marker begins inside a text without a star.
no_star :
    (p rest : Str) (d : ℕ)
    → any (λ c. nat_beq c 42) p ≡ false
    → d < length p
    → starts_with (drop d (p ++ rest)) end_marker ≡ false
unfolding starts_with
no_star [] rest d h l = absurd (omega (arith, l))
no_star (c ∷ p) rest zero h l = ground (arith, h)
no_star (c ∷ p) rest (suc d) h l = no_star p rest d (ground (arith, h)) (omega (arith, l))

-- An end marker does not begin inside a start marker.
no_overlap :
    (rest : Str) (d : ℕ)
    → 0 < d
    → d < length start_marker
    → starts_with (drop d (start_marker ++ rest)) end_marker ≡ false
unfolding starts_with
no_overlap rest zero h l = absurd (omega (arith, h))
no_overlap rest (suc zero) h l = refl
no_overlap rest (suc (suc zero)) h l = refl
no_overlap rest (suc (suc (suc d))) h l =
    no_star (str " START OF THE PROJECT GUTENBERG EBOOK") rest d refl (omega (arith, l))

drop-nil : {A : Type 0} (d : ℕ) → drop {A = A} d [] ≡ []
drop-nil zero = refl
drop-nil (suc d) = refl

drop-drop : {A : Type 0} (i d k : ℕ) (xs : List A) → k ≡ i + d → drop k xs ≡ drop d (drop i xs)
drop-drop zero d k xs e = ap (λ n. drop n xs) (omega (arith, e))
drop-drop (suc i) d zero xs e = absurd (omega (arith, e))
drop-drop (suc i) d (suc k) [] e = sym (drop-nil d)
drop-drop (suc i) d (suc k) (x ∷ xs) e = drop-drop i d k xs (omega (arith, e))

-- Where the end marker is found behind the start marker, it begins behind its end.
markers_apart :
    (text : Str) (i j : ℕ)
    → find text start_marker ≡ some i
    → find text end_marker ≡ some j
    → i < j
    → i + length start_marker ≤ j
markers_apart text i j e h l = elim (Bool-cases (leb (i + length start_marker) j)) [
  | inl far ↦ ground (arith, far)
  | inr near ↦
      let (rest, q) =
        starts_with-split (drop i text) start_marker (find_sound text start_marker i e).0 in
      let there = drop-drop i (j - i) j text (omega (arith, l)) ∙ ap (drop (j - i)) q in
      let no = no_overlap rest (j - i) (omega (arith, l)) (ground (arith, near, l)) in
      let yes = (find_sound text end_marker j h).0 in
      let contradiction : true ≡ false = sym yes ∙ ap (λ t. starts_with t end_marker) there ∙ no in
      absurd (ground (arith, contradiction))
]

slice_inside :
    (text : Str) (from to : ℕ)
    → from ≤ to
    → to ≤ length text
    → slice text from to ≡ some (take (to - from) (drop from text))
unfolding slice
slice_inside text from to h k = ground (arith, h, k)

split_at_found :
    (text : Str) (i j : ℕ)
    → find text start_marker ≡ some i
    → find text end_marker ≡ some j
    → split_at text i j
      ≡ some (
          if leb j i
          then none
          else some (
            trim (take i text),
            trim (take (j - (i + length start_marker)) (drop (i + length start_marker) text)),
          ))
unfolding split_at
split_at_found text i j e h = elim (Bool-cases (leb j i)) [
  | inl behind ↦ rw behind refl
  | inr before ↦
      let l : i < j = ground (arith, before) in
      let same : i - 0 ≡ i = omega arith in
      let apart = markers_apart text i j e h l in
      rw
        (
          before,
          slice_inside text 0 i (omega arith) (find_sound text start_marker i e).1,
          slice_inside text (i + length start_marker) j apart (find_sound text end_marker j h).1,
        )
        (ap (λ n. some (some (trim (take n text), trim (take (j - (i + 40)) (drop (i + 40) text)))))
          same)
]

-- A text with a start marker and, behind it, an end marker is split there: the header is what
-- stands before the first start marker, the body what stands between the two, both trimmed.
pub split_gutenberg_text_found :
    (text : Str) (i j : ℕ)
    → find text start_marker ≡ some i
    → find text end_marker ≡ some j
    → i < j
    → split_gutenberg_text text
      ≡ some (
          some (
            trim (take i text),
            trim (take (j - (i + length start_marker)) (drop (i + length start_marker) text)),
          ))
unfolding split_gutenberg_text
split_gutenberg_text_found text i j e h l =
    let before : leb j i ≡ false = ground (arith, l) in
    rw (e, split_gutenberg_text) (rw h (split_at_found text i j e h ∙ rw before refl))

-- Whether both markers are there, the end marker's first behind the start marker's first.
abbrev pub is_marked : Str → Bool
is_marked text = elim (find text start_marker) [
  | none ↦ false
  | some i ↦ (elim (find text end_marker) [ none ↦ false | some j ↦ not (leb j i) ])
]

-- A text is split exactly if its markers are there in order.
pub split_gutenberg_text-is_marked :
    (text : Str)
    → ((is_marked text ≡ true)
        × ((header : Str) × (body : Str) × (split_gutenberg_text text
              ≡ some (some (header, body)))))
      ⊎ ((is_marked text ≡ false) × (split_gutenberg_text text ≡ some none))
unfolding split_gutenberg_text
split_gutenberg_text-is_marked text = elim (Option-cases (find text start_marker)) [
  | inl e ↦ inr (rw (e, is_marked) refl, rw (e, split_gutenberg_text) refl)
  | inr (i, e) ↦ (elim (Option-cases (find text end_marker)) [
    | inl h ↦ inr (rw (e, is_marked) (rw h refl), rw (e, split_gutenberg_text) (rw h refl))
    | inr (j, h) ↦ (elim (Bool-cases (leb j i)) [
      | inl behind ↦ inr (
        rw (e, is_marked) (rw h (rw behind refl)),
        rw (e, split_gutenberg_text) (rw h (split_at_found text i j e h ∙ rw behind refl)),
      )
      | inr before ↦ inl (
        rw (e, is_marked) (rw h (rw before refl)),
        (
          trim (take i text),
          trim (take (j - (i + length start_marker)) (drop (i + length start_marker) text)),
          rw (e, split_gutenberg_text) (rw h (split_at_found text i j e h ∙ rw before refl)),
        ),
      )
    ])
  ])
]

-- Splitting a text never panics, whichever markers it has and in whichever order.
pub split_gutenberg_text_total :
    (text : Str) → (parts : Option (Str × Str)) × (split_gutenberg_text text ≡ some parts)
split_gutenberg_text_total text = elim (split_gutenberg_text-is_marked text) [
  | inl (_, (header, body, e)) ↦ (some (header, body), e)
  | inr (_, e) ↦ (none, e)
]
