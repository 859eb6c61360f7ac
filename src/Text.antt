-- ===== src/Text.antt =====
-- The methods of `str` and `char` that src/search, src/ingestion and ui/src/main.rs use, on texts
-- as lists of code points. Positions count characters, and no method is called with a position
-- inside one.
pub mod Edges
pub mod Digits
use stage.Prelude.{
  ℕ, zero, suc, ◌+◌, ◌*◌, ◌-◌, ◌/◌, ◌%◌, ◌≤◌, ◌^◌, ◌≡◌, ◌≢◌, Bool, true, false, not, ◌&&◌, ◌||◌,
  Option, none, some, List, [], ◌∷◌, ◌++◌, Str, ltb, leb, nat_beq, if◌then◌else◌, is_empty, All, In,
}

-- `char::is_whitespace`: the White_Space property.
unfoldable pub is_whitespace : ℕ → Bool
is_whitespace c =
    (leb 9 c && leb c 13)
    || nat_beq c 32
    || nat_beq c 133
    || nat_beq c 160
    || nat_beq c 5760
    || (leb 8192 c && leb c 8202)
    || nat_beq c 8232
    || nat_beq c 8233
    || nat_beq c 8239
    || nat_beq c 8287
    || nat_beq c 12288

abbrev pub is_lower : ℕ → Bool
is_lower c = leb 97 c && leb c 122

abbrev pub is_upper : ℕ → Bool
is_upper c = leb 65 c && leb c 90

abbrev pub is_letter : ℕ → Bool
is_letter c = is_lower c || is_upper c

-- The Unicode tables of the standard library, with what they say of the ASCII letters.
pub record Unicode : Type 0 where
  pub to_lowercase : Str → Str
  pub is_alphanumeric : ℕ → Bool
  pub to_lowercase_lower : (s : Str) → All (λ c. is_lower c ≡ true) s → to_lowercase s ≡ s
  pub to_lowercase_upper : (s : Str) (c : ℕ) → In c (to_lowercase s) → is_upper c ≡ false
  pub is_alphanumeric_lower : (c : ℕ) → is_lower c ≡ true → is_alphanumeric c ≡ true

-- The `regex` crate at the program's two patterns: all matches of `\b[a-zA-Z]+\b`, which are
-- non-empty pieces of the text that consist of ASCII letters, and the first four decimal digits.
pub record Regex : Type 0 where
  pub find_words : Str → List Str
  pub capture_year : Str → Option Str
  pub find_words_letters :
      (s w : Str) → In w (find_words s) → (w ≢ []) × All (λ c. is_letter c ≡ true) w
  pub find_words_of : (s w : Str) (c : ℕ) → In w (find_words s) → In c w → In c s

-- `char::len_utf8`, and `str::len` in bytes.
abbrev pub len_utf8 : ℕ → ℕ
len_utf8 c = if ltb c 128 then 1 else if ltb c 2048 then 2 else if ltb c 65536 then 3 else 4

unfoldable pub len : Str → ℕ
len [] = 0
len (c ∷ s) = len_utf8 c + len s

-- `trim_start_matches`, `trim_end_matches`, `trim_matches`, `trim`
unfoldable pub trim_start_matches : (ℕ → Bool) → Str → Str
trim_start_matches p [] = []
trim_start_matches p (c ∷ s) = if p c then trim_start_matches p s else c ∷ s

unfoldable pub trim_end_matches : (ℕ → Bool) → Str → Str
trim_end_matches p [] = []
trim_end_matches p (c ∷ s) = let t = trim_end_matches p s in if is_empty t && p c then [] else c ∷ t

unfoldable pub trim_matches : (ℕ → Bool) → Str → Str
unfolding trim_start_matches trim_end_matches
trim_matches p s = trim_end_matches p (trim_start_matches p s)

unfoldable pub trim : Str → Str
unfolding trim_matches is_whitespace
trim s = trim_matches is_whitespace s

-- `split_whitespace`; `word` is what has been read of the current word.
unfoldable pub split_from : Str → Str → List Str
split_from word [] = if is_empty word then [] else word ∷ []
split_from word (c ∷ s) =
    let rest = split_from [] s in
    let longer = split_from (word ++ c ∷ []) s in
    if is_whitespace c then (if is_empty word then rest else word ∷ rest) else longer

unfoldable pub split_whitespace : Str → List Str
unfolding split_from is_whitespace
split_whitespace s = split_from [] s

unfoldable pub starts_with : Str → Str → Bool
starts_with s [] = true
starts_with [] (c ∷ p) = false
starts_with (a ∷ s) (c ∷ p) = nat_beq a c && starts_with s p

-- `find`: where the first occurrence begins.
unfoldable pub find : Str → Str → Option ℕ
unfolding starts_with
find [] p = if starts_with [] p then some 0 else none
find (a ∷ s) p =
    let later = find s p in
    if starts_with (a ∷ s) p then some 0 else elim later [ none ↦ none | some i ↦ some (suc i) ]

-- A line without the `\r` before its `\n`.
unfoldable pub strip_return : Str → Str
strip_return [] = []
strip_return (c ∷ []) = if nat_beq c 13 then [] else c ∷ []
strip_return (c ∷ d ∷ s) = c ∷ strip_return (d ∷ s)

-- `lines`; `line` is what has been read of the current line.
unfoldable pub lines_from : Str → Str → List Str
unfolding strip_return
lines_from line [] = if is_empty line then [] else line ∷ []
lines_from line (c ∷ s) =
    let rest = lines_from [] s in
    let longer = lines_from (line ++ c ∷ []) s in
    if nat_beq c 10 then strip_return line ∷ rest else longer

unfoldable pub lines : Str → List Str
unfolding lines_from
lines s = lines_from [] s

-- The digits of a number below `limit`.
unfoldable pub parse_digits : ℕ → ℕ → Str → Option ℕ
parse_digits limit n [] = some n
parse_digits limit n (c ∷ s) =
    let m = n * 10 + (c - 48) in
    let rest = parse_digits limit m s in if leb 48 c && leb c 57 && ltb m limit then rest else none

abbrev pub parse_some : ℕ → Str → Option ℕ
parse_some limit [] = none
parse_some limit (c ∷ s) = parse_digits limit 0 (c ∷ s)

-- `parse` of an unsigned type: an optional plus sign and digits, below `limit`.
unfoldable pub parse_unsigned : ℕ → Str → Option ℕ
unfolding parse_digits
parse_unsigned limit [] = none
parse_unsigned limit (c ∷ s) = if nat_beq c 43 then parse_some limit s else parse_some limit (c ∷ s)

-- `parse::<u32>`, `parse::<usize>`
abbrev pub parse_u32 : Str → Option ℕ
parse_u32 = parse_unsigned (2 ^ 32)

abbrev pub parse_usize : Str → Option ℕ
parse_usize = parse_unsigned (2 ^ 64)

-- `Display` of an unsigned number: its decimal digits, at most `fuel`. A usize has twenty at most.
unfoldable pub digits : ℕ → ℕ → Str
digits zero n = []
digits (suc fuel) n =
    let rest = digits fuel (n / 10) in
    if ltb n 10 then (48 + n) ∷ [] else rest ++ (48 + n % 10) ∷ []
