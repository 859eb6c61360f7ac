-- ===== src/Search/Tokenizer/Agreement.antt =====
-- src/search/tokenizer.rs: what the terms of documents and queries are, and that a query for a
-- document's term looks for that term.
use stage.Prelude.{
  ℕ, ◌<◌, ◌≡◌, ◌≢◌, refl, true, false, not, List, [], ◌∷◌, Str, ltb, ◌==◌, ==_iff, str_eq, any,
  keep, is_empty, All, All-of_In, In-of_All, In, Distinct, In-keep_iff, ◌↔◌, arith,
}
use stage.Text.{Unicode, Regex, len, is_lower, is_letter, is_whitespace}
use stage.Text.Edges.{trim_matches_keep, split_whitespace_word}
use stage.Search.Tokenizer.{collect_set, tokenize_text, tokenize_query}

any_iff : (w : Str) (ws : List Str) → (any (λ v. v == w) ws ≡ true) ↔ In w ws
any_iff w [] = (λ h. absurd (ground arith), λ h. elim h [ ])
any_iff w (v ∷ ws) = ground (arith, any_iff w ws, ==_iff v w)

In-collect_set_iff : (w : Str) (ws : List Str) → In w (collect_set ws) ↔ In w ws
unfolding collect_set
In-collect_set_iff w [] = (λ h. h, λ h. h)
In-collect_set_iff w (v ∷ ws) = ground (arith, In-collect_set_iff w ws, any_iff v ws)

collect_set-Distinct : (ws : List Str) → Distinct (collect_set ws)
unfolding collect_set
collect_set-Distinct [] = tt
collect_set-Distinct (v ∷ ws) =
    ground (arith, In-collect_set_iff v ws, any_iff v ws, collect_set-Distinct ws)

-- The terms of a document are the words of its text in lower case that are longer than two
-- bytes, each once.
pub tokenize_text_lem :
    (u : Unicode) (r : Regex) (text : Str)
    → Distinct (tokenize_text u r text)
      × ((w : Str)
          → In w (tokenize_text u r text)
            ↔ (In w (r.find_words (u.to_lowercase text)) × (2 < len w)))
unfolding tokenize_text
tokenize_text_lem u r text = (
  collect_set-Distinct (keep (λ word. ltb 2 (len word)) (r.find_words (u.to_lowercase text))),
  λ w. ground (
    arith,
    In-collect_set_iff w (keep (λ word. ltb 2 (len word)) (r.find_words (u.to_lowercase text))),
    In-keep_iff (λ word. ltb 2 (len word)) w (r.find_words (u.to_lowercase text)),
  ),
)

-- A term of a document consists of lower-case ASCII letters.
In-tokenize_text_lower :
    (u : Unicode) (r : Regex) (text w : Str)
    → In w (tokenize_text u r text)
    → All (λ c. is_lower c ≡ true) w
In-tokenize_text_lower u r text w i =
    let (here, long) = ((tokenize_text_lem u r text).1 w).0 i in
    let (_, letters) = r.find_words_letters (u.to_lowercase text) w here in
    All-of_In (λ c. is_lower c ≡ true) w
      (λ c j. ground (
        arith,
        In-of_All (λ c. is_letter c ≡ true) w letters c j,
        u.to_lowercase_upper text c (r.find_words_of (u.to_lowercase text) w c here j),
      ))

is_whitespace_lower : (c : ℕ) → is_lower c ≡ true → is_whitespace c ≡ false
unfolding is_whitespace
is_whitespace_lower c h = ground arith

is_empty_of : (w : Str) → w ≢ [] → is_empty w ≡ false
is_empty_of [] n = absurd (n refl)
is_empty_of (c ∷ w) n = refl

-- A query that is a term of a document is read as that term alone.
pub tokenize_query-tokenize_text :
    (u : Unicode) (r : Regex) (text w : Str)
    → In w (tokenize_text u r text)
    → tokenize_query u w ≡ w ∷ []
unfolding tokenize_query
tokenize_query-tokenize_text u r text w i =
    let lower = In-tokenize_text_lower u r text w i in
    let (here, long) = ((tokenize_text_lem u r text).1 w).0 i in
    let (filled, _) = r.find_words_letters (u.to_lowercase text) w here in
    let solid : All (λ c. is_whitespace c ≡ false) w =
      All-of_In (λ c. is_whitespace c ≡ false) w
        (λ c j. is_whitespace_lower c (In-of_All (λ c. is_lower c ≡ true) w lower c j)) in
    let bare : All (λ c. not (u.is_alphanumeric c) ≡ false) w =
      All-of_In (λ c. not (u.is_alphanumeric c) ≡ false) w
        (λ c j.
          rw (u.is_alphanumeric_lower c (In-of_All (λ c. is_lower c ≡ true) w lower c j)) refl) in
    let kept : ltb 2 (len w) ≡ true = ground (arith, long) in
    let full : is_empty w ≡ false = is_empty_of w filled in
    rw
      (
        u.to_lowercase_lower w lower,
        split_whitespace_word w filled solid,
        kept,
        trim_matches_keep (λ c. not (u.is_alphanumeric c)) w bare,
        full,
      )
      refl
