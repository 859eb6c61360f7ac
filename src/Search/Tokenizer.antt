-- ===== src/Search/Tokenizer.antt =====
-- src/search/tokenizer.rs: the terms of a document and of a query.
pub mod Agreement
use stage.Prelude.{
  ℕ, Bool, not, List, [], ◌∷◌, map, Str, ltb, ◌==◌, str_eq, any, if◌then◌else◌, keep, is_empty,
}
use stage.Text.{Unicode, Regex, len, trim_matches, split_whitespace}

-- `collect` into a HashSet, here in the order of insertion.
unfoldable pub collect_set : List Str → List Str
collect_set [] = []
collect_set (w ∷ ws) = let rest = collect_set ws in if any (λ v. v == w) ws then rest else w ∷ rest

unfoldable pub tokenize_text : Unicode → Regex → Str → List Str
unfolding collect_set len
tokenize_text u r text =
    collect_set (keep (λ word. ltb 2 (len word)) (r.find_words (u.to_lowercase text)))

unfoldable pub tokenize_query : Unicode → Str → List Str
unfolding len trim_matches split_whitespace
tokenize_query u query =
    keep (λ word. not (is_empty word))
      (map (trim_matches (λ c. not (u.is_alphanumeric c)))
        (keep (λ word. ltb 2 (len word)) (split_whitespace (u.to_lowercase query))))
