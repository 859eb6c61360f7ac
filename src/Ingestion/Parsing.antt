-- ===== src/Ingestion/Parsing.antt =====
-- src/ingestion/handlers.rs: what is read off the text of a book.
pub mod Markers
use stage.Prelude.{
  ℕ, ◌+◌, ◌-◌, Bool, not, ◌&&◌, Option, none, some, List, [], ◌∷◌, ◌++◌, map, Str, str, leb,
  if◌then◌else◌, length, is_empty, take, drop,
}
use stage.Text.{Unicode, Regex, trim, starts_with, find, lines, parse_unsigned, parse_u32}
use stage.Search.Types.{BookMetadata}
use stage.Search.Tokenizer.{collect_set}

abbrev pub start_marker : Str
start_marker = str "*** START OF THE PROJECT GUTENBERG EBOOK"

abbrev pub end_marker : Str
end_marker = str "*** END OF THE PROJECT GUTENBERG EBOOK"

-- `&text[from..to]`, which panics outside the text.
unfoldable pub slice : Str → ℕ → ℕ → Option Str
slice text from to =
    if leb from to && leb to (length text) then some (take (to - from) (drop from text)) else none

-- The end of `split_gutenberg_text`, from the positions of the markers; `none` is a panic.
unfoldable pub split_at : Str → ℕ → ℕ → Option (Option (Str × Str))
unfolding slice trim
split_at text start_idx end_idx =
    if leb end_idx start_idx then some none else elim (slice text 0 start_idx) [
      | none ↦ none
      | some header ↦ (elim (slice text (start_idx + length start_marker) end_idx) [
        | none ↦ none
        | some body ↦ some (some (trim header, trim body))
      ])
    ]

-- `split_gutenberg_text`; the outer `none` is a panic.
unfoldable pub split_gutenberg_text : Str → Option (Option (Str × Str))
unfolding split_at find
split_gutenberg_text text = elim (find text start_marker) [
  | none ↦ some none
  | some start_idx ↦ (elim (find text end_marker) [
    | none ↦ some none
    | some end_idx ↦ split_at text start_idx end_idx
  ])
]

-- `find_map` over the lines: the first that begins with the label.
unfoldable pub find_field : List Str → Str → Option Str
unfolding starts_with trim
find_field [] label = none
find_field (line ∷ rest) label =
    let later = find_field rest label in
    if starts_with line label then some (trim (drop (length label) line)) else later

-- `filter(|value| !value.is_empty())`
abbrev pub non_empty : Option Str → Option Str
non_empty none = none
non_empty (some value) = if is_empty value then none else some value

unfoldable pub extract_header_field : Str → Str → Option Str
unfolding find_field lines
extract_header_field header label = non_empty (find_field (lines header) label)

unfoldable pub extract_year : Regex → Option Str → Option ℕ
unfolding parse_unsigned
extract_year r none = none
extract_year r (some text) = elim (r.capture_year text) [ none ↦ none | some y ↦ parse_u32 y ]

-- `unwrap_or_else`
abbrev pub value_or : Option Str → Str → Str
value_or none d = d
value_or (some v) d = v

unfoldable pub parse_metadata : Regex → Str → Str → ℕ → ℕ → BookMetadata
unfolding extract_header_field extract_year
parse_metadata r header book_id word_count unique_words = record {
  book_id = book_id;
  title = value_or (extract_header_field header (str "Title:")) (str "Book " ++ book_id);
  author = value_or (extract_header_field header (str "Author:")) (str "Unknown");
  language = value_or (extract_header_field header (str "Language:")) (str "unknown");
  year = extract_year r (extract_header_field header (str "Release Date:"));
  word_count = word_count;
  unique_words = unique_words;
}

-- The totals stay below the length of the text, and so in a usize.
unfoldable pub compute_counts : Unicode → Regex → Str → ℕ × ℕ
unfolding collect_set
compute_counts u r body =
    let words = r.find_words body in (length words, length (collect_set (map u.to_lowercase words)))
