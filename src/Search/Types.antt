-- ===== src/Search/Types.antt =====
-- src/search/types.rs: the metadata of a book and the payloads of the search endpoints. The
-- response's `filters` is always empty.
use stage.Prelude.{ℕ, Option, List, Str}

pub record BookMetadata : Type 0 where
  pub book_id : Str
  pub title : Str
  pub author : Str
  pub language : Str
  pub year : Option ℕ
  pub word_count : ℕ
  pub unique_words : ℕ

pub record SearchResultItem : Type 0 where
  pub book_id : Str
  pub title : Str
  pub author : Str
  pub score : ℕ

pub record SearchResponse : Type 0 where
  pub query : Str
  pub filters : List (Str × Str)
  pub total_count : ℕ
  pub count : ℕ
  pub results : List SearchResultItem
