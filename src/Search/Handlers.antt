-- ===== src/Search/Handlers.antt =====
-- src/search/handlers.rs: the endpoints for searching and for creating a book by hand. A reply is
-- a status with its payload.
pub mod Pages
use stage.Prelude.{ℕ, Option, none, some, List, [], ◌∷◌, map, Str, length, take, drop}
use stage.DashMap.{DashMap}
use stage.Effects.{Result, ok, err, ◌>>=◌, ◌>>◌, pure, outcome}
use stage.Executor.Types.{TaskId}
use stage.App.{Act, Setting, put_book, submit_task, index_task}
use stage.Search.Types.{BookMetadata, SearchResultItem, SearchResponse}
use stage.Search.Engine.{Scored, search}

pub record SearchParams : Type 0 where
  pub q : Str
  pub limit : Option ℕ
  pub offset : Option ℕ

pub record CreateBookRequest : Type 0 where
  pub title : Str
  pub author : Str
  pub language : Str
  pub year : Option ℕ

-- `unwrap_or`
abbrev pub unwrap_or : Option ℕ → ℕ → ℕ
unwrap_or none d = d
unwrap_or (some n) d = n

abbrev pub item_of : Scored → SearchResultItem
item_of (m, score) = record {
  book_id = m.book_id;
  title = m.title;
  author = m.author;
  score = score;
}

unfoldable pub paginate : SearchParams → List SearchResultItem → SearchResponse
paginate params items =
    let page = take (unwrap_or params.limit 10) (drop (unwrap_or params.offset 0) items) in
    record {
      query = params.q;
      filters = [];
      total_count = length items;
      count = length page;
      results = page;
    }

unfoldable pub created : Str → CreateBookRequest → BookMetadata
created book_id req = record {
  book_id = book_id;
  title = req.title;
  author = req.author;
  language = req.language;
  year = req.year;
  word_count = 0;
  unique_words = 0;
}

module _ (dm : DashMap) (x : Setting dm) where
  unfoldable pub handle_search : SearchParams → Act dm SearchResponse
  unfolding paginate
  handle_search params = do
    results ← search dm x params.q
    pure (paginate params (map item_of results))

  -- After the metadata has been stored, or has not.
  unfoldable pub answer_created : ℕ → TaskId → Str → Result (Unit {0}) → Act dm (ℕ × Str)
  answer_created now task_id book_id (err _) = pure (500, book_id)
  answer_created now task_id book_id (ok _) = do
    outcome (submit_task dm x task_id now (index_task dm x book_id))
    pure (201, book_id)

  -- `book_id`, `op_id` and `task_id` are drawn, and the clock is read for either write.
  unfoldable pub handle_create_book :
      ℕ → ℕ → Str → Str → TaskId → CreateBookRequest → Act dm (ℕ × Str)
  unfolding created answer_created
  handle_create_book now task_now book_id op_id task_id req = do
    stored ← outcome (put_book dm x now op_id book_id (created book_id req))
    answer_created task_now task_id book_id stored
