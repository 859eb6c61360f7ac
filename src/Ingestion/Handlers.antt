-- ===== src/Ingestion/Handlers.antt =====
-- src/ingestion/handlers.rs: the endpoints that take a book in and tell whether it is there. A
-- reply is a status with its payload.
pub mod Outcomes
pub mod Stored
use stage.Prelude.{ℕ, Option, none, some, ◌++◌, Str, str}
use stage.DashMap.{DashMap}
use stage.Effects.{raised, Result, ok, err, ◌>>=◌, ◌>>◌, pure, fail, outcome}
use stage.Executor.Types.{TaskId}
use stage.App.{Act, Setting, get_document, put_document, put_book, submit_task, index_task}
use stage.Search.Types.{BookMetadata}
use stage.Ingestion.Types.{RawDocument, IngestResponse, IngestStatusResponse}
use stage.Ingestion.Parsing.{split_gutenberg_text, compute_counts, parse_metadata}

abbrev pub source_url_of : Str → Str
source_url_of book_id =
    str "https://www.gutenberg.org/cache/epub/" ++ book_id ++ str "/pg" ++ book_id ++ str ".txt"

abbrev pub response : Str → Str → IngestResponse
response book_id status = record {
  book_id = book_id;
  status = status;
  source_url = source_url_of book_id;
}

abbrev pub raw_doc : Str → Str → Str → RawDocument
raw_doc book_id header body = record {
  book_id = book_id;
  header = header;
  body = body;
  source_url = source_url_of book_id;
}

abbrev pub Reply : Type 0 → Type 0
Reply A = ℕ × A

-- What a request draws and reads: the time of each of its writes, the ids of its operations and its task.
pub record Draws : Type 0 where
  pub document_now : ℕ
  pub book_now : ℕ
  pub task_now : ℕ
  pub document_op : Str
  pub book_op : Str
  pub task_id : TaskId

module _ (dm : DashMap) (x : Setting dm) where
  -- After the document has been stored, or has not: the metadata, and the task for the index,
  -- whose errors are logged only.
  unfoldable pub finish :
      Draws → Str → BookMetadata → Result (Unit {0}) → Act dm (Reply IngestResponse)
  finish d book_id metadata (err _) = pure (500, response book_id (str "datalake_store_failed"))
  finish d book_id metadata (ok _) = do
    outcome (put_book dm x d.book_now d.book_op book_id metadata)
    outcome (submit_task dm x d.task_id d.task_now (index_task dm x book_id))
    pure (202, response book_id (str "ingested"))

  -- From the parsed parts on.
  unfoldable pub persist : Draws → Str → Str → Str → Act dm (Reply IngestResponse)
  unfolding finish compute_counts parse_metadata
  persist d book_id header body = do
    let (word_count, unique_words) = compute_counts x.unicode x.regex body
    let metadata = parse_metadata x.regex header book_id word_count unique_words
    stored ←
        outcome
          (put_document dm x d.document_now d.document_op book_id (raw_doc book_id header body))
    finish d book_id metadata stored

  -- What the split gave; a panic ends the request.
  unfoldable pub ingest_parts :
      Draws → Str → Option (Option (Str × Str)) → Act dm (Reply IngestResponse)
  unfolding persist
  ingest_parts d book_id none = fail (raised (str "slice"))
  ingest_parts d book_id (some none) = pure (422, response book_id (str "invalid_format"))
  ingest_parts d book_id (some (some (header, body))) = persist d book_id header body

  -- The text that was downloaded, or not.
  unfoldable pub ingest_text : Draws → Str → Option Str → Act dm (Reply IngestResponse)
  unfolding ingest_parts split_gutenberg_text
  ingest_text d book_id none = pure (502, response book_id (str "download_failed"))
  ingest_text d book_id (some text) = ingest_parts d book_id (split_gutenberg_text text)

  -- The idempotency check and what follows it.
  unfoldable pub answer_found :
      Option Str → Draws → Str → Option RawDocument → Act dm (Reply IngestResponse)
  unfolding ingest_text
  answer_found fetched d book_id (some _) = pure (200, response book_id (str "already_exists"))
  answer_found fetched d book_id none = ingest_text d book_id fetched

  -- `fetch_gutenberg_text` is the download.
  unfoldable pub handle_ingest_gutenberg :
      (Str → Option Str) → Draws → Str → Act dm (Reply IngestResponse)
  unfolding answer_found
  handle_ingest_gutenberg fetch_gutenberg_text d book_id = do
    found ← get_document dm x book_id
    answer_found (fetch_gutenberg_text (source_url_of book_id)) d book_id found

  unfoldable pub handle_ingest_status : Str → Act dm (Reply IngestStatusResponse)
  handle_ingest_status book_id = do
    found ← get_document dm x book_id
    pure (
      200,
      record {
        book_id = book_id;
        status = elim found [ some _ ↦ str "available" | none ↦ str "missing" ];
      },
    )
