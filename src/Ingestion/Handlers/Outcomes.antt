-- ===== src/Ingestion/Handlers/Outcomes.antt =====
-- src/ingestion/handlers.rs, `handle_ingest_gutenberg`: the reply to every request and what it
-- leaves behind.
use stage.Prelude.{
  ℕ, ◌≡◌, refl, ap, sym, subst, ◌⊎◌, inl, inr, Option, none, some, List, Str, str, if◌then◌else◌,
}
use stage.DashMap.{DashMap}
use stage.Effects.{Error, Result, ok, err, bind_of_ok}
use stage.Storage.Protocol.{Request}
use stage.Storage.Memory.Alone.{get_value-Reads}
use stage.App.{App, Setting, index_task, get_document, put_document}
use stage.Ingestion.Types.{RawDocument, IngestResponse}
use stage.Ingestion.Parsing.{split_gutenberg_text}
use stage.Ingestion.Parsing.Markers.{is_marked, split_gutenberg_text-is_marked}
use stage.Ingestion.Handlers.Stored.{metadata_of}
use stage.Storage.Memory.{Store, put_with_op}
use stage.Executor.Routing.{submit}
use stage.Ingestion.Handlers.{
  source_url_of, response, raw_doc, Reply, Draws, finish, persist, ingest_parts, ingest_text,
  answer_found, handle_ingest_gutenberg,
}

-- The status and the word with which a request is refused.
abbrev pub refusal : Option RawDocument → Option Str → Option (ℕ × Str)
refusal (some doc) fetched = some (200, str "already_exists")
refusal none none = some (502, str "download_failed")
refusal none (some text) = if is_marked text then none else some (422, str "invalid_format")

module _ (dm : DashMap) (x : Setting dm) where
  -- The outcome of the write of the document, which decides the rest.
  abbrev pub wrote_document :
      Draws → Str → Str → Str → App dm → List Request → Result (Unit {0}) × (App dm × List Request)
  wrote_document d book_id header body a log =
      put_document dm x d.document_now d.document_op book_id (raw_doc book_id header body) (a, log)

  -- 202 after the document has been written: then the metadata have been put under the book's id
  -- and the task has been submitted, whatever came of these two.
  abbrev pub Stored :
      Draws
      → Str
      → Str
      → Str
      → App dm
      → Result (Unit {0}) × (App dm × List Request)
      → Result (Reply IngestResponse) × (App dm × List Request)
      → Type 0
  Stored d book_id header body a put r =
      (put.0 ≡ ok tt)
      × (r.0 ≡ ok (202, response book_id (str "ingested")))
      × (r.1.0.datalake ≡ put.1.0.datalake)
      × (r.1.0.books
          ≡ (put_with_op dm x.formats.books x.site (str "/books") x.wire d.book_now book_id
              (metadata_of dm x book_id header body) d.book_op (a.books, put.1.1)).1.0)
      × (r.1.0.tasks
          ≡ (submit dm x.site x.task_wire d.task_id d.task_now (index_task dm x book_id)
              (a.tasks, a.task_log)).1.0)
      × (r.1.0.index ≡ a.index)

  -- 500 after the write of the document has failed: then the other maps and the tasks are as before.
  abbrev pub Failed :
      Str
      → App dm
      → Result (Unit {0}) × (App dm × List Request)
      → Result (Reply IngestResponse) × (App dm × List Request)
      → Type 0
  Failed book_id a put r =
      ((e : Error) × (put.0 ≡ err e))
      × (r ≡ (ok (500, response book_id (str "datalake_store_failed")), put.1))
      × (r.1.0.books ≡ a.books)
      × (r.1.0.index ≡ a.index)
      × (r.1.0.tasks ≡ a.tasks)
      × (r.1.0.task_log ≡ a.task_log)

  abbrev pub Persisted :
      Draws
      → Str
      → Str
      → Str
      → App dm
      → Result (Unit {0}) × (App dm × List Request)
      → Result (Reply IngestResponse) × (App dm × List Request)
      → Type 0
  Persisted d book_id header body a put r =
      Stored d book_id header body a put r ⊎ Failed book_id a put r

  finish-Persisted :
      (d : Draws) (book_id header body : Str) (a : App dm) (s : Store dm Str RawDocument)
      (log : List Request) (stored : Result (Unit {0}))
      → Persisted d book_id header body a
          (stored, (record a { datalake = s }, log))
          (finish dm x d book_id
            (metadata_of dm x book_id header body)
            stored
            (record a { datalake = s }, log))
  unfolding finish
  finish-Persisted d book_id header body a s log (ok u) = inl (refl, refl, refl, refl, refl, refl)
  finish-Persisted d book_id header body a s log (err e) =
      inr ((e, refl), refl, refl, refl, refl, refl)

  persist-Persisted :
      (d : Draws) (book_id header body : Str) (a : App dm) (log : List Request)
      → Persisted d book_id header body a
          (wrote_document d book_id header body a log)
          (persist dm x d book_id header body (a, log))
  unfolding persist
  persist-Persisted d book_id header body a log =
      let put = wrote_document d book_id header body a log in
      finish-Persisted d book_id header body a put.1.0.datalake put.1.1 put.0

  -- What a request comes to, by the way it is refused, if it is.
  abbrev pub Answered :
      Draws
      → Str
      → App dm
      → List Request
      → Option Str
      → Option (ℕ × Str)
      → Result (Reply IngestResponse) × (App dm × List Request)
      → Type 0
  Answered d book_id a log fetched (some (status, word)) r =
      r ≡ (ok (status, response book_id word), (a, log))
  Answered d book_id a log fetched none r =
      (text : Str) × (header : Str) × (body : Str) × (fetched ≡ some text)
      × (split_gutenberg_text text ≡ some (some (header, body)))
      × Persisted d book_id header body a (wrote_document d book_id header body a log) r

  ingest_text-Answered :
      (d : Draws) (book_id : Str) (fetched : Option Str) (a : App dm) (log : List Request)
      → Answered d book_id a log fetched
          (refusal none fetched)
          (ingest_text dm x d book_id fetched (a, log))
  unfolding ingest_text
  ingest_text-Answered d book_id none a log = refl
  ingest_text-Answered d book_id (some text) a log = elim (split_gutenberg_text-is_marked text) [
    | inr (e, h) ↦ rw e (ap (λ parts. ingest_parts dm x d book_id parts (a, log)) h)
    | inl (e, (header, body, h)) ↦ rw e (
      text,
      header,
      body,
      refl,
      h,
      subst
          (λ parts.
            Persisted d book_id header body a (wrote_document d book_id header body a log)
              (ingest_parts dm x d book_id parts (a, log)))
          (sym h) (persist-Persisted d book_id header body a log),
    )
  ]

  decide :
      (found : Option RawDocument) (fetched : Option Str) (d : Draws) (book_id : Str) (a : App dm)
      (log : List Request)
      → Answered d book_id a log fetched
          (refusal found fetched)
          (answer_found dm x fetched d book_id found (a, log))
  unfolding answer_found
  decide none fetched d book_id a log = ingest_text-Answered d book_id fetched a log
  decide (some doc) fetched d book_id a log = refl

  -- Every request is answered, whatever the network does. A book that is there, a download that
  -- failed and a text without its markers in order are refused, with 200, 502 and 422, and change
  -- nothing. Any other request is answered with 202 if the write of the document succeeded, and
  -- then the metadata that the header gives have been put and the index task has been submitted,
  -- though the reply does not depend on whether that succeeded; or with 500 if the write of the
  -- document failed, and then the metadata, the index and the tasks are as before.
  pub handle_ingest_gutenberg_lem :
      (fetch_gutenberg_text : Str → Option Str) (d : Draws) (book_id : Str) (a : App dm)
      (log : List Request)
      → (found : Option RawDocument) × (sent : List Request) × (get_document dm x book_id (a, log)
          ≡ (ok found, (a, sent)))
        × Answered d book_id a sent
            (fetch_gutenberg_text (source_url_of book_id))
            (refusal found (fetch_gutenberg_text (source_url_of book_id)))
            (handle_ingest_gutenberg dm x fetch_gutenberg_text d book_id (a, log))
  unfolding handle_ingest_gutenberg
  handle_ingest_gutenberg_lem fetch_gutenberg_text d book_id a log =
      let (found, sent, e) =
        get_value-Reads dm x.formats.datalake x.site (str "/datalake") x.wire book_id a.datalake
          log in
      let read = ap (λ r. (r.0, (record a { datalake = r.1.0 }, r.1.1))) e in
      let fetched = fetch_gutenberg_text (source_url_of book_id) in
      (
        found,
        sent,
        read,
        subst (Answered d book_id a sent fetched (refusal found fetched))
            (sym
              (bind_of_ok (get_document dm x book_id) (answer_found dm x fetched d book_id) read))
            (decide found fetched d book_id a sent),
      )
