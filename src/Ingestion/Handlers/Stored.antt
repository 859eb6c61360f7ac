-- ===== src/Ingestion/Handlers/Stored.antt =====
-- src/ingestion/handlers.rs: what a node that owns every partition holds after it took a book in.
use stage.Prelude.{
  ℕ, ◌≡◌, refl, ap, ap₂, sym, ◌∙◌, ◌&&◌, ◌==◌, ==_iff, if◌then◌else◌, Bool-cases, inl, inr, true,
  Option, none, some, List, Str, str, Eq, ==_refl, str_eq, nat_eq,
}
use stage.DashMap.{DashMap}
use stage.Effects.{Result, ok, Wire, pure, bind_of_ok}
use stage.Site.{Site, IsAlone, me, partition_of}
use stage.Storage.Protocol.{Request}
use stage.Storage.Memory.{Store}
use stage.Storage.Memory.Alone.{put_with_op_alone}
use stage.Executor.Types.{TaskId, Task, TaskEntry}
use stage.Executor.Types
use stage.Executor.Queue.{Tasks, new_entry, store_local, get_task_local}
use stage.Executor.Queue.Entries.{or_else, get_task_local-store_local}
use stage.Executor.Routing.{submit, submit_to, store_as_primary, replicate_to_all}
use stage.App.{App, Setting, get_document, index_task}
use stage.App.Alone.{documents_in, books_in, get_document_alone}
use stage.Search.Types.{BookMetadata}
use stage.Ingestion.Types.{RawDocument}
use stage.Ingestion.Parsing.{split_gutenberg_text, compute_counts, parse_metadata}
use stage.Ingestion.Handlers.{
  source_url_of, response, raw_doc, Draws, finish, persist, ingest_parts, ingest_text, answer_found,
  handle_ingest_gutenberg,
}

store_as_primary_alone :
    (dm : DashMap) (site : Site dm) (w : Wire Types.Request Types.Response) (p : ℕ) (id : TaskId)
    (e : TaskEntry) (q : Tasks dm) (log : List Types.Request)
    → IsAlone dm site
    → store_as_primary dm site w p id e (q, log) ≡ (ok tt, (store_local dm q p id e, log))
unfolding store_as_primary replicate_to_all
store_as_primary_alone dm site w p id e q log alone = rw (alone p, store_as_primary) refl

submit_alone :
    (dm : DashMap) (site : Site dm) (w : Wire Types.Request Types.Response) (id : TaskId) (now : ℕ)
    (task : Task) (q : Tasks dm) (log : List Types.Request)
    → IsAlone dm site
    → submit dm site w id now task (q, log)
      ≡ (ok id, (store_local dm q (partition_of dm site id) id (new_entry now task), log))
unfolding submit submit_to
submit_alone dm site w id now task q log alone =
    let p = partition_of dm site id in
    rw (alone p, submit)
      (rw (==_refl (me dm site)) (
        bind_of_ok (store_as_primary dm site w p id (new_entry now task)) (λ _. pure id)
          (store_as_primary_alone dm site w p id (new_entry now task) q log alone)))

key_same : (k : Eq Str) (a : Str) → k.same a a ≡ true
key_same k a = (k.same_iff a a).1 refl

new_or_kept :
    (dm : DashMap) (q : Tasks dm) (p : ℕ) (id : TaskId) (e : TaskEntry) (r : ℕ) (j : TaskId)
    → get_task_local dm q p id ≡ none
    → (if (p == r) && (id == j)
        then or_else (get_task_local dm q r j) (some e)
        else get_task_local dm q r j)
      ≡ (if (p == r) && (id == j) then some e else get_task_local dm q r j)
new_or_kept dm q p id e r j absent = elim (Bool-cases (p == r)) [
  | inl same ↦ elim (Bool-cases (id == j)) [
    | inl equal ↦
        let there : get_task_local dm q r j ≡ none =
          ap₂ (λ a b. get_task_local dm q a b) (sym ((==_iff p r).0 same))
            (sym ((==_iff id j).0 equal))
          ∙ absent in
        rw (same, equal, there)
    | inr other ↦ rw (same, other)
  ]
  | inr other ↦ rw other
]

module _ (dm : DashMap) (x : Setting dm) where
  -- The metadata of a book that has been split.
  abbrev pub metadata_of : Str → Str → Str → BookMetadata
  metadata_of book_id header body =
      let (word_count, unique_words) = compute_counts x.unicode x.regex body in
      parse_metadata x.regex header book_id word_count unique_words

  -- What is there after a book was taken in: its document, its metadata and its task, and the tasks
  -- that were there before.
  pub record Holds (d : Draws) (book_id header body : Str) (a b : App dm) : Type 0 where
    pub document : documents_in dm x b book_id ≡ some (raw_doc book_id header body)
    pub metadata : books_in dm x b book_id ≡ some (metadata_of book_id header body)
    pub task :
        get_task_local dm b.tasks (partition_of dm x.site d.task_id) d.task_id
        ≡ some (new_entry d.task_now (index_task dm x book_id))
    pub others :
        (p : ℕ) (id : TaskId)
        → get_task_local dm b.tasks p id ≡ (
            if (partition_of dm x.site d.task_id == p) && (d.task_id == id)
            then some (new_entry d.task_now (index_task dm x book_id))
            else get_task_local dm a.tasks p id)

  finish-Holds :
      (d : Draws) (book_id header body : Str) (a : App dm) (log : List Request)
      → IsAlone dm x.site
      → dm.get a.books.processed_ops d.book_op ≡ none
      → get_task_local dm a.tasks (partition_of dm x.site d.task_id) d.task_id ≡ none
      → documents_in dm x a book_id ≡ some (raw_doc book_id header body)
      → (b : App dm) × (finish dm x d book_id (metadata_of book_id header body) (ok tt) (a, log)
          ≡ (ok (202, response book_id (str "ingested")), (b, log)))
        × (b.index ≡ a.index)
        × Holds d book_id header body a b
  unfolding finish
  finish-Holds d book_id header body a log alone fresh absent there =
      let m = metadata_of book_id header body in
      let (s, wrote, reads, later) =
        put_with_op_alone dm x.formats.books x.site (str "/books") x.wire d.book_now book_id m
          d.book_op a.books log alone fresh in
      let p = partition_of dm x.site d.task_id in
      let e = new_entry d.task_now (index_task dm x book_id) in
      let q = store_local dm a.tasks p d.task_id e in
      let b = record a { books = s; tasks = q } in
      let submitted =
        submit_alone dm x.site x.task_wire d.task_id d.task_now (index_task dm x book_id) a.tasks
          a.task_log alone in
      (
        b,
        ap₂
            (λ (r : Result (Unit {0}) × (Store dm Str BookMetadata × List Request))
                (u : Result TaskId × (Tasks dm × List Types.Request)).
              (
                ok (202, response book_id (str "ingested")),
                (record a { books = r.1.0; tasks = u.1.0; task_log = u.1.1 }, r.1.1),
              ))
            wrote submitted,
        refl,
        record {
          document = there;
          metadata = reads book_id ∙ rw (key_same x.formats.books.key_eq book_id) refl;
          task =
              get_task_local-store_local dm a.tasks p d.task_id e p d.task_id
              ∙ rw (==_refl p, ==_refl d.task_id, absent) refl;
          others = λ r j.
              get_task_local-store_local dm a.tasks p d.task_id e r j
              ∙ new_or_kept dm a.tasks p d.task_id e r j absent;
        },
      )

  -- On a node that owns everything, a book that is not there and whose text can be downloaded and
  -- split is answered with 202. The node then holds its document, its metadata and a pending task
  -- that indexes it, its index and its other tasks are as before, and any later request for the
  -- book is answered with 200 and changes nothing.
  pub handle_ingest_gutenberg_alone :
      (fetch_gutenberg_text : Str → Option Str) (d d' : Draws) (book_id text header body : Str)
      (a : App dm) (log : List Request)
      → IsAlone dm x.site
      → documents_in dm x a book_id ≡ none
      → fetch_gutenberg_text (source_url_of book_id) ≡ some text
      → split_gutenberg_text text ≡ some (some (header, body))
      → dm.get a.datalake.processed_ops d.document_op ≡ none
      → dm.get a.books.processed_ops d.book_op ≡ none
      → get_task_local dm a.tasks (partition_of dm x.site d.task_id) d.task_id ≡ none
      → (b : App dm) × (handle_ingest_gutenberg dm x fetch_gutenberg_text d book_id (a, log)
          ≡ (ok (202, response book_id (str "ingested")), (b, log)))
        × (b.index ≡ a.index)
        × Holds d book_id header body a b
        × (handle_ingest_gutenberg dm x fetch_gutenberg_text d' book_id (b, log)
            ≡ (ok (200, response book_id (str "already_exists")), (b, log)))
  unfolding handle_ingest_gutenberg answer_found ingest_text ingest_parts persist
  handle_ingest_gutenberg_alone fetch_gutenberg_text d d' book_id text header body a log alone
        missing fetched split new_document new_book absent =
      let doc = raw_doc book_id header body in
      let (s, wrote, reads, later) =
        put_with_op_alone dm x.formats.datalake x.site (str "/datalake") x.wire d.document_now
          book_id doc d.document_op a.datalake log alone new_document in
      let stored = record a { datalake = s } in
      let there : documents_in dm x stored book_id ≡ some doc =
        reads book_id ∙ rw (key_same x.formats.datalake.key_eq book_id) refl in
      let (b, done, kept, holds) =
        finish-Holds d book_id header body stored log alone new_book absent there in
      let answer = answer_found dm x (fetch_gutenberg_text (source_url_of book_id)) in
      (
        b,
        bind_of_ok (get_document dm x book_id) (answer d book_id)
              (get_document_alone dm x a book_id log alone)
            ∙ ap (λ found. answer d book_id found (a, log)) missing
            ∙ ap (λ o. ingest_text dm x d book_id o (a, log)) fetched
            ∙ ap (λ parts. ingest_parts dm x d book_id parts (a, log)) split
            ∙ ap
                (λ (r : Result (Unit {0}) × (Store dm Str RawDocument × List Request)).
                  finish dm x d book_id (metadata_of book_id header body) r.0
                    (record a { datalake = r.1.0 }, r.1.1))
                wrote
            ∙ done,
        kept,
        record {
          document = holds.document;
          metadata = holds.metadata;
          task = holds.task;
          others = holds.others;
        },
        bind_of_ok (get_document dm x book_id) (answer d' book_id)
              (get_document_alone dm x b book_id log alone)
            ∙ ap (λ found. answer d' book_id found (b, log)) holds.document,
      )
