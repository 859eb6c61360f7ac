-- ===== src/Server/Node.antt =====
-- src/main.rs: what happens at a running node: the requests to its routes, the rounds of its workers
-- and those of its anti-entropy loops, in any order. The routes that only show what the node has
-- (statistics, the list of routes, internal reads and dumps) change nothing and are not events.
pub mod Kept
pub mod Lasting
pub mod Unseen
use stage.Prelude.{ℕ, Option, List, [], ◌∷◌, Str, str}
use stage.DashMap.{DashMap}
use stage.Effects.{Error}
use stage.Storage.Protocol.{Request}
use stage.Storage.Sync.{sync_partitions}
use stage.Storage.Memory.{Store}
use stage.Storage.Handlers.{Entrance, handle_write, handle_get}
use stage.Executor.Types
use stage.Executor.Types.{TaskId, Task, TaskEntry}
use stage.Executor.Queue.{Tasks}
use stage.Executor.Handlers.{
  handle_submit_task, handle_internal_submit_task, handle_replicate_task, handle_get_task_status,
}
use stage.Search.Types.{BookMetadata}
use stage.Ingestion.Types.{RawDocument}
use stage.Executor.Queue.Claims.{Op}
use stage.Executor.Sync.{sync_queue_partitions}
use stage.App.{App, Setting}
use stage.Search.Handlers.{SearchParams, CreateBookRequest, handle_search, handle_create_book}
use stage.Ingestion.Handlers.{Draws, handle_ingest_gutenberg, handle_ingest_status}
use stage.Indexer.Round.{node_round}

-- The events, with what the clock and the generators give each of them. A round of a worker comes
-- with what the rest of the program does to the queue while the task runs, a resync with the
-- order of the partitions.
pub data NodeEvent : Type 0 where
  ingest_book : Draws → Str → NodeEvent
  ask_status : Str → NodeEvent
  ask_search : SearchParams → NodeEvent
  add_book : ℕ → ℕ → Str → Str → TaskId → CreateBookRequest → NodeEvent
  work : ℕ → (ℕ → ℕ) → (ℕ → ℕ) → (ℕ → Str) → List Op → NodeEvent
  resync_books resync_datalake resync_index resync_queue : (List ℕ → List ℕ) → NodeEvent
  -- Requests to the routes of a map: the endpoint, the time, the operation id, the key, the value.
  write_book write_document write_posting : Entrance → ℕ → Str → Str → Str → NodeEvent
  read_book read_document read_posting : Str → NodeEvent
  -- Requests to the routes of the queue.
  submit_task : TaskId → TaskId → ℕ → Task → NodeEvent
  submit_internal : ℕ → TaskId → ℕ → Task → NodeEvent
  replicate_task : ℕ → TaskId → TaskEntry → NodeEvent
  ask_task : TaskId → NodeEvent

module _ (dm : DashMap) (x : Setting dm) where
  -- One round of `sync_loop` for each map, and of `sync_queue_loop`. An error is logged only.
  unfoldable pub sync_books : (List ℕ → List ℕ) → App dm × List Request → App dm × List Request
  sync_books shuffle (a, log) =
      let (s, l) =
        sync_partitions dm x.formats.books x.site (str "/books") x.wire shuffle (a.books, log) in
      (record a { books = s }, l)

  unfoldable pub sync_datalake : (List ℕ → List ℕ) → App dm × List Request → App dm × List Request
  sync_datalake shuffle (a, log) =
      let (s, l) =
        sync_partitions dm x.formats.datalake x.site (str "/datalake") x.wire shuffle
          (a.datalake, log) in
      (record a { datalake = s }, l)

  unfoldable pub sync_index : (List ℕ → List ℕ) → App dm × List Request → App dm × List Request
  sync_index shuffle (a, log) =
      let (s, l) =
        sync_partitions dm x.formats.index x.site (str "/index") x.wire shuffle (a.index, log) in
      (record a { index = s }, l)

  unfoldable pub sync_queue : (List ℕ → List ℕ) → App dm × List Request → App dm × List Request
  sync_queue shuffle (a, log) =
      let (q, l) = sync_queue_partitions dm x.site x.task_wire shuffle (a.tasks, a.task_log) in
      (record a { tasks = q; task_log = l }, log)

  -- A request to the routes of one of the maps, or of the queue.
  abbrev pub at_books :
      (Store dm Str BookMetadata × List Request → Store dm Str BookMetadata × List Request)
      → App dm × List Request
      → App dm × List Request
  at_books serve (a, log) = let (s, l) = serve (a.books, log) in (record a { books = s }, l)

  abbrev pub at_datalake :
      (Store dm Str RawDocument × List Request → Store dm Str RawDocument × List Request)
      → App dm × List Request
      → App dm × List Request
  at_datalake serve (a, log) =
      let (s, l) = serve (a.datalake, log) in (record a { datalake = s }, l)

  abbrev pub at_index :
      (Store dm Str (List Str) × List Request → Store dm Str (List Str) × List Request)
      → App dm × List Request
      → App dm × List Request
  at_index serve (a, log) = let (s, l) = serve (a.index, log) in (record a { index = s }, l)

  abbrev pub at_queue :
      (Tasks dm × List Types.Request → Tasks dm × List Types.Request)
      → App dm × List Request
      → App dm × List Request
  at_queue serve (a, log) =
      let (q, l) = serve (a.tasks, a.task_log) in (record a { tasks = q; task_log = l }, log)

  module _ (fetch_gutenberg_text : Str → Option Str) (show : Error → Str)
      (order : List Str → List Str) where
    unfoldable pub step : NodeEvent → App dm × List Request → App dm × List Request
    unfolding sync_books sync_datalake sync_index sync_queue handle_write handle_get
    step (ingest_book d book_id) s =
        (handle_ingest_gutenberg dm x fetch_gutenberg_text d book_id s).1
    step (ask_status book_id) s = (handle_ingest_status dm x book_id s).1
    step (ask_search params) s = (handle_search dm x params s).1
    step (add_book now task_now book_id op_id task_id req) s =
        (handle_create_book dm x now task_now book_id op_id task_id req s).1
    step (work now claims clock op_ids meanwhile) s =
        (node_round dm x show order now claims clock op_ids meanwhile s).0
    step (resync_books shuffle) s = sync_books shuffle s
    step (resync_datalake shuffle) s = sync_datalake shuffle s
    step (resync_index shuffle) s = sync_index shuffle s
    step (resync_queue shuffle) s = sync_queue shuffle s
    step (write_book way now op_id key value_json) s =
        at_books
          (handle_write dm x.formats.books x.site (str "/books") x.wire way now op_id key
            value_json)
          s
    step (write_document way now op_id key value_json) s =
        at_datalake
          (handle_write dm x.formats.datalake x.site (str "/datalake") x.wire way now op_id key
            value_json)
          s
    step (write_posting way now op_id key value_json) s =
        at_index
          (handle_write dm x.formats.index x.site (str "/index") x.wire way now op_id key
            value_json)
          s
    step (read_book key) s =
        at_books (λ t. (handle_get dm x.formats.books x.site (str "/books") x.wire key t).1) s
    step (read_document key) s =
        at_datalake
          (λ t. (handle_get dm x.formats.datalake x.site (str "/datalake") x.wire key t).1) s
    step (read_posting key) s =
        at_index (λ t. (handle_get dm x.formats.index x.site (str "/index") x.wire key t).1) s
    step (submit_task id dummy now task) s =
        at_queue (λ t. (handle_submit_task dm x.site x.task_wire id dummy now task t).1) s
    step (submit_internal p id now task) s =
        at_queue (λ t. (handle_internal_submit_task dm x.site x.task_wire p id now task t).1) s
    step (replicate_task p id e) s =
        at_queue (λ t. ((handle_replicate_task dm p id e t.0).1, t.1)) s
    step (ask_task id) s = at_queue (λ t. (handle_get_task_status dm x.site x.task_wire id t).1) s

    unfoldable pub run : List NodeEvent → App dm × List Request → App dm × List Request
    unfolding step
    run [] s = s
    run (e ∷ es) s = run es (step e s)
