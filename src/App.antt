-- ===== src/App.antt =====
-- src/main.rs: what a running node holds, the three maps and the queue, on which its handlers
-- and its index task work. The maps share the network and its log; the queue's requests have a log
-- of their own.
pub mod Alone
use stage.Prelude.{ℕ, ◌≡◌, Option, some, List, Str, str}
use stage.DashMap.{DashMap}
use stage.Effects.{Wire, Action}
use stage.Site.{Site}
use stage.Text.{Unicode, Regex}
use stage.Storage.Protocol.{Format, Request, Response}
use stage.Storage.Memory.{Store, get_value, put_with_op}
use stage.Executor.Types.{TaskId, Task, execute}
use stage.Executor.Types
use stage.Executor.Queue.{Tasks}
use stage.Executor.Routing.{submit}
use stage.Search.Types.{BookMetadata}
use stage.Ingestion.Types.{RawDocument, IndexTaskPayload}

-- How the values of the maps and the payload of the index task go through `serde_json`.
pub record Formats : Type 0 where
  pub books : Format Str BookMetadata
  pub datalake : Format Str RawDocument
  pub index : Format Str (List Str)
  pub to_payload : IndexTaskPayload → Str
  pub from_payload : Str → Option IndexTaskPayload
  pub from_payload-to_payload : (p : IndexTaskPayload) → from_payload (to_payload p) ≡ some p

pub record App (dm : DashMap) : Type 0 where
  pub books : Store dm Str BookMetadata
  pub datalake : Store dm Str RawDocument
  pub index : Store dm Str (List Str)
  pub tasks : Tasks dm
  pub task_log : List Types.Request

-- What surrounds a node: its site, the formats, the networks of the maps and of the queue, and
-- the tables for texts.
pub record Setting (dm : DashMap) : Type 0 where
  pub site : Site dm
  pub formats : Formats
  pub wire : Wire Request Response
  pub task_wire : Wire Types.Request Types.Response
  pub unicode : Unicode
  pub regex : Regex

module _ (dm : DashMap) where
  abbrev pub Act : Type 0 → Type 0
  Act A = Action (App dm) Request A

  -- An operation on one of the components.
  abbrev pub on_books : {A : Type 0} → Action (Store dm Str BookMetadata) Request A → Act A
  on_books m (a, log) = let (r, (s, l)) = m (a.books, log) in (r, (record a { books = s }, l))

  abbrev pub on_datalake : {A : Type 0} → Action (Store dm Str RawDocument) Request A → Act A
  on_datalake m (a, log) =
      let (r, (s, l)) = m (a.datalake, log) in (r, (record a { datalake = s }, l))

  abbrev pub on_index : {A : Type 0} → Action (Store dm Str (List Str)) Request A → Act A
  on_index m (a, log) = let (r, (s, l)) = m (a.index, log) in (r, (record a { index = s }, l))

  abbrev pub on_queue : {A : Type 0} → Action (Tasks dm) Types.Request A → Act A
  on_queue m (a, log) =
      let (r, (q, l)) = m (a.tasks, a.task_log) in (r, (record a { tasks = q; task_log = l }, log))

  -- The operations of the maps, each with the path under which it is nested.
  module _ (x : Setting dm) where
    abbrev pub get_book : Str → Act (Option BookMetadata)
    get_book id = on_books (get_value dm x.formats.books x.site (str "/books") x.wire id)

    abbrev pub put_book : ℕ → Str → Str → BookMetadata → Act (Unit {0})
    put_book now op_id id v =
        on_books (put_with_op dm x.formats.books x.site (str "/books") x.wire now id v op_id)

    abbrev pub get_document : Str → Act (Option RawDocument)
    get_document id =
        on_datalake (get_value dm x.formats.datalake x.site (str "/datalake") x.wire id)

    abbrev pub put_document : ℕ → Str → Str → RawDocument → Act (Unit {0})
    put_document now op_id id v =
        on_datalake
          (put_with_op dm x.formats.datalake x.site (str "/datalake") x.wire now id v op_id)

    abbrev pub get_postings : Str → Act (Option (List Str))
    get_postings token = on_index (get_value dm x.formats.index x.site (str "/index") x.wire token)

    abbrev pub put_postings : ℕ → Str → Str → List Str → Act (Unit {0})
    put_postings now op_id token v =
        on_index (put_with_op dm x.formats.index x.site (str "/index") x.wire now token v op_id)

    -- The task that `index_document` handles.
    abbrev pub index_task : Str → Task
    index_task book_id =
        execute (str "index_document") (x.formats.to_payload (record { book_id = book_id }))

    abbrev pub submit_task : TaskId → ℕ → Task → Act TaskId
    submit_task id now task = on_queue (submit dm x.site x.task_wire id now task)
