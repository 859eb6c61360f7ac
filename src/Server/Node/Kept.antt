-- ===== src/Server/Node/Kept.antt =====
-- src/main.rs with all services: a property of a node that every write keeps is kept by every event.
use stage.Prelude.{
  ℕ, ◌≡◌, sym, subst, if_cases, inl, inr, Option, none, some, List, [], ◌∷◌, All, refl, map, Str,
  str, str_eq, ◌==◌,
}
use stage.DashMap.{DashMap}
use stage.Effects.{Error, Result, ok, err}
use stage.Effects.Preserves.{
  Preserves, Preserves-bind, Preserves-pure, Preserves-fail, Preserves-outcome,
}
use stage.Site.{IsAlone}
use stage.Storage.Protocol.{Request}
use stage.Storage.Memory.{Store}
use stage.Storage.Memory.Alone.{put_with_op_settled}
use stage.Storage.Handlers.{parse_entry}
use stage.Storage.Handlers.Written.{IsSettled, handle_write-IsSettled, handle_get_reads}
use stage.Storage.Sync.Alone.{sync_partitions_alone}
use stage.Executor.Types
use stage.Executor.Types.{TaskId, Task, execute}
use stage.Executor.Queue.{Tasks}
use stage.Executor.Queue.Claims.{Op}
use stage.Executor.Routing.{my_tasks, submit}
use stage.Executor.Worker.{claim_first}
use stage.App.{App, Act, Setting, index_task, put_book, put_document, get_document}
use stage.App
use stage.App.Alone.{postings_in, books_in, get_postings_alone, get_book_alone, get_document_alone}
use stage.Search.Types.{BookMetadata}
use stage.Search.Engine.{Scored, search}
use stage.Search.Engine.Results.{search_lem}
use stage.Search.Handlers.{
  created, answer_created, item_of, paginate, handle_search, handle_create_book,
}
use stage.Ingestion.Types.{RawDocument}
use stage.Ingestion.Parsing.{split_gutenberg_text, parse_metadata}
use stage.Ingestion.Handlers.{
  Draws, finish, persist, ingest_parts, ingest_text, answer_found, handle_ingest_gutenberg,
  handle_ingest_status, source_url_of, response,
}
use stage.Ingestion.Handlers.Stored.{metadata_of}
use stage.Indexer.Round.{execute_registered, run_claimed, node_round}
use stage.Indexer.{index_document}
use stage.Server.Node.{
  NodeEvent, ingest_book, ask_status, ask_search, add_book, work, resync_books, resync_datalake,
  resync_index, resync_queue, write_book, write_document, write_posting, read_book, read_document,
  read_posting, submit_task, submit_internal, replicate_task, ask_task, sync_books, sync_datalake,
  sync_index, sync_queue, step, run,
}

module _ (dm : DashMap) (x : Setting dm) (P : App dm → Type 0) (allowed : Str → Type 0)
    (posts : Str → List Str → Type 0) where
  -- What a write changes for reads of the three maps.
  abbrev pub BookWritten : Str → BookMetadata → App dm → Store dm Str BookMetadata → Type 0
  BookWritten k v a t = IsSettled dm x.formats.books x.site (str "/books") x.wire k v a.books t

  abbrev pub DocumentWritten : Str → RawDocument → App dm → Store dm Str RawDocument → Type 0
  DocumentWritten k v a t =
      IsSettled dm x.formats.datalake x.site (str "/datalake") x.wire k v a.datalake t

  abbrev pub PostingWritten : Str → List Str → App dm → Store dm Str (List Str) → Type 0
  PostingWritten k v a t = IsSettled dm x.formats.index x.site (str "/index") x.wire k v a.index t

  -- What has to be shown of a property. Metadata are written under the id that they name, documents
  -- under an id that is `allowed`, and a direct write of postings writes what `posts` admits.
  pub record IsKept : Type 0 where
    pub on_tasks :
        (a : App dm) (q : Tasks dm) (l : List Types.Request)
        → P a
        → P (record a { tasks = q; task_log = l })
    pub on_book :
        (a : App dm) (k : Str) (v : BookMetadata) (t : Store dm Str BookMetadata)
        → v.book_id ≡ k
        → BookWritten k v a t
        → P a
        → P (record a { books = t })
    pub on_document :
        (a : App dm) (k : Str) (v : RawDocument) (t : Store dm Str RawDocument)
        → allowed k
        → DocumentWritten k v a t
        → P a
        → P (record a { datalake = t })
    pub on_posting :
        (a : App dm) (k : Str) (v : List Str) (t : Store dm Str (List Str))
        → posts k v
        → PostingWritten k v a t
        → P a
        → P (record a { index = t })
    pub on_index :
        (order : List Str → List Str) (clock : ℕ → ℕ) (op_ids : ℕ → Str) (task : Task)
        → Preserves P (index_document dm x order clock op_ids task)

  -- Which events are admitted: a book is taken in where its document may be written, and a direct
  -- write to a map whose entry can be parsed writes what is admitted there. All other events are.
  abbrev pub Allows : NodeEvent → Type 0
  Allows (ingest_book d book_id) = allowed book_id
  Allows (write_book way now op_id key value_json) =
      (k : Str) (v : BookMetadata)
      → parse_entry dm x.formats.books key value_json ≡ some (k, v)
      → v.book_id ≡ k
  Allows (write_document way now op_id key value_json) =
      (k : Str) (v : RawDocument)
      → parse_entry dm x.formats.datalake key value_json ≡ some (k, v)
      → allowed k
  Allows (write_posting way now op_id key value_json) =
      (k : Str) (v : List Str)
      → parse_entry dm x.formats.index key value_json ≡ some (k, v)
      → posts k v
  Allows _ = Unit

  module _ (alone : IsAlone dm x.site) (kept : IsKept) where
    get_document-Preserves : (k : Str) → Preserves P (get_document dm x k)
    get_document-Preserves k = record {
      at = λ a log h.
          subst (λ (r : Result (Option RawDocument) × (App dm × List Request)). P r.1.0)
            (sym (get_document_alone dm x a k log alone)) h;
    }

    submit_task-Preserves :
        (t : TaskId) (now : ℕ) (task : Task) → Preserves P (App.submit_task dm x t now task)
    submit_task-Preserves t now task = record {
      at = λ a log h.
          let (r, (q, l)) = submit dm x.site x.task_wire t now task (a.tasks, a.task_log) in
          kept.on_tasks a q l h;
    }

    put_book-Preserves :
        (now : ℕ) (op_id k : Str) (v : BookMetadata)
        → v.book_id ≡ k
        → Preserves P (put_book dm x now op_id k v)
    put_book-Preserves now op_id k v named = record {
      at = λ a log h.
          let (t, wrote, which) =
            put_with_op_settled dm x.formats.books x.site (str "/books") x.wire now k v op_id
              a.books log alone in
          subst
            (λ (r : Result (Unit {0}) × (Store dm Str BookMetadata × List Request)).
              P (record a { books = r.1.0 }))
            (sym wrote) (kept.on_book a k v t named which h);
    }

    put_document-Preserves :
        (now : ℕ) (op_id k : Str) (v : RawDocument)
        → allowed k
        → Preserves P (put_document dm x now op_id k v)
    put_document-Preserves now op_id k v may = record {
      at = λ a log h.
          let (t, wrote, which) =
            put_with_op_settled dm x.formats.datalake x.site (str "/datalake") x.wire now k v op_id
              a.datalake log alone in
          subst
            (λ (r : Result (Unit {0}) × (Store dm Str RawDocument × List Request)).
              P (record a { datalake = r.1.0 }))
            (sym wrote) (kept.on_document a k v t may which h);
    }

    finish-Preserves :
        (d : Draws) (book_id : Str) (metadata : BookMetadata) (stored : Result (Unit {0}))
        → metadata.book_id ≡ book_id
        → Preserves P (finish dm x d book_id metadata stored)
    unfolding finish
    finish-Preserves d book_id metadata (err e) named = Preserves-pure P _
    finish-Preserves d book_id metadata (ok u) named =
        Preserves-bind P
          (Preserves-outcome P (put_book-Preserves d.book_now d.book_op book_id metadata named))
          λ _.
            Preserves-bind P
              (Preserves-outcome P
                (submit_task-Preserves d.task_id d.task_now (index_task dm x book_id)))
              λ _. Preserves-pure P (202, response book_id (str "ingested"))

    ingest_parts-Preserves :
        (d : Draws) (book_id : Str) (parts : Option (Option (Str × Str)))
        → allowed book_id
        → Preserves P (ingest_parts dm x d book_id parts)
    unfolding ingest_parts persist parse_metadata
    ingest_parts-Preserves d book_id none may = Preserves-fail P _
    ingest_parts-Preserves d book_id (some none) may = Preserves-pure P _
    ingest_parts-Preserves d book_id (some (some (header, body))) may =
        Preserves-bind P
          (Preserves-outcome P (put_document-Preserves d.document_now d.document_op book_id _ may))
          (λ stored. finish-Preserves d book_id (metadata_of dm x book_id header body) stored refl)

    answer_found-Preserves :
        (fetched : Option Str) (d : Draws) (book_id : Str) (found : Option RawDocument)
        → allowed book_id
        → Preserves P (answer_found dm x fetched d book_id found)
    unfolding answer_found ingest_text
    answer_found-Preserves fetched d book_id (some doc) may = Preserves-pure P _
    answer_found-Preserves none d book_id none may = Preserves-pure P _
    answer_found-Preserves (some text) d book_id none may =
        ingest_parts-Preserves d book_id (split_gutenberg_text text) may

    search-Preserves : (query : Str) → Preserves P (search dm x query)
    search-Preserves query = record {
      at = λ a log h.
          let (results, sent, ran, _, _) =
            search_lem dm x a (postings_in dm x a) (books_in dm x a)
              (λ k l. (l, get_postings_alone dm x a k l alone))
              (λ k l. (l, get_book_alone dm x a k l alone)) query log in
          subst (λ (r : Result (List Scored) × (App dm × List Request)). P r.1.0) (sym ran) h;
    }

    answer_created-Preserves :
        (now : ℕ) (task_id : TaskId) (book_id : Str) (stored : Result (Unit {0}))
        → Preserves P (answer_created dm x now task_id book_id stored)
    unfolding answer_created
    answer_created-Preserves now task_id book_id (err e) = Preserves-pure P _
    answer_created-Preserves now task_id book_id (ok u) =
        Preserves-bind P
          (Preserves-outcome P (submit_task-Preserves task_id now (index_task dm x book_id)))
          λ _. Preserves-pure P (201, book_id)

    execute_registered-Preserves :
        (order : List Str → List Str) (clock : ℕ → ℕ) (op_ids : ℕ → Str) (show : Error → Str)
        (task : Task)
        → Preserves P (execute_registered dm x show order clock op_ids task)
    unfolding execute_registered
    execute_registered-Preserves order clock op_ids show (execute handler payload) =
        if_cases (λ (m : Act dm (Unit {0})). Preserves P m) (handler == str "index_document")
          (λ _. kept.on_index order clock op_ids (execute handler payload))
          (λ _. Preserves-fail P _)

    run_claimed-P :
        (order : List Str → List Str) (show : Error → Str) (clock : ℕ → ℕ) (op_ids : ℕ → Str)
        (meanwhile : List Op) (a : App dm) (log : List Request) (q : Tasks dm)
        (claimed : Option (TaskId × Task))
        → P a
        → P (run_claimed dm x show order clock op_ids meanwhile (a, log) (q, claimed)).0.0
    unfolding run_claimed
    run_claimed-P order show clock op_ids meanwhile a log q none h = kept.on_tasks a q a.task_log h
    run_claimed-P order show clock op_ids meanwhile a log q (some (i, task)) h =
        let started : App dm = record a { tasks = q } in
        let b = (execute_registered dm x show order clock op_ids task (started, log)).1.0 in
        kept.on_tasks b _ b.task_log (
          (execute_registered-Preserves order clock op_ids show task).at started log
            (kept.on_tasks a q a.task_log h))

    module _ (fetch_gutenberg_text : Str → Option Str) (show : Error → Str)
        (order : List Str → List Str) where
      step-Kept :
          (e : NodeEvent) (a : App dm) (log : List Request)
          → Allows e
          → P a
          → P (step dm x fetch_gutenberg_text show order e (a, log)).0
      unfolding step handle_ingest_gutenberg handle_ingest_status handle_search handle_create_book
          node_round created sync_books sync_datalake sync_index sync_queue
      step-Kept (ingest_book d book_id) a log may h =
          (Preserves-bind P (get_document-Preserves book_id) (λ found.
              answer_found-Preserves (fetch_gutenberg_text (source_url_of book_id)) d book_id found
                may)).at
            a log h
      step-Kept (ask_status book_id) a log may h =
          (Preserves-bind P (get_document-Preserves book_id) λ found. Preserves-pure P (
            200,
            record {
              book_id = book_id;
              status = elim found [ some _ ↦ str "available" | none ↦ str "missing" ];
            },
          )).at
            a log h
      step-Kept (ask_search params) a log may h =
          (Preserves-bind P (search-Preserves params.q)
              λ results. Preserves-pure P (paginate params (map item_of results))).at
            a log h
      step-Kept (add_book now task_now book_id op_id task_id req) a log may h =
          (Preserves-bind P
              (Preserves-outcome P
                (put_book-Preserves now op_id book_id (created book_id req) refl))
              (answer_created-Preserves task_now task_id book_id)).at
            a log h
      step-Kept (work now claims clock op_ids meanwhile) a log may h =
          let c = claim_first dm x.site dm.empty claims a.tasks (my_tasks dm x.site now a.tasks) in
          run_claimed-P order show clock op_ids meanwhile a log c.0 c.1 h
      step-Kept (resync_books shuffle) a log may h =
          subst (λ (r : Store dm Str BookMetadata × List Request). P (record a { books = r.0 }))
            (sym (
              sync_partitions_alone dm x.formats.books x.site (str "/books") x.wire alone shuffle
                (a.books, log)))
            h
      step-Kept (resync_datalake shuffle) a log may h =
          subst (λ (r : Store dm Str RawDocument × List Request). P (record a { datalake = r.0 }))
            (sym (
              sync_partitions_alone dm x.formats.datalake x.site (str "/datalake") x.wire alone
                shuffle (a.datalake, log)))
            h
      step-Kept (resync_index shuffle) a log may h =
          subst (λ (r : Store dm Str (List Str) × List Request). P (record a { index = r.0 }))
            (sym (
              sync_partitions_alone dm x.formats.index x.site (str "/index") x.wire alone shuffle
                (a.index, log)))
            h
      step-Kept (resync_queue shuffle) a log may h = kept.on_tasks a _ _ h
      step-Kept (write_book way now op_id key value_json) a log may h =
          let settled =
            handle_write-IsSettled dm x.formats.books x.site (str "/books") x.wire alone way now
              op_id key value_json a.books log in
          elim settled [
            | inl same ↦ subst (λ t. P (record a { books = t })) (sym same) h
            | inr (k, v, parsed, which) ↦ kept.on_book a k v _ (may k v parsed) which h
          ]
      step-Kept (write_document way now op_id key value_json) a log may h =
          let settled =
            handle_write-IsSettled dm x.formats.datalake x.site (str "/datalake") x.wire alone way
              now op_id key value_json a.datalake log in
          elim settled [
            | inl same ↦ subst (λ t. P (record a { datalake = t })) (sym same) h
            | inr (k, v, parsed, which) ↦ kept.on_document a k v _ (may k v parsed) which h
          ]
      step-Kept (write_posting way now op_id key value_json) a log may h =
          let settled =
            handle_write-IsSettled dm x.formats.index x.site (str "/index") x.wire alone way now
              op_id key value_json a.index log in
          elim settled [
            | inl same ↦ subst (λ t. P (record a { index = t })) (sym same) h
            | inr (k, v, parsed, which) ↦ kept.on_posting a k v _ (may k v parsed) which h
          ]
      step-Kept (read_book key) a log may h =
          subst (λ t. P (record a { books = t }))
            (sym (handle_get_reads dm x.formats.books x.site (str "/books") x.wire key a.books log))
            h
      step-Kept (read_document key) a log may h =
          subst (λ t. P (record a { datalake = t }))
            (sym (
              handle_get_reads dm x.formats.datalake x.site (str "/datalake") x.wire key a.datalake
                log))
            h
      step-Kept (read_posting key) a log may h =
          subst (λ t. P (record a { index = t }))
            (sym (handle_get_reads dm x.formats.index x.site (str "/index") x.wire key a.index log))
            h
      step-Kept (submit_task i dummy now task) a log may h = kept.on_tasks a _ _ h
      step-Kept (submit_internal p i now task) a log may h = kept.on_tasks a _ _ h
      step-Kept (replicate_task p i e) a log may h = kept.on_tasks a _ _ h
      step-Kept (ask_task i) a log may h = kept.on_tasks a _ _ h

      pub run-Kept :
          (es : List NodeEvent) (a : App dm) (log : List Request)
          → All Allows es
          → P a
          → P (run dm x fetch_gutenberg_text show order es (a, log)).0
      unfolding run
      run-Kept [] a log may h = h
      run-Kept (e ∷ es) a log (may, later) h =
          let s = step dm x fetch_gutenberg_text show order e (a, log) in
          run-Kept es s.0 s.1 later (step-Kept e a log may h)
