-- ===== src/Indexer/Round.antt =====
-- src/main.rs and src/executor/executor.rs together: a worker of a node with the handler
-- "index_document" that `main` registers, which works on the node's maps.
use stage.Prelude.{
  ℕ, ◌≡◌, refl, ap, sym, ◌∙◌, subst, Option, none, some, List, ◌++◌, Str, str, ◌==◌, str_eq,
  if◌then◌else◌, In,
}
use stage.DashMap.{DashMap}
use stage.Effects.{Error, raised, Result, ok, err, fail}
use stage.Site.{IsAlone, partition_of}
use stage.Storage.Protocol.{Request}
use stage.Executor.Types.{TaskId, Task, execute, TaskEntry, completed}
use stage.Executor.Queue.{Tasks, get_task_local, complete_task}
use stage.Executor.Queue.Claims.{Op, run}
use stage.Executor.Routing.{my_tasks}
use stage.Executor.Worker.{claim_first}
use stage.Executor.Worker.Completion.{Landed, claim_first-Landed, run_there, complete_there}
use stage.App.{App, Act, Setting, index_task}
use stage.App.Alone.{documents_in, books_in, postings_in}
use stage.Search.Types.{BookMetadata}
use stage.Ingestion.Types.{RawDocument}
use stage.Search.Tokenizer.{tokenize_text}
use stage.Search.Tokenizer.Agreement.{tokenize_query-tokenize_text}
use stage.Search.Engine.{Scored, search}
use stage.Indexer.{or_default, index_document}
use stage.Indexer.Postings.{IsFresh}
use stage.Indexer.Lasting.{IsFindable}
use stage.Indexer.Found.{index_document_posted, search_posted}

-- The outcome as the queue records it; `show` is `to_string` of an error.
abbrev pub text_of : (Error → Str) → Result (Unit {0}) → Option Str
text_of show (ok _) = none
text_of show (err e) = some (show e)

module _ (dm : DashMap) (x : Setting dm) (show : Error → Str) (shuffle : List Str → List Str) where
  -- The registry of `main`, which has one handler.
  unfoldable pub execute_registered : (ℕ → ℕ) → (ℕ → Str) → Task → Act dm (Unit {0})
  execute_registered clock op_ids (execute handler payload) =
      if handler == str "index_document"
      then index_document dm x shuffle clock op_ids (execute handler payload)
      else fail (raised (str "Unknown task handler: " ++ handler))

  -- The handler of a claimed task runs on the maps, while other workers and nodes work on the
  -- queue; then the task is completed with its outcome.
  unfoldable pub run_claimed :
      (ℕ → ℕ)
      → (ℕ → Str)
      → List Op
      → App dm × List Request
      → Tasks dm × Option (TaskId × Task)
      → (App dm × List Request) × Option (TaskId × Task)
  unfolding execute_registered
  run_claimed clock op_ids meanwhile (a, log) (q, none) = ((record a { tasks = q }, log), none)
  run_claimed clock op_ids meanwhile (a, log) (q, some (id, task)) =
      let (r, (b, sent)) = execute_registered clock op_ids task (record a { tasks = q }, log) in
      (
        (
          record b {
            tasks =
                (complete_task dm (run dm b.tasks meanwhile) (partition_of dm x.site id) id
                  (text_of show r)).1;
          },
          sent,
        ),
        some (id, task),
      )

  -- One round of `worker_loop`: when it polls, when it claims, and what the handler draws.
  unfoldable pub node_round :
      ℕ
      → (ℕ → ℕ)
      → (ℕ → ℕ)
      → (ℕ → Str)
      → List Op
      → App dm × List Request
      → (App dm × List Request) × Option (TaskId × Task)
  unfolding run_claimed
  node_round now claims clock op_ids meanwhile (a, log) =
      run_claimed clock op_ids meanwhile (a, log)
        (claim_first dm x.site dm.empty claims a.tasks (my_tasks dm x.site now a.tasks))

  -- The task is completed, the book has metadata and is posted under the term, and is found by it.
  abbrev pub Indexed :
      TaskId → Str → Str → BookMetadata → (App dm × List Request) × Option (TaskId × Task) → Type 0
  Indexed id book_id term m ((b, log), claimed) =
      ((e : TaskEntry) × (get_task_local dm b.tasks (partition_of dm x.site id) id ≡ some e)
        × (e.status ≡ completed)
        × (e.lease_expires ≡ none))
      × IsFindable dm x book_id term b
      × ((results : List Scored) × (sent : List Request) × (search dm x term (b, log)
            ≡ (ok results, (b, sent)))
          × ((n : ℕ) × In (m, n) results))

  -- The task that is reported is the one that was claimed.
  run_claimed_which :
      (clock : ℕ → ℕ) (op_ids : ℕ → Str) (meanwhile : List Op) (s : App dm × List Request)
      (q : Tasks dm) (claimed : Option (TaskId × Task))
      → (run_claimed clock op_ids meanwhile s (q, claimed)).1 ≡ claimed
  unfolding run_claimed
  run_claimed_which clock op_ids meanwhile (a, log) q none = refl
  run_claimed_which clock op_ids meanwhile (a, log) q (some (id, task)) = refl

  -- A round reports the task that it claimed.
  pub node_round-claim_first :
      (now : ℕ) (claims clock : ℕ → ℕ) (op_ids : ℕ → Str) (meanwhile : List Op) (a : App dm)
      (log : List Request)
      → (node_round now claims clock op_ids meanwhile (a, log)).1
        ≡ (claim_first dm x.site dm.empty claims a.tasks (my_tasks dm x.site now a.tasks)).1
  unfolding node_round
  node_round-claim_first now claims clock op_ids meanwhile a log =
      let c = claim_first dm x.site dm.empty claims a.tasks (my_tasks dm x.site now a.tasks) in
      run_claimed_which clock op_ids meanwhile (a, log) c.0 c.1

  module _ (clock : ℕ → ℕ) (op_ids : ℕ → Str) (meanwhile : List Op) (id : TaskId)
      (book_id term : Str) (doc : RawDocument) (m : BookMetadata)
      (keeps : (w : Str) (ws : List Str) → In w ws → In w (shuffle ws)) (alone : IsAlone dm x.site)
      (i : In term (tokenize_text x.unicode x.regex doc.body)) (named : m.book_id ≡ book_id) where
    run_claimed-Indexed :
        (a : App dm) (log : List Request) (q : Tasks dm) (claimed : Option (TaskId × Task))
        → Landed dm x.site dm.empty (q, claimed)
        → claimed ≡ some (id, index_task dm x book_id)
        → IsFresh dm x a.index op_ids
        → documents_in dm x a book_id ≡ some doc
        → books_in dm x a book_id ≡ some m
        → Indexed id book_id term m (run_claimed clock op_ids meanwhile (a, log) (q, claimed))
    unfolding run_claimed
    run_claimed-Indexed a log q claimed landed same fresh there known =
        let p = partition_of dm x.site id in
        let started : App dm = record a { tasks = q } in
        let (t, ran, posted) =
          index_document_posted dm x shuffle clock op_ids book_id doc term started log keeps alone
            fresh there i in
        let (e, here) = subst (λ o. Landed dm x.site dm.empty (q, o)) same landed in
        let (e', still) = run_there dm q meanwhile p id e here in
        let done = complete_there dm (run dm q meanwhile) p id none e' still in
        let b : App dm = record started {
          index = t;
          tasks = (complete_task dm (run dm q meanwhile) p id none).1;
        } in
        subst (λ o. Indexed id book_id term m (run_claimed clock op_ids meanwhile (a, log) (q, o)))
          (sym same)
          (subst
            (λ (r : Result (Unit {0}) × (App dm × List Request)). Indexed id book_id term m (
              (
                record r.1.0 {
                  tasks =
                      (complete_task dm (run dm r.1.0.tasks meanwhile) p id (text_of show r.0)).1;
                },
                r.1.1,
              ),
              some (id, index_task dm x book_id),
            ))
            (sym ran)
            (
              (_, done, refl, refl),
              ((m, known, named), (_, posted)),
              search_posted dm x b book_id term (or_default (postings_in dm x started term)) m log
                  alone posted known
                  (tokenize_query-tokenize_text x.unicode x.regex doc.body term i),
            ))

    -- On a node that owns everything, once a worker's round has claimed the index task of a book
    -- whose document and metadata are there, the task is completed without a lease and the book is
    -- found by any term of its document, whatever else happens to the queue while the task runs.
    pub node_round_found :
        (now : ℕ) (claims : ℕ → ℕ) (a b : App dm) (log sent : List Request)
        → node_round now claims clock op_ids meanwhile (a, log)
          ≡ ((b, sent), some (id, index_task dm x book_id))
        → IsFresh dm x a.index op_ids
        → documents_in dm x a book_id ≡ some doc
        → books_in dm x a book_id ≡ some m
        → Indexed id book_id term m ((b, sent), some (id, index_task dm x book_id))
    unfolding node_round
    node_round_found now claims a b log sent ran fresh there known =
        let tasks = my_tasks dm x.site now a.tasks in
        let c = claim_first dm x.site dm.empty claims a.tasks tasks in
        subst (Indexed id book_id term m) ran (
          run_claimed-Indexed a log c.0 c.1
            (claim_first-Landed dm x.site dm.empty claims a.tasks tasks)
            (sym (run_claimed_which clock op_ids meanwhile (a, log) c.0 c.1) ∙ ap (λ r. r.1) ran)
            fresh there known)
