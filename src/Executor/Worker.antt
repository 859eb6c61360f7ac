-- ===== src/Executor/Worker.antt =====
-- src/executor/registry.rs and src/executor/executor.rs: the handlers of tasks, and the worker
-- that claims a task, runs its handler and completes it. What a handler returns is a parameter:
-- `none` for `Ok`, the error's text for `Err`.
pub mod Completion
pub mod Progress
pub mod Chosen
pub mod Renewal
use stage.Prelude.{
  ℕ, suc, Bool, true, false, Option, none, some, List, [], ◌∷◌, ◌++◌, map, Str, str, str_eq, length,
  if◌then◌else◌,
}
use stage.DashMap.{DashMap}
use stage.Effects.{Result}
use stage.Site.{Site, me, partition_of}
use stage.Executor.Types.{TaskId, Task, execute, TaskEntry}
use stage.Executor.Queue.{Tasks, try_claim_task, complete_task}
use stage.Executor.Queue.Claims.{Op, run}
use stage.Executor.Routing.{my_tasks}

abbrev pub TaskHandlerFn : Type 0
TaskHandlerFn = Task → Option Str

module _ (dm : DashMap) where
  open dm use {Map, get, insert, entries}

  abbrev pub TaskHandlerRegistry : Type 0
  TaskHandlerRegistry = Map Str TaskHandlerFn

  unfoldable pub register : TaskHandlerRegistry → Str → TaskHandlerFn → TaskHandlerRegistry
  register r handler_name handler = insert r handler_name handler

  -- `execute` of the registry, which `execute_task` of the executor calls.
  unfoldable pub execute_task : TaskHandlerRegistry → Task → Option Str
  execute_task r (execute handler payload) = elim (get r handler) [
    | none ↦ some (str "Unknown task handler: " ++ handler)
    | some handler_fn ↦ handler_fn (execute handler payload)
  ]

  unfoldable pub has_handler : TaskHandlerRegistry → Str → Bool
  has_handler r handler_name = elim (get r handler_name) [ none ↦ false | some _ ↦ true ]

  unfoldable pub list_handlers : TaskHandlerRegistry → List Str
  list_handlers r = map (λ e. e.0) (entries r)

  unfoldable pub handler_count : TaskHandlerRegistry → ℕ
  handler_count r = length (entries r)

  module _ (site : Site dm) (r : TaskHandlerRegistry) where
    -- The loop over the available tasks: the first claim that succeeds ends it. Each claim reads
    -- the clock.
    unfoldable pub claim_first :
        (ℕ → ℕ) → Tasks dm → List (TaskId × TaskEntry) → Tasks dm × Option (TaskId × Task)
    claim_first clock q [] = (q, none)
    claim_first clock q ((id, e) ∷ l) =
        let (t, won) = try_claim_task dm (me dm site) (clock 0) q (partition_of dm site id) id in
        let rest = claim_first (λ i. clock (suc i)) t l in
        if won then (t, some (id, e.task)) else rest

    -- `execute_with_lease` for a claimed task: `meanwhile` is what other workers, the renewals of
    -- the lease and other nodes do while the handler runs.
    unfoldable pub execute_with_lease : Tasks dm → List Op → TaskId → Task → Tasks dm
    unfolding execute_task
    execute_with_lease q meanwhile id task =
        (complete_task dm (run dm q meanwhile) (partition_of dm site id) id (execute_task r task)).1

    -- One round of `worker_loop`: the state, and the task that was claimed and completed.
    unfoldable pub worker_round :
        ℕ → (ℕ → ℕ) → List Op → Tasks dm → Tasks dm × Option (TaskId × Task)
    unfolding claim_first execute_with_lease
    worker_round now clock meanwhile q =
        let (t, claimed) = claim_first clock q (my_tasks dm site now q) in
        elim claimed [
          | none ↦ (t, none)
          | some (id, task) ↦ (execute_with_lease t meanwhile id task, some (id, task))
        ]
