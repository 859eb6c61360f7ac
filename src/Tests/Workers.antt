-- ===== src/Tests/Workers.antt =====
-- Runs of the worker, of the queue's resync and of its endpoints.
use stage.Prelude.{ℕ, ◌≡◌, ◌≢◌, inl, inr, refl, none, some, [], ◌∷◌, str, str_eq, nat_eq}
use stage.Assoc.{assoc}
use stage.Effects.{Wire}
use stage.Membership.Service.{get_alive_members}
use stage.Storage.Partitioner.{get_owners, get_partition, is_first, my_primary_partitions}
use stage.Site.{Site, partition_of}
use stage.Executor.Types.{TaskId, Task, execute, TaskEntry, Request, Response, pending}
use stage.Executor.Queue.{
  Tasks, get_task_local, status_of_result, my_pending_tasks, available_of, is_available,
  try_claim_task,
}
use stage.Executor.Queue.Claims.{renew}
use stage.Executor.Routing.{my_tasks}
use stage.Executor.Sync.{sync_queue_partitions}
use stage.Executor.Sync.Retention.{sync_queue_partitions_keeps}
use stage.Executor.Worker.{TaskHandlerRegistry, execute_task, claim_first, worker_round}
use stage.Executor.Worker.Completion.{worker_round_lem}
use stage.Executor.Worker.Progress.{worker_round_progress}
use stage.Tests.{alone, length_hash}

-- A node that is alone, with four partitions.
abbrev pub small_site : Site assoc
small_site = record {
  membership = alone;
  partitioner = record { num_partitions = 4; replication_factor = 2 };
  hash = length_hash;
}

abbrev job : TaskId
job = str "job"

abbrev echo : Task
echo = execute (str "echo") []

abbrev echoed : TaskEntry
echoed = record {
  task = echo;
  status = pending;
  assigned_to = none;
  created_at = 4;
  lease_expires = none;
}

abbrev queued : Tasks assoc
queued = assoc.insert assoc.empty 3 (assoc.insert assoc.empty job echoed)

abbrev handlers : TaskHandlerRegistry assoc
handlers = assoc.insert assoc.empty (str "echo") (λ task. none)

abbrev silent : Wire Request Response
silent = record { answer = λ log q. none; random = λ n. n }

abbrev clock : ℕ → ℕ
clock i = i

worker_round_lem_example :
    (e : TaskEntry) × (get_task_local assoc
        (worker_round assoc small_site handlers 5 clock (renew 9 3 job ∷ []) queued).0
        (partition_of assoc small_site job)
        job
      ≡ some e)
    × (e.status ≡ status_of_result (execute_task assoc handlers echo))
    × (e.lease_expires ≡ none)
unfolding worker_round claim_first my_tasks my_pending_tasks available_of is_available
    try_claim_task my_primary_partitions is_first get_owners get_alive_members get_partition
worker_round_lem_example =
    worker_round_lem assoc small_site handlers 5 clock (renew 9 3 job ∷ []) queued
      (worker_round assoc small_site handlers 5 clock (renew 9 3 job ∷ []) queued).0 job echo refl

worker_round_progress_example : (worker_round assoc small_site handlers 5 clock [] queued).1 ≢ none
unfolding get_task_local my_primary_partitions is_first get_owners get_alive_members get_partition
worker_round_progress_example =
    worker_round_progress assoc small_site handlers 5 clock [] queued job echoed
      (inr (inr (inr (inl refl)))) refl refl

sync_queue_partitions_keeps_example :
    get_task_local assoc
      (sync_queue_partitions assoc small_site silent (λ ps. ps) (queued, [])).0
      3
      job
    ≡ some echoed
unfolding get_task_local
sync_queue_partitions_keeps_example =
    sync_queue_partitions_keeps assoc small_site silent (λ ps. ps) queued [] 3 job echoed refl
