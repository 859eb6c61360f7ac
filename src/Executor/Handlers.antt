-- ===== src/Executor/Handlers.antt =====
-- src/executor/handlers.rs: the queue's HTTP endpoints. A reply is a status with its payload.
pub mod Answers
use stage.Prelude.{ℕ, Option, none, some, List, [], ◌∷◌, Str, ◌==◌, str_eq, if◌then◌else◌}
use stage.DashMap.{DashMap}
use stage.Effects.{Result, ok, err, Wire}
use stage.Membership.Types.{NodeId}
use stage.Site.{Site, partition_of, owners_of, me}
use stage.Executor.Types.{TaskId, TaskStatus, Task, TaskEntry, Request, Response}
use stage.Executor.Queue.{Tasks, new_entry, store_local, dump_partition, get_task_local}
use stage.Executor.Routing.{submit, store_as_primary, get_task}

abbrev pub Reply : Type 0 → Type 0
Reply A = ℕ × A

pub record TaskStatusResponse : Type 0 where
  pub task_id : TaskId
  pub status : TaskStatus
  pub assigned_to : Option NodeId
  pub created_at : ℕ

abbrev pub status_of : TaskId → TaskEntry → TaskStatusResponse
status_of id e = record {
  task_id = id;
  status = e.status;
  assigned_to = e.assigned_to;
  created_at = e.created_at;
}

-- 200 with the status of a task that was found, or 404.
abbrev pub status_reply : TaskId → Option TaskEntry → Reply (Option TaskStatusResponse)
status_reply id none = (404, none)
status_reply id (some e) = (200, some (status_of id e))

-- `get_task` has no error to report: it answers that there is none.
abbrev pub found_of : Result (Option TaskEntry) → Option TaskEntry
found_of (ok found) = found
found_of (err e) = none

module _ (dm : DashMap) where
  unfoldable pub handle_replicate_task : ℕ → TaskId → TaskEntry → Tasks dm → ℕ × Tasks dm
  handle_replicate_task p id e q = (200, store_local dm q p id e)

  unfoldable pub handle_task_partition_dump : Tasks dm → ℕ → Reply (List (TaskId × TaskEntry))
  handle_task_partition_dump q p = (200, dump_partition dm q p)

  module _ (site : Site dm) where
    unfoldable pub handle_get_task_internal : Tasks dm → TaskId → Reply (Option TaskEntry)
    handle_get_task_internal q id = elim (get_task_local dm q (partition_of dm site id) id) [
      | none ↦ (404, none)
      | some e ↦ (200, some e)
    ]

    module _ (w : Wire Request Response) where
      -- `dummy` is the identifier that is drawn for the reply to a failure.
      unfoldable pub handle_submit_task :
          TaskId
          → TaskId
          → ℕ
          → Task
          → Tasks dm × List Request
          → Reply TaskId × (Tasks dm × List Request)
      handle_submit_task id dummy now task s =
          let (r, t) = submit dm site w id now task s in
          elim r [ ok task_id ↦ ((200, task_id), t) | err _ ↦ ((500, dummy), t) ]

      unfoldable pub handle_internal_submit_task :
          ℕ → TaskId → ℕ → Task → Tasks dm × List Request → Reply TaskId × (Tasks dm × List Request)
      handle_internal_submit_task p id now task s =
          let (r, t) = store_as_primary dm site w p id (new_entry now task) s in
          elim r [ ok _ ↦ ((200, id), t) | err _ ↦ ((500, id), t) ]

      unfoldable pub handle_get_task_status_internal :
          TaskId
          → Tasks dm × List Request
          → Reply (Option TaskStatusResponse) × (Tasks dm × List Request)
      handle_get_task_status_internal id s =
          let (r, t) = get_task dm site w id s in (status_reply id (found_of r), t)

      -- Both branches of the test on the primary ask `get_task`.
      unfoldable pub handle_get_task_status :
          TaskId
          → Tasks dm × List Request
          → Reply (Option TaskStatusResponse) × (Tasks dm × List Request)
      handle_get_task_status id s =
          let (r, t) = get_task dm site w id s in
          elim (owners_of dm site (partition_of dm site id)) [
            | [] ↦ (status_reply id (found_of r), t)
            | primary ∷ _ ↦
                if primary == me dm site
                then (status_reply id (found_of r), t)
                else (status_reply id (found_of r), t)
          ]
