-- ===== src/Executor/Queue.antt =====
-- src/executor/queue.rs: the local tasks of a node, and the operations on them that need no other
-- node. A `get_mut` guard holds its entry's lock, so each operation on one entry is one step.
pub mod Entries
pub mod Claims
pub mod Replies
pub mod Exclusion
pub mod Statistics
pub mod Leases
use stage.Prelude.{
  ℕ, zero, suc, ◌+◌, ◌%◌, ◌^◌, Bool, true, false, not, ◌&&◌, ◌||◌, Option, none, some, List, [],
  ◌∷◌, ◌++◌, map, Str, ◌==◌, str_eq, nat_eq, ltb, if◌then◌else◌, keep, length, is_empty,
}
use mathlib.Core.Option
use stage.DashMap.{DashMap}
use stage.Effects.{Error, task_not_found, not_running, Result, ok, err}
use stage.Membership.Types.{NodeId}
use stage.Executor.Types.{
  TaskId, TaskStatus, pending, running, completed, failed, is_pending, is_running, Task, TaskEntry,
}

-- `now_ms() + 30_000` on u64.
abbrev pub lease_until : ℕ → ℕ
lease_until now = (now + 30_000) % 2 ^ 64

-- A new entry, as `submit` and `handle_internal_submit_task` build it.
unfoldable pub new_entry : ℕ → Task → TaskEntry
new_entry now task = record {
  task = task;
  status = pending;
  assigned_to = none;
  created_at = now;
  lease_expires = none;
}

-- The match of `my_pending_tasks` on a status.
unfoldable pub is_available : ℕ → TaskStatus → Option ℕ → Bool
is_available now pending lease = true
is_available now running none = false
is_available now running (some lease) = ltb lease now
is_available now completed lease = false
is_available now (failed e) lease = false

-- The status that `complete_task` sets: the result is `none` for `Ok`, the error's text for `Err`.
abbrev pub status_of_result : Option Str → TaskStatus
status_of_result none = completed
status_of_result (some e) = failed e

-- Counts of pending, running, completed and failed entries.
pub record Counts : Type 0 where
  pub n_pending : ℕ
  pub n_running : ℕ
  pub n_completed : ℕ
  pub n_failed : ℕ

unfoldable pub count_one : TaskStatus → Counts → Counts
count_one pending c = record c { n_pending = c.n_pending + 1 }
count_one running c = record c { n_running = c.n_running + 1 }
count_one completed c = record c { n_completed = c.n_completed + 1 }
count_one (failed e) c = record c { n_failed = c.n_failed + 1 }

unfoldable pub count_entries : List (TaskId × TaskEntry) → Counts → Counts
count_entries [] c = c
count_entries ((id, e) ∷ l) c = count_entries l (count_one e.status c)

module _ (dm : DashMap) where
  open dm use {Map, empty, get, insert, entries}

  abbrev pub Partition : Type 0
  Partition = Map TaskId TaskEntry

  -- `local_tasks: DashMap<u32, DashMap<TaskId, TaskEntry>>`
  abbrev pub Tasks : Type 0
  Tasks = Map ℕ Partition

  -- `local_tasks.entry(partition).or_insert_with(DashMap::new)`
  abbrev pub partition_or_new : Tasks → ℕ → Partition
  partition_or_new q p = elim (get q p) [ none ↦ empty | some m ↦ m ]

  abbrev pub contains_key : Partition → TaskId → Bool
  contains_key m id = elim (get m id) [ none ↦ false | some _ ↦ true ]

  unfoldable pub insert_absent : Partition → TaskId → TaskEntry → Partition
  insert_absent m id e = if contains_key m id then m else insert m id e

  unfoldable pub store_local : Tasks → ℕ → TaskId → TaskEntry → Tasks
  unfolding insert_absent
  store_local q p id e = insert q p (insert_absent (partition_or_new q p) id e)

  unfoldable pub dump_partition : Tasks → ℕ → List (TaskId × TaskEntry)
  dump_partition q p = elim (get q p) [ none ↦ [] | some m ↦ entries m ]

  unfoldable pub has_partition : Tasks → ℕ → Bool
  has_partition q p = elim (get q p) [ none ↦ false | some m ↦ not (is_empty (entries m)) ]

  unfoldable pub insert_all : Partition → List (TaskId × TaskEntry) → Partition
  unfolding insert_absent
  insert_all m [] = m
  insert_all m ((id, e) ∷ l) = insert_all (insert_absent m id e) l

  unfoldable pub apply_partition_entries : Tasks → ℕ → List (TaskId × TaskEntry) → Tasks
  unfolding insert_all
  apply_partition_entries q p l = insert q p (insert_all (partition_or_new q p) l)

  unfoldable pub local_partition_count : Tasks → ℕ
  local_partition_count q = length (entries q)

  unfoldable pub sum_lengths : List (ℕ × Partition) → ℕ
  sum_lengths [] = 0
  sum_lengths ((p, m) ∷ l) = length (entries m) + sum_lengths l

  unfoldable pub local_task_count : Tasks → ℕ
  unfolding sum_lengths
  local_task_count q = sum_lengths (entries q)

  unfoldable pub count_partitions : List (ℕ × Partition) → Counts → Counts
  unfolding count_entries count_one
  count_partitions [] c = c
  count_partitions ((p, m) ∷ l) c = count_partitions l (count_entries (entries m) c)

  unfoldable pub local_task_status_counts : Tasks → Counts
  unfolding count_partitions
  local_task_status_counts q =
      count_partitions (entries q)
        (record { n_pending = 0; n_running = 0; n_completed = 0; n_failed = 0 })

  -- `get_task_local`, with the partition of the id computed by the caller.
  unfoldable pub get_task_local : Tasks → ℕ → TaskId → Option TaskEntry
  get_task_local q p id = elim (get q p) [ none ↦ none | some m ↦ get m id ]

  -- A write to an entry of a partition that is there.
  abbrev pub set_entry : Tasks → ℕ → Partition → TaskId → TaskEntry → Tasks
  set_entry q p m id e = insert q p (insert m id e)

  unfoldable pub available_of : ℕ → Tasks → ℕ → List (TaskId × TaskEntry)
  unfolding is_available
  available_of now q p = elim (get q p) [
    | none ↦ []
    | some m ↦ keep (λ x. is_available now x.1.status x.1.lease_expires) (entries m)
  ]

  -- `my_pending_tasks`, over the partitions of which the node is primary.
  unfoldable pub my_pending_tasks : ℕ → Tasks → List ℕ → List (TaskId × TaskEntry)
  unfolding available_of
  my_pending_tasks now q [] = []
  my_pending_tasks now q (p ∷ ps) = available_of now q p ++ my_pending_tasks now q ps

  unfoldable pub try_claim_task : NodeId → ℕ → Tasks → ℕ → TaskId → Tasks × Bool
  try_claim_task me now q p id = elim (get q p) [
    | none ↦ (q, false)
    | some m ↦ (elim (get m id) [
      | none ↦ (q, false)
      | some e ↦
          if is_pending e.status
          then (
            set_entry q p m id (record e {
              status = running;
              assigned_to = some me;
              lease_expires = some (lease_until now);
            }),
            true,
          )
          else (q, false)
    ])
  ]

  unfoldable pub renew_lease : ℕ → Tasks → ℕ → TaskId → Result (Unit {0}) × Tasks
  renew_lease now q p id = elim (get q p) [
    | none ↦ (err task_not_found, q)
    | some m ↦ (elim (get m id) [
      | none ↦ (err task_not_found, q)
      | some e ↦
          if is_running e.status
          then (ok tt, set_entry q p m id (record e { lease_expires = some (lease_until now) }))
          else (err not_running, q)
    ])
  ]

  unfoldable pub complete_task : Tasks → ℕ → TaskId → Option Str → Result (Unit {0}) × Tasks
  complete_task q p id result = elim (get q p) [
    | none ↦ (err task_not_found, q)
    | some m ↦ (elim (get m id) [
      | none ↦ (err task_not_found, q)
      | some e ↦ (
        ok tt,
        set_entry q p m id (record e { status = status_of_result result; lease_expires = none }),
      )
    ])
  ]
