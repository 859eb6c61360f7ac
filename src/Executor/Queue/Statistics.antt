-- ===== src/Executor/Queue/Statistics.antt =====
-- src/executor/queue.rs: the figures that `handle_stats` reports.
use stage.Prelude.{ℕ, ◌+◌, ◌≡◌, List, [], ◌∷◌, length, arith}
use stage.DashMap.{DashMap}
use stage.Executor.Types.{TaskId, TaskStatus, pending, running, completed, failed, TaskEntry}
use stage.Executor.Queue.{
  Partition, Tasks, Counts, count_one, count_entries, sum_lengths, local_task_count,
  count_partitions, local_task_status_counts,
}

unfoldable pub total : Counts → ℕ
total c = c.n_pending + c.n_running + c.n_completed + c.n_failed

total-count_one : (st : TaskStatus) (c : Counts) → total (count_one st c) ≡ total c + 1
unfolding total count_one
total-count_one pending c = omega arith
total-count_one running c = omega arith
total-count_one completed c = omega arith
total-count_one (failed e) c = omega arith

total-count_entries :
    (l : List (TaskId × TaskEntry)) (c : Counts) → total (count_entries l c) ≡ total c + length l
unfolding count_entries
total-count_entries [] c = omega arith
total-count_entries ((id, e) ∷ l) c =
    omega (arith, total-count_entries l (count_one e.status c), total-count_one e.status c)

module _ (dm : DashMap) where
  total-count_partitions :
      (l : List (ℕ × Partition dm)) (c : Counts)
      → total (count_partitions dm l c) ≡ total c + sum_lengths dm l
  unfolding count_partitions sum_lengths
  total-count_partitions [] c = omega arith
  total-count_partitions ((p, m) ∷ l) c = omega (
    arith,
    total-count_partitions l (count_entries (dm.entries m) c),
    total-count_entries (dm.entries m) c,
  )

  -- Every task is counted under exactly one status: the four figures add up to the number of
  -- tasks.
  pub total-local_task_status_counts :
      (q : Tasks dm) → total (local_task_status_counts dm q) ≡ local_task_count dm q
  unfolding local_task_status_counts local_task_count total
  total-local_task_status_counts q = omega (
    arith,
    total-count_partitions (dm.entries q)
        (record { n_pending = 0; n_running = 0; n_completed = 0; n_failed = 0 }),
  )
