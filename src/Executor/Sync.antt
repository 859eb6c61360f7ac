-- ===== src/Executor/Sync.antt =====
-- src/main.rs, `sync_queue_partitions`: a node asks its peers for the tasks of the partitions
-- that it owns.
pub mod Retention
use stage.Prelude.{ℕ, Option, none, some, List, [], ◌∷◌}
use stage.DashMap.{DashMap}
use stage.Effects.{Result, ok, err, Wire}
use stage.Site.{Site, owners_of, source_owner, target_partitions}
use stage.Executor.Types.{TaskId, TaskEntry, Request, Response}
use stage.Executor.Queue.{Tasks, has_partition, apply_partition_entries}
use stage.Executor.Routing.{fetch_partition}

module _ (dm : DashMap) where
  -- What becomes of the outcome of a fetch: an error or an empty list changes nothing.
  unfoldable pub resync :
      ℕ → Result (List (TaskId × TaskEntry)) × (Tasks dm × List Request) → Tasks dm × List Request
  resync p (ok [], s) = s
  resync p (ok (x ∷ l), (q, log)) = (apply_partition_entries dm q p (x ∷ l), log)
  resync p (err e, s) = s

  module _ (site : Site dm) (w : Wire Request Response) where
    -- The body of the loop.
    unfoldable pub sync_queue_partition : ℕ → Tasks dm × List Request → Tasks dm × List Request
    unfolding resync
    sync_queue_partition p s =
        elim (source_owner dm site (owners_of dm site p) (has_partition dm s.0 p)) [
          | none ↦ s
          | some owner ↦ resync p (fetch_partition dm site w owner p s)
        ]

    unfoldable pub sync_each : List ℕ → Tasks dm × List Request → Tasks dm × List Request
    unfolding sync_queue_partition
    sync_each [] s = s
    sync_each (p ∷ ps) s = sync_each ps (sync_queue_partition p s)

    unfoldable pub sync_queue_partitions :
        (List ℕ → List ℕ) → Tasks dm × List Request → Tasks dm × List Request
    unfolding sync_each
    sync_queue_partitions shuffle s = sync_each (target_partitions dm shuffle site) s
