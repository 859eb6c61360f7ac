-- ===== src/Executor/Sync/Retention.antt =====
-- src/main.rs, `sync_queue_partitions`: a resync changes no task that a node has.
use stage.Prelude.{
  ℕ, ◌≡◌, ◌∙◌, some, List, [], ◌∷◌, Option-cases, Bool-cases, inl, inr, ◌==◌, nat_eq,
}
use stage.DashMap.{DashMap}
use stage.Effects.{Result, ok, err, Wire}
use stage.Site.{Site, owners_of, source_owner, target_partitions}
use stage.Executor.Types.{TaskId, TaskEntry, Request, Response}
use stage.Executor.Queue.{Tasks, has_partition, get_task_local}
use stage.Executor.Queue.Entries.{get_task_local-apply}
use stage.Executor.Routing.{fetch_partition}
use stage.Executor.Frames.{fetch_partition-Spares}
use stage.Executor.Sync.{resync, sync_queue_partition, sync_each, sync_queue_partitions}

module _ (dm : DashMap) (site : Site dm) (w : Wire Request Response) where
  resync_keeps :
      (p : ℕ) (q : Tasks dm) (r : Result (List (TaskId × TaskEntry)) × (Tasks dm × List Request))
      (p' : ℕ) (id : TaskId) (e : TaskEntry)
      → r.1.0 ≡ q
      → get_task_local dm q p' id ≡ some e
      → get_task_local dm (resync dm p r).0 p' id ≡ some e
  unfolding resync
  resync_keeps p q (ok [], t) p' id e same here = rw same here
  resync_keeps p q (err x, t) p' id e same here = rw same here
  resync_keeps p q (ok (x ∷ l), (t, log)) p' id e same here =
      get_task_local-apply dm t p (x ∷ l) p' id
      ∙ rw same (rw here (elim (Bool-cases (p == p')) [ inl h ↦ rw h | inr h ↦ rw h ]))

  sync_queue_partition_keeps :
      (p : ℕ) (q : Tasks dm) (log : List Request) (p' : ℕ) (id : TaskId) (e : TaskEntry)
      → get_task_local dm q p' id ≡ some e
      → get_task_local dm (sync_queue_partition dm site w p (q, log)).0 p' id ≡ some e
  unfolding sync_queue_partition
  sync_queue_partition_keeps p q log p' id e here =
      elim (Option-cases (source_owner dm site (owners_of dm site p) (has_partition dm q p))) [
        | inl n ↦ rw (n, sync_queue_partition) here
        | inr (o, n) ↦
            rw (n, sync_queue_partition)
              (resync_keeps p q (fetch_partition dm site w o p (q, log)) p' id e
                ((fetch_partition-Spares dm site w (λ t. t) o p).at q log) here)
      ]

  sync_each_keeps :
      (ps : List ℕ) (q : Tasks dm) (log : List Request) (p : ℕ) (id : TaskId) (e : TaskEntry)
      → get_task_local dm q p id ≡ some e
      → get_task_local dm (sync_each dm site w ps (q, log)).0 p id ≡ some e
  unfolding sync_each
  sync_each_keeps [] q log p id e here = here
  sync_each_keeps (r ∷ ps) q log p id e here =
      let t = sync_queue_partition dm site w r (q, log) in
      sync_each_keeps ps t.0 t.1 p id e (sync_queue_partition_keeps r q log p id e here)

  -- Anti-entropy brings tasks and changes none: an entry that the node has, with its status, its
  -- assignment and its lease, is the same after a round, whatever the peers answer and in
  -- whatever order the partitions are visited.
  pub sync_queue_partitions_keeps :
      (shuffle : List ℕ → List ℕ) (q : Tasks dm) (log : List Request) (p : ℕ) (id : TaskId)
      (e : TaskEntry)
      → get_task_local dm q p id ≡ some e
      → get_task_local dm (sync_queue_partitions dm site w shuffle (q, log)).0 p id ≡ some e
  unfolding sync_queue_partitions
  sync_queue_partitions_keeps shuffle q log p id e here =
      sync_each_keeps (target_partitions dm shuffle site) q log p id e here
