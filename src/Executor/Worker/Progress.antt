-- ===== src/Executor/Worker/Progress.antt =====
-- src/executor/executor.rs: no pending task is left lying.
use stage.Prelude.{
  ℕ, ◌≡◌, ◌≢◌, subst, true, false, none, some, List, [], ◌∷◌, In, In-keep_iff, In-append_left,
  In-append_right, In-of_All, inl, inr, Option-cases, arith, str_eq, nat_eq,
}
use stage.DashMap.{DashMap}
use stage.Site.{Site, partition_of}
use stage.Storage.Partitioner.{my_primary_partitions}
use stage.Executor.Types.{TaskId, TaskEntry, pending}
use stage.Executor.Queue.{Tasks, is_available, get_task_local, available_of, my_pending_tasks}
use stage.Executor.Queue.Claims.{Op}
use stage.Executor.Queue.Entries
use stage.Executor.Queue.Replies.{claim_reply}
use stage.Executor.Routing.{my_tasks}
use stage.Executor.Worker.{TaskHandlerRegistry, claim_first, worker_round}
use stage.Executor.Worker.Completion.{claim_first-none}

module _ (dm : DashMap) where
  In-my_pending_tasks :
      (now : ℕ) (q : Tasks dm) (ps : List ℕ) (p : ℕ) (id : TaskId) (e : TaskEntry)
      → In p ps
      → get_task_local dm q p id ≡ some e
      → e.status ≡ pending
      → In (id, e) (my_pending_tasks dm now q ps)
  unfolding my_pending_tasks available_of is_available
  In-my_pending_tasks now q [] p id e i found waits = elim i [ ]
  In-my_pending_tasks now q (r ∷ ps) p id e (inl same) found waits =
      let (m, there, here) = Entries.partition_of dm q p id e found in
      let available : is_available now e.status e.lease_expires ≡ true = rw waits in
      let at = subst (λ n. dm.get q n ≡ some m) same there in
      In-append_left (id, e) (available_of dm now q r) (my_pending_tasks dm now q ps)
        (rw (at, available_of)
          ((In-keep_iff _ (id, e) (dm.entries m)).1 ((dm.In-entries m id e).1 here, available)))
  In-my_pending_tasks now q (r ∷ ps) p id e (inr i) found waits =
      In-append_right (id, e) (available_of dm now q r) (my_pending_tasks dm now q ps)
        (In-my_pending_tasks now q ps p id e i found waits)

  -- While a task is pending in a partition of which the node is primary, a worker's look at the
  -- tasks claims one.
  pub claim_first_progress :
      (site : Site dm) (r : TaskHandlerRegistry dm) (now : ℕ) (clock : ℕ → ℕ) (q : Tasks dm)
      (id : TaskId) (e : TaskEntry)
      → In (partition_of dm site id) (my_primary_partitions dm site.partitioner site.membership)
      → get_task_local dm q (partition_of dm site id) id ≡ some e
      → e.status ≡ pending
      → (claim_first dm site r clock q (my_tasks dm site now q)).1 ≢ none
  unfolding my_tasks claim_reply
  claim_first_progress site r now clock q id e owned here waits nothing =
      let tasks = my_tasks dm site now q in
      let (_, passed) = claim_first-none dm site r clock q tasks nothing in
      let refused =
        In-of_All
          (λ (x : TaskId × TaskEntry).
            claim_reply (get_task_local dm q (partition_of dm site x.0) x.0) ≡ false)
          tasks passed (id, e)
          (In-my_pending_tasks now q (my_primary_partitions dm site.partitioner site.membership)
            (partition_of dm site id) id e owned here waits) in
      absurd (let k = rw (here, waits) at refused in ground arith)

  -- While a task is pending in a partition of which the node is primary, a worker's round does not
  -- end without having claimed a task.
  pub worker_round_progress :
      (site : Site dm) (r : TaskHandlerRegistry dm) (now : ℕ) (clock : ℕ → ℕ) (meanwhile : List Op)
      (q : Tasks dm) (id : TaskId) (e : TaskEntry)
      → In (partition_of dm site id) (my_primary_partitions dm site.partitioner site.membership)
      → get_task_local dm q (partition_of dm site id) id ≡ some e
      → e.status ≡ pending
      → (worker_round dm site r now clock meanwhile q).1 ≢ none
  unfolding worker_round
  worker_round_progress site r now clock meanwhile q id e owned here waits h =
      elim (Option-cases (claim_first dm site r clock q (my_tasks dm site now q)).1) [
        | inl nothing ↦ claim_first_progress site r now clock q id e owned here waits nothing
        | inr (x, won) ↦ absurd (let k = rw (won, worker_round) at h in ground arith)
      ]
