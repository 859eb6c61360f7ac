-- ===== src/Executor/Worker/Chosen.antt =====
-- src/executor/executor.rs: which task a worker's round takes.
use stage.Prelude.{
  ℕ, suc, ◌≡◌, ap₂, ◌∙◌, subst, Option, none, some, List, [], ◌∷◌, All, All-append, All-of_In, In,
  In-keep_iff, In-of_All, inl, inr, Option-cases, if_cases, str_eq, nat_eq,
}
use stage.DashMap.{DashMap}
use stage.Site.{Site, me, partition_of}
use stage.Storage.Partitioner.{my_primary_partitions}
use stage.Executor.Types.{TaskId, Task, TaskEntry, pending}
use stage.Executor.Queue.{
  Tasks, is_available, get_task_local, available_of, my_pending_tasks, try_claim_task,
}
use stage.Executor.Routing.{my_tasks}
use stage.Executor.Worker.{TaskHandlerRegistry, claim_first}
use stage.Executor.Worker.Progress.{claim_first_progress}

module _ (dm : DashMap) where
  -- An entry of the queue.
  abbrev pub IsHeld : Tasks dm → TaskId × TaskEntry → Type 0
  IsHeld q (id, e) = (p : ℕ) × (get_task_local dm q p id ≡ some e)

  available_of-IsHeld : (now : ℕ) (q : Tasks dm) (p : ℕ) → All (IsHeld q) (available_of dm now q p)
  unfolding available_of get_task_local
  available_of-IsHeld now q p = elim (Option-cases (dm.get q p)) [
    | inl e ↦ rw (e, available_of) tt
    | inr (m, there) ↦
        rw (there, available_of)
          (All-of_In (IsHeld q) _ (λ x i.
            let (within, _) =
              (In-keep_iff
                  (λ (y : TaskId × TaskEntry). is_available now y.1.status y.1.lease_expires) x
                  (dm.entries m)).0
                i in
            (p, rw (there, get_task_local) ((dm.In-entries m x.0 x.1).0 within))))
  ]

  my_pending_tasks-IsHeld :
      (now : ℕ) (q : Tasks dm) (ps : List ℕ) → All (IsHeld q) (my_pending_tasks dm now q ps)
  unfolding my_pending_tasks
  my_pending_tasks-IsHeld now q [] = tt
  my_pending_tasks-IsHeld now q (p ∷ ps) =
      All-append (IsHeld q) (available_of dm now q p) (my_pending_tasks dm now q ps)
        (available_of-IsHeld now q p) (my_pending_tasks-IsHeld now q ps)

  module _ (site : Site dm) (r : TaskHandlerRegistry dm) (id : TaskId) (task : Task) where
    -- An entry of this task.
    abbrev pub IsThis : TaskId × TaskEntry → Type 0
    IsThis (i, e) = (i ≡ id) × (e.task ≡ task)

    -- If there is a claim, it is of this task.
    abbrev Chooses : Tasks dm × Option (TaskId × Task) → Type 0
    Chooses (q, none) = Unit
    Chooses (q, some (i, t)) = (i ≡ id) × (t ≡ task)

    claim_first-Chooses :
        (clock : ℕ → ℕ) (q : Tasks dm) (l : List (TaskId × TaskEntry))
        → All IsThis l
        → Chooses (claim_first dm site r clock q l)
    unfolding claim_first
    claim_first-Chooses clock q [] all = tt
    claim_first-Chooses clock q ((i, x) ∷ l) (same, all) =
        let p = partition_of dm site i in
        let claim = try_claim_task dm (me dm site) (clock 0) q p i in
        if_cases Chooses claim.1 (λ _. same)
          (λ _. claim_first-Chooses (λ i. clock (suc i)) claim.0 l all)

    -- Where a task is pending in a partition of which the node is primary and the queue holds no
    -- other task, a worker's look at the tasks claims this one.
    pub claim_first_only :
        (now : ℕ) (clock : ℕ → ℕ) (q : Tasks dm) (e : TaskEntry)
        → In (partition_of dm site id) (my_primary_partitions dm site.partitioner site.membership)
        → get_task_local dm q (partition_of dm site id) id ≡ some e
        → e.status ≡ pending
        → ((x : TaskId × TaskEntry) → IsHeld q x → IsThis x)
        → (claim_first dm site r clock q (my_tasks dm site now q)).1 ≡ some (id, task)
    unfolding my_tasks
    claim_first_only now clock q e owned here waits only =
        let tasks = my_tasks dm site now q in
        let held =
          my_pending_tasks-IsHeld now q
            (my_primary_partitions dm site.partitioner site.membership) in
        let chooses =
          claim_first-Chooses clock q tasks
            (All-of_In IsThis tasks (λ x i. only x (In-of_All (IsHeld q) tasks held x i))) in
        elim (Option-cases (claim_first dm site r clock q tasks).1) [
          | inl nothing ↦
              absurd (claim_first_progress dm site r now clock q id e owned here waits nothing)
          | inr (x, won) ↦
              let (same, same_task) =
                subst (λ o. Chooses ((claim_first dm site r clock q tasks).0, o)) won chooses in
              won ∙ ap₂ (λ i t. some (i, t)) same same_task
        ]
