-- ===== src/Executor/Worker/Completion.antt =====
-- src/executor/executor.rs: a task that a worker claims is completed, and a round without a claim
-- leaves the tasks alone.
use stage.Prelude.{
  ℕ, suc, ◌≡◌, refl, ◌∙◌, sym, subst, if_cases, true, false, Option, none, some, List, [], ◌∷◌, Str,
  ◌==◌, ==_refl, str_eq, nat_eq, All, if◌then◌else◌, Option-cases, Bool-cases, inl, inr, arith,
}
use stage.DashMap.{DashMap}
use stage.Site.{Site, me, partition_of}
use stage.Executor.Types.{TaskId, Task, execute, TaskEntry}
use stage.Executor.Queue.{Tasks, try_claim_task, complete_task, get_task_local, status_of_result}
use stage.Executor.Queue.Claims.{Op, run, step, step-Evolves, claimed, finished}
use stage.Executor.Queue.Replies.{claim_reply, if_pending, try_claim_task_lem, complete_task_lem}
use stage.Executor.Routing.{my_tasks}
use stage.Executor.Worker.{
  TaskHandlerRegistry, register, execute_task, claim_first, execute_with_lease, worker_round,
}

module _ (dm : DashMap) where
  -- An entry is still there after any operations.
  pub run_there :
      (q : Tasks dm) (ops : List Op) (p : ℕ) (id : TaskId) (e : TaskEntry)
      → get_task_local dm q p id ≡ some e
      → (e' : TaskEntry) × (get_task_local dm (run dm q ops) p id ≡ some e')
  unfolding run
  run_there q [] p id e here = (e, here)
  run_there q (op ∷ ops) p id e here =
      let (e', there, _) = step-Evolves dm q op p id e here in
      run_there (step dm q op) ops p id e' there

  claim_there :
      (me : Str) (now : ℕ) (q : Tasks dm) (p : ℕ) (id : TaskId)
      → (try_claim_task dm me now q p id).1 ≡ true
      → (e : TaskEntry) × (get_task_local dm (try_claim_task dm me now q p id).0 p id ≡ some e)
  unfolding claim_reply
  claim_there me now q p id won =
      let (reply, edits) = try_claim_task_lem dm q p id me now in
      elim (Option-cases (get_task_local dm q p id)) [
        | inl n ↦ absurd (ground (arith, reply, n))
        | inr (e, here) ↦ (
          if_pending (claimed me now) e,
          edits p id ∙ rw (==_refl {A = ℕ} p, ==_refl {A = TaskId} id, here),
        )
      ]

  pub complete_there :
      (q : Tasks dm) (p : ℕ) (id : TaskId) (result : Option Str) (e : TaskEntry)
      → get_task_local dm q p id ≡ some e
      → get_task_local dm (complete_task dm q p id result).1 p id ≡ some (finished result e)
  complete_there q p id result e here =
      (complete_task_lem dm q p id result).1 p id
      ∙ rw (==_refl {A = ℕ} p, ==_refl {A = TaskId} id, here)

  -- A handler that is registered is the one that runs for its name, and other names keep theirs.
  pub execute_task-register :
      (r : TaskHandlerRegistry dm) (name handler payload : Str) (h : Task → Option Str)
      → execute_task dm (register dm r name h) (execute handler payload) ≡ (
          if name == handler
          then h (execute handler payload)
          else execute_task dm r (execute handler payload))
  unfolding execute_task register
  execute_task-register r name handler payload h =
      rw (dm.get-insert r name h handler, execute_task)
        (elim (Bool-cases (name == handler)) [ inl e ↦ rw e | inr e ↦ rw e ])

  module _ (site : Site dm) (r : TaskHandlerRegistry dm) where
    -- The task that was claimed is there.
    abbrev pub Landed : Tasks dm × Option (TaskId × Task) → Type 0
    Landed (t, none) = Unit
    Landed (t, some (id, task)) =
        (e : TaskEntry) × (get_task_local dm t (partition_of dm site id) id ≡ some e)

    -- The task that was claimed is there with its handler's outcome and no lease.
    abbrev Done : Tasks dm × Option (TaskId × Task) → Type 0
    Done (t, none) = Unit
    Done (t, some (id, task)) =
        (e : TaskEntry) × (get_task_local dm t (partition_of dm site id) id ≡ some e)
        × (e.status ≡ status_of_result (execute_task dm r task))
        × (e.lease_expires ≡ none)

    pub claim_first-Landed :
        (clock : ℕ → ℕ) (q : Tasks dm) (l : List (TaskId × TaskEntry))
        → Landed (claim_first dm site r clock q l)
    unfolding claim_first
    claim_first-Landed clock q [] = tt
    claim_first-Landed clock q ((i, x) ∷ l) =
        let p = partition_of dm site i in
        let t = (try_claim_task dm (me dm site) (clock 0) q p i).0 in
        if_cases Landed (try_claim_task dm (me dm site) (clock 0) q p i).1
          (λ won. claim_there (me dm site) (clock 0) q p i won)
          (λ lost. claim_first-Landed (λ i. clock (suc i)) t l)

    execute-Done :
        (meanwhile : List Op) (x : Tasks dm × Option (TaskId × Task))
        → Landed x
        → Done (elim x.1 [
          | none ↦ (x.0, none)
          | some (id, task) ↦ (execute_with_lease dm site r x.0 meanwhile id task, some (id, task))
        ])
    unfolding execute_with_lease
    execute-Done meanwhile (q, none) landed = tt
    execute-Done meanwhile (q, some (id, task)) (e, here) =
        let p = partition_of dm site id in
        let result = execute_task dm r task in
        let (e', there) = run_there q meanwhile p id e here in
        (finished result e', complete_there (run dm q meanwhile) p id result e' there, refl, refl)

    claim_lost :
        (now : ℕ) (q : Tasks dm) (p : ℕ) (id : TaskId)
        → (try_claim_task dm (me dm site) now q p id).1 ≡ false
        → (try_claim_task dm (me dm site) now q p id).0 ≡ q
    unfolding try_claim_task
    claim_lost now q p id h = ground arith

    -- A round that claims nothing changes nothing, and none of the tasks that it looked at was
    -- there and pending.
    pub claim_first-none :
        (clock : ℕ → ℕ) (q : Tasks dm) (l : List (TaskId × TaskEntry))
        → (claim_first dm site r clock q l).1 ≡ none
        → ((claim_first dm site r clock q l).0 ≡ q)
          × All (λ x. claim_reply (get_task_local dm q (partition_of dm site x.0) x.0) ≡ false) l
    unfolding claim_first
    claim_first-none clock q [] h = (refl, tt)
    claim_first-none clock q ((i, x) ∷ l) h =
        let p = partition_of dm site i in
        let claim = try_claim_task dm (me dm site) (clock 0) q p i in
        let (reply, _) = try_claim_task_lem dm q p i (me dm site) (clock 0) in
        elim (Bool-cases claim.1) [
          | inl won ↦ absurd (ground (arith, rw won at h))
          | inr lost ↦
              let same : claim.0 ≡ q = claim_lost (clock 0) q p i lost in
              let h' = rw same at (rw lost at h) in
              let (unchanged, others) = claim_first-none (λ i. clock (suc i)) q l h' in
              rw lost (rw same (unchanged, (sym reply ∙ lost, others)))
        ]

    -- The task that a round claims is completed by it: afterwards its status is what its handler
    -- returned, and it has no lease, whatever happens while the handler runs.
    pub worker_round_lem :
        (now : ℕ) (clock : ℕ → ℕ) (meanwhile : List Op) (q t : Tasks dm) (id : TaskId) (task : Task)
        → worker_round dm site r now clock meanwhile q ≡ (t, some (id, task))
        → (e : TaskEntry) × (get_task_local dm t (partition_of dm site id) id ≡ some e)
          × (e.status ≡ status_of_result (execute_task dm r task))
          × (e.lease_expires ≡ none)
    unfolding worker_round
    worker_round_lem now clock meanwhile q t id task h = subst Done h (
        execute-Done meanwhile (claim_first dm site r clock q (my_tasks dm site now q))
          (claim_first-Landed clock q (my_tasks dm site now q)))
