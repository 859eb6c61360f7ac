-- ===== src/Executor/Handlers/Answers.antt =====
-- src/executor/handlers.rs: what a client and a forwarding node are told.
use stage.Prelude.{
  ℕ, ◌≡◌, refl, ap, ◌∙◌, true, none, some, List, [], ◌∷◌, drop, Option-cases, inl, inr, if_cases,
  ==_refl, nat_eq, str_eq, arith, if◌then◌else◌, ◌==◌,
}
use stage.DashMap.{DashMap}
use stage.Effects.{Result, ok, err, Wire}
use stage.Membership.Types.{NodeId}
use stage.Site.{Site, partition_of, owners_of, me}
use stage.Storage.Partitioner.{is_first}
use stage.Executor.Types.{TaskId, Task, Request, Response}
use stage.Executor.Queue.{Tasks, new_entry, store_local, get_task_local}
use stage.Executor.Queue.Entries.{or_else, get_task_local-store_local}
use stage.Executor.Frames.{replicate_to_all-Spares}
use stage.Executor.Routing.{store_as_primary, get_task, get_task_remote}
use stage.Executor.Handlers.{
  status_reply, found_of, handle_internal_submit_task, handle_get_task_status,
}

module _ (dm : DashMap) (site : Site dm) (w : Wire Request Response) where
  asks_nobody :
      (owners : List NodeId) (id : TaskId) (s : Tasks dm × List Request)
      → is_first (me dm site) owners ≡ true
      → get_task_remote dm site w owners id s ≡ (ok none, s)
  unfolding get_task_remote is_first
  asks_nobody [] id s h = absurd (ground arith)
  asks_nobody (o ∷ os) id s h = rw h

  get_task_primary :
      (id : TaskId) (q : Tasks dm) (log : List Request)
      → is_first (me dm site) (owners_of dm site (partition_of dm site id)) ≡ true
      → get_task dm site w id (q, log)
        ≡ (ok (get_task_local dm q (partition_of dm site id) id), (q, log))
  unfolding get_task
  get_task_primary id q log first =
      let p = partition_of dm site id in
      elim (Option-cases (get_task_local dm q p id)) [
        | inr (e, here) ↦ rw (here, get_task)
        | inl missing ↦ rw (missing, get_task) (asks_nobody (owners_of dm site p) id (q, log) first)
      ]

  either_way :
      {A : Type 0} (owners : List NodeId) (a : A)
      → (elim owners [ [] ↦ a | primary ∷ _ ↦ if primary == me dm site then a else a ]) ≡ a
  either_way [] a = refl
  either_way (o ∷ os) a = if_cases (λ x. x ≡ a) (o == me dm site) (λ _. refl) (λ _. refl)

  -- A primary answers a question for the status of a task from its own tasks: it sends nothing,
  -- and says 404 for a task that it has not.
  pub handle_get_task_status_primary :
      (id : TaskId) (q : Tasks dm) (log : List Request)
      → is_first (me dm site) (owners_of dm site (partition_of dm site id)) ≡ true
      → handle_get_task_status dm site w id (q, log)
        ≡ (status_reply id (get_task_local dm q (partition_of dm site id) id), (q, log))
  unfolding handle_get_task_status
  handle_get_task_status_primary id q log first =
      let p = partition_of dm site id in
      let (r, t) = get_task dm site w id (q, log) in
      either_way (owners_of dm site p) (status_reply id (found_of r), t)
      ∙ rw (get_task_primary id q log first)

  same_state :
      (id : TaskId) (r : Result (Unit {0})) (t : Tasks dm × List Request)
      → (elim r as (λ _. (ℕ × TaskId) × (Tasks dm × List Request)) [
        | ok _ ↦ ((200, id), t)
        | err _ ↦ ((500, id), t)
      ]).1
        ≡ t
  same_state id (ok _) t = refl
  same_state id (err _) t = refl

  -- A task that another node forwards is stored whatever becomes of its replication: after the
  -- reply, also a 500, the node has it, as a new pending entry if it had none under the id.
  pub handle_internal_submit_task_lem :
      (p : ℕ) (id : TaskId) (now : ℕ) (task : Task) (q : Tasks dm) (log : List Request)
      → get_task_local dm (handle_internal_submit_task dm site w p id now task (q, log)).1.0 p id
        ≡ or_else (get_task_local dm q p id) (some (new_entry now task))
  unfolding handle_internal_submit_task store_as_primary
  handle_internal_submit_task_lem p id now task q log =
      let e = new_entry now task in
      let stored = store_local dm q p id e in
      let (r, t) = store_as_primary dm site w p id e (q, log) in
      ap (λ x. get_task_local dm x.0 p id) (same_state id r t)
      ∙ ap (λ x. get_task_local dm x p id)
          ((replicate_to_all-Spares dm site w (λ x. x) (drop 1 (owners_of dm site p)) p id e).at
            stored log)
      ∙ get_task_local-store_local dm q p id e p id
      ∙ rw (==_refl {A = ℕ} p, ==_refl {A = TaskId} id)
