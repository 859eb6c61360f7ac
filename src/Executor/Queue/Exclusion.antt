-- ===== src/Executor/Queue/Exclusion.antt =====
-- src/executor/queue.rs: a task is claimed at most once, whatever happens in between; also one
-- whose lease has run out, although `my_pending_tasks` offers it.
use stage.Prelude.{
  ℕ, ◌<◌, ◌≡◌, refl, ap, ◌∙◌, sym, true, false, Option, none, some, List, [], ◌∷◌, In, In-keep_iff,
  ==_refl, str_eq, nat_eq, ltb, arith,
}
use mathlib.Core.List.{append-nil}
use stage.Executor.Queue.Replies.{claim_reply, if_pending, claim_taken, try_claim_task_lem}
use stage.DashMap.{DashMap}
use stage.Membership.Types.{NodeId}
use stage.Executor.Types.{TaskId, running, is_pending, TaskEntry}
use stage.Executor.Queue.{
  Tasks, is_available, get_task_local, available_of, my_pending_tasks, try_claim_task,
}
use stage.Executor.Queue.Entries.{partition_of}
use stage.Executor.Queue.Claims.{
  claimed, Op, Evolves, stays, claims, renews, finishes, step, run, step-Evolves,
}

lt→ltb : (a b : ℕ) → a < b → ltb a b ≡ true
lt→ltb a b h = ground arith

pub claim_reply-true :
    (o : Option TaskEntry)
    → claim_reply o ≡ true
    → (e : TaskEntry) × (o ≡ some e) × (is_pending e.status ≡ true)
unfolding claim_reply
claim_reply-true none h = absurd (ground arith)
claim_reply-true (some e) h = (e, refl, h)

module _ (dm : DashMap) where
  open dm use {get, entries, In-entries}

  -- An entry that nobody can claim any more.
  abbrev pub IsTaken : Tasks dm → ℕ → TaskId → Type 0
  IsTaken q p id =
      (e : TaskEntry) × (get_task_local dm q p id ≡ some e) × (is_pending e.status ≡ false)

  Evolves-taken :
      (e e' : TaskEntry) → Evolves e e' → is_pending e.status ≡ false → is_pending e'.status ≡ false
  Evolves-taken e _ stays h = h
  Evolves-taken e _ (claims me now free) h = refl
  Evolves-taken e _ (renews now runs) h = h
  Evolves-taken e _ (finishes none) h = refl
  Evolves-taken e _ (finishes (some x)) h = refl

  step-IsTaken :
      (q : Tasks dm) (op : Op) (p : ℕ) (id : TaskId) → IsTaken q p id → IsTaken (step dm q op) p id
  step-IsTaken q op p id (e, found, taken) =
      let (e', there, v) = step-Evolves dm q op p id e found in
      (e', there, Evolves-taken e e' v taken)

  run-IsTaken :
      (q : Tasks dm) (ops : List Op) (p : ℕ) (id : TaskId)
      → IsTaken q p id
      → IsTaken (run dm q ops) p id
  unfolding run
  run-IsTaken q [] p id t = t
  run-IsTaken q (op ∷ ops) p id t = run-IsTaken (step dm q op) ops p id (step-IsTaken q op p id t)

  claim_of_IsTaken :
      (me : NodeId) (now : ℕ) (q : Tasks dm) (p : ℕ) (id : TaskId)
      → IsTaken q p id
      → try_claim_task dm me now q p id ≡ (q, false)
  claim_of_IsTaken me now q p id (e, found, taken) = claim_taken dm q p id me now e found taken

  pub if_pending_free :
      (f : TaskEntry → TaskEntry) (e : TaskEntry)
      → is_pending e.status ≡ true
      → if_pending f e ≡ f e
  unfolding if_pending
  if_pending_free f e free = rw free

  claim-IsTaken :
      (me : NodeId) (now : ℕ) (q : Tasks dm) (p : ℕ) (id : TaskId)
      → (try_claim_task dm me now q p id).1 ≡ true
      → IsTaken (try_claim_task dm me now q p id).0 p id
  claim-IsTaken me now q p id h =
      let (replied, edited) = try_claim_task_lem dm q p id me now in
      let (e, found, free) = claim_reply-true (get_task_local dm q p id) (sym replied ∙ h) in
      (
        claimed me now e,
        edited p id
            ∙ rw (==_refl {A = ℕ} p, ==_refl {A = TaskId} id, found)
                (ap some (if_pending_free (claimed me now) e free)),
        refl,
      )

  -- In the local tasks of one node: once a claim of a task has succeeded there, no later claim of it
  -- does there, for whatever claimer and at any time, after any claims, renewals, completions, stores
  -- and dumps in between. So a task whose lease has expired is not claimed again there either. A copy
  -- of the task at another node is not concerned.
  pub claimed_once :
      (me other : NodeId) (now later : ℕ) (q : Tasks dm) (p : ℕ) (id : TaskId) (ops : List Op)
      → (try_claim_task dm me now q p id).1 ≡ true
      → (try_claim_task dm other later (run dm (try_claim_task dm me now q p id).0 ops) p id).1
        ≡ false
  claimed_once me other now later q p id ops h =
      let t =
        run-IsTaken (try_claim_task dm me now q p id).0 ops p id (claim-IsTaken me now q p id h) in
      rw (claim_of_IsTaken other later (run dm (try_claim_task dm me now q p id).0 ops) p id t)

  -- A running task whose lease has expired is offered by `my_pending_tasks`, and no claim of it
  -- succeeds: the claim changes nothing, on any node and at any time.
  pub expired_unclaimable :
      (me : NodeId) (now later lease : ℕ) (q : Tasks dm) (p : ℕ) (id : TaskId) (e : TaskEntry)
      → get_task_local dm q p id ≡ some e
      → e.status ≡ running
      → e.lease_expires ≡ some lease
      → lease < now
      → In (id, e) (my_pending_tasks dm now q (p ∷ []))
        × (try_claim_task dm me later q p id ≡ (q, false))
  unfolding my_pending_tasks available_of is_available
  expired_unclaimable me now later lease q p id e found runs expires late =
      let (m, there, here) = partition_of dm q p id e found in
      let available : is_available now e.status e.lease_expires ≡ true =
        rw (runs, expires) (lt→ltb lease now late) in
      (
        rw (append-nil, there, available_of)
            ((In-keep_iff _ (id, e) (entries m)).1 ((In-entries m id e).1 here, available)),
        claim_taken dm q p id me later e found (rw runs),
      )
