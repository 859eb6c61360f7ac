-- ===== src/Executor/Worker/Renewal.antt =====
-- src/executor/executor.rs, `spawn_lease_renewal`: what keeps a running task leased.
use stage.Prelude.{
  ℕ, ◌+◌, ◌≤◌, ◌<◌, ◌^◌, ◌≡◌, refl, ap, sym, ◌∙◌, true, false, some, List, [], ◌∷◌, ==_refl, nat_eq,
  str_eq, arith,
}
use stage.DashMap.{DashMap}
use stage.Effects.{ok, err}
use stage.Membership.Types.{NodeId}
use stage.Executor.Types.{TaskId, TaskEntry, running}
use stage.Executor.Queue.{
  Tasks, get_task_local, try_claim_task, renew_lease, is_available, lease_until,
}
use stage.Executor.Queue.Claims.{claimed, renewed}
use stage.Executor.Queue.Exclusion.{claim_reply-true, if_pending_free}
use stage.Executor.Queue.Replies.{renew_lease_lem, try_claim_task_lem, renew_reply, if_running}

module _ (dm : DashMap) where
  -- The loop, with the times at which it wakes up until it is aborted: the first renewal that fails
  -- ends it.
  unfoldable pub spawn_lease_renewal : ℕ → TaskId → List ℕ → Tasks dm → Tasks dm
  spawn_lease_renewal p id [] q = q
  spawn_lease_renewal p id (now ∷ times) q =
      let (r, t) = renew_lease dm now q p id in
      let rest = spawn_lease_renewal p id times t in elim r [ ok _ ↦ rest | err _ ↦ t ]

  -- The latest of the claim and the renewals.
  abbrev pub last_renewal : ℕ → List ℕ → ℕ
  last_renewal now [] = now
  last_renewal now (t ∷ times) = last_renewal t times

  -- The task runs with a lease from this time on.
  abbrev pub IsLeased : Tasks dm → ℕ → TaskId → ℕ → Type 0
  IsLeased q p id now =
      (e : TaskEntry) × (get_task_local dm q p id ≡ some e)
      × (e.status ≡ running)
      × (e.lease_expires ≡ some (lease_until now))

  renew_lease-IsLeased :
      (q : Tasks dm) (p : ℕ) (id : TaskId) (now later : ℕ)
      → IsLeased q p id now
      → ((renew_lease dm later q p id).0 ≡ ok tt)
        × IsLeased (renew_lease dm later q p id).1 p id later
  unfolding renew_reply if_running
  renew_lease-IsLeased q p id now later (e, found, runs, _) =
      let (replied, edited) = renew_lease_lem dm q p id later in
      (
        replied ∙ rw found (rw runs refl),
        (
          renewed later e,
          edited p id ∙ rw (==_refl {A = ℕ} p, ==_refl {A = TaskId} id, found) (rw runs refl),
          runs,
          refl,
        ),
      )

  spawn_lease_renewal-IsLeased :
      (q : Tasks dm) (p : ℕ) (id : TaskId) (now : ℕ) (times : List ℕ)
      → IsLeased q p id now
      → IsLeased (spawn_lease_renewal p id times q) p id (last_renewal now times)
  unfolding spawn_lease_renewal
  spawn_lease_renewal-IsLeased q p id now [] leased = leased
  spawn_lease_renewal-IsLeased q p id now (t ∷ times) leased =
      let (done, again) = renew_lease-IsLeased q p id now t leased in
      rw (done, spawn_lease_renewal)
        (spawn_lease_renewal-IsLeased (renew_lease dm t q p id).1 p id t times again)

  claim-IsLeased :
      (me : NodeId) (now : ℕ) (q : Tasks dm) (p : ℕ) (id : TaskId)
      → (try_claim_task dm me now q p id).1 ≡ true
      → IsLeased (try_claim_task dm me now q p id).0 p id now
  claim-IsLeased me now q p id won =
      let (replied, edited) = try_claim_task_lem dm q p id me now in
      let (e, found, free) = claim_reply-true (get_task_local dm q p id) (sym replied ∙ won) in
      (
        claimed me now e,
        edited p id
            ∙ rw (==_refl {A = ℕ} p, ==_refl {A = TaskId} id, found)
                (ap some (if_pending_free dm (claimed me now) e free)),
        refl,
        refl,
      )

  leased_unavailable :
      (last later : ℕ)
      → later ≤ last + 30_000
      → last + 30_000 < 2 ^ 64
      → is_available later running (some (lease_until last)) ≡ false
  unfolding is_available
  leased_unavailable last later soon fits = ground arith

  -- A task that has been claimed is not offered again while its handler runs: at any moment that is
  -- at most 30 seconds after the claim and its latest renewal it is running, and `my_pending_tasks`
  -- does not take it for one that has expired. The clock is not about to wrap around.
  pub spawn_lease_renewal_lem :
      (me : NodeId) (now later : ℕ) (times : List ℕ) (q : Tasks dm) (p : ℕ) (id : TaskId)
      → (try_claim_task dm me now q p id).1 ≡ true
      → later ≤ last_renewal now times + 30_000
      → last_renewal now times + 30_000 < 2 ^ 64
      → (e : TaskEntry) × (get_task_local dm
            (spawn_lease_renewal p id times (try_claim_task dm me now q p id).0)
            p
            id
          ≡ some e)
        × (e.status ≡ running)
        × (is_available later e.status e.lease_expires ≡ false)
  spawn_lease_renewal_lem me now later times q p id won soon fits =
      let (e, found, runs, leased) =
        spawn_lease_renewal-IsLeased (try_claim_task dm me now q p id).0 p id now times
          (claim-IsLeased me now q p id won) in
      (
        e,
        found,
        runs,
        rw (runs, leased) (leased_unavailable (last_renewal now times) later soon fits),
      )
