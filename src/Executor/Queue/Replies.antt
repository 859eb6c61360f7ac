-- ===== src/Executor/Queue/Replies.antt =====
-- src/executor/queue.rs: what `try_claim_task`, `renew_lease` and `complete_task` return, and what
-- they change, on every branch.
use stage.Prelude.{
  ℕ, ◌≡◌, Bool, false, Option, none, some, Str, ◌&&◌, ◌==◌, str_eq, nat_eq, if◌then◌else◌,
  Bool-cases, Option-cases, inl, inr, arith,
}
use mathlib.Core.Option
use stage.DashMap.{DashMap}
use stage.Effects.{Result, ok, err, task_not_found, not_running}
use stage.Membership.Types.{NodeId}
use stage.Executor.Types.{TaskId, is_pending, is_running, TaskEntry}
use stage.Executor.Queue.{
  Tasks, get_task_local, set_entry, try_claim_task, renew_lease, complete_task,
}
use stage.Executor.Queue.Entries.{get_task_local-set_entry, partition_of}
use stage.Executor.Queue.Claims.{both, claimed, renewed, finished}

-- What the operations of a worker reply, and do to the entry, by what they find.
unfoldable pub claim_reply : Option TaskEntry → Bool
claim_reply none = false
claim_reply (some e) = is_pending e.status

unfoldable pub renew_reply : Option TaskEntry → Result (Unit {0})
renew_reply none = err task_not_found
renew_reply (some e) = if is_running e.status then ok tt else err not_running

unfoldable pub complete_reply : Option TaskEntry → Result (Unit {0})
complete_reply none = err task_not_found
complete_reply (some e) = ok tt

unfoldable pub if_pending : (TaskEntry → TaskEntry) → TaskEntry → TaskEntry
if_pending f e = if is_pending e.status then f e else e

unfoldable pub if_running : (TaskEntry → TaskEntry) → TaskEntry → TaskEntry
if_running f e = if is_running e.status then f e else e

module _ (dm : DashMap) where
  open dm use {get, insert, entries, In-entries}

  -- Only the entry of `id` in partition `p` changes, by `f`, if it is there.
  abbrev pub Edits : (q t : Tasks dm) → ℕ → TaskId → (TaskEntry → TaskEntry) → Type 0
  Edits q t p id f =
      (p' : ℕ) (j : TaskId)
      → get_task_local dm t p' j ≡ (
          if (p == p') && (id == j)
          then Option.map f (get_task_local dm q p' j)
          else get_task_local dm q p' j)

  Edits-set :
      (q : Tasks dm) (p : ℕ) (m : dm.Map TaskId TaskEntry) (id : TaskId) (e : TaskEntry)
      (f : TaskEntry → TaskEntry)
      → get q p ≡ some m
      → get_task_local dm q p id ≡ some e
      → Edits q (set_entry dm q p m id (f e)) p id f
  Edits-set q p m id e f there found p' j =
      rw (get_task_local-set_entry dm q p m id (f e) p' j there)
        (elim (Bool-cases ((p == p') && (id == j))) [
          | inl h ↦
              let here : get_task_local dm q p' j ≡ some e =
                cc (found, (both p p' id j h).0, (both p p' id j h).1) in
              rw (h, here)
          | inr h ↦ rw h
        ])

  Edits-none :
      (q : Tasks dm) (p : ℕ) (id : TaskId) (f : TaskEntry → TaskEntry)
      → get_task_local dm q p id ≡ none
      → Edits q q p id f
  Edits-none q p id f missing p' j = elim (Bool-cases ((p == p') && (id == j))) [
    | inl h ↦
        let here : get_task_local dm q p' j ≡ none =
          cc (missing, (both p p' id j h).0, (both p p' id j h).1) in
        rw (h, here)
    | inr h ↦ rw h
  ]

  Edits-fixed :
      (q : Tasks dm) (p : ℕ) (id : TaskId) (e : TaskEntry) (f : TaskEntry → TaskEntry)
      → get_task_local dm q p id ≡ some e
      → f e ≡ e
      → Edits q q p id f
  Edits-fixed q p id e f found fixed p' j = elim (Bool-cases ((p == p') && (id == j))) [
    | inl h ↦
        let here : get_task_local dm q p' j ≡ some e =
          cc (found, (both p p' id j h).0, (both p p' id j h).1) in
        rw (h, here, fixed)
    | inr h ↦ rw h
  ]

  module _ (q : Tasks dm) (p : ℕ) (id : TaskId) where
    claim_missing :
        (me : NodeId) (now : ℕ)
        → get_task_local dm q p id ≡ none
        → try_claim_task dm me now q p id ≡ (q, false)
    unfolding try_claim_task get_task_local
    claim_missing me now h = ground arith

    pub claim_taken :
        (me : NodeId) (now : ℕ) (e : TaskEntry)
        → get_task_local dm q p id ≡ some e
        → is_pending e.status ≡ false
        → try_claim_task dm me now q p id ≡ (q, false)
    unfolding try_claim_task
    claim_taken me now e h taken =
        let (m, there, here) = partition_of dm q p id e h in
        rw (there, try_claim_task, here) (rw taken)

    renew_missing :
        (now : ℕ)
        → get_task_local dm q p id ≡ none
        → renew_lease dm now q p id ≡ (err task_not_found, q)
    unfolding renew_lease get_task_local
    renew_missing now h = ground arith

    complete_missing :
        (result : Option Str)
        → get_task_local dm q p id ≡ none
        → complete_task dm q p id result ≡ (err task_not_found, q)
    unfolding complete_task get_task_local
    complete_missing result h = ground arith

    -- A claim succeeds exactly for a task that is there and pending. That task is then running
    -- for the claimer until its lease ends; no other entry changes, and a failed claim changes
    -- none.
    pub try_claim_task_lem :
        (me : NodeId) (now : ℕ)
        → ((try_claim_task dm me now q p id).1 ≡ claim_reply (get_task_local dm q p id))
          × Edits q (try_claim_task dm me now q p id).0 p id (if_pending (claimed me now))
    unfolding try_claim_task claim_reply if_pending
    try_claim_task_lem me now = elim (Option-cases (get_task_local dm q p id)) [
      | inl missing ↦ rw (claim_missing me now missing) (rw missing, Edits-none q p id _ missing)
      | inr (e, found) ↦
          let (m, there, here) = partition_of dm q p id e found in
          let f = if_pending (claimed me now) in
          elim (Bool-cases (is_pending e.status)) [
            | inl free ↦
                let set : f e ≡ claimed me now e = rw free in
                rw (there, try_claim_task, here)
                  (rw free (rw (found, free), rw (← set) (Edits-set q p m id e f there found)))
            | inr taken ↦
                rw (claim_taken me now e found taken)
                  (rw (found, taken), Edits-fixed q p id e f found (rw taken))
          ]
    ]

    -- A lease is renewed exactly for a task that is there and running, for another 30 seconds;
    -- no other entry changes, and a failed renewal changes none.
    pub renew_lease_lem :
        (now : ℕ)
        → ((renew_lease dm now q p id).0 ≡ renew_reply (get_task_local dm q p id))
          × Edits q (renew_lease dm now q p id).1 p id (if_running (renewed now))
    unfolding renew_lease renew_reply if_running
    renew_lease_lem now = elim (Option-cases (get_task_local dm q p id)) [
      | inl missing ↦ rw (renew_missing now missing) (rw missing, Edits-none q p id _ missing)
      | inr (e, found) ↦
          let (m, there, here) = partition_of dm q p id e found in
          let f = if_running (renewed now) in
          elim (Bool-cases (is_running e.status)) [
            | inl runs ↦
                let set : f e ≡ renewed now e = rw runs in
                rw (there, renew_lease, here)
                  (rw runs (rw (found, runs), rw (← set) (Edits-set q p m id e f there found)))
            | inr other ↦
                rw (there, renew_lease, here)
                  (rw other (rw (found, other), Edits-fixed q p id e f found (rw other)))
          ]
    ]

    -- Completion succeeds exactly for a task that is there, from any status: the task is then
    -- completed or failed as the result says, with no lease. No other entry changes.
    pub complete_task_lem :
        (result : Option Str)
        → ((complete_task dm q p id result).0 ≡ complete_reply (get_task_local dm q p id))
          × Edits q (complete_task dm q p id result).1 p id (finished result)
    unfolding complete_task complete_reply
    complete_task_lem result = elim (Option-cases (get_task_local dm q p id)) [
      | inl missing ↦ rw (complete_missing result missing) (rw missing, Edits-none q p id _ missing)
      | inr (e, found) ↦
          let (m, there, here) = partition_of dm q p id e found in
          rw (there, complete_task, here)
            (rw found, Edits-set q p m id e (finished result) there found)
    ]
