-- ===== src/Executor/Queue/Leases.antt =====
-- src/executor/queue.rs: which tasks are assigned and have a lease, whatever the operations do.
use stage.Prelude.{
  ℕ, ◌≡◌, refl, Bool, true, false, ◌&&◌, Option, none, some, List, [], ◌∷◌, Str, ◌==◌, str_eq,
  nat_eq, if_cases, Option-cases, inl, inr, All, arith,
}
use stage.DashMap.{DashMap}
use stage.Effects.{Result}
use stage.Membership.Types.{NodeId}
use stage.Executor.Types.{
  TaskId, TaskStatus, pending, running, completed, failed, is_pending, is_running, TaskEntry,
}
use stage.Executor.Queue.{
  Tasks, Partition, get_task_local, set_entry, try_claim_task, renew_lease, complete_task,
}
use stage.Executor.Queue.Entries.{
  first_of, or_else, get_task_local-store_local, get_task_local-apply, get_task_local-set_entry,
}
use stage.Executor.Queue.Claims.{
  Op, claim, renew, complete, store, apply_dump, claimed, renewed, finished, step, run,
}

-- A pending task is not assigned and has no lease, a running one is assigned and has one, and a
-- finished one has none.
abbrev pub coherent : TaskStatus → Option NodeId → Option ℕ → Bool
coherent pending none none = true
coherent pending none (some t) = false
coherent pending (some n) l = false
coherent running (some n) (some t) = true
coherent running (some n) none = false
coherent running none l = false
coherent completed a none = true
coherent completed a (some t) = false
coherent (failed e) a none = true
coherent (failed e) a (some t) = false

abbrev pub IsCoherent : TaskEntry → Type 0
IsCoherent e = coherent e.status e.assigned_to e.lease_expires ≡ true

-- An operation brings only such entries in.
abbrev pub Brings : Op → Type 0
Brings (store p id e) = IsCoherent e
Brings (apply_dump p l) = All (λ x. IsCoherent x.1) l
Brings (claim me now p id) = Unit
Brings (renew now p id) = Unit
Brings (complete p id result) = Unit

renewed-IsCoherent :
    (now : ℕ) (e : TaskEntry)
    → is_running e.status ≡ true
    → IsCoherent e
    → IsCoherent (renewed now e)
renewed-IsCoherent now e r h = ground (arith, r, h)

finished-IsCoherent : (result : Option Str) (e : TaskEntry) → IsCoherent (finished result e)
finished-IsCoherent none e = refl
finished-IsCoherent (some x) e = refl

-- What an entry is that is there.
OnSome : Option TaskEntry → Type 0
OnSome none = Unit
OnSome (some e) = IsCoherent e

OnSome-or_else : (a b : Option TaskEntry) → OnSome a → OnSome b → OnSome (or_else a b)
unfolding OnSome
OnSome-or_else none b h k = k
OnSome-or_else (some e) b h k = h

OnSome-first_of :
    (id : TaskId) (l : List (TaskId × TaskEntry))
    → All (λ x. IsCoherent x.1) l
    → OnSome (first_of id l)
unfolding OnSome first_of
OnSome-first_of id [] h = tt
OnSome-first_of id ((j, e) ∷ l) h =
    if_cases OnSome (j == id) (λ _. h.0) (λ _. OnSome-first_of id l h.1)

module _ (dm : DashMap) where
  open dm use {get}

  abbrev AllCoherent : Tasks dm → Type 0
  AllCoherent q = (p : ℕ) (id : TaskId) → OnSome (get_task_local dm q p id)

  AllCoherent-set_entry :
      (q : Tasks dm) (p : ℕ) (m : Partition dm) (id : TaskId) (e : TaskEntry)
      → get q p ≡ some m
      → IsCoherent e
      → AllCoherent q
      → AllCoherent (set_entry dm q p m id e)
  unfolding OnSome
  AllCoherent-set_entry q p m id e there good h p' j =
      rw (get_task_local-set_entry dm q p m id e p' j there)
        (if_cases OnSome ((p == p') && (id == j)) (λ _. good) (λ _. h p' j))

  there-IsCoherent :
      (q : Tasks dm) (p : ℕ) (m : Partition dm) (id : TaskId) (e : TaskEntry)
      → get q p ≡ some m
      → get m id ≡ some e
      → AllCoherent q
      → IsCoherent e
  unfolding OnSome get_task_local
  there-IsCoherent q p m id e a b h =
      let here : get_task_local dm q p id ≡ some e = rw (a, get_task_local) b in rw here at (h p id)

  -- An operation on one entry, by what it does when the entry is there.
  claim-AllCoherent :
      (me : NodeId) (now : ℕ) (q : Tasks dm) (p : ℕ) (id : TaskId)
      → AllCoherent q
      → AllCoherent (try_claim_task dm me now q p id).0
  unfolding try_claim_task
  claim-AllCoherent me now q p id h = elim (Option-cases (get q p)) [
    | inl e ↦ rw (e, try_claim_task) h
    | inr (m, a) ↦ (elim (Option-cases (get m id)) [
      | inl e ↦ rw (a, try_claim_task, e) h
      | inr (x, b) ↦
          rw (a, try_claim_task, b)
            (if_cases (λ (r : Tasks dm × Bool). AllCoherent r.0) (is_pending x.status)
              (λ _. AllCoherent-set_entry q p m id (claimed me now x) a refl h) (λ _. h))
    ])
  ]

  renew-AllCoherent :
      (now : ℕ) (q : Tasks dm) (p : ℕ) (id : TaskId)
      → AllCoherent q
      → AllCoherent (renew_lease dm now q p id).1
  unfolding renew_lease
  renew-AllCoherent now q p id h = elim (Option-cases (get q p)) [
    | inl e ↦ rw (e, renew_lease) h
    | inr (m, a) ↦ (elim (Option-cases (get m id)) [
      | inl e ↦ rw (a, renew_lease, e) h
      | inr (x, b) ↦
          rw (a, renew_lease, b)
            (if_cases (λ (r : Result Unit × Tasks dm). AllCoherent r.1) (is_running x.status)
              (λ runs.
                AllCoherent-set_entry q p m id (renewed now x) a
                  (renewed-IsCoherent now x runs (there-IsCoherent q p m id x a b h)) h)
              (λ _. h))
    ])
  ]

  complete-AllCoherent :
      (q : Tasks dm) (p : ℕ) (id : TaskId) (result : Option Str)
      → AllCoherent q
      → AllCoherent (complete_task dm q p id result).1
  unfolding complete_task
  complete-AllCoherent q p id result h = elim (Option-cases (get q p)) [
    | inl e ↦ rw (e, complete_task) h
    | inr (m, a) ↦ (elim (Option-cases (get m id)) [
      | inl e ↦ rw (a, complete_task, e) h
      | inr (x, b) ↦
          rw (a, complete_task, b)
            (AllCoherent-set_entry q p m id (finished result x) a (finished-IsCoherent result x) h)
    ])
  ]

  step-AllCoherent :
      (q : Tasks dm) (op : Op) → Brings op → AllCoherent q → AllCoherent (step dm q op)
  unfolding step OnSome
  step-AllCoherent q (claim me now p id) b h = claim-AllCoherent me now q p id h
  step-AllCoherent q (renew now p id) b h = renew-AllCoherent now q p id h
  step-AllCoherent q (complete p id result) b h = complete-AllCoherent q p id result h
  step-AllCoherent q (store p id e) b h = λ p' j. rw get_task_local-store_local (
      if_cases OnSome ((p == p') && (id == j))
        (λ _. OnSome-or_else (get_task_local dm q p' j) (some e) (h p' j) b) (λ _. h p' j))
  step-AllCoherent q (apply_dump p l) b h = λ p' j. rw get_task_local-apply (
      if_cases OnSome (p == p')
        (λ _.
          OnSome-or_else (get_task_local dm q p' j) (first_of j l) (h p' j) (OnSome-first_of j l b))
        (λ _. h p' j))

  run-AllCoherent :
      (ops : List Op) (q : Tasks dm) → All Brings ops → AllCoherent q → AllCoherent (run dm q ops)
  unfolding run
  run-AllCoherent [] q b h = h
  run-AllCoherent (op ∷ ops) q b h =
      run-AllCoherent ops (step dm q op) b.1 (step-AllCoherent q op b.0 h)

  -- Whatever operations run in whatever order, a pending task is never assigned or leased, a
  -- running one always is both, and a finished one has no lease, if this holds at the start and of
  -- the entries that other nodes send.
  pub run-IsCoherent :
      (q : Tasks dm) (ops : List Op)
      → ((p : ℕ) (id : TaskId) (e : TaskEntry) → get_task_local dm q p id ≡ some e → IsCoherent e)
      → All Brings ops
      → (p : ℕ) (id : TaskId) (e : TaskEntry) → get_task_local dm (run dm q ops) p id ≡ some e
      → IsCoherent e
  unfolding OnSome
  run-IsCoherent q ops h b p id e found =
      rw found at
        (run-AllCoherent ops q b (λ p' j. on_some (get_task_local dm q p' j) (h p' j)) p id)
    where
      on_some : (o : Option TaskEntry) → ((x : TaskEntry) → o ≡ some x → IsCoherent x) → OnSome o
      on_some none k = tt
      on_some (some x) k = k x refl
