-- ===== src/Executor/Queue/Claims.antt =====
-- src/executor/queue.rs: the life of a task. The operations of workers, lease renewals and other
-- nodes come in any order, one at a time on each entry.
use stage.Prelude.{
  ℕ, ◌≡◌, refl, Bool, true, ◌&&◌, Option, none, some, List, [], ◌∷◌, Str, ◌==◌, ==_iff, str_eq,
  nat_eq, if_cases, Bool-cases, Option-cases, inl, inr, arith,
}
use stage.DashMap.{DashMap}
use stage.Effects.{Result}
use stage.Membership.Types.{NodeId}
use stage.Executor.Types.{TaskId, TaskStatus, pending, running, is_pending, is_running, TaskEntry}
use stage.Executor.Queue.{
  Tasks, lease_until, store_local, apply_partition_entries, get_task_local, set_entry,
  try_claim_task, renew_lease, complete_task, status_of_result,
}
use stage.Executor.Queue.Entries.{
  first_of, or_else, get_task_local-store_local, get_task_local-apply, get_task_local-set_entry,
}

abbrev pub claimed : NodeId → ℕ → TaskEntry → TaskEntry
claimed me now e = record e {
  status = running;
  assigned_to = some me;
  lease_expires = some (lease_until now);
}

abbrev pub renewed : ℕ → TaskEntry → TaskEntry
renewed now e = record e { lease_expires = some (lease_until now) }

abbrev pub finished : Option Str → TaskEntry → TaskEntry
finished result e = record e { status = status_of_result result; lease_expires = none }

-- The operations that change the tasks.
pub data Op : Type 0 where
  claim : NodeId → ℕ → ℕ → TaskId → Op
  renew : ℕ → ℕ → TaskId → Op
  complete : ℕ → TaskId → Option Str → Op
  store : ℕ → TaskId → TaskEntry → Op
  apply_dump : ℕ → List (TaskId × TaskEntry) → Op

-- What one operation may make of an entry.
pub data Evolves (e : TaskEntry) : TaskEntry → Type 0 where
  stays : Evolves e e
  claims : (me : NodeId) (now : ℕ) → e.status ≡ pending → Evolves e (claimed me now e)
  renews : (now : ℕ) → e.status ≡ running → Evolves e (renewed now e)
  finishes : (result : Option Str) → Evolves e (finished result e)

is_pending→≡ : (st : TaskStatus) → is_pending st ≡ true → st ≡ pending
is_pending→≡ st h = ground arith

is_running→≡ : (st : TaskStatus) → is_running st ≡ true → st ≡ running
is_running→≡ st h = ground arith

pub both : (p p' : ℕ) (id j : TaskId) → (p == p') && (id == j) ≡ true → (p ≡ p') × (id ≡ j)
both p p' id j h = ground (arith, ==_iff p p', ==_iff id j)

module _ (dm : DashMap) where
  open dm use {Map, get, insert}

  unfoldable pub step : Tasks dm → Op → Tasks dm
  step q (claim me now p id) = (try_claim_task dm me now q p id).0
  step q (renew now p id) = (renew_lease dm now q p id).1
  step q (complete p id result) = (complete_task dm q p id result).1
  step q (store p id e) = store_local dm q p id e
  step q (apply_dump p l) = apply_partition_entries dm q p l

  unfoldable pub run : Tasks dm → List Op → Tasks dm
  unfolding step
  run q [] = q
  run q (op ∷ ops) = run (step q op) ops

  -- The entry of `id` in partition `p` is still there, one operation on.
  abbrev Lives : Option TaskEntry → Option TaskEntry → Type 0
  Lives none o = Unit
  Lives (some e) none = ⊥
  Lives (some e) (some e') = Evolves e e'

  Lives-refl : (o : Option TaskEntry) → Lives o o
  Lives-refl none = tt
  Lives-refl (some e) = stays

  Lives-or_else : (a b : Option TaskEntry) → Lives a (or_else a b)
  Lives-or_else none b = tt
  Lives-or_else (some e) b = stays

  -- One write to an entry that evolves.
  Lives-set_entry :
      (q : Tasks dm) (p : ℕ) (m : dm.Map TaskId TaskEntry) (id : TaskId) (e e' : TaskEntry) (p' : ℕ)
      (j : TaskId)
      → get q p ≡ some m
      → get_task_local dm q p id ≡ some e
      → Evolves e e'
      → Lives (get_task_local dm q p' j) (get_task_local dm (set_entry dm q p m id e') p' j)
  Lives-set_entry q p m id e e' p' j there found v =
      rw (get_task_local-set_entry dm q p m id e' p' j there)
        (elim (Bool-cases ((p == p') && (id == j))) [
          | inl h ↦
              let f : get_task_local dm q p' j ≡ some e =
                cc (found, (both p p' id j h).0, (both p p' id j h).1) in
              rw (h, f) v
          | inr h ↦ rw h (Lives-refl (get_task_local dm q p' j))
        ])

  get_task_local-there :
      (q : Tasks dm) (p : ℕ) (m : dm.Map TaskId TaskEntry) (id : TaskId) (e : TaskEntry)
      → get q p ≡ some m
      → get m id ≡ some e
      → get_task_local dm q p id ≡ some e
  unfolding get_task_local
  get_task_local-there q p m id e a b = rw (a, get_task_local) b

  claim-Lives :
      (me : NodeId) (now : ℕ) (q : Tasks dm) (p : ℕ) (id : TaskId) (p' : ℕ) (j : TaskId)
      → Lives
          (get_task_local dm q p' j)
          (get_task_local dm (try_claim_task dm me now q p id).0 p' j)
  unfolding try_claim_task
  claim-Lives me now q p id p' j = elim (Option-cases (get q p)) [
    | inl e ↦ rw (e, try_claim_task) (Lives-refl (get_task_local dm q p' j))
    | inr (m, a) ↦ elim (Option-cases (get m id)) [
      | inl e ↦ rw (a, try_claim_task, e) (Lives-refl (get_task_local dm q p' j))
      | inr (x, b) ↦
          rw (a, try_claim_task, b)
            (if_cases
              (λ (r : Tasks dm × Bool).
                Lives (get_task_local dm q p' j) (get_task_local dm r.0 p' j))
              (is_pending x.status)
              (λ free.
                Lives-set_entry q p m id x (claimed me now x) p' j a
                  (get_task_local-there q p m id x a b)
                  (claims me now (is_pending→≡ x.status free)))
              (λ _. Lives-refl (get_task_local dm q p' j)))
    ]
  ]

  renew-Lives :
      (now : ℕ) (q : Tasks dm) (p : ℕ) (id : TaskId) (p' : ℕ) (j : TaskId)
      → Lives (get_task_local dm q p' j) (get_task_local dm (renew_lease dm now q p id).1 p' j)
  unfolding renew_lease
  renew-Lives now q p id p' j = elim (Option-cases (get q p)) [
    | inl e ↦ rw (e, renew_lease) (Lives-refl (get_task_local dm q p' j))
    | inr (m, a) ↦ elim (Option-cases (get m id)) [
      | inl e ↦ rw (a, renew_lease, e) (Lives-refl (get_task_local dm q p' j))
      | inr (x, b) ↦
          rw (a, renew_lease, b)
            (if_cases
              (λ (r : Result Unit × Tasks dm).
                Lives (get_task_local dm q p' j) (get_task_local dm r.1 p' j))
              (is_running x.status)
              (λ runs.
                Lives-set_entry q p m id x (renewed now x) p' j a
                  (get_task_local-there q p m id x a b) (renews now (is_running→≡ x.status runs)))
              (λ _. Lives-refl (get_task_local dm q p' j)))
    ]
  ]

  complete-Lives :
      (q : Tasks dm) (p : ℕ) (id : TaskId) (result : Option Str) (p' : ℕ) (j : TaskId)
      → Lives (get_task_local dm q p' j) (get_task_local dm (complete_task dm q p id result).1 p' j)
  unfolding complete_task
  complete-Lives q p id result p' j = elim (Option-cases (get q p)) [
    | inl e ↦ rw (e, complete_task) (Lives-refl (get_task_local dm q p' j))
    | inr (m, a) ↦ elim (Option-cases (get m id)) [
      | inl e ↦ rw (a, complete_task, e) (Lives-refl (get_task_local dm q p' j))
      | inr (x, b) ↦
          rw (a, complete_task, b)
            (Lives-set_entry q p m id x (finished result x) p' j a
              (get_task_local-there q p m id x a b) (finishes result))
    ]
  ]

  -- No operation loses a task: an entry that is there is there after it, unchanged, claimed from
  -- pending, with a new lease while running, or finished.
  pub step-Evolves :
      (q : Tasks dm) (op : Op) (p : ℕ) (id : TaskId) (e : TaskEntry)
      → get_task_local dm q p id ≡ some e
      → (e' : TaskEntry) × (get_task_local dm (step q op) p id ≡ some e') × Evolves e e'
  unfolding step
  step-Evolves q op p id e found =
      lives (get_task_local dm (step q op) p id) refl (rw found at (go op))
    where
      go : (op : Op) → Lives (get_task_local dm q p id) (get_task_local dm (step q op) p id)
      go (claim me now p' j) = claim-Lives me now q p' j p id
      go (renew now p' j) = renew-Lives now q p' j p id
      go (complete p' j result) = complete-Lives q p' j result p id
      go (store p' j x) = rw get_task_local-store_local (
          if_cases (Lives (get_task_local dm q p id)) ((p' == p) && (j == id))
            (λ _. Lives-or_else (get_task_local dm q p id) (some x))
            (λ _. Lives-refl (get_task_local dm q p id)))
      go (apply_dump p' l) = rw get_task_local-apply (
          if_cases (Lives (get_task_local dm q p id)) (p' == p)
            (λ _. Lives-or_else (get_task_local dm q p id) (first_of id l))
            (λ _. Lives-refl (get_task_local dm q p id)))

      lives :
          (o : Option TaskEntry)
          → get_task_local dm (step q op) p id ≡ o
          → Lives (some e) o
          → (e' : TaskEntry) × (get_task_local dm (step q op) p id ≡ some e') × Evolves e e'
      lives none h v = elim v [ ]
      lives (some e') h v = (e', h, v)
