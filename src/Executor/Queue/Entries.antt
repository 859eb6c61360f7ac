-- ===== src/Executor/Queue/Entries.antt =====
-- src/executor/queue.rs: what a lookup sees after each operation on the local tasks.
use stage.Prelude.{
  ℕ, ◌≡◌, refl, ◌∙◌, sym, ◌&&◌, Option, none, some, List, [], ◌∷◌, ◌==◌, ==_iff, str_eq, nat_eq,
  if◌then◌else◌, Bool-cases, Option-cases, inl, inr, arith,
}
use stage.DashMap.{DashMap}
use stage.Executor.Types.{TaskId, TaskEntry}
use stage.Executor.Queue.{
  Partition, Tasks, partition_or_new, insert_absent, store_local, insert_all,
  apply_partition_entries, get_task_local, set_entry,
}

-- The first entry of a list under an id, if there is one.
unfoldable pub first_of : TaskId → List (TaskId × TaskEntry) → Option TaskEntry
first_of id [] = none
first_of id ((j, e) ∷ l) = if j == id then some e else first_of id l

-- `a`, or else `b`.
abbrev pub or_else : Option TaskEntry → Option TaskEntry → Option TaskEntry
or_else none b = b
or_else (some a) b = some a

module _ (dm : DashMap) where
  open dm use {Map, empty, get, insert, entries, get-insert, entries-empty, In-entries}

  get-empty : (id : TaskId) → get (empty {K = TaskId} {V = TaskEntry}) id ≡ none
  get-empty id = elim (Option-cases (get (empty {K = TaskId} {V = TaskEntry}) id)) [
    | inl e ↦ e
    | inr (x, e) ↦
        absurd (rw entries-empty at ((In-entries (empty {K = TaskId} {V = TaskEntry}) id x).1 e))
  ]

  get-partition_or_new :
      (q : Tasks dm) (p : ℕ) (id : TaskId)
      → get (partition_or_new dm q p) id ≡ get_task_local dm q p id
  unfolding get_task_local
  get-partition_or_new q p id = ground (arith, get-empty id)

  get_task_local-insert :
      (q : Tasks dm) (p : ℕ) (m : Partition dm) (p' : ℕ) (j : TaskId)
      → get_task_local dm (insert q p m) p' j
        ≡ (if p == p' then get m j else get_task_local dm q p' j)
  unfolding get_task_local
  get_task_local-insert q p m p' j = elim (Bool-cases (p == p')) [
    | inl e ↦ rw (get-insert, e, get_task_local)
    | inr e ↦ rw (get-insert, e, get_task_local)
  ]

  get-insert_absent :
      (m : Partition dm) (id : TaskId) (e : TaskEntry) (j : TaskId)
      → get (insert_absent dm m id e) j ≡ (if id == j then or_else (get m j) (some e) else get m j)
  unfolding insert_absent
  get-insert_absent m id e j = ground (arith, get-insert m id e j, ==_iff id j)

  -- Storing a task adds it if its partition has no entry of that id, and changes no entry that
  -- is there: not its status, lease or payload, and nothing under another id or partition.
  pub get_task_local-store_local :
      (q : Tasks dm) (p : ℕ) (id : TaskId) (e : TaskEntry) (p' : ℕ) (j : TaskId)
      → get_task_local dm (store_local dm q p id e) p' j ≡ (
          if (p == p') && (id == j)
          then or_else (get_task_local dm q p' j) (some e)
          else get_task_local dm q p' j)
  unfolding store_local
  get_task_local-store_local q p id e p' j =
      rw (get_task_local-insert, get-insert_absent, get-partition_or_new)
        (ground (arith, ==_iff p p'))

  or_else_assoc : (a b c : Option TaskEntry) → or_else (or_else a b) c ≡ or_else a (or_else b c)
  or_else_assoc none b c = refl
  or_else_assoc (some a) b c = refl

  or_else-none : (a : Option TaskEntry) → or_else a none ≡ a
  or_else-none none = refl
  or_else-none (some a) = refl

  get-insert_all :
      (m : Partition dm) (l : List (TaskId × TaskEntry)) (j : TaskId)
      → get (insert_all dm m l) j ≡ or_else (get m j) (first_of j l)
  unfolding insert_all first_of
  get-insert_all m [] j = sym (or_else-none (get m j))
  get-insert_all m ((id, e) ∷ l) j =
      get-insert_all (insert_absent dm m id e) l j
      ∙ rw get-insert_absent (elim (Bool-cases (id == j)) [
        | inl h ↦ rw h (or_else_assoc (get m j) (some e) (first_of j l))
        | inr h ↦ rw h
      ])

  -- A dump that is applied to a partition keeps every entry that is there, and adds the first
  -- entry of the dump for each id that is not. Other partitions do not change.
  pub get_task_local-apply :
      (q : Tasks dm) (p : ℕ) (l : List (TaskId × TaskEntry)) (p' : ℕ) (j : TaskId)
      → get_task_local dm (apply_partition_entries dm q p l) p' j ≡ (
          if p == p'
          then or_else (get_task_local dm q p' j) (first_of j l)
          else get_task_local dm q p' j)
  unfolding apply_partition_entries
  get_task_local-apply q p l p' j =
      rw (get_task_local-insert, get-insert_all, get-partition_or_new) (ground (arith, ==_iff p p'))

  -- A write to an entry that is there.
  pub get_task_local-set_entry :
      (q : Tasks dm) (p : ℕ) (m : Partition dm) (id : TaskId) (e : TaskEntry) (p' : ℕ) (j : TaskId)
      → get q p ≡ some m
      → get_task_local dm (set_entry dm q p m id e) p' j
        ≡ (if (p == p') && (id == j) then some e else get_task_local dm q p' j)
  unfolding get_task_local
  get_task_local-set_entry q p m id e p' j h =
      get_task_local-insert q p (insert m id e) p' j
      ∙ ground (arith, get-insert m id e j, ==_iff p p')

  -- The partition of an entry that is found.
  pub partition_of :
      (q : Tasks dm) (p : ℕ) (id : TaskId) (e : TaskEntry)
      → get_task_local dm q p id ≡ some e
      → (m : Partition dm) × (get q p ≡ some m) × (get m id ≡ some e)
  unfolding get_task_local
  partition_of q p id e h = elim (Option-cases (get q p)) [
    | inl none_there ↦ absurd (ground arith)
    | inr (m, found) ↦ (m, found, ground arith)
  ]
