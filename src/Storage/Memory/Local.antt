-- ===== src/Storage/Memory/Local.antt =====
-- src/storage/memory.rs: reading the local shard after writes to it and after a dump is applied.
use stage.Prelude.{
  true, Str, str_eq, ℕ, ◌≡◌, refl, ap, sym, subst, ◌∙◌, ◌&&◌, Option, none, some, List, [], ◌∷◌,
  map, Eq, ◌==◌, ==_iff, nat_eq, if◌then◌else◌, Bool-cases, Option-cases, In, In-of_In-map,
  Distinct, inl, inr, arith,
}
use stage.DashMap.{DashMap, get-empty}
use stage.Storage.Protocol.{Format}
use stage.Storage.Memory.{
  should_process, Store, partition_or_new, store_local, dump_partition, apply_partition_entries,
  lookup,
}

abbrev pub or_else {ℓ} : {A : Type ℓ} → Option A → Option A → Option A
or_else none b = b
or_else (some a) b = some a

-- The value that a list leaves for a key: the last one.
unfoldable pub last_of : {K V : Type 0} ⦃e : Eq K⦄ → K → List (K × V) → Option V
last_of k [] = none
last_of k ((j, v) ∷ l) = or_else (last_of k l) (if j == k then some v else none)

or_else_assoc {ℓ} :
    {A : Type ℓ} (a b c : Option A) → or_else (or_else a b) c ≡ or_else a (or_else b c)
or_else_assoc none b c = refl
or_else_assoc (some a) b c = refl

last_of_absent :
    {K V : Type 0} ⦃e : Eq K⦄ (k : K) (l : List (K × V))
    → ¬ In k (map (λ e. e.0) l)
    → last_of k l ≡ none
unfolding last_of
last_of_absent k [] h = refl
last_of_absent k ((j, v) ∷ l) h = ground (arith, last_of_absent k l (λ i. h (inr i)), ==_iff j k)

last_of-In :
    {K V : Type 0} ⦃e : Eq K⦄ (k : K) (v : V) (l : List (K × V))
    → Distinct (map (λ e. e.0) l)
    → In (k, v) l
    → last_of k l ≡ some v
unfolding last_of
last_of-In k v [] d h = elim h [ ]
last_of-In k v ((j, w) ∷ l) d (inl e) =
    let absent : last_of k l ≡ none =
      last_of_absent k l (λ i. d.0 (subst (λ x. In x (map (λ e. e.0) l)) (ap (λ e. e.0) e) i)) in
    rw (absent, (==_iff j k).1 (sym (ap (λ e. e.0) e))) (ap some (sym (ap (λ e. e.1) e)))
last_of-In k v ((j, w) ∷ l) d (inr i) = rw (last_of-In k v l d.1 i)

module _ (dm : DashMap) {K V : Type 0} (f : Format K V) where
  open dm use {
    Map, empty, get, insert, entries, get-insert, In-entries, entries-empty, keys-Distinct,
  }

  get-partition_or_new :
      (s : Store dm K V) (p : ℕ) (k : K)
      → get ⦃e = f.key_eq⦄ (partition_or_new dm f s p) k ≡ lookup dm f s p k
  unfolding lookup
  get-partition_or_new s p k = ground (arith, get-empty dm {V = V} ⦃e = f.key_eq⦄ k)

  -- A write to the shard is seen by the next lookup of its key and by no other.
  pub lookup-store_local :
      (s : Store dm K V) (p : ℕ) (k : K) (v : V) (p' : ℕ) (j : K)
      → lookup dm f (store_local dm f s p k v) p' j
        ≡ (if (p == p') && f.key_eq.same k j then some v else lookup dm f s p' j)
  unfolding lookup store_local
  lookup-store_local s p k v p' j = elim (Bool-cases (p == p')) [
    | inl e ↦
        rw (get-insert, e, lookup)
          (rw (get-insert ⦃e = f.key_eq⦄, get-partition_or_new, (==_iff p p').0 e))
    | inr e ↦ rw (get-insert, e, lookup)
  ]

  pub lookup-apply_last :
      (s : Store dm K V) (p : ℕ) (l : List (K × V)) (p' : ℕ) (j : K)
      → lookup dm f (apply_partition_entries dm f s p l) p' j ≡ (
          if p == p'
          then or_else (last_of ⦃e = f.key_eq⦄ j l) (lookup dm f s p' j)
          else lookup dm f s p' j)
  unfolding apply_partition_entries last_of
  lookup-apply_last s p [] p' j = ground arith
  lookup-apply_last s p ((k, v) ∷ l) p' j =
      lookup-apply_last (store_local dm f s p k v) p l p' j
      ∙ rw lookup-store_local (elim (Bool-cases (p == p')) [
        | inl e ↦ rw e (
            rw or_else_assoc
              (elim (Bool-cases (f.key_eq.same k j)) [ inl h ↦ rw h | inr h ↦ rw h ]))
        | inr e ↦ rw e
      ])

  last_of-entries :
      (m : Map K V) (k : K) → last_of ⦃e = f.key_eq⦄ k (entries m) ≡ get ⦃e = f.key_eq⦄ m k
  last_of-entries m k = elim (Option-cases (get ⦃e = f.key_eq⦄ m k)) [
    | inl missing ↦
        last_of_absent ⦃e = f.key_eq⦄ k (entries m) (λ i.
          let ((j, v), there, same) = In-of_In-map (λ (e : K × V). e.0) k (entries m) i in
          cc (same, missing, (In-entries ⦃e = f.key_eq⦄ m j v).0 there))
        ∙ sym missing
    | inr (v, found) ↦
        last_of-In ⦃e = f.key_eq⦄ k v (entries m) (keys-Distinct m)
          ((In-entries ⦃e = f.key_eq⦄ m k v).1 found)
        ∙ sym found
  ]

  last_of-dump :
      (s : Store dm K V) (p : ℕ) (k : K)
      → last_of ⦃e = f.key_eq⦄ k (dump_partition dm f s p) ≡ lookup dm f s p k
  unfolding dump_partition lookup last_of
  last_of-dump s p k = elim (Option-cases (get s.local_data p)) [
    | inl e ↦ rw (e, dump_partition) (rw (e, lookup))
    | inr (m, e) ↦ rw (e, dump_partition) (rw (e, lookup) (last_of-entries m k))
  ]

  -- Anti-entropy: a dump of a partition, applied at another node, makes that node's partition
  -- answer every lookup as the dumped one does, and keys that the dump has not as before. Other
  -- partitions do not change.
  pub lookup-apply_dump :
      (source target : Store dm K V) (p p' : ℕ) (k : K)
      → lookup dm f (apply_partition_entries dm f target p (dump_partition dm f source p)) p' k ≡ (
          if p == p'
          then or_else (lookup dm f source p k) (lookup dm f target p' k)
          else lookup dm f target p' k)
  lookup-apply_dump source target p p' k =
      lookup-apply_last target p (dump_partition dm f source p) p' k ∙ rw last_of-dump

  pub should_process_fresh :
      (now : ℕ) (s : Store dm K V) (op_id : Str)
      → dm.get s.processed_ops op_id ≡ none
      → ((should_process dm f now s op_id).0 ≡ true)
        × ((should_process dm f now s op_id).1.local_data ≡ s.local_data)
  unfolding should_process
  should_process_fresh now s op_id fresh = rw (fresh, should_process) (refl, refl)
