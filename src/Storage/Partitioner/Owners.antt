-- ===== src/Storage/Partitioner/Owners.antt =====
-- src/storage/partitioner.rs: the owners are distinct alive nodes, as many as the replication
-- factor allows, and the same on every node with the same view.
use stage.Prelude.{
  ℕ, ◌%◌, ◌<◌, ◌≡◌, refl, ap, subst, min, Bool, List, [], ◌∷◌, map, Str, str_eq, keep, length, In,
  All, All-of_In, Distinct, inl, inr, arith, if_cases,
}
use stage.DashMap.{DashMap}
use stage.Membership.Types.{NodeId, Node}
use stage.Membership.Service.{Service, get_alive_members}
use stage.Membership.Nodes.{WellKeyed}
use stage.Storage.Partitioner.Ring.{length-ring, In-ring, ring-Distinct, get_elem?-In}
use stage.Storage.Sort.{
  sort_ids, sort_ids_agree, sort_ids-Distinct, length-sort_ids, In-sort_ids_iff, SameMembers,
}
use stage.Storage.Partitioner.{
  PartitionManager, new_with_replication, Hasher, get_partition, owners_among, alive_ids,
  get_owners,
}

-- Every key falls into one of the 256 partitions, whatever the hash and the replication factor.
pub get_partition-lt :
    (hash : Hasher) (factor : ℕ) (key : Str)
    → get_partition hash (new_with_replication factor) key < 256
unfolding get_partition new_with_replication
get_partition-lt hash factor key = omega arith

abbrev ids_of : (Node → Bool) → List (NodeId × Node) → List NodeId
ids_of p l = map (λ n. n.id) (keep p (map (λ e. e.1) l))

In-ids_of :
    (p : Node → Bool) (l : List (NodeId × Node)) (id : NodeId)
    → ((k : NodeId) (n : Node) → In (k, n) l → n.id ≡ k)
    → In id (ids_of p l)
    → In id (map (λ e. e.0) l)
In-ids_of p [] id keyed h = h
In-ids_of p ((k, n) ∷ l) id keyed h =
    ground (arith, In-ids_of p l id (λ k n i. keyed k n (inr i)), keyed k n (inl refl))

ids_of-Distinct :
    (p : Node → Bool) (l : List (NodeId × Node))
    → ((k : NodeId) (n : Node) → In (k, n) l → n.id ≡ k)
    → Distinct (map (λ e. e.0) l)
    → Distinct (ids_of p l)
ids_of-Distinct p [] keyed d = tt
ids_of-Distinct p ((k, n) ∷ l) keyed d =
    let rest : (k' : NodeId) (n' : Node) → In (k', n') l → n'.id ≡ k' =
      λ k' n' i. keyed k' n' (inr i) in
    if_cases (λ ns. Distinct (map (λ (n : Node). n.id) ns)) (p n)
      (λ _. (
        λ i. d.0 (
            subst (λ x. In x (map (λ e. e.0) l)) (keyed k n (inl refl))
              (In-ids_of p l n.id rest i)),
        ids_of-Distinct p l rest d.1,
      ))
      (λ _. ids_of-Distinct p l rest d.1)

-- The owners among distinct ids: how many, no repetitions, and from the ids.
abbrev AreOwners : PartitionManager → List NodeId → List NodeId → Type 0
AreOwners p ids owners =
    (length owners ≡ min p.replication_factor (length ids))
    × Distinct owners
    × ((id : NodeId) → In id owners → In id ids)

owners_among_lem :
    (p : PartitionManager) (partition : ℕ) (ids : List NodeId)
    → Distinct ids
    → AreOwners p ids (owners_among p partition ids)
unfolding owners_among
owners_among_lem p partition [] d = (omega arith, tt, λ id h. h)
owners_among_lem p partition (x ∷ xs) d =
    let ids : List NodeId = x ∷ xs in
    let start = partition % length ids in
    let count = min p.replication_factor (length ids) in
    let pos : 0 < length ids = omega arith in
    (
      length-ring ids start pos 0 count,
      ring-Distinct ids start pos 0 count d (omega arith),
      λ id h. let (o, _, _, e) = In-ring ids start pos 0 count id h in get_elem?-In ids _ e,
    )

module _ (dm : DashMap) where
  alive_ids-Distinct : (s : Service dm) → WellKeyed dm s → Distinct (alive_ids dm s)
  unfolding get_alive_members
  alive_ids-Distinct s keyed =
      ids_of-Distinct _ (dm.entries s.members)
        (λ k n i. keyed k n ((dm.In-entries s.members k n).0 i)) (dm.keys-Distinct s.members)

  -- Two nodes that see the same ids alive, in whatever order they learnt of them, compute the
  -- same owners for every partition, if each entry of the two views stands under its node's id.
  pub get_owners_agree :
      (p : PartitionManager) (s t : Service dm) (partition : ℕ)
      → WellKeyed dm s
      → WellKeyed dm t
      → SameMembers (alive_ids dm s) (alive_ids dm t)
      → get_owners dm p s partition ≡ get_owners dm p t partition
  unfolding get_owners
  get_owners_agree p s t partition ks kt same =
      ap (owners_among p partition)
        (sort_ids_agree _ _ (alive_ids-Distinct s ks) (alive_ids-Distinct t kt) same)

  -- The owners of a partition are alive, no node is listed twice, and there are as many as the
  -- replication factor asks for, or all that are alive if they are fewer, if each entry of the view stands under
  -- its node's id.
  pub get_owners_lem :
      (p : PartitionManager) (s : Service dm) (partition : ℕ)
      → WellKeyed dm s
      → (length (get_owners dm p s partition) ≡ min p.replication_factor (length (alive_ids dm s)))
        × Distinct (get_owners dm p s partition)
        × All (λ id. In id (alive_ids dm s)) (get_owners dm p s partition)
  unfolding get_owners
  get_owners_lem p s partition keyed =
      let ids = alive_ids dm s in
      let (size, d, from) =
        owners_among_lem p partition (sort_ids ids)
          (sort_ids-Distinct ids (alive_ids-Distinct s keyed)) in
      (
        omega (arith, size, length-sort_ids ids),
        d,
        All-of_In _ _ (λ id h. (In-sort_ids_iff id ids).0 (from id h)),
      )
