-- ===== src/Storage/Partitioner/Primary.antt =====
-- src/storage/partitioner.rs: the primary of a partition.
use stage.Prelude.{
  ℕ, zero, suc, ◌+◌, ◌≤◌, ◌<◌, ◌≡◌, refl, sym, subst, true, List, [], ◌∷◌, ◌==◌, ==_iff, ==_refl,
  str_eq, any, length, In, In-of_All, Distinct, ◌↔◌, inl, inr, arith, In-keep_iff,
}
use native.Mathlib.Decide.{ℕ_discrete}
use stage.DashMap.{DashMap}
use stage.Membership.Types.{NodeId}
use stage.Membership.Service.{Service}
use stage.Membership.Nodes.{WellKeyed}
use stage.Storage.Sort.{SameMembers}
use stage.Storage.Partitioner.Owners.{get_owners_lem, get_owners_agree}
use stage.Storage.Partitioner.{
  PartitionManager, new_with_replication, range, is_first, is_backup, alive_ids, get_owners,
  my_primary_partitions, my_backup_partitions,
}

In-range : (start n i : ℕ) → start ≤ i → i < start + n → In i (range start n)
unfolding range
In-range start zero i h k = absurd (omega arith)
In-range start (suc n) i h k = elim (ℕ_discrete i start) [
  | yes e ↦ inl e
  | no e ↦ inr (In-range (suc start) n i (omega arith) (omega arith))
]

range-bound : (start n i : ℕ) → In i (range start n) → start ≤ i × i < start + n
unfolding range
range-bound start zero i h = elim h [ ]
range-bound start (suc n) i (inl e) = (omega arith, omega arith)
range-bound start (suc n) i (inr h) =
    let (a, b) = range-bound (suc start) n i h in (omega arith, omega arith)

head_is_first :
    (owners : List NodeId)
    → 0 < length owners
    → (id : NodeId) × In id owners × (is_first id owners ≡ true)
unfolding is_first
head_is_first [] h = absurd (omega arith)
head_is_first (o ∷ os) h = (o, inl refl, ==_refl o)

In-any : (me : NodeId) (ids : List NodeId) → any (λ o. o == me) ids ≡ true → In me ids
In-any me [] h = absurd (ground arith)
In-any me (x ∷ xs) h = ground (arith, ==_iff x me, In-any me xs)

first_not_backup :
    (me : NodeId) (owners : List NodeId)
    → Distinct owners
    → is_first me owners ≡ true
    → is_backup me owners ≡ true
    → ⊥
unfolding is_first is_backup
first_not_backup me [] d f b = ground arith
first_not_backup me (o ∷ os) d f b =
    d.0 (subst (λ x. In x os) (sym ((==_iff o me).0 f)) (In-any me os b))

first_unique :
    (me you : NodeId) (xs ys : List NodeId)
    → xs ≡ ys
    → is_first me xs ≡ true
    → is_first you ys ≡ true
    → me ≡ you
unfolding is_first
first_unique me you [] ys e f g = absurd (ground arith)
first_unique me you (x ∷ xs) [] e f g = absurd (ground arith)
first_unique me you (x ∷ xs) (y ∷ ys) e f g = cc (e, (==_iff x me).0 f, (==_iff y you).0 g)

module _ (dm : DashMap) where
  -- In a view whose entries stand under their nodes' ids, no node is primary and backup of one
  -- partition.
  pub primary_not_backup :
      (p : PartitionManager) (s : Service dm) (i : ℕ)
      → WellKeyed dm s
      → In i (my_primary_partitions dm p s)
      → ¬ In i (my_backup_partitions dm p s)
  unfolding my_primary_partitions my_backup_partitions
  primary_not_backup p s i keyed first backup =
      let owners = get_owners dm p s i in
      let me = s.local_node.id in
      first_not_backup me owners (get_owners_lem dm p s i keyed).1
        ((In-keep_iff (λ i. is_first me (get_owners dm p s i)) i _).0 first).1
        ((In-keep_iff (λ i. is_backup me (get_owners dm p s i)) i _).0 backup).1

  -- If two nodes, in whose views the same ids are alive and entries stand under their ids, are both primary of a partition, they are one node.
  pub primary_unique :
      (p : PartitionManager) (s t : Service dm) (i : ℕ)
      → WellKeyed dm s
      → WellKeyed dm t
      → SameMembers (alive_ids dm s) (alive_ids dm t)
      → In i (my_primary_partitions dm p s)
      → In i (my_primary_partitions dm p t)
      → s.local_node.id ≡ t.local_node.id
  unfolding my_primary_partitions
  primary_unique p s t i ks kt same h k =
      let me = s.local_node.id in
      let you = t.local_node.id in
      first_unique me you (get_owners dm p s i) (get_owners dm p t i)
        (get_owners_agree dm p s t i ks kt same)
        ((In-keep_iff (λ i. is_first me (get_owners dm p s i)) i _).0 h).1
        ((In-keep_iff (λ i. is_first you (get_owners dm p t i)) i _).0 k).1

  -- While some node is alive, in a view whose entries stand under their nodes' ids, every
  -- partition has a first owner, and that node is alive.
  pub primary_exists :
      (factor : ℕ) (s : Service dm) (i : ℕ)
      → WellKeyed dm s
      → 0 < length (alive_ids dm s)
      → (id : NodeId) × In id (alive_ids dm s)
        × (is_first id (get_owners dm (new_with_replication factor) s i) ≡ true)
  unfolding new_with_replication
  primary_exists factor s i keyed some_alive =
      let (size, _, from) = get_owners_lem dm (new_with_replication factor) s i keyed in
      let owners = get_owners dm (new_with_replication factor) s i in
      let (id, here, first) = head_is_first owners (omega (arith, size)) in
      (id, In-of_All _ owners from id here, first)

  -- A node claims a partition as primary exactly if the partition is one of the 256 and the node
  -- is the first of its owners.
  pub In-my_primary_partitions_iff :
      (factor : ℕ) (s : Service dm) (i : ℕ)
      → In i (my_primary_partitions dm (new_with_replication factor) s) ↔ (
          (is_first s.local_node.id (get_owners dm (new_with_replication factor) s i) ≡ true)
          × i < 256)
  unfolding my_primary_partitions new_with_replication
  In-my_primary_partitions_iff factor s i =
      let p = new_with_replication factor in
      let here =
        In-keep_iff (λ i. is_first s.local_node.id (get_owners dm p s i)) i (range 0 256) in
      (
        λ h. ((here.0 h).1, (range-bound 0 256 i (here.0 h).0).1),
        λ h. here.1 (In-range 0 256 i (omega arith) (omega (arith, h.1)), h.0),
      )
