-- ===== src/Tests/Ring.antt =====
-- Runs of src/storage/partitioner.rs on a cluster of two.
use stage.Prelude.{
  ◌≡◌, refl, min, true, [], ◌∷◌, length, In, All, Distinct, arith, ==_iff, str_eq, some,
}
use stage.Assoc.{assoc}
use stage.Membership.Types.{alive}
use stage.Membership.Service.{Service, get_alive_members}
use stage.Membership.Nodes.{WellKeyed}
use stage.Storage.Sort.{SameMembers}
use stage.Storage.Partitioner.{
  new_with_replication, get_owners, alive_ids, is_first, my_primary_partitions,
}
use stage.Storage.Partitioner.Owners.{get_owners_agree, get_owners_lem}
use stage.Storage.Partitioner.Primary.{In-my_primary_partitions_iff}
use stage.Tests.{ann, bob, node, service, pair, pair-WellKeyed}

-- The view of the other node of the pair, which met the two in the other order.
abbrev twin : Service assoc
twin = service (node bob alive 1 (some 0)) 1 ((ann, node ann alive 1 (some 0)) ∷ [])

-- The same node with the members met in the other order.
abbrev ann_again : Service assoc
ann_again = record twin { local_node = node ann alive 1 (some 0) }

twin-WellKeyed : WellKeyed assoc twin
twin-WellKeyed k n h = ground (arith, ==_iff ann k, ==_iff bob k)

same_members : SameMembers (alive_ids assoc pair) (alive_ids assoc twin)
unfolding get_alive_members
same_members a = ground arith

get_owners_agree_example :
    get_owners assoc (new_with_replication 2) pair 3
    ≡ get_owners assoc (new_with_replication 2) twin 3
get_owners_agree_example =
    get_owners_agree assoc (new_with_replication 2) pair twin 3 pair-WellKeyed twin-WellKeyed
      same_members

get_owners_lem_example :
    (length (get_owners assoc (new_with_replication 2) pair 3)
      ≡ min 2 (length (alive_ids assoc pair)))
    × Distinct (get_owners assoc (new_with_replication 2) pair 3)
    × All (λ id. In id (alive_ids assoc pair)) (get_owners assoc (new_with_replication 2) pair 3)
unfolding new_with_replication
get_owners_lem_example = get_owners_lem assoc (new_with_replication 2) pair 3 pair-WellKeyed

ann_first : is_first ann (get_owners assoc (new_with_replication 2) pair 0) ≡ true
unfolding is_first get_owners get_alive_members new_with_replication
ann_first = refl

ann_primary : In 0 (my_primary_partitions assoc (new_with_replication 2) pair)
ann_primary = (In-my_primary_partitions_iff assoc 2 pair 0).1 (ann_first, omega arith)

ann_still_primary : In 0 (my_primary_partitions assoc (new_with_replication 2) ann_again)
unfolding is_first get_owners get_alive_members new_with_replication
ann_still_primary = (In-my_primary_partitions_iff assoc 2 ann_again 0).1 (refl, omega arith)
