-- ===== src/Storage/Partitioner.antt =====
-- src/storage/partitioner.rs: the partition of a key and the owners of a partition.
pub mod Ring
pub mod Owners
pub mod Primary
use stage.Prelude.{
  ℕ, zero, suc, ◌+◌, ◌%◌, ◌^◌, ◌<◌, min, max, Bool, true, false, not, ◌&&◌, Option, none, some,
  List, [], ◌∷◌, ◌++◌, map, Str, ◌==◌, str_eq, keep, any, drop, length, get_elem?, is_empty,
  if◌then◌else◌,
}
use stage.DashMap.{DashMap}
use stage.Membership.Types.{NodeId, Node}
use stage.Membership.Service.{Service, get_alive_members}
use stage.Storage.Sort.{sort_ids}

pub record PartitionManager : Type 0 where
  pub num_partitions : ℕ
  pub replication_factor : ℕ

-- `new_with_replication`, and `new` with a factor of 2.
unfoldable pub new_with_replication : ℕ → PartitionManager
new_with_replication factor = record { num_partitions = 256; replication_factor = max factor 1 }

-- `DefaultHasher`: some u64 for each text.
abbrev pub Hasher : Type 0
Hasher = Str → ℕ

-- `hasher.finish() as u32 % self.num_partitions`
unfoldable pub get_partition : Hasher → PartitionManager → Str → ℕ
get_partition hash p key = (hash key % 2 ^ 32) % p.num_partitions

-- `(start + offset) % len` for each offset of a range; an index out of range would drop the node.
unfoldable pub ring : List NodeId → ℕ → ℕ → ℕ → List NodeId
ring ids start offset zero = []
ring ids start offset (suc k) =
    (elim (get_elem? ids ((start + offset) % length ids)) [ none ↦ [] | some id ↦ id ∷ [] ])
    ++ ring ids start (offset + 1) k

-- The owners of a partition among the sorted ids of the alive nodes.
unfoldable pub owners_among : PartitionManager → ℕ → List NodeId → List NodeId
unfolding ring
owners_among p partition ids =
    if is_empty ids
    then []
    else ring ids (partition % length ids) 0 (min p.replication_factor (length ids))

-- `(0..n)` from `i`, for `n` rounds.
unfoldable pub range : ℕ → ℕ → List ℕ
range i zero = []
range i (suc n) = i ∷ range (suc i) n

-- `!owners.is_empty() && owners[0] == me`
unfoldable pub is_first : NodeId → List NodeId → Bool
is_first me [] = false
is_first me (o ∷ os) = o == me

-- `owners.iter().skip(1).any(|owner| owner == me)`
unfoldable pub is_backup : NodeId → List NodeId → Bool
is_backup me owners = any (λ o. o == me) (drop 1 owners)

module _ (dm : DashMap) where
  abbrev pub alive_ids : Service dm → List NodeId
  alive_ids s = map (λ n. n.id) (get_alive_members dm s)

  unfoldable pub get_owners : PartitionManager → Service dm → ℕ → List NodeId
  unfolding owners_among sort_ids
  get_owners p s partition = owners_among p partition (sort_ids (alive_ids s))

  unfoldable pub my_primary_partitions : PartitionManager → Service dm → List ℕ
  unfolding range is_first
  my_primary_partitions p s =
      keep (λ i. is_first s.local_node.id (get_owners p s i)) (range 0 p.num_partitions)

  unfoldable pub my_backup_partitions : PartitionManager → Service dm → List ℕ
  unfolding range is_backup
  my_backup_partitions p s =
      keep (λ i. is_backup s.local_node.id (get_owners p s i)) (range 0 p.num_partitions)
