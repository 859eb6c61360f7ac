-- ===== src/Site.antt =====
-- What an operation of a node reads and does not change: its view of the members, its partition
-- manager and the hash. The view stands still during one operation.
use stage.Prelude.{
  ◌≡◌, Bool, Option, none, some, [], ◌∷◌, ◌++◌, ◌==◌, str_eq, if◌then◌else◌, ℕ, List, Str,
}
use stage.DashMap.{DashMap}
use stage.Membership.Types.{NodeId}
use stage.Membership.Service.{Service}
use stage.Storage.Partitioner.{
  PartitionManager, Hasher, get_partition, get_owners, my_primary_partitions, my_backup_partitions,
}

pub record Site (dm : DashMap) : Type 0 where
  pub membership : Service dm
  pub partitioner : PartitionManager
  pub hash : Hasher

module _ (dm : DashMap) where
  abbrev pub me : Site dm → NodeId
  me site = site.membership.local_node.id

  abbrev pub partition_of : Site dm → Str → ℕ
  partition_of site key = get_partition site.hash site.partitioner key

  abbrev pub owners_of : Site dm → ℕ → List NodeId
  owners_of site p = get_owners dm site.partitioner site.membership p

  -- The local node is the only owner of every partition.
  abbrev pub IsAlone : Site dm → Type 0
  IsAlone site = (p : ℕ) → owners_of site p ≡ me site ∷ []

  -- Whom a resync of a partition asks (src/main.rs): a primary that has no data asks its first
  -- backup, a backup asks the primary.
  unfoldable pub source_owner : Site dm → List NodeId → Bool → Option NodeId
  source_owner site [] held = none
  source_owner site (primary ∷ []) held = if primary == me site then none else some primary
  source_owner site (primary ∷ backup ∷ _) held =
      if primary == me site then (if held then none else some backup) else some primary

  -- The target partitions; `shuffle` is the order in which a HashSet is iterated.
  abbrev pub target_partitions : (List ℕ → List ℕ) → Site dm → List ℕ
  target_partitions shuffle site = shuffle (
      my_primary_partitions dm site.partitioner site.membership
      ++ my_backup_partitions dm site.partitioner site.membership)
