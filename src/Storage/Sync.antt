-- ===== src/Storage/Sync.antt =====
-- src/main.rs, `sync_partitions`: a node asks its peers for the partitions that it owns.
pub mod Recovery
pub mod Alone
use stage.Prelude.{ℕ, Option, none, some, List, [], ◌∷◌, Str}
use stage.DashMap.{DashMap}
use stage.Effects.{Result, ok, err, Wire}
use stage.Site.{Site, owners_of, source_owner, target_partitions}
use stage.Storage.Protocol.{Format, Request, Response}
use stage.Storage.Memory.{Store, has_partition, apply_partition_entries, fetch_partition}

module _ (dm : DashMap) {K V : Type 0} (f : Format K V) where
  -- What becomes of the outcome of a fetch: an error or an empty list changes nothing.
  unfoldable pub resync :
      ℕ → Result (List (K × V)) × (Store dm K V × List Request) → Store dm K V × List Request
  resync p (ok [], s) = s
  resync p (ok (x ∷ l), (s, log)) = (apply_partition_entries dm f s p (x ∷ l), log)
  resync p (err e, s) = s

  module _ (site : Site dm) (base : Str) (w : Wire Request Response) where
    -- The body of the loop.
    unfoldable pub sync_partition : ℕ → Store dm K V × List Request → Store dm K V × List Request
    unfolding resync
    sync_partition p s =
        elim (source_owner dm site (owners_of dm site p) (has_partition dm f s.0 p)) [
          | none ↦ s
          | some owner ↦ resync p (fetch_partition dm f site base w owner p s)
        ]

    unfoldable pub sync_each : List ℕ → Store dm K V × List Request → Store dm K V × List Request
    unfolding sync_partition
    sync_each [] s = s
    sync_each (p ∷ ps) s = sync_each ps (sync_partition p s)

    unfoldable pub sync_partitions :
        (List ℕ → List ℕ) → Store dm K V × List Request → Store dm K V × List Request
    unfolding sync_each
    sync_partitions shuffle s = sync_each (target_partitions dm shuffle site) s
