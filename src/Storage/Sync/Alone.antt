-- ===== src/Storage/Sync/Alone.antt =====
-- src/main.rs, `sync_partitions` on a node that owns every partition alone.
use stage.Prelude.{ℕ, ◌≡◌, refl, ap, ◌∙◌, List, [], ◌∷◌, Str, ==_refl, str_eq}
use stage.DashMap.{DashMap}
use stage.Effects.{Wire}
use stage.Site.{Site, IsAlone, me, source_owner, target_partitions}
use stage.Storage.Protocol.{Format, Request, Response}
use stage.Storage.Memory.{Store}
use stage.Storage.Sync.{sync_partition, sync_each, sync_partitions}

module _ (dm : DashMap) {K V : Type 0} (f : Format K V) (site : Site dm) (base : Str)
    (w : Wire Request Response) (alone : IsAlone dm site) where
  sync_each_alone :
      (ps : List ℕ) (s : Store dm K V × List Request) → sync_each dm f site base w ps s ≡ s
  unfolding sync_each sync_partition source_owner
  sync_each_alone [] s = refl
  sync_each_alone (p ∷ ps) s =
      let same : sync_partition dm f site base w p s ≡ s =
        rw (alone p, sync_partition) (rw (==_refl (me dm site)) refl) in
      ap (λ t. sync_each dm f site base w ps t) same ∙ sync_each_alone ps s

  -- It has nobody to ask: a resync changes nothing and sends nothing.
  pub sync_partitions_alone :
      (shuffle : List ℕ → List ℕ) (s : Store dm K V × List Request)
      → sync_partitions dm f site base w shuffle s ≡ s
  unfolding sync_partitions
  sync_partitions_alone shuffle s = sync_each_alone (target_partitions dm shuffle site) s
