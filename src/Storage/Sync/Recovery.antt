-- ===== src/Storage/Sync/Recovery.antt =====
-- src/main.rs, `sync_partitions`: what a node has after a resync.
use stage.Prelude.{
  ℕ, ◌≡◌, refl, ◌∙◌, ap, true, false, none, some, List, [], ◌∷◌, ◌++◌, Str, ◌==◌, ==_iff, nat_eq,
  str_eq, keep, In, if◌then◌else◌, Option-cases, inl, inr, arith,
}
use stage.DashMap.{DashMap}
use stage.Effects.{Result, ok, err, Wire}
use stage.Membership.Types.{NodeId, Node}
use stage.Membership.Service.{get_member}
use stage.Site.{Site, me, owners_of, source_owner}
use stage.Storage.Partitioner.{is_first}
use stage.Storage.Protocol.{Format, Request, Response, partition_dump}
use stage.Storage.Memory.{
  Store, has_partition, dump_partition, apply_partition_entries, lookup, fetch_partition,
}
use stage.Storage.Memory.Local.{or_else, lookup-apply_dump, lookup-apply_last}
use stage.Storage.Memory.Frames.{fetch_partition-Spares}
use stage.Storage.Handlers.{handle_partition_dump, dump_answer}
use stage.Storage.Handlers.Serving.{RoundTrips, is_written, fetch_partition-handle_partition_dump}
use stage.Storage.Sync.{resync, sync_partition, sync_each}

module _ (dm : DashMap) {K V : Type 0} (f : Format K V) where
  resync_ok :
      (p : ℕ) (l : List (K × V)) (s : Store dm K V) (log : List Request)
      → resync dm f p (ok l, (s, log)) ≡ (apply_partition_entries dm f s p l, log)
  unfolding resync apply_partition_entries
  resync_ok p [] s log = refl
  resync_ok p (x ∷ l) s log = refl

  keep_written :
      ((v : V) → (json : Str) × (f.to_json v ≡ some json))
      → (l : List (K × V)) → keep (λ x. is_written f x.1) l ≡ l
  keep_written total [] = refl
  keep_written total ((k, v) ∷ l) =
      let (json, e) = total v in rw (e, is_written) (ap (◌∷◌ (k, v)) (keep_written total l))

  module _ (site : Site dm) (base : Str) (w : Wire Request Response) where
    -- A primary that has data for a partition does not resync it.
    pub sync_partition_primary :
        (p : ℕ) (s : Store dm K V) (log : List Request)
        → is_first (me dm site) (owners_of dm site p) ≡ true
        → has_partition dm f s p ≡ true
        → sync_partition dm f site base w p (s, log) ≡ (s, log)
    unfolding sync_partition source_owner is_first
    sync_partition_primary p s log first held =
        rw (held, sync_partition) (rw (skips (owners_of dm site p) first))
      where
        skips :
            (owners : List NodeId)
            → is_first (me dm site) owners ≡ true
            → source_owner dm site owners true ≡ none
        skips [] h = refl
        skips (o ∷ []) h = rw h
        skips (o ∷ b ∷ os) h = rw h

    -- A resync of a partition whose source answers the first request, with the shard `remote`:
    -- every key of the partition that the source has is then found here with the source's value,
    -- and every other key as before. Keys and values are read as they were written, and every
    -- value can be written.
    pub lookup-sync_partition :
        (p : ℕ) (owner : NodeId) (node : Node) (remote s : Store dm K V) (log : List Request)
        (p' : ℕ) (k : K)
        → RoundTrips f
        → ((v : V) → (json : Str) × (f.to_json v ≡ some json))
        → source_owner dm site (owners_of dm site p) (has_partition dm f s p) ≡ some owner
        → get_member dm site.membership owner ≡ some node
        → w.answer log (node.http_addr, base, partition_dump p)
          ≡ some (dump_answer (handle_partition_dump dm f remote p))
        → lookup dm f (sync_partition dm f site base w p (s, log)).0 p' k ≡ (
            if p == p'
            then or_else (lookup dm f remote p k) (lookup dm f s p' k)
            else lookup dm f s p' k)
    unfolding sync_partition
    lookup-sync_partition p owner node remote s log p' k rt total source known reached =
        let dump = dump_partition dm f remote p in
        let sent = log ++ (node.http_addr, base, partition_dump p) ∷ [] in
        let fetched : fetch_partition dm f site base w owner p (s, log) ≡ (ok dump, (s, sent)) =
          fetch_partition-handle_partition_dump dm f rt site base w owner node p remote s log known
            reached
          ∙ rw (keep_written total dump) in
        let outcome : sync_partition dm f site base w p (s, log)
            ≡ (apply_partition_entries dm f s p dump, sent) =
          rw (source, sync_partition) (rw fetched (resync_ok p dump s sent)) in
        rw outcome (lookup-apply_dump dm f remote s p p' k)

    resync-other :
        (p p' : ℕ) (k : K) (s : Store dm K V)
        (r : Result (List (K × V)) × (Store dm K V × List Request))
        → (p == p') ≡ false
        → r.1.0 ≡ s
        → lookup dm f (resync dm f p r).0 p' k ≡ lookup dm f s p' k
    unfolding resync
    resync-other p p' k s (ok [], t) other same = rw same
    resync-other p p' k s (err e, t) other same = rw same
    resync-other p p' k s (ok (x ∷ l), (t, log)) other same =
        lookup-apply_last dm f t p (x ∷ l) p' k ∙ rw other (rw same)

    sync_partition-other :
        (p p' : ℕ) (k : K) (s : Store dm K V) (log : List Request)
        → (p == p') ≡ false
        → lookup dm f (sync_partition dm f site base w p (s, log)).0 p' k ≡ lookup dm f s p' k
    unfolding sync_partition
    sync_partition-other p p' k s log other =
        elim (Option-cases (source_owner dm site (owners_of dm site p) (has_partition dm f s p))) [
          | inl e ↦ rw (e, sync_partition)
          | inr (o, e) ↦
              rw (e, sync_partition)
                (resync-other p p' k s (fetch_partition dm f site base w o p (s, log)) other
                  ((fetch_partition-Spares dm f site base w (λ t. t) o p).at s log))
        ]

    -- A round over some partitions leaves every other partition alone, whatever the network does.
    pub sync_each-other :
        (ps : List ℕ) (p : ℕ) (k : K) (s : Store dm K V) (log : List Request)
        → ¬ In p ps
        → lookup dm f (sync_each dm f site base w ps (s, log)).0 p k ≡ lookup dm f s p k
    unfolding sync_each
    sync_each-other [] p k s log out = refl
    sync_each-other (q ∷ ps) p k s log out =
        let t = sync_partition dm f site base w q (s, log) in
        sync_each-other ps p k t.0 t.1 (λ i. out (inr i))
        ∙ sync_partition-other q p k s log (ground (arith, ==_iff q p, out))
