-- ===== src/Storage/Handlers/Serving.antt =====
-- src/storage/handlers.rs and src/storage/memory.rs together: what a node gets from another.
use stage.Prelude.{
  ℕ, ◌≡◌, refl, ◌∙◌, Bool, true, false, none, some, List, [], ◌∷◌, ◌++◌, Str, ◌==◌, ◌&&◌, nat_eq,
  str_eq, keep, if◌then◌else◌, Option-cases, inl, inr,
}
use stage.DashMap.{DashMap}
use stage.Effects.{ok, Wire, ◌>>=◌, pure}
use stage.Effects.Retry.{send_answered}
use stage.Membership.Types.{NodeId, Node}
use stage.Membership.Service.{get_member}
use stage.Site.{Site}
use stage.Storage.Protocol.{Format, Request, Response, get_internal, partition_dump}
use stage.Storage.Memory.{
  Store, should_process, store_replica, dump_partition, lookup, get_local, read_entries, read_value,
  fetch_remote, fetch_partition,
}
use stage.Storage.Memory.Local.{should_process_fresh, lookup-store_local}
use stage.Storage.Handlers.{
  dump_entries, parse_entry, handle_replicate, handle_partition_dump, handle_get_internal,
  value_reply, get_answer, dump_answer,
}

-- `ToString` and `FromStr` of the keys, and `serde_json` of the values, read what they write.
pub record RoundTrips {K V : Type 0} (f : Format K V) : Type 0 where
  pub parse-to_string : (k : K) → f.parse (f.to_string k) ≡ some k
  pub from_json-to_json : (v : V) (json : Str) → f.to_json v ≡ some json → f.from_json json ≡ some v

-- Whether a value can be serialised.
abbrev pub is_written : {K V : Type 0} → Format K V → V → Bool
is_written f v = elim (f.to_json v) [ none ↦ false | some _ ↦ true ]

module _ (dm : DashMap) {K V : Type 0} (f : Format K V) (rt : RoundTrips f) where
  pub store_replica_fresh :
      (now p : ℕ) (op_id : Str) (k : K) (v : V) (s : Store dm K V) (p' : ℕ) (j : K)
      → dm.get s.processed_ops op_id ≡ none
      → lookup dm f (store_replica dm f now p op_id k v s) p' j
        ≡ (if (p == p') && f.key_eq.same k j then some v else lookup dm f s p' j)
  unfolding store_replica lookup
  store_replica_fresh now p op_id k v s p' j fresh =
      let (accepted, same_data) = should_process_fresh dm f now s op_id fresh in
      rw accepted (
        lookup-store_local dm f (should_process dm f now s op_id).1 p k v p' j
        ∙ rw (same_data, lookup))

  -- A replica that is sent by `replicate_to_backup` and not yet known is accepted, and then found
  -- under its key and partition; nothing else changes.
  pub handle_replicate_lem :
      (now p : ℕ) (op_id : Str) (k : K) (v : V) (json : Str) (s : Store dm K V) (p' : ℕ) (j : K)
      → f.to_json v ≡ some json
      → dm.get s.processed_ops op_id ≡ none
      → ((handle_replicate dm f now p op_id (f.to_string k) json s).0 ≡ (200, true))
        × (lookup dm f (handle_replicate dm f now p op_id (f.to_string k) json s).1 p' j
            ≡ (if (p == p') && f.key_eq.same k j then some v else lookup dm f s p' j))
  unfolding handle_replicate parse_entry store_replica should_process
  handle_replicate_lem now p op_id k v json s p' j written fresh =
      rw (rt.parse-to_string k, handle_replicate)
        (rw (rt.from_json-to_json v json written, handle_replicate)
          (refl, store_replica_fresh now p op_id k v s p' j fresh))

  module _ (site : Site dm) (base : Str) (w : Wire Request Response) where
    -- The entries of a dump are read back, less those that could not be written.
    pub read_entries-dump_entries :
        (l : List (K × V)) (s : Store dm K V × List Request)
        → read_entries dm f site base w (dump_entries f l) s
          ≡ (ok (keep (λ x. is_written f x.1) l), s)
    unfolding read_entries dump_entries
    read_entries-dump_entries [] s = refl
    read_entries-dump_entries ((k, v) ∷ l) s = elim (Option-cases (f.to_json v)) [
      | inl e ↦ rw (e, dump_entries) (rw (e, is_written) (read_entries-dump_entries l s))
      | inr (json, e) ↦
          rw (e, dump_entries)
            (rw (rt.parse-to_string k) (
              rw (rt.from_json-to_json v json e) (
                rw (e, is_written)
                  (rw (read_entries-dump_entries l s, ◌>>=◌)
                    (rw (read_entries-dump_entries l s, pure))))))
    ]

    -- A node that asks `owner` for a key, and whose first request reaches that owner with the
    -- shard `remote`, gets what the shard has for the key, if what it has can be serialised.
    pub fetch_remote-handle_get_internal :
        (owner : NodeId) (node : Node) (k : K) (remote s : Store dm K V) (log : List Request)
        → get_member dm site.membership owner ≡ some node
        → w.answer log (node.http_addr, base, get_internal (f.to_string k))
          ≡ some (get_answer (handle_get_internal dm f site base w remote (f.to_string k)))
        → ((v : V)
            → get_local dm f site base w remote k ≡ some v
            → (json : Str) × (f.to_json v ≡ some json))
        → fetch_remote dm f site base w owner k (s, log) ≡ (
          ok (get_local dm f site base w remote k),
          (s, log ++ (node.http_addr, base, get_internal (f.to_string k)) ∷ []),
        )
    unfolding fetch_remote handle_get_internal value_reply read_value
    fetch_remote-handle_get_internal owner node k remote s log known reached written =
        let reply = get_answer (handle_get_internal dm f site base w remote (f.to_string k)) in
        let q : Request = (node.http_addr, base, get_internal (f.to_string k)) in
        let sent = send_answered w 2 q s log reply reached in
        let answer : handle_get_internal dm f site base w remote (f.to_string k)
            ≡ value_reply dm f site base w (get_local dm f site base w remote k) =
          rw (rt.parse-to_string k, handle_get_internal) in
        rw (known, fetch_remote)
          (rw (sent, ◌>>=◌)
            (rw sent (
              rw answer (elim (Option-cases (get_local dm f site base w remote k)) [
                | inl e ↦ rw (e, value_reply)
                | inr (v, e) ↦
                    let (json, j) = written v e in
                    rw (e, value_reply)
                      (rw (j, value_reply) (rw (rt.from_json-to_json v json j, read_value)))
              ]))))

    -- A node that asks `owner` for a partition, and whose first request reaches that owner with the
    -- shard `remote`, gets the entries of the shard's partition, less those that cannot be
    -- serialised.
    pub fetch_partition-handle_partition_dump :
        (owner : NodeId) (node : Node) (p : ℕ) (remote s : Store dm K V) (log : List Request)
        → get_member dm site.membership owner ≡ some node
        → w.answer log (node.http_addr, base, partition_dump p)
          ≡ some (dump_answer (handle_partition_dump dm f remote p))
        → fetch_partition dm f site base w owner p (s, log) ≡ (
          ok (keep (λ x. is_written f x.1) (dump_partition dm f remote p)),
          (s, log ++ (node.http_addr, base, partition_dump p) ∷ []),
        )
    unfolding fetch_partition handle_partition_dump
    fetch_partition-handle_partition_dump owner node p remote s log known reached =
        let reply = dump_answer (handle_partition_dump dm f remote p) in
        let sent = send_answered w 2 (node.http_addr, base, partition_dump p) s log reply reached in
        rw (known, fetch_partition)
          (rw (sent, ◌>>=◌)
            (rw sent (
              read_entries-dump_entries (dump_partition dm f remote p)
                (s, log ++ (node.http_addr, base, partition_dump p) ∷ []))))
