-- ===== src/Storage/Memory.antt =====
-- src/storage/memory.rs: the distributed map. The local shard and the record of operations, then
-- the operations that involve other nodes.
pub mod Local
pub mod Frames
pub mod Idempotence
pub mod Replication
pub mod Alone
use stage.Prelude.{
  ℕ, zero, suc, ◌+◌, ◌≤◌, Bool, true, false, not, ◌&&◌, Option, none, some, List, [], ◌∷◌, map, Str,
  Eq, ◌==◌, str_eq, nat_eq, ltb, nat_beq, if◌then◌else◌, length, is_empty, drop,
}
use stage.DashMap.{DashMap}
use stage.Effects.{
  Error, node_not_found, unreadable, bad_status, Result, ok, err, Wire, Action, ◌>>=◌, ◌>>◌, pure,
  fail, modify, or_fail, send_with_retry, is_success,
}
use stage.Membership.Types.{NodeId, Node}
use stage.Membership.Service.{get_member}
use stage.Site.{Site, me, partition_of, owners_of}
use stage.Storage.Protocol.{
  Format, Call, replicate, forward_put, get_internal, partition_dump, Request, KeyValueJson, Body,
  get_response, dump_response, other_body, Response,
}

pub record Store (dm : DashMap) (K V : Type 0) : Type 0 where
  pub local_data : dm.Map ℕ (dm.Map K V)
  pub processed_ops : dm.Map Str ℕ

abbrev pub value_of : Body → Option (Option Str)
value_of (get_response v) = some v
value_of (dump_response l) = none
value_of other_body = none

abbrev pub dump_of : Body → Option (List KeyValueJson)
dump_of (get_response v) = none
dump_of (dump_response l) = some l
dump_of other_body = none

module _ (dm : DashMap) {K V : Type 0} (f : Format K V) where
  open dm use {Map, empty, get, insert, entries}

  -- `should_process`: the record is cleared when it holds more than 10,000 operations.
  unfoldable pub should_process : ℕ → Store dm K V → Str → Bool × Store dm K V
  should_process now s op_id = elim (get s.processed_ops op_id) [
    | some _ ↦ (false, s)
    | none ↦
        let kept =
          if ltb 10_000 (length (entries s.processed_ops)) then empty else s.processed_ops in
        (true, record s { processed_ops = insert kept op_id now })
  ]

  abbrev pub partition_or_new : Store dm K V → ℕ → Map K V
  partition_or_new s p = elim (get s.local_data p) [ none ↦ empty | some m ↦ m ]

  unfoldable pub store_local : Store dm K V → ℕ → K → V → Store dm K V
  store_local s p k v = record s {
    local_data = insert s.local_data p (insert ⦃e = f.key_eq⦄ (partition_or_new s p) k v);
  }

  unfoldable pub dump_partition : Store dm K V → ℕ → List (K × V)
  dump_partition s p = elim (get s.local_data p) [ none ↦ [] | some m ↦ entries m ]

  unfoldable pub has_partition : Store dm K V → ℕ → Bool
  has_partition s p = elim (get s.local_data p) [
    | none ↦ false
    | some m ↦ not (is_empty (entries m))
  ]

  unfoldable pub apply_partition_entries : Store dm K V → ℕ → List (K × V) → Store dm K V
  unfolding store_local
  apply_partition_entries s p [] = s
  apply_partition_entries s p ((k, v) ∷ l) = apply_partition_entries (store_local s p k v) p l

  unfoldable pub local_partition_count : Store dm K V → ℕ
  local_partition_count s = length (entries s.local_data)

  unfoldable pub sum_lengths : List (ℕ × Map K V) → ℕ
  sum_lengths [] = 0
  sum_lengths ((p, m) ∷ l) = length (entries m) + sum_lengths l

  unfoldable pub local_entry_count : Store dm K V → ℕ
  unfolding sum_lengths
  local_entry_count s = sum_lengths (entries s.local_data)

  -- `store_replica`; it cannot fail.
  unfoldable pub store_replica : ℕ → ℕ → Str → K → V → Store dm K V → Store dm K V
  unfolding should_process store_local
  store_replica now p op_id k v s =
      let (process, t) = should_process now s op_id in if process then store_local t p k v else t

  -- The lookup in one partition, which `get_local` and `get` begin with.
  unfoldable pub lookup : Store dm K V → ℕ → K → Option V
  lookup s p k = elim (get s.local_data p) [ none ↦ none | some m ↦ get ⦃e = f.key_eq⦄ m k ]

  module _ (site : Site dm) (base : Str) (w : Wire Request Response) where
    unfoldable pub get_local : Store dm K V → K → Option V
    unfolding lookup
    get_local s k = lookup s (partition_of dm site (f.to_string k)) k

    abbrev pub Act : Type 0 → Type 0
    Act A = Action (Store dm K V) Request A

    abbrev pub expect_success : Response → Act (Unit {0})
    expect_success r = if is_success r.status then pure tt else fail (bad_status r.status)

    unfoldable pub post : Node → Call → Act (Unit {0})
    post node call = do r ← send_with_retry w 3 (node.http_addr, base, call); expect_success r

    unfoldable pub forward : NodeId → ℕ → Str → K → V → Act (Unit {0})
    unfolding post
    forward primary p op_id k v = do
      node ← or_fail (get_member dm site.membership primary) node_not_found
      json ← or_fail (f.to_json v) unreadable
      post node (forward_put p op_id (f.to_string k) json)

    unfoldable pub replicate_to_backup : NodeId → ℕ → Str → K → V → Act (Unit {0})
    unfolding post
    replicate_to_backup backup p op_id k v = do
      node ← or_fail (get_member dm site.membership backup) node_not_found
      json ← or_fail (f.to_json v) unreadable
      post node (replicate p op_id (f.to_string k) json)

    -- `for backup in owners.iter().skip(1)`, ended by the first error.
    unfoldable pub replicate_to_all : List NodeId → ℕ → Str → K → V → Act (Unit {0})
    replicate_to_all [] p op_id k v = pure tt
    replicate_to_all (b ∷ bs) p op_id k v = do
      replicate_to_backup b p op_id k v
      replicate_to_all bs p op_id k v

    -- `if !self.should_process(&op_id) { return Ok(()) }` before `rest`.
    unfoldable pub once : ℕ → Str → Act (Unit {0}) → Act (Unit {0})
    unfolding should_process
    once now op_id rest (s, log) =
        let (process, t) = should_process now s op_id in
        if process then rest (t, log) else (ok tt, (t, log))

    unfoldable pub store_as_primary : ℕ → ℕ → Str → K → V → Act (Unit {0})
    unfolding once
    store_as_primary now p op_id k v = once now op_id (do
      modify (λ s. store_local s p k v)
      replicate_to_all (drop 1 (owners_of dm site p)) p op_id k v)

    -- `put_local`; `op_id` is drawn where there is a backup to send it to.
    unfoldable pub put_local : Str → K → V → Act (Unit {0})
    put_local op_id k v = do
      let p = partition_of dm site (f.to_string k)
      modify (λ s. store_local s p k v)
      replicate_to_all (drop 1 (owners_of dm site p)) p op_id k v

    unfoldable pub put_to : List NodeId → ℕ → Str → K → V → Act (Unit {0})
    put_to [] p op_id k v = modify (λ s. store_local s p k v)
    put_to (primary ∷ backups) p op_id k v =
        if me dm site == primary
        then (do modify (λ s. store_local s p k v); replicate_to_all backups p op_id k v)
        else forward primary p op_id k v

    -- `put_with_op`; `put` calls it with a new `op_id`.
    unfoldable pub put_with_op : ℕ → K → V → Str → Act (Unit {0})
    unfolding once put_to
    put_with_op now k v op_id =
        once now op_id
          (let p = partition_of dm site (f.to_string k) in put_to (owners_of dm site p) p op_id k v)

    -- The value in a `GetResponse`.
    unfoldable pub read_value : Option Str → Act (Option V)
    read_value none = pure none
    read_value (some json) = do v ← or_fail (f.from_json json) unreadable; pure (some v)

    unfoldable pub fetch_remote : NodeId → K → Act (Option V)
    unfolding read_value
    fetch_remote owner k = do
      node ← or_fail (get_member dm site.membership owner) node_not_found
      r ← send_with_retry w 3 (node.http_addr, base, get_internal (f.to_string k))
      if nat_beq r.status 404
          then pure none
          else do expect_success r; found ← or_fail (value_of r.body) unreadable; read_value found

    -- The owners in turn: the first that has a value ends the loop, an error does not.
    unfoldable pub ask_owners : List NodeId → K → Act (Option V)
    ask_owners [] k s = (ok none, s)
    ask_owners (o ∷ os) k s =
        let (r, t) = fetch_remote o k s in
        let rest = ask_owners os k t in
        elim r [
          | ok found ↦ (elim found [ some v ↦ (ok (some v), t) | none ↦ rest ])
          | err _ ↦ rest
        ]

    unfoldable pub get_from : List NodeId → K → Act (Option V)
    unfolding ask_owners
    get_from [] k = pure none
    get_from (primary ∷ backups) k =
        if primary == me dm site then ask_owners backups k else ask_owners (primary ∷ backups) k

    -- `get`: the local shard first, then the owners.
    unfoldable pub get_value : K → Act (Option V)
    unfolding lookup get_from
    get_value k s =
        let p = partition_of dm site (f.to_string k) in
        elim (lookup s.0 p k) [
          | some v ↦ (ok (some v), s)
          | none ↦ get_from (owners_of dm site p) k s
        ]

    -- The entries of a dump; the first that cannot be read ends the loop with an error.
    unfoldable pub read_entries : List KeyValueJson → Act (List (K × V))
    read_entries [] = pure []
    read_entries (x ∷ xs) = do
      k ← or_fail (f.parse x.key) unreadable
      v ← or_fail (f.from_json x.value_json) unreadable
      l ← read_entries xs
      pure ((k, v) ∷ l)

    unfoldable pub fetch_partition : NodeId → ℕ → Act (List (K × V))
    unfolding read_entries
    fetch_partition owner p = do
      node ← or_fail (get_member dm site.membership owner) node_not_found
      r ← send_with_retry w 3 (node.http_addr, base, partition_dump p)
      if nat_beq r.status 404
          then pure []
          else do expect_success r; l ← or_fail (dump_of r.body) unreadable; read_entries l
