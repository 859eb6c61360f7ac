-- ===== src/Storage/Memory/Frames.antt =====
-- src/storage/memory.rs: what the operations with other nodes leave alone. No request changes the
-- local state; a write changes the shard and not the record of operations.
use stage.Prelude.{refl, ℕ, Option, none, some, List, [], ◌∷◌, Str, ◌==◌, str_eq, nat_beq}
use stage.DashMap.{DashMap}
use stage.Effects.{Wire, node_not_found, unreadable, bad_status, is_success}
use stage.Effects.Spares.{
  Spares, Spares-bind, Spares-pure, Spares-fail, Spares-or_fail, Spares-modify, Spares-send,
  Spares-if,
}
use stage.Membership.Types.{NodeId, Node}
use stage.Membership.Service.{get_member}
use stage.Site.{Site, me}
use stage.Storage.Protocol.{
  Format, Call, replicate, forward_put, get_internal, partition_dump, KeyValueJson, Request,
  Response,
}
use stage.Storage.Memory.{
  Store, store_local, post, forward, replicate_to_backup, replicate_to_all, put_to, read_value,
  fetch_remote, expect_success, value_of, dump_of, read_entries, fetch_partition,
}

module _ (dm : DashMap) {K V : Type 0} (f : Format K V) (site : Site dm) (base : Str)
    (w : Wire Request Response) where
  module _ {X : Type 0} (part : Store dm K V → X) where
    expect-Spares : (r : Response) → Spares part (expect_success dm f site base w r)
    expect-Spares r =
        Spares-if part (is_success r.status) (Spares-pure part tt)
          (Spares-fail part (bad_status r.status))

    post-Spares : (node : Node) (call : Call) → Spares part (post dm f site base w node call)
    unfolding post
    post-Spares node call = Spares-bind part (Spares-send part w 3 _) expect-Spares

    pub forward-Spares :
        (id : NodeId) (p : ℕ) (op_id : Str) (k : K) (v : V)
        → Spares part (forward dm f site base w id p op_id k v)
    unfolding forward
    forward-Spares id p op_id k v =
        Spares-bind part (Spares-or_fail part (get_member dm site.membership id) node_not_found)
          λ node.
            Spares-bind part {A = Str} (Spares-or_fail part (f.to_json v) unreadable)
              λ json. post-Spares node (forward_put p op_id (f.to_string k) json)

    replicate_to_backup-Spares :
        (id : NodeId) (p : ℕ) (op_id : Str) (k : K) (v : V)
        → Spares part (replicate_to_backup dm f site base w id p op_id k v)
    unfolding replicate_to_backup
    replicate_to_backup-Spares id p op_id k v =
        Spares-bind part (Spares-or_fail part (get_member dm site.membership id) node_not_found)
          λ node.
            Spares-bind part {A = Str} (Spares-or_fail part (f.to_json v) unreadable)
              λ json. post-Spares node (replicate p op_id (f.to_string k) json)

    pub replicate_to_all-Spares :
        (ids : List NodeId) (p : ℕ) (op_id : Str) (k : K) (v : V)
        → Spares part (replicate_to_all dm f site base w ids p op_id k v)
    unfolding replicate_to_all
    replicate_to_all-Spares [] p op_id k v = Spares-pure part tt
    replicate_to_all-Spares (b ∷ bs) p op_id k v =
        Spares-bind part (replicate_to_backup-Spares b p op_id k v)
          λ _. replicate_to_all-Spares bs p op_id k v

    read_value-Spares : (o : Option Str) → Spares part (read_value dm f site base w o)
    unfolding read_value
    read_value-Spares none = Spares-pure part none
    read_value-Spares (some json) =
        Spares-bind part (Spares-or_fail part (f.from_json json) unreadable)
          λ v. Spares-pure part (some v)

    pub fetch_remote-Spares :
        (id : NodeId) (k : K) → Spares part (fetch_remote dm f site base w id k)
    unfolding fetch_remote
    fetch_remote-Spares id k =
        Spares-bind part (Spares-or_fail part (get_member dm site.membership id) node_not_found)
          λ node.
            Spares-bind part
              (Spares-send part w 3 (node.http_addr, base, get_internal (f.to_string k)))
              λ r. Spares-if part (nat_beq r.status 404) (Spares-pure part none) (
                Spares-bind part (expect-Spares r) λ _.
                  Spares-bind part (Spares-or_fail part (value_of r.body) unreadable)
                    read_value-Spares)

    read_entries-Spares : (l : List KeyValueJson) → Spares part (read_entries dm f site base w l)
    unfolding read_entries
    read_entries-Spares [] = Spares-pure part []
    read_entries-Spares (x ∷ xs) =
        Spares-bind part (Spares-or_fail part (f.parse x.key) unreadable) λ k.
          Spares-bind part (Spares-or_fail part (f.from_json x.value_json) unreadable)
            λ v. Spares-bind part (read_entries-Spares xs) λ l. Spares-pure part ((k, v) ∷ l)

    pub fetch_partition-Spares :
        (id : NodeId) (p : ℕ) → Spares part (fetch_partition dm f site base w id p)
    unfolding fetch_partition
    fetch_partition-Spares id p =
        Spares-bind part (Spares-or_fail part (get_member dm site.membership id) node_not_found)
          λ node.
            Spares-bind part (Spares-send part w 3 (node.http_addr, base, partition_dump p)) λ r.
              Spares-if part (nat_beq r.status 404) (Spares-pure part []) (
                Spares-bind part (expect-Spares r) λ _.
                  Spares-bind part (Spares-or_fail part (dump_of r.body) unreadable)
                    read_entries-Spares)

  -- A write may change the shard, and nothing else.
  pub put_to-Spares :
      (owners : List NodeId) (p : ℕ) (op_id : Str) (k : K) (v : V)
      → Spares (λ (s : Store dm K V). s.processed_ops) (put_to dm f site base w owners p op_id k v)
  unfolding put_to store_local
  put_to-Spares [] p op_id k v = Spares-modify _ _ (λ s. refl)
  put_to-Spares (o ∷ os) p op_id k v =
      Spares-if _ (me dm site == o)
        (Spares-bind _ (Spares-modify _ _ (λ s. refl))
          (λ _. replicate_to_all-Spares _ os p op_id k v))
        (forward-Spares _ o p op_id k v)
