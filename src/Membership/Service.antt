-- ===== src/Membership/Service.antt =====
-- src/membership/service.rs: the local view of the cluster and its handlers. A handler returns
-- the new state and the datagrams that it sends; the clock's readings are arguments.
pub mod Monotone
pub mod Convergence
pub mod SelfDefense
use stage.Prelude.{
  ℕ, zero, suc, ◌+◌, ◌%◌, ◌^◌, Bool, true, false, not, ◌&&◌, Option, none, some, List, [], ◌∷◌,
  ◌++◌, map, Str, ◌==◌, str_eq, nat_eq, ltb, if◌then◌else◌, keep, get_elem?, is_empty,
}
use stage.DashMap.{DashMap}
use stage.Membership.Types.{
  NodeId, SocketAddr, NodeState, alive, suspect, dead, Node, GossipMessage, ping, ack, join,
  suspects, alives, http_addr_of, Codec, state_eq,
}

pub record Service (dm : DashMap) : Type 0 where
  pub local_node : Node
  pub members : dm.Map NodeId Node
  pub incarnation : ℕ

abbrev pub Datagram : Type 0
Datagram = SocketAddr × Str

-- SUSPECT_TIMEOUT and DEAD_TIMEOUT, in milliseconds.
abbrev pub suspect_timeout : ℕ
suspect_timeout = 5_000

abbrev pub dead_timeout : ℕ
dead_timeout = 10_000

module _ (c : Codec) where
  -- `if let Ok(encoded) = bincode::serialize(&msg) { socket.send_to(&encoded, addr) }`
  unfoldable pub send_to : SocketAddr → GossipMessage → List Datagram
  send_to addr msg = elim (c.serialize msg) [ none ↦ [] | some b ↦ (addr, b) ∷ [] ]

  -- The bootstrap loop of `new`; a failed serialisation ends it with an error.
  unfoldable pub send_joins : Node → List SocketAddr → Option (List Datagram)
  send_joins n [] = some []
  send_joins n (seed ∷ seeds) = elim (c.serialize (join n)) [
    | none ↦ none
    | some b ↦ elim (send_joins n seeds) [ none ↦ none | some sent ↦ some ((seed, b) ∷ sent) ]
  ]

module _ (dm : DashMap) where
  open dm use {Map, empty, get, insert, update, entries}

  -- The values of the map, in the order of iteration.
  abbrev pub nodes : Map NodeId Node → List Node
  nodes m = map (λ e. e.1) (entries m)

  unfoldable pub local_node_of : NodeId → SocketAddr → ℕ → Node
  local_node_of id bind_addr now = record {
    id = id;
    gossip_addr = bind_addr;
    http_addr = http_addr_of bind_addr;
    state = alive;
    incarnation = 1;
    last_seen = some now;
  }

  -- `MembershipService::new`: the identifier and the time are drawn by the caller, and the socket
  -- is bound.
  unfoldable pub new :
      Codec → NodeId → SocketAddr → ℕ → List SocketAddr → Option (Service dm × List Datagram)
  unfolding local_node_of
  new c id bind_addr now seeds =
      let n = local_node_of id bind_addr now in
      elim (send_joins c n seeds) [
        | none ↦ none
        | some sent ↦
            some (record { local_node = n; members = insert empty id n; incarnation = 1 }, sent)
      ]

  unfoldable pub get_member : Service dm → NodeId → Option Node
  get_member s id = get s.members id

  unfoldable pub get_alive_members : Service dm → List Node
  get_alive_members s = keep (λ n. n.state == alive) (nodes s.members)

  abbrev pub set_member : Service dm → NodeId → Node → Service dm
  set_member s id n = record s { members = insert s.members id n }

  -- `member.last_seen = now; if inc > member.incarnation { member.incarnation = inc }`
  abbrev pub refresh : ℕ → ℕ → Node → Node
  refresh now inc m = record m {
    last_seen = some now;
    incarnation = if ltb m.incarnation inc then inc else m.incarnation;
  }

  unfoldable pub discovered : NodeId → ℕ → SocketAddr → ℕ → Node
  discovered from inc src now = record {
    id = from;
    gossip_addr = src;
    http_addr = http_addr_of src;
    state = alive;
    incarnation = inc;
    last_seen = some now;
  }

  unfoldable pub note_ping : ℕ → Service dm → NodeId → ℕ → SocketAddr → Service dm
  unfolding discovered
  note_ping now s from inc src = elim (get s.members from) [
    | none ↦ set_member s from (discovered from inc src now)
    | some m ↦ set_member s from (refresh now inc m)
  ]

  unfoldable pub handle_ping :
      Codec → ℕ → Service dm → NodeId → ℕ → SocketAddr → Service dm × List Datagram
  unfolding note_ping
  handle_ping c now s from inc src =
      let t = note_ping now s from inc src in
      (t, send_to c src (ack t.local_node.id t.incarnation (nodes t.members)))

  unfoldable pub merge_member : ℕ → Service dm → Node → Service dm
  merge_member now s n = elim (get s.members n.id) [
    | none ↦ if n.state == dead then s else set_member s n.id (record n { last_seen = some now })
    | some m ↦
        if m.state == dead
        then s
        else if ltb m.incarnation n.incarnation
        then set_member s n.id
            (record m { state = n.state; incarnation = n.incarnation; last_seen = some now })
        else s
  ]

  -- The loop over the received members; each reads the clock anew.
  unfoldable pub merge_all : (ℕ → ℕ) → Service dm → List Node → Service dm
  merge_all clock s [] = s
  merge_all clock s (n ∷ ns) = merge_all (λ i. clock (suc i)) (merge_member (clock 0) s n) ns

  unfoldable pub handle_ack : (ℕ → ℕ) → Service dm → NodeId → ℕ → List Node → Service dm
  handle_ack clock s from inc ns =
      let rest = λ (i : ℕ). clock (suc i) in
      elim (get s.members from) [
        | none ↦ merge_all rest s ns
        | some m ↦
            if m.state == dead
            then s
            else merge_all rest (set_member s from (refresh (clock 0) inc m)) ns
      ]

  -- A message to every other member that is alive.
  unfoldable pub broadcast_to : Codec → NodeId → GossipMessage → List Node → List Datagram
  unfolding send_to
  broadcast_to c local msg [] = []
  broadcast_to c local msg (n ∷ ns) =
      (if n.id == local then [] else if n.state == alive then send_to c n.gossip_addr msg else [])
      ++ broadcast_to c local msg ns

  unfoldable pub broadcast_message : Codec → Service dm → GossipMessage → List Datagram
  unfolding broadcast_to
  broadcast_message c s msg = broadcast_to c s.local_node.id msg (nodes s.members)

  -- Self-defence: `*inc += 1` on the u64 counter, and the local entry is made alive again.
  unfoldable pub refute : ℕ → Service dm → NodeId → Node → Service dm
  refute now s id m =
      let inc = (s.incarnation + 1) % 2 ^ 64 in
      record s {
        incarnation = inc;
        members =
            insert s.members id
              (record m { incarnation = inc; state = alive; last_seen = some now });
      }

  unfoldable pub handle_suspect : Codec → ℕ → Service dm → NodeId → ℕ → Service dm × List Datagram
  unfolding refute
  handle_suspect c now s id inc = elim (get s.members id) [
    | none ↦ (s, [])
    | some m ↦
        if m.state == dead
        then (s, [])
        else if ltb m.incarnation inc
        then (if m.id == s.local_node.id
            then (
              refute now s id m,
              broadcast_message c (refute now s id m) (alives id ((s.incarnation + 1) % 2 ^ 64)),
            )
            else (
              set_member s id
                  (record m { state = suspect; incarnation = inc; last_seen = some now }),
              [],
            ))
        else (s, [])
  ]

  unfoldable pub handle_alive : ℕ → Service dm → NodeId → ℕ → Service dm
  handle_alive now s id inc = elim (get s.members id) [
    | none ↦ s
    | some m ↦
        let t =
          set_member s id (record m { state = alive; incarnation = inc; last_seen = some now }) in
        if m.state == dead
        then s
        else if ltb m.incarnation inc
        then t
        else if (inc == m.incarnation) && (m.state == suspect)
        then t
        else s
  ]

  unfoldable pub handle_join : ℕ → Service dm → Node → Service dm
  handle_join now s n = set_member s n.id (record n { last_seen = some now })

  unfoldable pub handle_message :
      Codec → (ℕ → ℕ) → Service dm → GossipMessage → SocketAddr → Service dm × List Datagram
  handle_message c clock s (ping from inc) src = handle_ping c (clock 0) s from inc src
  handle_message c clock s (ack from inc ns) src = (handle_ack clock s from inc ns, [])
  handle_message c clock s (join n) src = (handle_join (clock 0) s n, [])
  handle_message c clock s (suspects id inc) src = handle_suspect c (clock 0) s id inc
  handle_message c clock s (alives id inc) src = (handle_alive (clock 0) s id inc, [])

  -- One round of `receive_loop`: what does not deserialise is dropped.
  unfoldable pub receive :
      Codec → (ℕ → ℕ) → Service dm → Str → SocketAddr → Service dm × List Datagram
  receive c clock s buf src = elim (c.deserialize buf) [
    | none ↦ (s, [])
    | some msg ↦ handle_message c clock s msg src
  ]

  abbrev pub ping_targets : Service dm → List Node
  ping_targets s = keep (λ n. not (n.id == s.local_node.id) && (n.state == alive)) (nodes s.members)

  -- One round of `gossip_loop`; `idx` is the random index below the number of targets.
  unfoldable pub gossip_round : Codec → Service dm → ℕ → List Datagram
  gossip_round c s idx = elim (get_elem? (ping_targets s) idx) [
    | none ↦ []
    | some target ↦ send_to c target.gossip_addr (ping s.local_node.id s.incarnation)
  ]
