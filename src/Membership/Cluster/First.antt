-- ===== src/Membership/Cluster/First.antt =====
-- src/membership/service.rs: what the handlers do where every incarnation is 1.
use stage.Prelude.{
  ℕ, suc, ◌≡◌, subst, ◌==◌, str_eq, nat_eq, some, List, [], ◌∷◌, map, Str, if_cases, Option-cases,
  inl, inr, arith, All, All-of_In,
}
use stage.DashMap.{DashMap}
use stage.Membership.Types.{
  NodeId, SocketAddr, Node, Codec, GossipMessage, ping, ack, join, suspects, alives, dead, state_eq,
  on_wire, received,
}
use stage.Membership.Service.{
  Service, Datagram, send_to, nodes, set_member, refresh, discovered, note_ping, handle_ping,
  merge_member, merge_all, handle_ack, handle_suspect, handle_join, handle_message,
}
use stage.Membership.Nodes.{In-nodes}

-- An incarnation that a message carries is 1, and no message announces that a node is alive.
abbrev pub Says : GossipMessage → Type 0
Says (ping id inc) = inc ≡ 1
Says (ack id inc ns) = (inc ≡ 1) × All (λ (n : Node). n.incarnation ≡ 1) ns
Says (join n) = n.incarnation ≡ 1
Says (suspects id inc) = inc ≡ 1
Says (alives id inc) = ⊥

All-on_wire :
    (ns : List Node)
    → All (λ (n : Node). n.incarnation ≡ 1) ns
    → All (λ (n : Node). n.incarnation ≡ 1) (map on_wire ns)
All-on_wire [] h = tt
All-on_wire (n ∷ ns) (e, h) = (e, All-on_wire ns h)

received-Says : (m : GossipMessage) → Says m → Says (received m)
received-Says (ping id inc) h = h
received-Says (ack id inc ns) (e, h) = (e, All-on_wire ns h)
received-Says (join n) h = h
received-Says (suspects id inc) h = h
received-Says (alives id inc) h = h

module _ (c : Codec) where
  -- What is read in a datagram.
  abbrev pub Carries : Str → Type 0
  Carries b = (m : GossipMessage) → c.deserialize b ≡ some m → Says m

  pub serialize-Carries :
      (m : GossipMessage) (b : Str) → Says m → c.serialize m ≡ some b → Carries b
  serialize-Carries m b says e r h =
      let same : received m ≡ r = ground (arith, c.deserialize-serialize m b e) in
      subst Says same (received-Says m says)

  abbrev pub AllCarry : List Datagram → Type 0
  AllCarry = All (λ d. Carries d.1)

  pub send_to-AllCarry :
      (addr : SocketAddr) (m : GossipMessage) → Says m → AllCarry (send_to c addr m)
  unfolding send_to
  send_to-AllCarry addr m says = elim (Option-cases (c.serialize m)) [
    | inl e ↦ rw (e, send_to) tt
    | inr (b, e) ↦ rw (e, send_to) (serialize-Carries m b says e, tt)
  ]

module _ (dm : DashMap) where
  open dm use {get, insert, update, get-insert, get-update}

  -- The counter of a service and every entry of its view stand at 1.
  abbrev pub IsFirst : Service dm → Type 0
  IsFirst s =
      (s.incarnation ≡ 1) × ((k : NodeId) (n : Node) → get s.members k ≡ some n → n.incarnation ≡ 1)

  pub set_member-IsFirst :
      (s : Service dm) (k : NodeId) (n : Node)
      → IsFirst s
      → n.incarnation ≡ 1
      → IsFirst (set_member dm s k n)
  set_member-IsFirst s k n (own, view) e =
      (own, λ j m h. ground (arith, get-insert s.members k n j, view j m))

  pub nodes-All :
      (s : Service dm) → IsFirst s → All (λ (n : Node). n.incarnation ≡ 1) (nodes dm s.members)
  nodes-All s (own, view) =
      All-of_In (λ (n : Node). n.incarnation ≡ 1) (nodes dm s.members)
        λ n i. let (k, e) = In-nodes dm s.members n i in view k n e

  note_ping-IsFirst :
      (now : ℕ) (s : Service dm) (from : NodeId) (inc : ℕ) (src : SocketAddr)
      → IsFirst s
      → inc ≡ 1
      → IsFirst (note_ping dm now s from inc src)
  unfolding note_ping discovered
  note_ping-IsFirst now s from inc src h e = elim (Option-cases (get s.members from)) [
    | inl x ↦ rw (x, note_ping) (set_member-IsFirst s from _ h e)
    | inr (m, x) ↦ rw (x, note_ping) (set_member-IsFirst s from _ h (ground (arith, h.1 from m x)))
  ]

  pub merge_member_same :
      (now : ℕ) (s : Service dm) (n m : Node)
      → get s.members n.id ≡ some m
      → m.incarnation ≡ n.incarnation
      → merge_member dm now s n ≡ s
  unfolding merge_member
  merge_member_same now s n m e h = rw (e, merge_member) (ground arith)

  pub merge_member-IsFirst :
      (now : ℕ) (s : Service dm) (n : Node)
      → IsFirst s
      → n.incarnation ≡ 1
      → IsFirst (merge_member dm now s n)
  unfolding merge_member
  merge_member-IsFirst now s n h e = elim (Option-cases (get s.members n.id)) [
    | inl x ↦
        rw (x, merge_member)
          (if_cases IsFirst (n.state == dead) (λ _. h) (λ _. set_member-IsFirst s n.id _ h e))
    | inr (m, x) ↦ rw (merge_member_same now s n m x (ground (arith, h.1 n.id m x))) h
  ]

  pub merge_all-IsFirst :
      (clock : ℕ → ℕ) (s : Service dm) (ns : List Node)
      → IsFirst s
      → All (λ (n : Node). n.incarnation ≡ 1) ns
      → IsFirst (merge_all dm clock s ns)
  unfolding merge_all
  merge_all-IsFirst clock s [] h e = h
  merge_all-IsFirst clock s (n ∷ ns) h (e, es) =
      merge_all-IsFirst (λ i. clock (suc i)) (merge_member dm (clock 0) s n) ns
        (merge_member-IsFirst (clock 0) s n h e) es

  handle_ack-IsFirst :
      (clock : ℕ → ℕ) (s : Service dm) (from : NodeId) (inc : ℕ) (ns : List Node)
      → IsFirst s
      → inc ≡ 1
      → All (λ (n : Node). n.incarnation ≡ 1) ns
      → IsFirst (handle_ack dm clock s from inc ns)
  unfolding handle_ack
  handle_ack-IsFirst clock s from inc ns h e es = elim (Option-cases (get s.members from)) [
    | inl x ↦ rw (x, handle_ack) (merge_all-IsFirst (λ i. clock (suc i)) s ns h es)
    | inr (m, x) ↦
        rw (x, handle_ack)
          (if_cases IsFirst (m.state == dead) (λ _. h)
            (λ _.
              merge_all-IsFirst (λ i. clock (suc i))
                (set_member dm s from (refresh dm (clock 0) inc m)) ns
                (set_member-IsFirst s from _ h (ground (arith, h.1 from m x))) es))
  ]

  -- A suspicion at an incarnation that the receiver knows already is not heeded.
  pub handle_suspect_same :
      (c : Codec) (now : ℕ) (s : Service dm) (id : NodeId) (inc : ℕ)
      → ((m : Node) → get s.members id ≡ some m → m.incarnation ≡ inc)
      → handle_suspect dm c now s id inc ≡ (s, [])
  unfolding handle_suspect
  handle_suspect_same c now s id inc same = elim (Option-cases (get s.members id)) [
    | inl x ↦ rw (x, handle_suspect)
    | inr (m, x) ↦ rw (x, handle_suspect) (ground (arith, same m x))
  ]

  -- What a handler leaves and sends.
  abbrev pub Good : Codec → Service dm × List Datagram → Type 0
  Good c r = IsFirst r.0 × AllCarry c r.1

  pub handle_message-Good :
      (c : Codec) (clock : ℕ → ℕ) (s : Service dm) (msg : GossipMessage) (src : SocketAddr)
      → IsFirst s
      → Says msg
      → Good c (handle_message dm c clock s msg src)
  unfolding handle_message handle_ping handle_join
  handle_message-Good c clock s (ping from inc) src h e =
      let t = note_ping dm (clock 0) s from inc src in
      let k = note_ping-IsFirst (clock 0) s from inc src h e in
      (
        k,
        send_to-AllCarry c src (ack t.local_node.id t.incarnation (nodes dm t.members))
            (k.0, nodes-All t k),
      )
  handle_message-Good c clock s (ack from inc ns) src h (e, es) =
      (handle_ack-IsFirst clock s from inc ns h e es, tt)
  handle_message-Good c clock s (join n) src h e = (set_member-IsFirst s n.id _ h e, tt)
  handle_message-Good c clock s (suspects id inc) src h e =
      rw (handle_suspect_same c (clock 0) s id inc (λ m x. ground (arith, h.1 id m x))) (h, tt)
  handle_message-Good c clock s (alives id inc) src h e = absurd e
