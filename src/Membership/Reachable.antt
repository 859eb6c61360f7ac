-- ===== src/Membership/Reachable.antt =====
-- src/membership/service.rs: the states that a service comes to, from `new` by any datagrams, also
-- forged ones, and ticks of the failure detector; and what holds of them all.

use stage.Prelude.{
  ℕ, suc, ◌+◌, ◌%◌, ◌^◌, ◌≡◌, refl, subst, ◌==◌, ==_iff, ==_refl, str_eq, nat_eq, Option, none,
  some, List, [], ◌∷◌, Str, if_cases, Option-cases, Bool-cases, inl, inr, arith, ltb, ◌&&◌,
}
use stage.DashMap.{DashMap, get-empty}
use stage.Membership.Types.{
  NodeId, SocketAddr, NodeState, Node, Codec, GossipMessage, ping, ack, join, suspects, alives,
  alive, suspect, dead, state_eq,
}
use stage.Membership.Service.{
  Service, Datagram, new, local_node_of, send_joins, set_member, refresh, discovered, note_ping,
  handle_ping, merge_member, merge_all, handle_ack, refute, handle_suspect, handle_alive,
  handle_join, handle_message, receive,
}
use stage.Membership.Nodes.{WellKeyed}
use stage.Membership.Detector.{inspect, inspect_at, inspect_all, tick}

module _ (dm : DashMap) where
  open dm use {get, insert, update, get-insert, get-update}

  -- What the process goes through: a datagram is received, or a tick of the detector is due.
  pub data Reachable (c : Codec) : Service dm → Type 0 where
    started :
        (id : NodeId) (bind_addr : SocketAddr) (now : ℕ) (seeds : List SocketAddr) (s : Service dm)
        (sent : List (SocketAddr × Str))
        → new dm c id bind_addr now seeds ≡ some (s, sent)
        → Reachable c s
    received :
        {s : Service dm} (clock : ℕ → ℕ) (buf : Str) (src : SocketAddr)
        → Reachable c s
        → Reachable c (receive dm c clock s buf src).0
    ticked : {s : Service dm} (now : ℕ) → Reachable c s → Reachable c (tick dm c now s).0

  abbrev IsMember : Service dm → NodeId → Type 0
  IsMember s id = (n : Node) × (get s.members id ≡ some n)

  -- Every entry stands under its node's id, and the service is a member of its own view.
  abbrev pub IsSound : Service dm → Type 0
  IsSound s = WellKeyed dm s × IsMember s s.local_node.id

  insert-IsSound :
      (s : Service dm) (i : ℕ) (k : NodeId) (n : Node)
      → IsSound s
      → n.id ≡ k
      → IsSound (record s { members = insert s.members k n; incarnation = i })
  insert-IsSound s i k n (keyed, known) e = (
    λ j p h. ground (arith, get-insert s.members k n j, ==_iff k j, keyed j p),
    elim (Bool-cases (k == s.local_node.id)) [
      | inl same ↦ (n, rw (get-insert, same))
      | inr other ↦ (known.0, rw (get-insert, other) known.1)
    ],
  )

  new-IsSound :
      (c : Codec) (id : NodeId) (bind_addr : SocketAddr) (now : ℕ) (seeds : List SocketAddr)
      (s : Service dm) (sent : List (SocketAddr × Str))
      → new dm c id bind_addr now seeds ≡ some (s, sent)
      → IsSound s
  unfolding new local_node_of
  new-IsSound c id bind_addr now seeds s sent h =
      let n = local_node_of dm id bind_addr now in
      elim (Option-cases (send_joins c n seeds)) [
        | inl e ↦ absurd (let k = rw (e, new) at h in ground arith)
        | inr (joins, e) ↦
            let k = rw (e, new) at h in
            let same : record { local_node = n; members = dm.insert dm.empty id n; incarnation = 1 }
                ≡ s =
              ground arith in
            subst IsSound same (
              λ j p q.
                  ground
                    (arith, get-insert dm.empty id n j, get-empty dm {V = Node} j, ==_iff id j),
              (n, rw (get-insert, ==_refl id)),
            )
      ]

  note_ping-IsSound :
      (now : ℕ) (s : Service dm) (from : NodeId) (inc : ℕ) (src : SocketAddr)
      → IsSound s
      → IsSound (note_ping dm now s from inc src)
  unfolding note_ping discovered
  note_ping-IsSound now s from inc src h = elim (Option-cases (get s.members from)) [
    | inl e ↦ rw (e, note_ping) (insert-IsSound s s.incarnation from _ h refl)
    | inr (m, e) ↦ rw (e, note_ping) (insert-IsSound s s.incarnation from _ h (h.0 from m e))
  ]

  merge_member-IsSound :
      (now : ℕ) (s : Service dm) (n : Node) → IsSound s → IsSound (merge_member dm now s n)
  unfolding merge_member
  merge_member-IsSound now s n h = elim (Option-cases (get s.members n.id)) [
    | inl e ↦
        rw (e, merge_member)
          (if_cases IsSound (n.state == dead) (λ _. h)
            (λ _. insert-IsSound s s.incarnation n.id _ h refl))
    | inr (m, e) ↦
        rw (e, merge_member)
          (if_cases IsSound (m.state == dead) (λ _. h)
            (λ _.
              if_cases IsSound (ltb m.incarnation n.incarnation)
                (λ _. insert-IsSound s s.incarnation n.id _ h (h.0 n.id m e)) (λ _. h)))
  ]

  merge_all-IsSound :
      (clock : ℕ → ℕ) (s : Service dm) (ns : List Node)
      → IsSound s
      → IsSound (merge_all dm clock s ns)
  unfolding merge_all
  merge_all-IsSound clock s [] h = h
  merge_all-IsSound clock s (n ∷ ns) h =
      merge_all-IsSound (λ i. clock (suc i)) (merge_member dm (clock 0) s n) ns
        (merge_member-IsSound (clock 0) s n h)

  handle_ack-IsSound :
      (clock : ℕ → ℕ) (s : Service dm) (from : NodeId) (inc : ℕ) (ns : List Node)
      → IsSound s
      → IsSound (handle_ack dm clock s from inc ns)
  unfolding handle_ack
  handle_ack-IsSound clock s from inc ns h = elim (Option-cases (get s.members from)) [
    | inl e ↦ rw (e, handle_ack) (merge_all-IsSound (λ i. clock (suc i)) s ns h)
    | inr (m, e) ↦
        rw (e, handle_ack)
          (if_cases IsSound (m.state == dead) (λ _. h)
            (λ _.
              merge_all-IsSound (λ i. clock (suc i))
                (set_member dm s from (refresh dm (clock 0) inc m)) ns
                (insert-IsSound s s.incarnation from _ h (h.0 from m e))))
  ]

  handle_suspect-IsSound :
      (c : Codec) (now : ℕ) (s : Service dm) (id : NodeId) (inc : ℕ)
      → IsSound s
      → IsSound (handle_suspect dm c now s id inc).0
  unfolding handle_suspect refute
  handle_suspect-IsSound c now s id inc h = elim (Option-cases (get s.members id)) [
    | inl e ↦ rw (e, handle_suspect) h
    | inr (m, e) ↦
        rw (e, handle_suspect)
          (if_cases (λ (r : Service dm × List Datagram). IsSound r.0) (m.state == dead) (λ _. h)
            (λ _.
              if_cases (λ (r : Service dm × List Datagram). IsSound r.0) (ltb m.incarnation inc)
                (λ _.
                  if_cases (λ (r : Service dm × List Datagram). IsSound r.0)
                    (m.id == s.local_node.id)
                    (λ _. insert-IsSound s ((s.incarnation + 1) % 2 ^ 64) id _ h (h.0 id m e))
                    (λ _. insert-IsSound s s.incarnation id _ h (h.0 id m e)))
                (λ _. h)))
  ]

  handle_alive-IsSound :
      (now : ℕ) (s : Service dm) (id : NodeId) (inc : ℕ)
      → IsSound s
      → IsSound (handle_alive dm now s id inc)
  unfolding handle_alive
  handle_alive-IsSound now s id inc h = elim (Option-cases (get s.members id)) [
    | inl e ↦ rw (e, handle_alive) h
    | inr (m, e) ↦
        rw (e, handle_alive)
          (let t = insert-IsSound s s.incarnation id _ h (h.0 id m e) in
            if_cases IsSound (m.state == dead) (λ _. h)
              (λ _.
                if_cases IsSound (ltb m.incarnation inc) (λ _. t)
                  (λ _.
                    if_cases IsSound ((inc == m.incarnation) && (m.state == suspect)) (λ _. t)
                      (λ _. h))))
  ]

  handle_message-IsSound :
      (c : Codec) (clock : ℕ → ℕ) (s : Service dm) (msg : GossipMessage) (src : SocketAddr)
      → IsSound s
      → IsSound (handle_message dm c clock s msg src).0
  unfolding handle_message handle_ping handle_join
  handle_message-IsSound c clock s (ping from inc) src h =
      note_ping-IsSound (clock 0) s from inc src h
  handle_message-IsSound c clock s (ack from inc ns) src h =
      handle_ack-IsSound clock s from inc ns h
  handle_message-IsSound c clock s (join n) src h = insert-IsSound s s.incarnation n.id _ h refl
  handle_message-IsSound c clock s (suspects id inc) src h =
      handle_suspect-IsSound c (clock 0) s id inc h
  handle_message-IsSound c clock s (alives id inc) src h = handle_alive-IsSound (clock 0) s id inc h

  inspect_at_id :
      (now : ℕ) (m : Node) (st : NodeState) (seen : Option ℕ) → (inspect_at now m st seen).id ≡ m.id
  unfolding inspect_at
  inspect_at_id now m dead seen = refl
  inspect_at_id now m alive none = refl
  inspect_at_id now m suspect none = refl
  inspect_at_id now m alive (some t) = ground arith
  inspect_at_id now m suspect (some t) = ground arith

  inspect_id : (local : NodeId) (now : ℕ) (m : Node) → (inspect local now m).id ≡ m.id
  unfolding inspect
  inspect_id local now m = ground (arith, inspect_at_id now m m.state m.last_seen)

  inspect_all-IsSound : (now : ℕ) (s : Service dm) → IsSound s → IsSound (inspect_all dm now s)
  unfolding inspect_all
  inspect_all-IsSound now s (keyed, (m, known)) = (
    λ k n h.
        let f = inspect s.local_node.id now in
        elim (Option-cases (get s.members k)) [
          | inl e ↦ ground (arith, get-update f s.members k)
          | inr (x, e) ↦
              ground
                (arith, get-update f s.members k, keyed k x e, inspect_id s.local_node.id now x)
        ],
    (inspect s.local_node.id now m, rw (get-update, known)),
  )

  -- Whatever datagrams a service receives, each entry of its view stands under its node's id, and
  -- its view never loses the local node.
  pub Reachable-IsSound : (c : Codec) {s : Service dm} → Reachable c s → IsSound s
  unfolding receive tick
  Reachable-IsSound c (started id bind_addr now seeds s sent e) =
      new-IsSound c id bind_addr now seeds s sent e
  Reachable-IsSound c (received {s} clock buf src r) =
      let h = Reachable-IsSound c r in
      elim (Option-cases (c.deserialize buf)) [
        | inl e ↦ rw (e, receive) h
        | inr (msg, e) ↦ rw (e, receive) (handle_message-IsSound c clock s msg src h)
      ]
  Reachable-IsSound c (ticked {s} now r) = inspect_all-IsSound now s (Reachable-IsSound c r)
