-- ===== src/Membership/Cluster/Frozen.antt =====
-- src/membership/service.rs: in a cluster, incarnations never move.
use stage.Prelude.{
  ℕ, zero, suc, ◌≡◌, refl, subst, ◌==◌, str_eq, nat_eq, nat_beq, Option, none, some, List, [], ◌∷◌,
  ◌++◌, map, Str, if_cases, Option-cases, Bool-cases, inl, inr, arith, All, All-append, get_elem?,
}
use stage.DashMap.{DashMap, get-empty}
use stage.Membership.Types.{
  NodeId, SocketAddr, NodeState, Node, Codec, GossipMessage, ping, join, alive, suspect, dead,
  state_eq,
}
use stage.Membership.Service.{
  Service, Datagram, send_joins, new, local_node_of, nodes, broadcast_to, broadcast_message,
  receive, ping_targets, gossip_round,
}
use stage.Membership.Detector.{
  inspect, inspect_at, inspect_all, newly_suspected, suspicions, broadcast_all, tick,
}
use stage.Membership.Cluster.{
  Cluster, Event, launch, deliver, gossip, detect, become, launch_at, react, begin, step, run,
  nothing, process_of,
}
use stage.Membership.Cluster.First.{
  Says, Carries, AllCarry, IsFirst, Good, serialize-Carries, send_to-AllCarry, nodes-All,
  handle_message-Good,
}

inspect_at_incarnation :
    (now : ℕ) (m : Node) (st : NodeState) (seen : Option ℕ)
    → (inspect_at now m st seen).incarnation ≡ m.incarnation
unfolding inspect_at
inspect_at_incarnation now m dead seen = refl
inspect_at_incarnation now m alive none = refl
inspect_at_incarnation now m suspect none = refl
inspect_at_incarnation now m alive (some t) = ground arith
inspect_at_incarnation now m suspect (some t) = ground arith

inspect_incarnation :
    (local : NodeId) (now : ℕ) (m : Node) → (inspect local now m).incarnation ≡ m.incarnation
unfolding inspect
inspect_incarnation local now m = ground (arith, inspect_at_incarnation now m m.state m.last_seen)

suspicions-Says :
    (local : NodeId) (now : ℕ) (ns : List Node)
    → All (λ (n : Node). n.incarnation ≡ 1) ns
    → All Says (suspicions local now ns)
unfolding suspicions
suspicions-Says local now [] h = tt
suspicions-Says local now (n ∷ ns) (e, h) =
    if_cases (λ (l : List GossipMessage). All Says (l ++ suspicions local now ns))
      (newly_suspected local now n) (λ _. (e, suspicions-Says local now ns h))
      (λ _. suspicions-Says local now ns h)

module _ (c : Codec) where
  send_joins-AllCarry :
      (n : Node) (seeds : List SocketAddr) (sent : List Datagram)
      → n.incarnation ≡ 1
      → send_joins c n seeds ≡ some sent
      → AllCarry c sent
  unfolding send_joins
  send_joins-AllCarry n [] sent e h =
      let none_sent : ◌≡◌ {A = List Datagram} [] sent = ground arith in
      subst (AllCarry c) none_sent tt
  send_joins-AllCarry n (seed ∷ seeds) sent e h = elim (Option-cases (c.serialize (join n))) [
    | inl x ↦ absurd (let k = rw (x, send_joins) at h in ground arith)
    | inr (b, x) ↦ elim (Option-cases (send_joins c n seeds)) [
      | inl y ↦ absurd (let k = rw (x, y, send_joins) at h in ground arith)
      | inr (rest, y) ↦
          let k = rw (x, y, send_joins) at h in
          let all : (seed, b) ∷ rest ≡ sent = ground arith in
          subst (AllCarry c) all
            (serialize-Carries c (join n) b e x, send_joins-AllCarry n seeds rest e y)
    ]
  ]

module _ (dm : DashMap) (c : Codec) where
  open dm use {get, insert, get-insert, get-update}

  broadcast_to-AllCarry :
      (local : NodeId) (msg : GossipMessage) (ns : List Node)
      → Says msg
      → AllCarry c (broadcast_to dm c local msg ns)
  unfolding broadcast_to
  broadcast_to-AllCarry local msg [] says = tt
  broadcast_to-AllCarry local msg (n ∷ ns) says =
      let rest = broadcast_to-AllCarry local msg ns says in
      let P = λ (d : Datagram). Carries c d.1 in
      All-append P _ (broadcast_to dm c local msg ns)
        (if_cases (AllCarry c) (n.id == local) (λ _. tt)
          (λ _.
            if_cases (AllCarry c) (n.state == alive)
              (λ _. send_to-AllCarry c n.gossip_addr msg says) (λ _. tt)))
        rest

  broadcast_all-AllCarry :
      (s : Service dm) (msgs : List GossipMessage)
      → All Says msgs
      → AllCarry c (broadcast_all dm c s msgs)
  unfolding broadcast_all broadcast_message
  broadcast_all-AllCarry s [] says = tt
  broadcast_all-AllCarry s (msg ∷ msgs) (says, more) =
      All-append (λ (d : Datagram). Carries c d.1) (broadcast_message dm c s msg)
        (broadcast_all dm c s msgs)
        (broadcast_to-AllCarry s.local_node.id msg (nodes dm s.members) says)
        (broadcast_all-AllCarry s msgs more)

  inspect_all-IsFirst :
      (now : ℕ) (s : Service dm) → IsFirst dm s → IsFirst dm (inspect_all dm now s)
  unfolding inspect_all
  inspect_all-IsFirst now s (own, view) = (
    own,
    λ k n h.
        let f = inspect s.local_node.id now in
        elim (Option-cases (get s.members k)) [
          | inl e ↦ ground (arith, get-update f s.members k)
          | inr (x, e) ↦ ground (
            arith,
            get-update f s.members k,
            view k x e,
            inspect_incarnation s.local_node.id now x,
          )
        ],
  )

  tick-Good : (now : ℕ) (s : Service dm) → IsFirst dm s → Good dm c (tick dm c now s)
  unfolding tick
  tick-Good now s h = (
    inspect_all-IsFirst now s h,
    broadcast_all-AllCarry (inspect_all dm now s)
        (suspicions s.local_node.id now (nodes dm s.members))
        (suspicions-Says s.local_node.id now (nodes dm s.members) (nodes-All dm s h)),
  )

  receive-Good :
      (clock : ℕ → ℕ) (s : Service dm) (buf : Str) (src : SocketAddr)
      → IsFirst dm s
      → Carries c buf
      → Good dm c (receive dm c clock s buf src)
  unfolding receive
  receive-Good clock s buf src h says = elim (Option-cases (c.deserialize buf)) [
    | inl e ↦ rw (e, receive) (h, tt)
    | inr (m, e) ↦ rw (e, receive) (handle_message-Good dm c clock s m src h (says m e))
  ]

  gossip_round-AllCarry :
      (s : Service dm) (idx : ℕ) → IsFirst dm s → AllCarry c (gossip_round dm c s idx)
  unfolding gossip_round
  gossip_round-AllCarry s idx (own, view) =
      elim (Option-cases (get_elem? (ping_targets dm s) idx)) [
        | inl e ↦ rw (e, gossip_round) tt
        | inr (n, e) ↦
            rw (e, gossip_round)
              (send_to-AllCarry c n.gossip_addr (ping s.local_node.id s.incarnation) own)
      ]

  new-Good :
      (id : NodeId) (bind_addr : SocketAddr) (now : ℕ) (seeds : List SocketAddr)
      (r : Service dm × List Datagram)
      → new dm c id bind_addr now seeds ≡ some r
      → Good dm c r
  unfolding new local_node_of
  new-Good id bind_addr now seeds r h =
      let n = local_node_of dm id bind_addr now in
      let s : Service dm = record {
        local_node = n;
        members = insert dm.empty id n;
        incarnation = 1;
      } in
      elim (Option-cases (send_joins c n seeds)) [
        | inl e ↦ absurd (let k = rw (e, new) at h in ground arith)
        | inr (joins, e) ↦
            let k = rw (e, new) at h in
            let same : (s, joins) ≡ r = ground arith in
            subst (Good dm c) same (
              (
                refl,
                λ j m q. ground (arith, get-insert dm.empty id n j, get-empty dm {V = Node} j),
              ),
              send_joins-AllCarry c n seeds joins refl e,
            )
      ]

  -- Every service of the cluster and every datagram in flight stand at incarnation 1, and no
  -- datagram is an `Alive` message.
  abbrev pub IsFrozen : Cluster dm → Type 0
  IsFrozen cl =
      ((i : ℕ) (s : Service dm) → cl.services i ≡ some s → IsFirst dm s) × All (Carries c) cl.flight

  All-sent : (sent : List Datagram) → AllCarry c sent → All (Carries c) (map (λ d. d.1) sent)
  All-sent [] h = tt
  All-sent (d ∷ sent) (e, h) = (e, All-sent sent h)

  pub get_elem?-Carries :
      (flight : List Str) (n : ℕ) (b : Str)
      → All (Carries c) flight
      → get_elem? flight n ≡ some b
      → Carries c b
  get_elem?-Carries [] n b h e = absurd (ground arith)
  get_elem?-Carries (x ∷ xs) zero b h e =
      let same : x ≡ b = ground arith in subst (Carries c) same h.0
  get_elem?-Carries (x ∷ xs) (suc n) b h e = get_elem?-Carries xs n b h.1 e

  become-IsFrozen :
      (cl : Cluster dm) (i : ℕ) (r : Service dm × List Datagram)
      → IsFrozen cl
      → Good dm c r
      → IsFrozen (become dm c cl i r)
  unfolding become
  become-IsFrozen cl i (t, sent) (own, out) (first, carried) = (
    λ j s h. elim (Bool-cases (nat_beq i j)) [
      | inl e ↦
          let k = rw e at h in let same : t ≡ s = ground arith in subst (IsFirst dm) same first
      | inr e ↦ own j s (rw e at h)
    ],
    All-append (Carries c) cl.flight (map (λ d. d.1) sent) out (All-sent sent carried),
  )

  react-Good :
      (flight : List Str) (e : Event) (s : Service dm)
      → All (Carries c) flight
      → IsFirst dm s
      → Good dm c (react dm c flight e s)
  unfolding react
  react-Good flight (launch i id bind_addr now seeds) s out h = (h, tt)
  react-Good flight (deliver i n clock src) s out h = elim (Option-cases (get_elem? flight n)) [
    | inl e ↦ rw (e, react) (h, tt)
    | inr (b, e) ↦ rw (e, react) (receive-Good clock s b src h (get_elem?-Carries flight n b out e))
  ]
  react-Good flight (gossip i idx) s out h = (h, gossip_round-AllCarry s idx h)
  react-Good flight (detect i now) s out h = tick-Good now s h

  begin-IsFrozen : (cl : Cluster dm) (e : Event) → IsFrozen cl → IsFrozen (begin dm c cl e)
  unfolding begin launch_at
  begin-IsFrozen cl (launch i id bind_addr now seeds) h =
      elim (Option-cases (new dm c id bind_addr now seeds)) [
        | inl e ↦ rw (e, begin) h
        | inr (r, e) ↦
            rw (e, begin) (become-IsFrozen cl i r h (new-Good id bind_addr now seeds r e))
      ]
  begin-IsFrozen cl (deliver i n clock src) h = h
  begin-IsFrozen cl (gossip i idx) h = h
  begin-IsFrozen cl (detect i now) h = h

  pub step-IsFrozen : (cl : Cluster dm) (e : Event) → IsFrozen cl → IsFrozen (step dm c cl e)
  unfolding step
  step-IsFrozen cl e h = elim (Option-cases (cl.services (process_of dm c e))) [
    | inl x ↦ rw (x, step) (begin-IsFrozen cl e h)
    | inr (s, x) ↦
        rw (x, step)
          (become-IsFrozen cl (process_of dm c e) (react dm c cl.flight e s) h
            (react-Good cl.flight e s h.1 (h.0 (process_of dm c e) s x)))
  ]

  IsFrozen-run : (cl : Cluster dm) (es : List Event) → IsFrozen cl → IsFrozen (run dm c cl es)
  unfolding run
  IsFrozen-run cl [] h = h
  IsFrozen-run cl (e ∷ es) h = IsFrozen-run (step dm c cl e) es (step-IsFrozen cl e h)

  -- However the processes of a cluster interleave, and whatever the network loses, delays, repeats
  -- or misdirects: every node's counter and every entry of every view stand at 1, every datagram
  -- that was sent carries incarnation 1, and none of them is an `Alive` message.
  pub run-IsFrozen : (es : List Event) → IsFrozen (run dm c (nothing dm) es)
  run-IsFrozen es = IsFrozen-run (nothing dm) es (λ i s h. absurd (ground arith), tt)
