-- ===== src/Membership/Service/Monotone.antt =====
-- src/membership/service.rs: what the handlers keep of a member that is already known.
use stage.Prelude.{
  if_cases, Option-cases, Bool-cases, inl, inr, ℕ, suc, ◌+◌, ◌%◌, ◌^◌, ◌≤◌, ◌<◌, ◌≡◌, refl, false,
  not, ◌&&◌, Option, none, some, List, [], ◌∷◌, ◌==◌, ==_iff, str_eq, nat_eq, ltb, arith,
}
use stage.DashMap.{DashMap}
use stage.Membership.Types.{
  NodeId, SocketAddr, alive, suspect, dead, Node, GossipMessage, ping, ack, join, suspects, alives,
  Codec, state_eq,
}
use stage.Membership.Service.{
  Service, Datagram, note_ping, handle_ping, merge_member, merge_all, handle_ack, refute,
  handle_suspect, handle_join, handle_alive, handle_message,
}

-- A member's entry goes on with the same identity and addresses, an incarnation that is no
-- smaller, and death for good.
pub record Advances (m n : Node) : Type 0 where
  pub same_id : n.id ≡ m.id
  pub same_gossip : n.gossip_addr ≡ m.gossip_addr
  pub same_http : n.http_addr ≡ m.http_addr
  pub grows : m.incarnation ≤ n.incarnation
  pub dead_stays : (m.state == dead) && not (n.state == dead) ≡ false

abbrev pub Persists : Option Node → Option Node → Type 0
Persists none o = Unit
Persists (some m) none = ⊥
Persists (some m) (some n) = Advances m n

Advances-refl : (m : Node) → Advances m m
Advances-refl m = record {
  same_id = refl;
  same_gossip = refl;
  same_http = refl;
  grows = omega arith;
  dead_stays = ground arith;
}

Advances-trans : {m n o : Node} → Advances m n → Advances n o → Advances m o
Advances-trans p q = record {
  same_id = cc (p.same_id, q.same_id);
  same_gossip = cc (p.same_gossip, q.same_gossip);
  same_http = cc (p.same_http, q.same_http);
  grows = omega (arith, p.grows, q.grows);
  dead_stays = ground (arith, p.dead_stays, q.dead_stays);
}

Persists-refl : (o : Option Node) → Persists o o
Persists-refl none = tt
Persists-refl (some m) = Advances-refl m

Persists-trans : (o p q : Option Node) → Persists o p → Persists p q → Persists o q
Persists-trans none p q h k = tt
Persists-trans (some m) none q h k = elim h [ ]
Persists-trans (some m) (some n) none h k = elim k [ ]
Persists-trans (some m) (some n) (some o) h k = Advances-trans h k

module _ (dm : DashMap) where
  open dm use {Map, get, insert, get-insert}

  -- One write to an entry that it advances.
  Persists-insert :
      (v : Map NodeId Node) (k j : NodeId) {m n : Node}
      → get v k ≡ some m
      → Advances m n
      → Persists (get v j) (get (insert v k n) j)
  Persists-insert v k j h a = rw get-insert (elim (Bool-cases (k == j)) [
    | inl e ↦ rw (e, ← (==_iff k j).0 e, h) a
    | inr e ↦ rw e (Persists-refl (get v j))
  ])

  -- A write to a new entry.
  Persists-insert_new :
      (v : Map NodeId Node) (k j : NodeId) (n : Node)
      → get v k ≡ none
      → Persists (get v j) (get (insert v k n) j)
  Persists-insert_new v k j n h = rw get-insert (elim (Bool-cases (k == j)) [
    | inl e ↦ rw (e, ← (==_iff k j).0 e, h) tt
    | inr e ↦ rw e (Persists-refl (get v j))
  ])

  -- The view `t` keeps what the view `s` knows of the member `j`.
  abbrev Keeps : NodeId → Service dm → Service dm → Type 0
  Keeps j s t = Persists (get s.members j) (get t.members j)

  merge_member-Keeps :
      (now : ℕ) (s : Service dm) (n : Node) (j : NodeId) → Keeps j s (merge_member dm now s n)
  unfolding merge_member
  merge_member-Keeps now s n j = elim (Option-cases (get s.members n.id)) [
    | inl e ↦
        rw (e, merge_member)
          (if_cases (Keeps j s) (n.state == dead) (λ _. Persists-refl (get s.members j))
            (λ _. Persists-insert_new s.members n.id j _ e))
    | inr (m, e) ↦
        rw (e, merge_member)
          (if_cases (Keeps j s) (m.state == dead) (λ _. Persists-refl (get s.members j))
            (λ living.
              if_cases (Keeps j s) (ltb m.incarnation n.incarnation)
                (λ newer. Persists-insert s.members n.id j e (ground arith))
                (λ _. Persists-refl (get s.members j))))
  ]

  merge_all-Keeps :
      (clock : ℕ → ℕ) (s : Service dm) (ns : List Node) (j : NodeId)
      → Keeps j s (merge_all dm clock s ns)
  unfolding merge_all
  merge_all-Keeps clock s [] j = Persists-refl (get s.members j)
  merge_all-Keeps clock s (n ∷ ns) j =
      Persists-trans _ _ _ (merge_member-Keeps (clock 0) s n j)
        (merge_all-Keeps (λ i. clock (suc i)) (merge_member dm (clock 0) s n) ns j)

  handle_ack-Keeps :
      (clock : ℕ → ℕ) (s : Service dm) (from : NodeId) (inc : ℕ) (ns : List Node) (j : NodeId)
      → Keeps j s (handle_ack dm clock s from inc ns)
  unfolding handle_ack
  handle_ack-Keeps clock s from inc ns j =
      let rest = λ (i : ℕ). clock (suc i) in
      elim (Option-cases (get s.members from)) [
        | inl e ↦ rw (e, handle_ack) (merge_all-Keeps rest s ns j)
        | inr (m, e) ↦
            rw (e, handle_ack)
              (if_cases (Keeps j s) (m.state == dead) (λ _. Persists-refl (get s.members j))
                (λ living.
                  Persists-trans _ _ _ (Persists-insert s.members from j e (ground arith))
                    (merge_all-Keeps rest _ ns j)))
      ]

  note_ping-Keeps :
      (now : ℕ) (s : Service dm) (from : NodeId) (inc : ℕ) (src : SocketAddr) (j : NodeId)
      → Keeps j s (note_ping dm now s from inc src)
  unfolding note_ping
  note_ping-Keeps now s from inc src j = elim (Option-cases (get s.members from)) [
    | inl e ↦ rw (e, note_ping) (Persists-insert_new s.members from j _ e)
    | inr (m, e) ↦ rw (e, note_ping) (Persists-insert s.members from j e (ground arith))
  ]

  handle_alive-Keeps :
      (now : ℕ) (s : Service dm) (id : NodeId) (inc : ℕ) (j : NodeId)
      → Keeps j s (handle_alive dm now s id inc)
  unfolding handle_alive
  handle_alive-Keeps now s id inc j = elim (Option-cases (get s.members id)) [
    | inl e ↦ rw (e, handle_alive) (Persists-refl (get s.members j))
    | inr (m, e) ↦
        rw (e, handle_alive)
          (if_cases (Keeps j s) (m.state == dead) (λ _. Persists-refl (get s.members j))
            (λ living.
              if_cases (Keeps j s) (ltb m.incarnation inc)
                (λ newer. Persists-insert s.members id j e (ground arith))
                (λ _.
                  if_cases (Keeps j s) ((inc == m.incarnation) && (m.state == suspect))
                    (λ refuted. Persists-insert s.members id j e (ground arith))
                    (λ _. Persists-refl (get s.members j)))))
  ]

  -- What the service's own counter is for: no entry of the local node is ahead of it, an entry
  -- stands under its own name, and the u64 counter is not at its end.
  pub record OwnsCounter (s : Service dm) : Type 0 where
    pub at_key : (k : NodeId) (m : Node) → get s.members k ≡ some m → m.id ≡ k
    pub ahead : (m : Node) → get s.members s.local_node.id ≡ some m → m.incarnation ≤ s.incarnation
    pub room : s.incarnation + 1 < 2 ^ 64

  -- Self-defence does not take the local entry back.
  refuted :
      (s : Service dm) {id : NodeId} (m : Node) {seen : Option ℕ}
      → OwnsCounter s
      → get s.members id ≡ some m
      → m.id ≡ s.local_node.id
      → (m.state == dead) ≡ false
      → Advances m
          (record m { incarnation = (s.incarnation + 1) % 2 ^ 64; state = alive; last_seen = seen })
  refuted s {id} m own e local living =
      let here : get s.members s.local_node.id ≡ some m = cc (e, local, own.at_key id m e) in
      ground (arith, own.ahead m here, own.room)

  handle_suspect-Keeps :
      (c : Codec) (now : ℕ) (s : Service dm) (id : NodeId) (inc : ℕ) (j : NodeId)
      → OwnsCounter s
      → Keeps j s (handle_suspect dm c now s id inc).0
  unfolding handle_suspect refute
  handle_suspect-Keeps c now s id inc j own = elim (Option-cases (get s.members id)) [
    | inl e ↦ rw (e, handle_suspect) (Persists-refl (get s.members j))
    | inr (m, e) ↦
        let P = λ (r : Service dm × List Datagram). Keeps j s r.0 in
        rw (e, handle_suspect)
          (if_cases P (m.state == dead) (λ _. Persists-refl (get s.members j))
            (λ living.
              if_cases P (ltb m.incarnation inc)
                (λ newer.
                  if_cases P (m.id == s.local_node.id)
                    (λ local.
                      Persists-insert s.members id j e
                        (refuted s m own e ((==_iff m.id s.local_node.id).0 local) living))
                    (λ _. Persists-insert s.members id j e (ground arith)))
                (λ _. Persists-refl (get s.members j))))
  ]

  -- Whether a message may replace the entry of `j` outright.
  abbrev pub IsJoinOf : NodeId → GossipMessage → Type 0
  IsJoinOf j (join n) = n.id ≡ j
  IsJoinOf j _ = ⊥

  -- Unless the message is a join in the member's own name, a member that is known stays known
  -- after any message, under the same id and addresses, its incarnation does not fall, and once
  -- it is dead it stays dead. Entries are assumed to stand under their nodes' ids, and the
  -- service's own counter to be neither behind the local entry nor at its end.
  pub handle_message-Keeps :
      (c : Codec) (clock : ℕ → ℕ) (s : Service dm) (msg : GossipMessage) (src : SocketAddr)
      (j : NodeId)
      → OwnsCounter s
      → ¬ IsJoinOf j msg
      → Persists (get s.members j) (get (handle_message dm c clock s msg src).0.members j)
  unfolding handle_message handle_ping handle_join
  handle_message-Keeps c clock s (ping from inc) src j own other =
      note_ping-Keeps (clock 0) s from inc src j
  handle_message-Keeps c clock s (ack from inc ns) src j own other =
      handle_ack-Keeps clock s from inc ns j
  handle_message-Keeps c clock s (join n) src j own other =
      rw get-insert (elim (Bool-cases (n.id == j)) [
        | inl e ↦ absurd (other ((==_iff n.id j).0 e))
        | inr e ↦ rw e (Persists-refl (get s.members j))
      ])
  handle_message-Keeps c clock s (suspects id inc) src j own other =
      handle_suspect-Keeps c (clock 0) s id inc j own
  handle_message-Keeps c clock s (alives id inc) src j own other =
      handle_alive-Keeps (clock 0) s id inc j
