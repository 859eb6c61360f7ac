-- ===== src/Membership/Cluster/Doubt.antt =====
-- src/membership/service.rs: a member that is suspected in a cluster, also by mistake.
use stage.Prelude.{
  ℕ, suc, ◌≡◌, ◌≢◌, refl, subst, sym, ap, ◌∙◌, ◌==◌, ==_iff, str_eq, nat_eq, nat_beq, Option, none,
  some, List, [], ◌∷◌, Str, if_cases, Option-cases, Bool-cases, inl, inr, arith, All, get_elem?,
}
use stage.DashMap.{DashMap}
use stage.Membership.Types.{
  NodeId, SocketAddr, NodeState, Node, Codec, GossipMessage, ping, ack, join, suspects, alives,
  alive, suspect, dead, state_eq,
}
use stage.Membership.Service.{
  Service, Datagram, set_member, refresh, discovered, note_ping, handle_ping, merge_member,
  merge_all, handle_ack, handle_join, handle_message, receive, new,
}
use stage.Membership.Detector.{inspect, inspect_at, inspect_all, tick}
use stage.Membership.Cluster.{
  Cluster, Event, launch, deliver, gossip, detect, launch_at, become, react, begin, step, run,
  nothing, process_of,
}
use stage.Membership.Cluster.First.{
  Says, Carries, IsFirst, merge_member_same, handle_suspect_same, merge_member-IsFirst,
  set_member-IsFirst,
}
use stage.Membership.Cluster.Frozen.{IsFrozen, step-IsFrozen, run-IsFrozen, get_elem?-Carries}

inspect_at_doubts :
    (now : ℕ) (m : Node) (st : NodeState) (seen : Option ℕ)
    → m.state ≡ st
    → st ≢ alive
    → (inspect_at now m st seen).state ≢ alive
unfolding inspect_at
inspect_at_doubts now m dead seen e d = λ h. d (ground arith)
inspect_at_doubts now m alive seen e d = absurd (d refl)
inspect_at_doubts now m suspect none e d = λ h. d (ground arith)
inspect_at_doubts now m suspect (some t) e d = λ h. ground arith

module _ (dm : DashMap) where
  open dm use {get, insert, update, get-insert, get-update}

  -- A view has the member, and not as alive.
  abbrev pub Doubts : Service dm → NodeId → Type 0
  Doubts s k = (n : Node) × (get s.members k ≡ some n) × (n.state ≢ alive)

  set_member-Doubts :
      (s : Service dm) (j k : NodeId) (n : Node)
      → Doubts s k
      → (j ≡ k → n.state ≢ alive)
      → Doubts (set_member dm s j n) k
  set_member-Doubts s j k n (m, e, d) h = elim (Bool-cases (j == k)) [
    | inl same ↦ (n, rw (get-insert, same), h ((==_iff j k).0 same))
    | inr other ↦ (m, rw (get-insert, other) e, d)
  ]

  -- The entry under `j` is replaced by one in the same state.
  keep_state-Doubts :
      (s : Service dm) (j k : NodeId) (m n : Node)
      → Doubts s k
      → get s.members j ≡ some m
      → n.state ≡ m.state
      → Doubts (set_member dm s j n) k
  keep_state-Doubts s j k m n (x, e, d) f g =
      set_member-Doubts s j k n (x, e, d)
        λ same h.
          let there : get s.members j ≡ some x =
            subst (λ i. get s.members i ≡ some x) (sym same) e in
          let equal : x ≡ m = ground arith in d (ap (λ (y : Node). y.state) equal ∙ sym g ∙ h)

  merge_member-Doubts :
      (now : ℕ) (s : Service dm) (n : Node) (k : NodeId)
      → IsFirst dm s
      → n.incarnation ≡ 1
      → Doubts s k
      → Doubts (merge_member dm now s n) k
  unfolding merge_member
  merge_member-Doubts now s n k h e d = elim (Option-cases (get s.members n.id)) [
    | inl x ↦
        rw (x, merge_member)
          (if_cases (λ (t : Service dm). Doubts t k) (n.state == dead) (λ _. d)
            (λ _. set_member-Doubts s n.id k _ d λ same.
              let missing : get s.members k ≡ none = subst (λ i. get s.members i ≡ none) same x in
              absurd (let there = d.1 in ground arith)))
    | inr (m, x) ↦ rw (merge_member_same dm now s n m x (ground (arith, h.1 n.id m x))) d
  ]

  merge_all-Doubts :
      (clock : ℕ → ℕ) (s : Service dm) (ns : List Node) (k : NodeId)
      → IsFirst dm s
      → All (λ (n : Node). n.incarnation ≡ 1) ns
      → Doubts s k
      → Doubts (merge_all dm clock s ns) k
  unfolding merge_all
  merge_all-Doubts clock s [] k h e d = d
  merge_all-Doubts clock s (n ∷ ns) k h (e, es) d =
      merge_all-Doubts (λ i. clock (suc i)) (merge_member dm (clock 0) s n) ns k
        (merge_member-IsFirst dm (clock 0) s n h e) es (merge_member-Doubts (clock 0) s n k h e d)

  handle_ack-Doubts :
      (clock : ℕ → ℕ) (s : Service dm) (from : NodeId) (inc : ℕ) (ns : List Node) (k : NodeId)
      → IsFirst dm s
      → inc ≡ 1
      → All (λ (n : Node). n.incarnation ≡ 1) ns
      → Doubts s k
      → Doubts (handle_ack dm clock s from inc ns) k
  unfolding handle_ack
  handle_ack-Doubts clock s from inc ns k h e es d = elim (Option-cases (get s.members from)) [
    | inl x ↦ rw (x, handle_ack) (merge_all-Doubts (λ i. clock (suc i)) s ns k h es d)
    | inr (m, x) ↦
        rw (x, handle_ack)
          (if_cases (λ (t : Service dm). Doubts t k) (m.state == dead) (λ _. d)
            (λ _.
              merge_all-Doubts (λ i. clock (suc i))
                (set_member dm s from (refresh dm (clock 0) inc m)) ns k
                (set_member-IsFirst dm s from _ h (ground (arith, h.1 from m x))) es
                (keep_state-Doubts s from k m _ d x refl)))
  ]

  note_ping-Doubts :
      (now : ℕ) (s : Service dm) (from : NodeId) (inc : ℕ) (src : SocketAddr) (k : NodeId)
      → Doubts s k
      → Doubts (note_ping dm now s from inc src) k
  unfolding note_ping discovered
  note_ping-Doubts now s from inc src k d = elim (Option-cases (get s.members from)) [
    | inl x ↦
        rw (x, note_ping)
          (set_member-Doubts s from k _ d λ same.
            let missing : get s.members k ≡ none = subst (λ i. get s.members i ≡ none) same x in
            absurd (let there = d.1 in ground arith))
    | inr (m, x) ↦ rw (x, note_ping) (keep_state-Doubts s from k m _ d x refl)
  ]

  handle_message-Doubts :
      (c : Codec) (clock : ℕ → ℕ) (s : Service dm) (msg : GossipMessage) (src : SocketAddr)
      (k : NodeId)
      → IsFirst dm s
      → Says msg
      → ((n : Node) → msg ≡ join n → n.id ≢ k)
      → Doubts s k
      → Doubts (handle_message dm c clock s msg src).0 k
  unfolding handle_message handle_ping handle_join
  handle_message-Doubts c clock s (ping from inc) src k h e other d =
      note_ping-Doubts (clock 0) s from inc src k d
  handle_message-Doubts c clock s (ack from inc ns) src k h (e, es) other d =
      handle_ack-Doubts clock s from inc ns k h e es d
  handle_message-Doubts c clock s (join n) src k h e other d =
      set_member-Doubts s n.id k _ d (λ same. absurd (other n refl same))
  handle_message-Doubts c clock s (suspects id inc) src k h e other d =
      rw (handle_suspect_same dm c (clock 0) s id inc (λ m x. ground (arith, h.1 id m x))) d
  handle_message-Doubts c clock s (alives id inc) src k h e other d = absurd e

  inspect_doubts :
      (local : NodeId) (now : ℕ) (m : Node) → m.state ≢ alive → (inspect local now m).state ≢ alive
  unfolding inspect
  inspect_doubts local now m d =
      if_cases (λ (x : Node). x.state ≢ alive) (m.id == local) (λ _. d)
        (λ _. inspect_at_doubts now m m.state m.last_seen refl d)

  inspect_all-Doubts :
      (now : ℕ) (s : Service dm) (k : NodeId) → Doubts s k → Doubts (inspect_all dm now s) k
  unfolding inspect_all
  inspect_all-Doubts now s k (m, e, d) =
      (inspect s.local_node.id now m, rw (get-update, e), inspect_doubts s.local_node.id now m d)

module _ (dm : DashMap) (c : Codec) where
  -- The event brings a request of member `k` to join to process `i`.
  abbrev pub Rejoins : Cluster dm → ℕ → NodeId → Event → Type 0
  Rejoins cl i k e =
      (n : ℕ) × (clock : ℕ → ℕ) × (src : SocketAddr) × (b : Str) × (m : Node) × (e
        ≡ deliver i n clock src)
      × (get_elem? cl.flight n ≡ some b)
      × (c.deserialize b ≡ some (join m))
      × (m.id ≡ k)

  -- None of the events does.
  abbrev pub Unjoined : Cluster dm → ℕ → NodeId → List Event → Type 0
  Unjoined cl i k [] = Unit
  Unjoined cl i k (e ∷ es) = (¬ Rejoins cl i k e) × Unjoined (step dm c cl e) i k es

  -- Process `i` has the member, and not as alive.
  abbrev pub DoubtsAt : Cluster dm → ℕ → NodeId → Type 0
  DoubtsAt cl i k = (s : Service dm) × (cl.services i ≡ some s) × Doubts dm s k

  receive-Doubts :
      (clock : ℕ → ℕ) (s : Service dm) (buf : Str) (src : SocketAddr) (k : NodeId)
      → IsFirst dm s
      → Carries c buf
      → ((m : Node) → c.deserialize buf ≡ some (join m) → m.id ≢ k)
      → Doubts dm s k
      → Doubts dm (receive dm c clock s buf src).0 k
  unfolding receive
  receive-Doubts clock s buf src k h says other d = elim (Option-cases (c.deserialize buf)) [
    | inl e ↦ rw (e, receive) d
    | inr (m, e) ↦
        rw (e, receive)
          (handle_message-Doubts dm c clock s m src k h (says m e)
            (λ n same. other n (e ∙ ap some same)) d)
  ]

  react-Doubts :
      (cl : Cluster dm) (e : Event) (s : Service dm) (k : NodeId)
      → IsFirst dm s
      → All (Carries c) cl.flight
      → (¬ Rejoins cl (process_of dm c e) k e)
      → Doubts dm s k
      → Doubts dm (react dm c cl.flight e s).0 k
  unfolding react tick
  react-Doubts cl (launch i id bind_addr now seeds) s k h out other d = d
  react-Doubts cl (deliver i n clock src) s k h out other d =
      elim (Option-cases (get_elem? cl.flight n)) [
        | inl e ↦ rw (e, react) d
        | inr (b, e) ↦
            rw (e, react)
              (receive-Doubts clock s b src k h (get_elem?-Carries dm c cl.flight n b out e)
                (λ m reads same. other (n, clock, src, b, m, refl, e, reads, same)) d)
      ]
  react-Doubts cl (gossip i idx) s k h out other d = d
  react-Doubts cl (detect i now) s k h out other d = inspect_all-Doubts dm now s k d

  become-DoubtsAt :
      (cl : Cluster dm) (j : ℕ) (r : Service dm × List Datagram) (i : ℕ) (k : NodeId)
      → (j ≡ i → Doubts dm r.0 k)
      → DoubtsAt cl i k
      → DoubtsAt (become dm c cl j r) i k
  unfolding become
  become-DoubtsAt cl j (t, sent) i k h (s, e, d) = elim (Bool-cases (nat_beq j i)) [
    | inl same ↦ (t, rw same, h (ground arith))
    | inr other ↦ (s, rw other e, d)
  ]

  begin-DoubtsAt :
      (cl : Cluster dm) (e : Event) (i : ℕ) (k : NodeId)
      → cl.services (process_of dm c e) ≡ none
      → DoubtsAt cl i k
      → DoubtsAt (begin dm c cl e) i k
  unfolding begin launch_at
  begin-DoubtsAt cl (launch j id bind_addr now seeds) i k free (s, here, d) =
      elim (Option-cases (new dm c id bind_addr now seeds)) [
        | inl x ↦ rw (x, begin) (s, here, d)
        | inr (r, x) ↦
            rw (x, begin)
              (become-DoubtsAt cl j r i k
                (λ same.
                  let there : cl.services i ≡ none = subst (λ n. cl.services n ≡ none) same free in
                  absurd (ground arith))
                (s, here, d))
      ]
  begin-DoubtsAt cl (deliver j n clock src) i k free h = h
  begin-DoubtsAt cl (gossip j idx) i k free h = h
  begin-DoubtsAt cl (detect j now) i k free h = h

  step-DoubtsAt :
      (cl : Cluster dm) (e : Event) (i : ℕ) (k : NodeId)
      → IsFrozen dm c cl
      → (¬ Rejoins cl i k e)
      → DoubtsAt cl i k
      → DoubtsAt (step dm c cl e) i k
  unfolding step
  step-DoubtsAt cl e i k (first, out) other (s, here, d) =
      let j = process_of dm c e in
      elim (Option-cases (cl.services j)) [
        | inl x ↦ rw (x, step) (begin-DoubtsAt cl e i k x (s, here, d))
        | inr (t, x) ↦
            rw (x, step)
              (become-DoubtsAt cl j (react dm c cl.flight e t) i k
                (λ same.
                  let equal : t ≡ s =
                    let there : cl.services j ≡ some s =
                      subst (λ n. cl.services n ≡ some s) (sym same) here in
                    ground arith in
                  react-Doubts cl e t k (first j t x) out
                    (subst (λ n. ¬ Rejoins cl n k e) (sym same) other)
                    (subst (λ n. Doubts dm n k) (sym equal) d))
                (s, here, d))
      ]

  run_doubts :
      (cl : Cluster dm) (es : List Event) (i : ℕ) (k : NodeId)
      → IsFrozen dm c cl
      → Unjoined cl i k es
      → DoubtsAt cl i k
      → DoubtsAt (run dm c cl es) i k
  unfolding run
  run_doubts cl [] i k h other d = d
  run_doubts cl (e ∷ es) i k h (other, others) d =
      run_doubts (step dm c cl e) es i k (step-IsFrozen dm c cl e h) others
        (step-DoubtsAt cl e i k h other d)

  -- In whatever state a cluster has come to, a member that a process does not take to be alive is
  -- never alive again in its view, whatever pings, acknowledgements, suspicions and member lists
  -- it receives, as long as no request of that member to join reaches it.
  pub run-DoubtsAt :
      (es later : List Event) (i : ℕ) (k : NodeId)
      → DoubtsAt (run dm c (nothing dm) es) i k
      → Unjoined (run dm c (nothing dm) es) i k later
      → DoubtsAt (run dm c (run dm c (nothing dm) es) later) i k
  run-DoubtsAt es later i k d others =
      run_doubts (run dm c (nothing dm) es) later i k (run-IsFrozen dm c es) others d
