-- ===== src/Membership/Detector/Tick.antt =====
-- src/membership/service.rs, `failure_detection_loop`: which members a tick suspects or buries,
-- what it announces, and what the announcements do at their receivers.
use stage.Prelude.{
  ℕ, ◌+◌, ◌-◌, ◌≤◌, ◌<◌, ◌≡◌, ◌≢◌, refl, ◌⊎◌, inl, inr, true, Option, none, some, List, [], ◌∷◌, In,
  if_cases, Bool-cases, Option-cases, ◌==◌, ==_iff, str_eq, ltb, arith,
}
use mathlib.Core.Path.{subst}
use stage.Membership.Nodes.{In-nodes}
use stage.DashMap.{DashMap}
use stage.Membership.Types.{
  NodeId, SocketAddr, NodeState, alive, suspect, dead, Node, GossipMessage, suspects, Codec,
  state_eq,
}
use stage.Membership.Service.{
  Service, suspect_timeout, dead_timeout, nodes, handle_suspect, handle_message,
}
use stage.Membership.Detector.{inspect, inspect_at, newly_suspected, suspicions, tick}

-- The ways a tick at time `now` on the node `local` can leave a member.
pub data Inspected (local : NodeId) (now : ℕ) (m : Node) : Node → Type 0 where
  own : m.id ≡ local → Inspected local now m m
  buried : m.id ≢ local → m.state ≡ dead → Inspected local now m m
  stamped :
      m.id ≢ local
      → m.state ≢ dead
      → m.last_seen ≡ none
      → Inspected local now m (record m { last_seen = some now })
  fresh :
      {seen : ℕ}
      → m.id ≢ local
      → m.last_seen ≡ some seen
      → (m.state ≡ alive) × (now ≤ seen + 5_000) ⊎ (m.state ≡ suspect) × (now ≤ seen + 10_000)
      → Inspected local now m m
  suspected :
      {seen : ℕ}
      → m.id ≢ local
      → m.state ≡ alive
      → m.last_seen ≡ some seen
      → seen + 5_000 < now
      → Inspected local now m (record m { state = suspect })
  died :
      {seen : ℕ}
      → m.id ≢ local
      → m.state ≡ suspect
      → m.last_seen ≡ some seen
      → seen + 10_000 < now
      → Inspected local now m (record m { state = dead })

module _ (local : NodeId) (now : ℕ) (m : Node) (remote : m.id ≢ local) where
  inspect_at-Inspected :
      (st : NodeState) (seen : Option ℕ)
      → m.state ≡ st
      → m.last_seen ≡ seen
      → Inspected local now m (inspect_at now m st seen)
  unfolding inspect_at
  inspect_at-Inspected dead seen e f = buried remote e
  inspect_at-Inspected alive none e f = stamped remote (λ d. ground arith) f
  inspect_at-Inspected suspect none e f = stamped remote (λ d. ground arith) f
  inspect_at-Inspected alive (some seen) e f =
      if_cases (Inspected local now m) (ltb suspect_timeout (now - seen))
        (λ late. suspected remote e f (ground arith))
        (λ early. fresh remote f (inl (e, ground arith)))
  inspect_at-Inspected suspect (some seen) e f =
      if_cases (Inspected local now m) (ltb dead_timeout (now - seen))
        (λ late. died remote e f (ground arith)) (λ early. fresh remote f (inr (e, ground arith)))

inspect-Inspected :
    (local : NodeId) (now : ℕ) (m : Node) → Inspected local now m (inspect local now m)
unfolding inspect
inspect-Inspected local now m =
    if_cases (Inspected local now m) (m.id == local) (λ e. own ((==_iff m.id local).0 e))
      (λ e.
        inspect_at-Inspected local now m (λ p. ground (arith, ==_iff m.id local)) m.state
          m.last_seen refl refl)

In-suspicions :
    (local : NodeId) (now : ℕ) (msg : GossipMessage) (ms : List Node)
    → In msg (suspicions local now ms)
    → (m : Node) × In m ms
      × (msg ≡ suspects m.id m.incarnation)
      × (newly_suspected local now m ≡ true)
unfolding suspicions
In-suspicions local now msg [] h = elim h [ ]
In-suspicions local now msg (m ∷ ms) h = elim (Bool-cases (newly_suspected local now m)) [
  | inl e ↦
      let h' : (msg ≡ suspects m.id m.incarnation) ⊎ In msg (suspicions local now ms) = rw e at h in
      elim h' [
        | inl q ↦ (m, inl refl, q, e)
        | inr r ↦ let (x, i, q, n) = In-suspicions local now msg ms r in (x, inr i, q, n)
      ]
  | inr e ↦
      let h' : In msg (suspicions local now ms) = rw e at h in
      let (x, i, q, n) = In-suspicions local now msg ms h' in (x, inr i, q, n)
]

module _ (dm : DashMap) where
  open dm use {Map, get, get-update, In-entries}

  -- A tick adds and removes no member. A member that it finds is left in one of six ways: the
  -- local node, the dead, and those heard from within their timeout as they were; one that was
  -- never stamped with the time; an alive one not heard from for more than five seconds suspect;
  -- a suspect one not heard from for more than ten seconds dead.
  pub tick-Inspected :
      (c : Codec) (now : ℕ) (s : Service dm) (k : NodeId)
      → ((get s.members k ≡ none) × (get (tick dm c now s).0.members k ≡ none))
        ⊎ ((m n : Node) × (get s.members k ≡ some m)
            × (get (tick dm c now s).0.members k ≡ some n)
            × Inspected s.local_node.id now m n)
  unfolding tick
  tick-Inspected c now s k = elim (Option-cases (get s.members k)) [
    | inl e ↦ inl (e, rw (get-update, e))
    | inr (m, e) ↦
        inr (m, inspect s.local_node.id now m, e, rw (get-update, e), inspect-Inspected _ now m)
  ]

  -- Old news: a suspicion at an incarnation that the receiver has already seen changes nothing.
  handle_suspect_stale :
      (c : Codec) (now : ℕ) (r : Service dm) (id : NodeId) (inc : ℕ)
      → ((n : Node) → get r.members id ≡ some n → inc ≤ n.incarnation)
      → handle_suspect dm c now r id inc ≡ (r, [])
  unfolding handle_suspect
  handle_suspect_stale c now r id inc known = elim (Option-cases (get r.members id)) [
    | inl e ↦ rw (e, handle_suspect)
    | inr (n, e) ↦ rw (e, handle_suspect) (ground (arith, known n e))
  ]

  -- What a tick announces changes nothing at a receiver whose view of each member is at least as
  -- recent as the announcer's, whose entries stand under their nodes' ids, the suspected member itself included: the suspicion carries the
  -- incarnation that the announcer knows, and a receiver only heeds a larger one.
  pub suspicions_ignored :
      (c : Codec) (clock : ℕ → ℕ) (now : ℕ) (s r : Service dm) (msg : GossipMessage)
      (src : SocketAddr)
      → ((k : NodeId) (m : Node) → get s.members k ≡ some m → m.id ≡ k)
      → ((k : NodeId) (m n : Node)
          → get s.members k ≡ some m
          → get r.members k ≡ some n
          → m.incarnation ≤ n.incarnation)
      → In msg (suspicions s.local_node.id now (nodes dm s.members))
      → handle_message dm c clock r msg src ≡ (r, [])
  unfolding handle_message
  suspicions_ignored c clock now s r msg src keyed recent h =
      let (m, i, q, _) = In-suspicions s.local_node.id now msg _ h in
      let (k, e) = In-nodes dm s.members m i in
      rw q (
        handle_suspect_stale c (clock 0) r m.id m.incarnation
          (λ n f. recent k m n e (subst (λ x. get r.members x ≡ some n) (keyed k m e) f)))
