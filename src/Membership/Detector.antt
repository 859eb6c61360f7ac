-- ===== src/Membership/Detector.antt =====
-- src/membership/service.rs, `failure_detection_loop`: one tick looks at every member but the
-- local one, and announces the new suspicions to the members that are still alive.
pub mod Tick
use stage.Prelude.{
  ℕ, ◌-◌, Bool, true, false, Option, none, some, List, [], ◌∷◌, ◌++◌, ◌==◌, str_eq, ltb,
  if◌then◌else◌,
}
use stage.DashMap.{DashMap}
use stage.Membership.Types.{
  NodeId, NodeState, alive, suspect, dead, Node, GossipMessage, suspects, Codec,
}
use stage.Membership.Service.{
  Service, Datagram, suspect_timeout, dead_timeout, nodes, broadcast_message,
}

-- The body for a remote member, by its state and timestamp. `now.duration_since(last_seen)`
-- stops at zero; a member with no timestamp gets one.
unfoldable pub inspect_at : ℕ → Node → NodeState → Option ℕ → Node
inspect_at now m dead seen = m
inspect_at now m alive none = record m { last_seen = some now }
inspect_at now m suspect none = record m { last_seen = some now }
inspect_at now m alive (some seen) =
    if ltb suspect_timeout (now - seen) then record m { state = suspect } else m
inspect_at now m suspect (some seen) =
    if ltb dead_timeout (now - seen) then record m { state = dead } else m

-- What the loop's body does to a member.
unfoldable pub inspect : NodeId → ℕ → Node → Node
unfolding inspect_at
inspect local now m = if m.id == local then m else inspect_at now m m.state m.last_seen

-- Whether the body pushes a suspicion.
unfoldable pub overdue : ℕ → NodeState → Option ℕ → Bool
overdue now alive (some seen) = ltb suspect_timeout (now - seen)
overdue now alive none = false
overdue now suspect seen = false
overdue now dead seen = false

unfoldable pub newly_suspected : NodeId → ℕ → Node → Bool
unfolding overdue
newly_suspected local now m = if m.id == local then false else overdue now m.state m.last_seen

-- `messages_to_broadcast`, in the order of iteration.
unfoldable pub suspicions : NodeId → ℕ → List Node → List GossipMessage
unfolding newly_suspected
suspicions local now [] = []
suspicions local now (m ∷ ms) =
    (if newly_suspected local now m then suspects m.id m.incarnation ∷ [] else [])
    ++ suspicions local now ms

module _ (dm : DashMap) where
  unfoldable pub broadcast_all : Codec → Service dm → List GossipMessage → List Datagram
  broadcast_all c s [] = []
  broadcast_all c s (msg ∷ msgs) = broadcast_message dm c s msg ++ broadcast_all c s msgs

  unfoldable pub inspect_all : ℕ → Service dm → Service dm
  unfolding inspect
  inspect_all now s = record s { members = dm.update (inspect s.local_node.id now) s.members }

  -- One round of the loop.
  unfoldable pub tick : Codec → ℕ → Service dm → Service dm × List Datagram
  unfolding inspect_all suspicions broadcast_all
  tick c now s =
      let t = inspect_all now s in
      (t, broadcast_all c t (suspicions s.local_node.id now (nodes dm s.members)))
