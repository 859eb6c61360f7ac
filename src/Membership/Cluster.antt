-- ===== src/Membership/Cluster.antt =====
-- src/membership/service.rs: a cluster of nodes. `new` starts one, `start` spawns its three loops,
-- and the steps of the loops of all nodes interleave in any order. A datagram stays in flight: it
-- may arrive anywhere, late, again, out of order, or never.
pub mod First
pub mod Frozen
pub mod Doubt
use stage.Prelude.{
  ℕ, Option, none, some, List, [], ◌∷◌, ◌++◌, map, Str, nat_beq, if◌then◌else◌, get_elem?,
}
use stage.DashMap.{DashMap}
use stage.Membership.Types.{NodeId, SocketAddr, Codec}
use stage.Membership.Service.{Service, Datagram, new, receive, gossip_round}
use stage.Membership.Detector.{tick}

-- The services by the number of their process, and all that has been sent.
pub record Cluster (dm : DashMap) : Type 0 where
  pub services : ℕ → Option (Service dm)
  pub flight : List Str

pub data Event : Type 0 where
  -- A process starts: its number, identifier, address, the time and the seeds.
  launch : ℕ → NodeId → SocketAddr → ℕ → List SocketAddr → Event
  -- A datagram, by its place among those sent, reaches a process, with the clock and the sender.
  deliver : ℕ → ℕ → (ℕ → ℕ) → SocketAddr → Event
  -- A round of the gossip loop, with the random index, and of the failure detection loop.
  gossip : ℕ → ℕ → Event
  detect : ℕ → ℕ → Event

module _ (dm : DashMap) (c : Codec) where
  -- Process `i` goes on as `r.0` and has sent `r.1`.
  unfoldable pub become : Cluster dm → ℕ → Service dm × List Datagram → Cluster dm
  become cl i (t, sent) = record {
    services = λ j. if nat_beq i j then some t else cl.services j;
    flight = cl.flight ++ map (λ d. d.1) sent;
  }

  unfoldable pub launch_at : Cluster dm → ℕ → Option (Service dm × List Datagram) → Cluster dm
  unfolding become
  launch_at cl i none = cl
  launch_at cl i (some r) = become cl i r

  -- What an event does to the process that it befalls.
  unfoldable pub react : List Str → Event → Service dm → Service dm × List Datagram
  react flight (launch i id bind_addr now seeds) s = (s, [])
  react flight (deliver i n clock src) s = elim (get_elem? flight n) [
    | none ↦ (s, [])
    | some buf ↦ receive dm c clock s buf src
  ]
  react flight (gossip i idx) s = (s, gossip_round dm c s idx)
  react flight (detect i now) s = tick dm c now s

  abbrev pub process_of : Event → ℕ
  process_of (launch i id bind_addr now seeds) = i
  process_of (deliver i n clock src) = i
  process_of (gossip i idx) = i
  process_of (detect i now) = i

  -- What an event does where no process has the number yet.
  unfoldable pub begin : Cluster dm → Event → Cluster dm
  unfolding launch_at
  begin cl (launch i id bind_addr now seeds) = launch_at cl i (new dm c id bind_addr now seeds)
  begin cl (deliver i n clock src) = cl
  begin cl (gossip i idx) = cl
  begin cl (detect i now) = cl

  unfoldable pub step : Cluster dm → Event → Cluster dm
  unfolding react begin become
  step cl e = elim (cl.services (process_of e)) [
    | none ↦ begin cl e
    | some s ↦ become cl (process_of e) (react cl.flight e s)
  ]

  unfoldable pub run : Cluster dm → List Event → Cluster dm
  unfolding step
  run cl [] = cl
  run cl (e ∷ es) = run (step cl e) es

-- No process has been started, and nothing sent.
abbrev pub nothing : (dm : DashMap) → Cluster dm
nothing dm = record { services = λ i. none; flight = [] }
