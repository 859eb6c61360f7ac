-- ===== src/Membership/Types.antt =====
-- src/membership/types.rs: nodes, their states and the gossip messages. An IP address is a number,
-- an `Instant` a number of milliseconds.
use stage.Prelude.{
  ℕ, ◌+◌, ◌%◌, ◌^◌, ◌≡◌, Bool, true, false, Option, none, some, List, map, Str, Eq, ◌↔◌, arith,
}

-- NodeId(pub String)
abbrev pub NodeId : Type 0
NodeId = Str

pub record SocketAddr : Type 0 where
  pub ip : ℕ
  pub port : ℕ

pub data NodeState : Type 0 where
  alive suspect dead : NodeState

abbrev pub state_beq : NodeState → NodeState → Bool
state_beq alive alive = true
state_beq suspect suspect = true
state_beq dead dead = true
state_beq _ _ = false

pub state_beq_iff : (a b : NodeState) → (state_beq a b ≡ true) ↔ (a ≡ b)
state_beq_iff a b = (λ h. ground arith, λ h. ground arith)

instance abbrev pub state_eq : Eq NodeState
state_eq = record { same = state_beq; same_iff = state_beq_iff }

pub record Node : Type 0 where
  pub id : NodeId
  pub gossip_addr : SocketAddr
  pub http_addr : SocketAddr
  pub state : NodeState
  pub incarnation : ℕ
  pub last_seen : Option ℕ

pub data GossipMessage : Type 0 where
  ping : NodeId → ℕ → GossipMessage
  ack : NodeId → ℕ → List Node → GossipMessage
  join : Node → GossipMessage
  suspects : NodeId → ℕ → GossipMessage
  alives : NodeId → ℕ → GossipMessage

-- `SocketAddr::new(addr.ip(), addr.port() + 1000)`; the port is a u16.
unfoldable pub http_addr_of : SocketAddr → SocketAddr
http_addr_of a = record { ip = a.ip; port = (a.port + 1000) % 2 ^ 16 }

-- `#[serde(skip)]` on `last_seen`: what a node is after a trip over the network.
abbrev pub on_wire : Node → Node
on_wire n = record n { last_seen = none }

abbrev pub received : GossipMessage → GossipMessage
received (ping n i) = ping n i
received (ack n i ms) = ack n i (map on_wire ms)
received (join n) = join (on_wire n)
received (suspects n i) = suspects n i
received (alives n i) = alives n i

-- `bincode`: serialisation of messages to datagrams, which may fail.
pub record Codec : Type 0 where
  pub serialize : GossipMessage → Option Str
  pub deserialize : Str → Option GossipMessage
  pub deserialize-serialize :
      (m : GossipMessage) (b : Str) → serialize m ≡ some b → deserialize b ≡ some (received m)
