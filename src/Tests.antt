-- ===== src/Tests.antt =====
-- Concrete nodes, services, sites and tasks, on which the tests run the models.
mod Cluster
mod Ring
mod Shards
mod Queue
mod Peers
mod Tasks
mod Workers
mod Texts
mod Books
mod Rounds
mod Gossip
mod Routing
mod Startup
mod Starts
use stage.Prelude.{
  ℕ, zero, suc, ◌≡◌, ◌<◌, Option, none, some, List, [], ◌∷◌, Str, str, length, arith, ==_iff,
  str_eq, map,
}
use stage.DashMap.{DashMap}
use stage.Assoc.{assoc}
use stage.Membership.Types.{
  NodeId, SocketAddr, NodeState, alive, suspect, dead, Node, GossipMessage, ping, ack, join,
  suspects, alives, Codec, http_addr_of,
}
use stage.Membership.Service.{Service}
use stage.Membership.Nodes.{WellKeyed}
use stage.Storage.Partitioner.{PartitionManager, new_with_replication, Hasher}
use stage.Effects.{Wire}
use stage.Storage.Protocol.{Format, Request, Response}
use stage.Storage.Memory.{Store}
use stage.Site.{Site}

abbrev pub ann : NodeId
ann = str "ann"

abbrev pub bob : NodeId
bob = str "bob"

abbrev pub addr : ℕ → SocketAddr
addr port = record { ip = 1; port = port }

abbrev pub node : NodeId → NodeState → ℕ → Option ℕ → Node
node id state incarnation seen = record {
  id = id;
  gossip_addr = addr 5000;
  http_addr = addr 6000;
  state = state;
  incarnation = incarnation;
  last_seen = seen;
}

-- A service that knows itself and, with `more`, other nodes.
abbrev pub service : Node → ℕ → List (NodeId × Node) → Service assoc
service n incarnation more = record {
  local_node = n;
  members =
      assoc.insert ⦃e = str_eq⦄
        (elim more [ [] ↦ assoc.empty | x ∷ _ ↦ assoc.insert ⦃e = str_eq⦄ assoc.empty x.0 x.1 ])
        n.id n;
  incarnation = incarnation;
}

-- A serialisation that refuses member lists.
abbrev serialize : GossipMessage → Option Str
serialize (ping id i) = some (0 ∷ i ∷ id)
serialize (suspects id i) = some (1 ∷ i ∷ id)
serialize (alives id i) = some (2 ∷ i ∷ id)
serialize (ack id i ns) = none
serialize (join n) = none

abbrev deserialize : Str → Option GossipMessage
deserialize [] = none
deserialize (tag ∷ []) = none
deserialize (zero ∷ i ∷ id) = some (ping id i)
deserialize (suc zero ∷ i ∷ id) = some (suspects id i)
deserialize (suc (suc tag) ∷ i ∷ id) = some (alives id i)

abbrev pub codec : Codec
codec = record {
  serialize = serialize;
  deserialize = deserialize;
  deserialize-serialize = λ m b h. ground arith;
}

abbrev pub alone : Service assoc
alone = service (node ann alive 1 (some 0)) 1 []

abbrev pub pair : Service assoc
pair = service (node ann alive 1 (some 0)) 1 ((bob, node bob alive 1 (some 0)) ∷ [])

abbrev pub length_hash : Hasher
length_hash key = length key

abbrev pub site : Site assoc
site = record { membership = alone; partitioner = new_with_replication 2; hash = length_hash }

pub alone-WellKeyed : WellKeyed assoc alone
alone-WellKeyed k n h = ground (arith, ==_iff ann k)

pub pair-WellKeyed : WellKeyed assoc pair
pair-WellKeyed k n h = ground (arith, ==_iff ann k, ==_iff bob k)

-- Texts as keys and values.
abbrev pub texts : Format Str Str
texts = record {
  key_eq = str_eq;
  to_string = λ k. k;
  parse = λ k. some k;
  to_json = λ v. some v;
  from_json = λ v. some v;
}

abbrev pub empty_store : Store assoc Str Str
empty_store = record { local_data = assoc.empty; processed_ops = assoc.empty }

abbrev pub key : Str
key = str "key"

abbrev pub old : Str
old = str "old"

-- A network that answers nothing.
abbrev pub down : Wire Request Response
down = record { answer = λ log q. none; random = λ n. n }
