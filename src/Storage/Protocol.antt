-- ===== src/Storage/Protocol.antt =====
-- src/storage/protocol.rs, and what src/storage/memory.rs asks of its keys and values.
use stage.Prelude.{ℕ, Option, List, Str, Eq}
use stage.Membership.Types.{SocketAddr}

-- Keys are `ToString + FromStr`, values go through `serde_json`; each may fail to be read.
pub record Format (K V : Type 0) : Type 0 where
  pub key_eq : Eq K
  pub to_string : K → Str
  pub parse : Str → Option K
  pub to_json : V → Option Str
  pub from_json : Str → Option V

-- ReplicateRequest, ForwardPutRequest, and the GET endpoints with their key or partition.
pub data Call : Type 0 where
  replicate : ℕ → Str → Str → Str → Call
  forward_put : ℕ → Str → Str → Str → Call
  get_internal : Str → Call
  partition_dump : ℕ → Call

-- The address, the base path of the map, and the call.
abbrev pub Request : Type 0
Request = SocketAddr × Str × Call

-- KeyValueJson
pub record KeyValueJson : Type 0 where
  pub key : Str
  pub value_json : Str

-- What `response.json()` makes of a body: GetResponse, PartitionDumpResponse, or neither.
pub data Body : Type 0 where
  get_response : Option Str → Body
  dump_response : List KeyValueJson → Body
  other_body : Body

pub record Response : Type 0 where
  pub status : ℕ
  pub body : Body
