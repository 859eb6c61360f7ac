-- ===== src/Executor/Types.antt =====
-- src/executor/types.rs and src/executor/protocol.rs: tasks, their entries and the requests
-- between nodes. A payload is kept as the text of its JSON.
use stage.Prelude.{ℕ, Bool, true, false, Option, List, Str}
use stage.Membership.Types.{NodeId, SocketAddr}

abbrev pub TaskId : Type 0
TaskId = Str

pub data TaskStatus : Type 0 where
  pending running completed : TaskStatus
  failed : Str → TaskStatus

-- `status == TaskStatus::Pending`, `status == TaskStatus::Running`
abbrev pub is_pending : TaskStatus → Bool
is_pending pending = true
is_pending running = false
is_pending completed = false
is_pending (failed e) = false

abbrev pub is_running : TaskStatus → Bool
is_running pending = false
is_running running = true
is_running completed = false
is_running (failed e) = false

pub data Task : Type 0 where
  execute : Str → Str → Task

pub record TaskEntry : Type 0 where
  pub task : Task
  pub status : TaskStatus
  pub assigned_to : Option NodeId
  pub created_at : ℕ
  pub lease_expires : Option ℕ

-- A request, by its endpoint and payload: ReplicateTaskRequest, ForwardTaskRequest, and the two
-- GET endpoints with the key or partition in their path.
pub data Call : Type 0 where
  replicate_task : ℕ → TaskId → TaskEntry → Call
  internal_submit : ℕ → TaskId → Task → Call
  internal_get : Str → Call
  partition_dump : ℕ → Call

abbrev pub Request : Type 0
Request = SocketAddr × Call

-- What `response.json()` makes of a body.
pub data Body : Type 0 where
  task_body : Option TaskEntry → Body
  dump_body : List (TaskId × TaskEntry) → Body
  other_body : Body

pub record Response : Type 0 where
  pub status : ℕ
  pub body : Body
