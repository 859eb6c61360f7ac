-- ===== src/Executor/Routing.antt =====
-- src/executor/queue.rs: submission, replication, forwarding and remote lookups.
pub mod Replication
use stage.Prelude.{
  ℕ, Option, none, some, List, [], ◌∷◌, Str, ◌==◌, str_eq, nat_beq, if◌then◌else◌, drop,
}
use stage.DashMap.{DashMap}
use stage.Effects.{
  node_not_found, unreadable, bad_status, ok, err, Wire, Action, ◌>>=◌, ◌>>◌, pure, fail, modify,
  or_fail, send_with_retry, is_success,
}
use stage.Membership.Types.{NodeId}
use stage.Membership.Service.{get_member}
use stage.Site.{Site, me, partition_of, owners_of}
use stage.Executor.Types.{
  TaskId, Task, TaskEntry, Call, replicate_task, internal_submit, internal_get, partition_dump,
  Request, Body, task_body, dump_body, other_body, Response,
}
use stage.Executor.Queue.{Tasks, new_entry, store_local, get_task_local, my_pending_tasks}
use stage.Storage.Partitioner.{my_primary_partitions}

-- `response.json()` at the two types that are asked for.
abbrev pub task_of : Body → Option (Option TaskEntry)
task_of (task_body t) = some t
task_of (dump_body l) = none
task_of other_body = none

abbrev pub dump_of : Body → Option (List (TaskId × TaskEntry))
dump_of (task_body t) = none
dump_of (dump_body l) = some l
dump_of other_body = none

module _ (dm : DashMap) (site : Site dm) (w : Wire Request Response) where
  abbrev pub Act : Type 0 → Type 0
  Act A = Action (Tasks dm) Request A

  -- `if !response.status().is_success() { return Err(..) }`
  abbrev pub expect_success : Response → Act (Unit {0})
  expect_success r = if is_success r.status then pure tt else fail (bad_status r.status)

  -- A request to a member by id, at most three attempts.
  unfoldable pub call_member : NodeId → Call → Act Response
  call_member id c = do
    node ← or_fail (get_member dm site.membership id) node_not_found
    send_with_retry w 3 (node.http_addr, c)

  unfoldable pub replicate_task_to_backup : NodeId → ℕ → TaskId → TaskEntry → Act (Unit {0})
  unfolding call_member
  replicate_task_to_backup backup p id e = do
    r ← call_member backup (replicate_task p id e)
    expect_success r

  -- `for backup in owners.iter().skip(1)`, ended by the first error.
  unfoldable pub replicate_to_all : List NodeId → ℕ → TaskId → TaskEntry → Act (Unit {0})
  replicate_to_all [] p id e = pure tt
  replicate_to_all (b ∷ bs) p id e = do
    replicate_task_to_backup b p id e
    replicate_to_all bs p id e

  unfoldable pub store_as_primary : ℕ → TaskId → TaskEntry → Act (Unit {0})
  store_as_primary p id e = do
    modify (λ q. store_local dm q p id e)
    replicate_to_all (drop 1 (owners_of dm site p)) p id e

  unfoldable pub forward_task : NodeId → ℕ → TaskId → Task → Act (Unit {0})
  forward_task target p id task = do
    r ← call_member target (internal_submit p id task)
    expect_success r

  -- `submit`: the id is drawn and the clock read by the caller.
  unfoldable pub submit_to : List NodeId → TaskId → ℕ → Task → Act TaskId
  submit_to [] id now task = do
    modify (λ q. store_local dm q (partition_of dm site id) id (new_entry now task))
    pure id
  submit_to (primary ∷ backups) id now task =
      if primary == me dm site
      then (do store_as_primary (partition_of dm site id) id (new_entry now task); pure id)
      else (do forward_task primary (partition_of dm site id) id task; pure id)

  unfoldable pub submit : TaskId → ℕ → Task → Act TaskId
  unfolding submit_to
  submit id now task = submit_to (owners_of dm site (partition_of dm site id)) id now task

  unfoldable pub fetch_remote : NodeId → Str → Act (Option TaskEntry)
  fetch_remote id key = do
    r ← call_member id (internal_get key)
    expect_success r
    or_fail (task_of r.body) unreadable

  unfoldable pub fetch_partition : NodeId → ℕ → Act (List (TaskId × TaskEntry))
  fetch_partition id p = do
    r ← call_member id (partition_dump p)
    if nat_beq r.status 404
        then pure []
        else do expect_success r; or_fail (dump_of r.body) unreadable

  -- The loop over the owners: the first that has the task ends it, an error does not.
  unfoldable pub ask_owners : List NodeId → Str → Act (Option TaskEntry)
  ask_owners [] key s = (ok none, s)
  ask_owners (o ∷ os) key s =
      let (r, t) = fetch_remote o key s in
      let rest = ask_owners os key t in
      elim r [ ok found ↦ (elim found [ some e ↦ (ok (some e), t) | none ↦ rest ]) | err _ ↦ rest ]

  unfoldable pub get_task_remote : List NodeId → TaskId → Act (Option TaskEntry)
  unfolding ask_owners
  get_task_remote [] id = pure none
  get_task_remote (primary ∷ backups) id =
      if primary == me dm site then pure none else ask_owners (primary ∷ backups) id

  unfoldable pub get_task : TaskId → Act (Option TaskEntry)
  unfolding get_task_remote
  get_task id s = elim (get_task_local dm s.0 (partition_of dm site id) id) [
    | some e ↦ (ok (some e), s)
    | none ↦ get_task_remote (owners_of dm site (partition_of dm site id)) id s
  ]

module _ (dm : DashMap) (site : Site dm) where
  -- `my_pending_tasks` with `get_my_primary_partitions`.
  unfoldable pub my_tasks : ℕ → Tasks dm → List (TaskId × TaskEntry)
  my_tasks now q =
      my_pending_tasks dm now q (my_primary_partitions dm site.partitioner site.membership)
