-- ===== src/Executor/Frames.antt =====
-- src/executor/queue.rs: what the requests to other nodes leave alone.
use stage.Prelude.{ℕ, List, [], ◌∷◌, nat_beq}
use stage.DashMap.{DashMap}
use stage.Effects.{Wire, node_not_found, unreadable, bad_status, is_success}
use stage.Effects.Spares.{
  Spares, Spares-bind, Spares-pure, Spares-fail, Spares-or_fail, Spares-send, Spares-if,
}
use stage.Membership.Types.{NodeId}
use stage.Membership.Service.{get_member}
use stage.Site.{Site}
use stage.Executor.Types.{
  TaskId, TaskEntry, Call, replicate_task, partition_dump, Request, Response,
}
use stage.Executor.Queue.{Tasks}
use stage.Executor.Routing.{
  call_member, expect_success, fetch_partition, dump_of, replicate_task_to_backup, replicate_to_all,
}

module _ (dm : DashMap) (site : Site dm) (w : Wire Request Response) where
  module _ {X : Type 0} (part : Tasks dm → X) where
    call_member-Spares : (id : NodeId) (c : Call) → Spares part (call_member dm site w id c)
    unfolding call_member
    call_member-Spares id c =
        Spares-bind part (Spares-or_fail part (get_member dm site.membership id) node_not_found)
          λ node. Spares-send part w 3 (node.http_addr, c)

    expect-Spares : (r : Response) → Spares part (expect_success dm site w r)
    expect-Spares r =
        Spares-if part (is_success r.status) (Spares-pure part tt)
          (Spares-fail part (bad_status r.status))

    pub fetch_partition-Spares :
        (id : NodeId) (p : ℕ) → Spares part (fetch_partition dm site w id p)
    unfolding fetch_partition
    fetch_partition-Spares id p = Spares-bind part (call_member-Spares id (partition_dump p)) λ r.
        Spares-if part (nat_beq r.status 404) (Spares-pure part [])
          (Spares-bind part (expect-Spares r) λ _. Spares-or_fail part (dump_of r.body) unreadable)

    replicate_task_to_backup-Spares :
        (id : NodeId) (p : ℕ) (t : TaskId) (e : TaskEntry)
        → Spares part (replicate_task_to_backup dm site w id p t e)
    unfolding replicate_task_to_backup
    replicate_task_to_backup-Spares id p t e =
        Spares-bind part (call_member-Spares id (replicate_task p t e)) expect-Spares

    pub replicate_to_all-Spares :
        (ids : List NodeId) (p : ℕ) (t : TaskId) (e : TaskEntry)
        → Spares part (replicate_to_all dm site w ids p t e)
    unfolding replicate_to_all
    replicate_to_all-Spares [] p t e = Spares-pure part tt
    replicate_to_all-Spares (b ∷ bs) p t e =
        Spares-bind part (replicate_task_to_backup-Spares b p t e)
          λ _. replicate_to_all-Spares bs p t e
