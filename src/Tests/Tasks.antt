-- ===== src/Tests/Tasks.antt =====
-- Runs of `submit` of src/executor/queue.rs between two nodes.
use stage.Prelude.{All, refl, some, [], ◌∷◌, Str, str, str_eq, nat_eq}
use stage.Assoc.{assoc}
use stage.Effects.{Wire, send_with_retry, attempt}
use stage.Membership.Service.{get_member, get_alive_members}
use stage.Storage.Partitioner.{new_with_replication, get_owners, get_partition}
use stage.Executor.Types.{Task, execute, Request, Response, other_body}
use stage.Executor.Queue.{Tasks, new_entry}
use stage.Executor.Routing.{
  submit, submit_to, store_as_primary, replicate_to_all, replicate_task_to_backup, call_member,
}
use stage.Executor.Routing.Replication.{Confirmed, submit-Confirmed}
use stage.Tests.{bob}
use stage.Tests.Peers.{pair_site}

-- A network on which every request succeeds.
abbrev accepts : Wire Request Response
accepts = record {
  answer = λ log q. some (record { status = 200; body = other_body });
  random = λ n. n;
}

abbrev echo : Task
echo = execute (str "echo") []

abbrev job : Str
job = str "jobs"

abbrev no_tasks : Tasks assoc
no_tasks = assoc.empty

submit-Confirmed_example :
    All
      (Confirmed assoc pair_site accepts 4 job
        (new_entry 5 echo)
        (submit assoc pair_site accepts job 5 echo (no_tasks, [])).1.1)
      (bob ∷ [])
unfolding submit submit_to store_as_primary replicate_to_all replicate_task_to_backup call_member
    send_with_retry attempt get_member get_owners get_alive_members new_with_replication
    get_partition
submit-Confirmed_example =
    submit-Confirmed assoc pair_site accepts (bob ∷ []) job 5 echo no_tasks [] refl refl
