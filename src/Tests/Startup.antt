-- ===== src/Tests/Startup.antt =====
-- Command lines, and the invariants of the members and of the queue from a start.
use stage.Prelude.{
  ◌≡◌, refl, Bool, true, false, Option, none, some, List, [], ◌∷◌, Str, str, str_eq, arith,
}
use stage.Assoc.{assoc}
use stage.Membership.Types.{SocketAddr}
use stage.Membership.Service.{Service, new, receive, local_node_of, send_joins}
use stage.Membership.Detector.{tick}
use stage.Membership.Reachable.{started, received, ticked, IsSound, Reachable-IsSound}
use stage.Executor.Types.{TaskId, TaskEntry, execute, running}
use stage.Executor.Queue.{
  new_entry, get_task_local, store_local, insert_absent, try_claim_task, renew_lease,
}
use stage.Executor.Queue.Claims.{Op, store, claim, renew, run, step}
use stage.Executor.Queue.Leases.{IsCoherent, run-IsCoherent}
use stage.Server.Args.{start, parse_args, render, last_bind, seeds_of, parse_args-render}
use stage.Tests.{ann, addr, codec}

-- An address as two characters.
abbrev show_addr : SocketAddr → Str
show_addr a = a.ip ∷ a.port ∷ []

abbrev parse_addr : Str → Option SocketAddr
parse_addr [] = none
parse_addr (i ∷ []) = none
parse_addr (i ∷ p ∷ s) = some (record { ip = i; port = p })

abbrev flags : List (Bool × SocketAddr)
flags = (false, addr 7000) ∷ []

parse_args-render_example :
    parse_args parse_addr (str "node" ∷ render show_addr ((true, addr 5000) ∷ flags))
    ≡ start (last_bind none ((true, addr 5000) ∷ flags)) (seeds_of ((true, addr 5000) ∷ flags))
parse_args-render_example =
    parse_args-render parse_addr show_addr (λ a. refl) (str "node") (true, addr 5000) flags

abbrev fresh : Service assoc
fresh = record {
  local_node = local_node_of assoc ann (addr 5000) 0;
  members = assoc.insert assoc.empty ann (local_node_of assoc ann (addr 5000) 0);
  incarnation = 1;
}

Reachable-IsSound_example :
    IsSound assoc
      (tick assoc codec 9000 (receive assoc codec (λ i. i) fresh (1 ∷ 4 ∷ ann) (addr 5001)).0).0
unfolding new send_joins
Reachable-IsSound_example = Reachable-IsSound assoc codec (
    ticked 9000
      (received (λ i. i) (1 ∷ 4 ∷ ann) (addr 5001) (started ann (addr 5000) 0 [] fresh [] refl)))

abbrev job : TaskId
job = str "job"

abbrev ops : List Op
ops = store 3 job (new_entry 4 (execute (str "echo") [])) ∷ claim ann 5 3 job ∷ renew 9 3 job ∷ []

abbrev leased : TaskEntry
leased = record {
  task = execute (str "echo") [];
  status = running;
  assigned_to = some ann;
  created_at = 4;
  lease_expires = some 30_009;
}

run-IsCoherent_example : IsCoherent leased
unfolding run step new_entry get_task_local store_local insert_absent try_claim_task renew_lease
run-IsCoherent_example =
    run-IsCoherent assoc assoc.empty ops (λ p id e h. absurd (ground (arith, h)))
      (refl, (tt, (tt, tt))) 3 job leased refl
