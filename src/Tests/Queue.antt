-- ===== src/Tests/Queue.antt =====
-- Runs of src/executor/queue.rs.
use stage.Prelude.{◌≡◌, refl, false, none, some, [], ◌∷◌, str, str_eq, nat_eq, In, arith}
use stage.Assoc.{assoc}
use stage.Executor.Types.{TaskId, TaskEntry, execute, running}
use stage.Executor.Queue.{Tasks, new_entry, get_task_local, my_pending_tasks, try_claim_task}
use stage.Executor.Queue.Claims.{renew, complete, store, Evolves, step, run, step-Evolves}
use stage.Executor.Queue.Exclusion.{claimed_once, expired_unclaimable}
use stage.Executor.Queue.{is_available}
use stage.Executor.Worker.Renewal.{spawn_lease_renewal, spawn_lease_renewal_lem}
use stage.Tests.{ann, bob}

abbrev job : TaskId
job = str "job"

abbrev no_tasks : Tasks assoc
no_tasks = assoc.empty

abbrev entry : TaskEntry
entry = new_entry 4 (execute (str "echo") [])

abbrev one_task : Tasks assoc
one_task = assoc.insert assoc.empty 0 (assoc.insert assoc.empty job entry)

abbrev expired : TaskEntry
expired = record entry { status = running; assigned_to = some ann; lease_expires = some 30_005 }

abbrev one_expired : Tasks assoc
one_expired = assoc.insert assoc.empty 0 (assoc.insert assoc.empty job expired)

step-Evolves_example :
    (e' : TaskEntry) × (get_task_local assoc (step assoc one_task (complete 0 job none)) 0 job
      ≡ some e')
    × Evolves entry e'
unfolding get_task_local
step-Evolves_example = step-Evolves assoc one_task (complete 0 job none) 0 job entry refl

claimed_once_example :
    (try_claim_task assoc bob 40_000
      (run assoc
        (try_claim_task assoc ann 5 one_task 0 job).0
        (renew 9 0 job ∷ store 0 job entry ∷ []))
      0
      job).1
    ≡ false
unfolding try_claim_task new_entry
claimed_once_example =
    claimed_once assoc ann bob 5 40_000 one_task 0 job (renew 9 0 job ∷ store 0 job entry ∷ []) refl

expired_unclaimable_example :
    In (job, expired) (my_pending_tasks assoc 40_000 one_expired (0 ∷ []))
    × (try_claim_task assoc bob 40_000 one_expired 0 job ≡ (one_expired, false))
unfolding get_task_local
expired_unclaimable_example =
    expired_unclaimable assoc bob 40_000 40_000 30_005 one_expired 0 job expired refl refl refl
      (omega arith)

spawn_lease_renewal_lem_example :
    (e : TaskEntry) × (get_task_local assoc
        (spawn_lease_renewal assoc 0 job
          (10_005 ∷ 20_006 ∷ [])
          (try_claim_task assoc ann 5 one_task 0 job).0)
        0
        job
      ≡ some e)
    × (e.status ≡ running)
    × (is_available 40_000 e.status e.lease_expires ≡ false)
unfolding try_claim_task new_entry
spawn_lease_renewal_lem_example =
    spawn_lease_renewal_lem assoc ann 5 40_000 (10_005 ∷ 20_006 ∷ []) one_task 0 job refl
      (omega arith) (omega arith)
