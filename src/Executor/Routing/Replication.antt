-- ===== src/Executor/Routing/Replication.antt =====
-- src/executor/queue.rs, `submit` at the primary: what a successful submission means.
use stage.Prelude.{
  ℕ, ◌≡◌, refl, ap, sym, subst, true, some, List, [], ◌∷◌, ==_refl, str_eq, drop, All, Bool-cases,
  inl, inr,
}
use stage.DashMap.{DashMap}
use stage.Effects.{ok, node_not_found, bad_status, Wire, pure, or_fail, send_with_retry, is_success}
use stage.Effects.Grows.{
  Grows, Grows-bind, Grows-pure, Grows-fail, Grows-or_fail, Grows-send, Grows-if,
}
use stage.Effects.Gives.{
  Gives, Gives-bind, Gives-or_fail, Gives-weaken, Gives-Continues, ok_of-Gives, SentIn,
  SentIn-Continues, Gives-send,
}
use stage.Membership.Types.{NodeId, Node}
use stage.Membership.Service.{get_member}
use stage.Site.{Site, me, partition_of, owners_of}
use stage.Executor.Types.{TaskId, Task, TaskEntry, Request, Response, Call, replicate_task}
use stage.Executor.Queue.{Tasks, new_entry, store_local}
use stage.Executor.Routing.{
  call_member, expect_success, replicate_task_to_backup, replicate_to_all, store_as_primary,
  submit_to, submit,
}

module _ (dm : DashMap) (site : Site dm) (w : Wire Request Response) where
  -- The backup is a known member, and the log holds a replica of the task that was sent to it and
  -- that it answered with a success.
  abbrev pub Confirmed : ℕ → TaskId → TaskEntry → List Request → NodeId → Type 0
  Confirmed p id e log backup =
      (node : Node) × (r : Response) × (get_member dm site.membership backup ≡ some node)
      × SentIn w (node.http_addr, replicate_task p id e) r log
      × (is_success r.status ≡ true)

  expect-Success :
      (r : Response) (s : Tasks dm × List Request)
      → Gives (expect_success dm site w r s) (λ u t. (is_success r.status ≡ true) × (t ≡ s))
  expect-Success r s = elim (Bool-cases (is_success r.status)) [
    | inl e ↦ rw e (refl, refl)
    | inr e ↦ rw e tt
  ]

  call_member-Gives :
      (backup : NodeId) (c : Call) (s : Tasks dm × List Request)
      → Gives (call_member dm site w backup c s) (λ r t.
        (node : Node) × (get_member dm site.membership backup ≡ some node)
        × SentIn w (node.http_addr, c) r t.1)
  unfolding call_member
  call_member-Gives backup c s =
      let R = λ (r : Response) (t : Tasks dm × List Request).
        (node : Node) × (get_member dm site.membership backup ≡ some node)
        × SentIn w (node.http_addr, c) r t.1 in
      Gives-bind (or_fail (get_member dm site.membership backup) node_not_found)
        (λ node. send_with_retry w 3 (node.http_addr, c))
        (λ node t. get_member dm site.membership backup ≡ some node) R s
        (Gives-or_fail (get_member dm site.membership backup) node_not_found s)
        λ node t known.
          Gives-weaken (λ r l. SentIn w (node.http_addr, c) r l.1) R
            (send_with_retry w 3 (node.http_addr, c) t) (Gives-send w 3 (node.http_addr, c) t)
            λ r l sent. (node, known, sent)

  replicate_task_to_backup-Confirmed :
      (backup : NodeId) (p : ℕ) (id : TaskId) (e : TaskEntry) (s : Tasks dm × List Request)
      → Gives
          (replicate_task_to_backup dm site w backup p id e s)
          (λ u t. Confirmed p id e t.1 backup)
  unfolding replicate_task_to_backup
  replicate_task_to_backup-Confirmed backup p id e s =
      let P = λ (r : Response) (t : Tasks dm × List Request).
        (node : Node) × (get_member dm site.membership backup ≡ some node)
        × SentIn w (node.http_addr, replicate_task p id e) r t.1 in
      let R = λ (u : Unit {0}) (t : Tasks dm × List Request). Confirmed p id e t.1 backup in
      Gives-bind (call_member dm site w backup (replicate_task p id e)) (expect_success dm site w) P
        R s (call_member-Gives backup (replicate_task p id e) s)
        λ r t (node, known, sent).
          Gives-weaken (λ u l. (is_success r.status ≡ true) × (l ≡ t)) R
            (expect_success dm site w r t) (expect-Success r t)
            λ u l (success, same).
              subst (λ x. Confirmed p id e x.1 backup) (sym same) (node, r, known, sent, success)

  replicate_task_to_backup-Grows :
      (backup : NodeId) (p : ℕ) (id : TaskId) (e : TaskEntry)
      → Grows (replicate_task_to_backup dm site w backup p id e)
  unfolding replicate_task_to_backup call_member
  replicate_task_to_backup-Grows backup p id e =
      Grows-bind
        (Grows-bind (Grows-or_fail (get_member dm site.membership backup) node_not_found)
          λ node. Grows-send w 3 _)
        λ r. Grows-if (is_success r.status) (Grows-pure tt) (Grows-fail (bad_status r.status))

  replicate_to_all-Grows :
      (ids : List NodeId) (p : ℕ) (id : TaskId) (e : TaskEntry)
      → Grows (replicate_to_all dm site w ids p id e)
  unfolding replicate_to_all
  replicate_to_all-Grows [] p id e = Grows-pure tt
  replicate_to_all-Grows (b ∷ bs) p id e =
      Grows-bind (replicate_task_to_backup-Grows b p id e) λ _. replicate_to_all-Grows bs p id e

  replicate_to_all-Confirmed :
      (ids : List NodeId) (p : ℕ) (id : TaskId) (e : TaskEntry) (s : Tasks dm × List Request)
      → Gives (replicate_to_all dm site w ids p id e s) (λ u t. All (Confirmed p id e t.1) ids)
  unfolding replicate_to_all
  replicate_to_all-Confirmed [] p id e s = tt
  replicate_to_all-Confirmed (b ∷ bs) p id e s =
      let R = λ (u : Unit {0}) (t : Tasks dm × List Request). All (Confirmed p id e t.1) (b ∷ bs) in
      Gives-bind (replicate_task_to_backup dm site w b p id e)
        (λ u. replicate_to_all dm site w bs p id e) (λ u t. Confirmed p id e t.1 b) R s
        (replicate_task_to_backup-Confirmed b p id e s)
        λ u t (node, r, known, sent, success).
          Gives-Continues (λ u l. All (Confirmed p id e l.1) bs) R t.1
            (replicate_to_all dm site w bs p id e t) (replicate_to_all-Confirmed bs p id e t)
            ((replicate_to_all-Grows bs p id e).at t.0 t.1)
            λ u l rest further. (
              (
                node,
                r,
                known,
                SentIn-Continues w (node.http_addr, replicate_task p id e) r t.1 l.1 sent further,
                success,
              ),
              rest,
            )

  store_as_primary-Confirmed :
      (p : ℕ) (id : TaskId) (e : TaskEntry) (q : Tasks dm) (log : List Request)
      → Gives
          (store_as_primary dm site w p id e (q, log))
          (λ u t. All (Confirmed p id e t.1) (drop 1 (owners_of dm site p)))
  unfolding store_as_primary
  store_as_primary-Confirmed p id e q log =
      replicate_to_all-Confirmed (drop 1 (owners_of dm site p)) p id e
        (store_local dm q p id e, log)

  submit_to-Confirmed :
      (owners backups : List NodeId) (id : TaskId) (now : ℕ) (task : Task) (q : Tasks dm)
      (log : List Request)
      → owners ≡ me dm site ∷ backups
      → drop 1 (owners_of dm site (partition_of dm site id)) ≡ backups
      → Gives
          (submit_to dm site w owners id now task (q, log))
          (λ u t. All (Confirmed (partition_of dm site id) id (new_entry now task) t.1) backups)
  unfolding submit_to
  submit_to-Confirmed owners backups id now task q log e h =
      let p = partition_of dm site id in
      let entry = new_entry now task in
      let P = λ (l : List NodeId) (t : Tasks dm × List Request). All (Confirmed p id entry t.1) l in
      rw e (
        rw (==_refl (me dm site)) (
          Gives-bind (store_as_primary dm site w p id entry) (λ _. pure id) (λ _ t. P backups t)
            (λ _ t. P backups t) (q, log)
            (subst (λ l. Gives (store_as_primary dm site w p id entry (q, log)) (λ _ t. P l t)) h
              (store_as_primary-Confirmed p id entry q log))
            λ u t c. c))

  -- A task that a node submits as the primary of its partition and whose id it gets back has been
  -- sent to every backup and answered with success by it, each of them a known member.
  pub submit-Confirmed :
      (backups : List NodeId) (id : TaskId) (now : ℕ) (task : Task) (q : Tasks dm)
      (log : List Request)
      → owners_of dm site (partition_of dm site id) ≡ me dm site ∷ backups
      → (submit dm site w id now task (q, log)).0 ≡ ok id
      → All
          (Confirmed
            (partition_of dm site id)
            id
            (new_entry now task)
            (submit dm site w id now task (q, log)).1.1)
          backups
  unfolding submit
  submit-Confirmed backups id now task q log first h =
      ok_of-Gives
        (λ u t. All (Confirmed (partition_of dm site id) id (new_entry now task) t.1) backups) id
        (submit dm site w id now task (q, log))
        (submit_to-Confirmed (owners_of dm site (partition_of dm site id)) backups id now task q log
          first (ap (drop 1) first))
        h
