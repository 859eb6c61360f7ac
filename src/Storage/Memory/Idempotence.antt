-- ===== src/Storage/Memory/Idempotence.antt =====
-- src/storage/memory.rs, `should_process`: what the record of operations lets through, how large
-- it grows, and what a client sees that sends an operation twice.
use stage.Prelude.{
  ℕ, ◌+◌, ◌≤◌, ◌≡◌, refl, ap, sym, ◌∙◌, subst, false, some, List, [], ◌∷◌, Str, ◌==◌, ==_refl,
  str_eq, ltb, Bool-cases, Option-cases, inl, inr, length, arith, if_cases,
}
use stage.DashMap.{DashMap}
use stage.Effects.{Result, ok, Wire, Action}
use stage.Effects.Spares.{Spares}
use stage.Site.{Site, partition_of, owners_of}
use stage.Storage.Protocol.{Format, Request, Response}
use stage.Storage.Memory.{
  Store, should_process, store_local, store_replica, once, put_with_op, put_to,
}
use stage.Storage.Memory.Frames.{put_to-Spares}

-- A put with its operation id, and the time at which it arrives.
pub record Put (K V : Type 0) : Type 0 where
  pub now : ℕ
  pub op_id : Str
  pub key : K
  pub value : V

module _ (dm : DashMap) {K V : Type 0} (f : Format K V) where
  open dm use {empty, get, insert, entries, get-insert, entries-empty, length-entries-insert}

  -- Whether an operation is on record.
  abbrev pub Seen : Store dm K V → Str → Type 0
  Seen s op_id = (t : ℕ) × (get s.processed_ops op_id ≡ some t)

  insert-le :
      (m : dm.Map Str ℕ) (op_id : Str) (t : ℕ)
      → length (entries (insert m op_id t)) ≤ length (entries m) + 1
  insert-le m op_id t = ground (arith, length-entries-insert m op_id t)

  -- A record that holds at most 10,001 operations still does after the next one.
  pub processed_ops_bound :
      (now : ℕ) (s : Store dm K V) (op_id : Str)
      → length (entries s.processed_ops) ≤ 10_001
      → length (entries (should_process dm f now s op_id).1.processed_ops) ≤ 10_001
  unfolding should_process
  processed_ops_bound now s op_id h = elim (Option-cases (get s.processed_ops op_id)) [
    | inr (t, e) ↦ rw (e, should_process) h
    | inl e ↦
        rw (e, should_process)
          (elim (Bool-cases (ltb 10_000 (length (entries s.processed_ops)))) [
            | inl full ↦ rw full (
                omega
                  (arith, insert-le empty op_id now, ap length (entries-empty {K = Str} {V = ℕ})))
            | inr room ↦
                let few : length (entries s.processed_ops) ≤ 10_000 = ground arith in
                rw room (omega (arith, few, insert-le s.processed_ops op_id now))
          ])
  ]

  pub should_process-Seen :
      (now : ℕ) (s : Store dm K V) (op_id : Str) → Seen (should_process dm f now s op_id).1 op_id
  unfolding should_process
  should_process-Seen now s op_id = elim (Option-cases (get s.processed_ops op_id)) [
    | inr (t, e) ↦ (t, rw (e, should_process) e)
    | inl e ↦ (now, rw (e, should_process) (rw (get-insert, ==_refl op_id)))
  ]

  -- An operation is on record, among at most `n`.
  abbrev Recorded : Store dm K V → Str → ℕ → Type 0
  Recorded s op_id n = Seen s op_id × length (entries s.processed_ops) ≤ n

  Recorded-of_ops :
      (s t : Store dm K V) (op_id : Str) (n : ℕ)
      → t.processed_ops ≡ s.processed_ops
      → Recorded s op_id n
      → Recorded t op_id n
  Recorded-of_ops s t op_id n same h =
      subst (λ (m : dm.Map Str ℕ). ((u : ℕ) × (get m op_id ≡ some u)) × length (entries m) ≤ n)
        (sym same) h

  should_process-Recorded :
      (now : ℕ) (s : Store dm K V) (next op_id : Str) (n : ℕ)
      → Recorded s op_id n
      → n ≤ 10_000
      → Recorded (should_process dm f now s next).1 op_id (n + 1)
  unfolding should_process
  should_process-Recorded now s next op_id n ((t, e), size) few =
      elim (Option-cases (get s.processed_ops next)) [
        | inr (u, seen) ↦ rw (seen, should_process) ((t, e), omega (arith, size))
        | inl new ↦
            let room : ltb 10_000 (length (entries s.processed_ops)) ≡ false =
              ground (arith, size, few) in
            rw (new, should_process)
              (rw room (
                elim (Bool-cases (next == op_id)) [
                  | inl same ↦ (now, rw (get-insert, same) refl)
                  | inr other ↦ (t, rw (get-insert, other) e)
                ],
                omega (arith, size, insert-le s.processed_ops next now),
              ))
      ]

  pub should_process_of_Seen :
      (now : ℕ) (s : Store dm K V) (op_id : Str)
      → Seen s op_id
      → should_process dm f now s op_id ≡ (false, s)
  unfolding should_process
  should_process_of_Seen now s op_id (t, e) = rw (e, should_process)

  pub store_replica-Seen :
      (now p : ℕ) (op_id : Str) (k : K) (v : V) (s : Store dm K V)
      → Seen (store_replica dm f now p op_id k v s) op_id
  unfolding store_replica store_local
  store_replica-Seen now p op_id k v s =
      if_cases (λ (t : Store dm K V). Seen t op_id) (should_process dm f now s op_id).0
        (λ _. should_process-Seen now s op_id) (λ _. should_process-Seen now s op_id)

  -- A replica that is sent twice is stored once: the second is ignored, whatever it carries.
  pub store_replica_twice :
      (now later p p' : ℕ) (op_id : Str) (k k' : K) (v v' : V) (s : Store dm K V)
      → store_replica dm f later p' op_id k' v' (store_replica dm f now p op_id k v s)
        ≡ store_replica dm f now p op_id k v s
  unfolding store_replica
  store_replica_twice now later p p' op_id k k' v v' s = rw (
      should_process_of_Seen later (store_replica dm f now p op_id k v s) op_id
        (store_replica-Seen now p op_id k v s))

  module _ (site : Site dm) (base : Str) (w : Wire Request Response) where
    once-Seen :
        (now : ℕ) (op_id : Str) (rest : Action (Store dm K V) Request (Unit {0}))
        → Spares (λ (s : Store dm K V). s.processed_ops) rest
        → (s : Store dm K V) (log : List Request)
        → Seen (once dm f site base w now op_id rest (s, log)).1.0 op_id
    unfolding once
    once-Seen now op_id rest h s log =
        let t = (should_process dm f now s op_id).1 in
        let (n, e) = should_process-Seen now s op_id in
        if_cases (λ (r : Result (Unit {0}) × (Store dm K V × List Request)). Seen r.1.0 op_id)
          (should_process dm f now s op_id).0 (λ _. (n, ap (λ m. get m op_id) (h.at t log) ∙ e))
          (λ _. (n, e))

    once_of_Seen :
        (now : ℕ) (op_id : Str) (rest : Action (Store dm K V) Request (Unit {0})) (s : Store dm K V)
        (log : List Request)
        → Seen s op_id
        → once dm f site base w now op_id rest (s, log) ≡ (ok tt, (s, log))
    unfolding once
    once_of_Seen now op_id rest s log seen = rw (should_process_of_Seen now s op_id seen)

    -- Puts one after the other, whatever comes of each.
    abbrev pub put_each : List (Put K V) → Store dm K V × List Request → Store dm K V × List Request
    put_each [] t = t
    put_each (x ∷ xs) t = put_each xs (put_with_op dm f site base w x.now x.key x.value x.op_id t).1

    put-Recorded :
        (x : Put K V) (t : Store dm K V × List Request) (op_id : Str) (n : ℕ)
        → Recorded t.0 op_id n
        → n ≤ 10_000
        → Recorded (put_with_op dm f site base w x.now x.key x.value x.op_id t).1.0 op_id (n + 1)
    unfolding put_with_op once
    put-Recorded x (s, log) op_id n h few =
        let kept = should_process-Recorded x.now s x.op_id op_id n h few in
        let p = partition_of dm site (f.to_string x.key) in
        let t = (should_process dm f x.now s x.op_id).1 in
        if_cases
          (λ (r : Result (Unit {0}) × (Store dm K V × List Request)). Recorded r.1.0 op_id (n + 1))
          (should_process dm f x.now s x.op_id).0
          (λ _.
            Recorded-of_ops t
              (put_to dm f site base w (owners_of dm site p) p x.op_id x.key x.value (t, log)).1.0
              op_id (n + 1)
              ((put_to-Spares dm f site base w (owners_of dm site p) p x.op_id x.key x.value).at t
                log)
              kept)
          (λ _. kept)

    put_each-Recorded :
        (xs : List (Put K V)) (t : Store dm K V × List Request) (op_id : Str) (n : ℕ)
        → Recorded t.0 op_id n
        → n + length xs ≤ 10_001
        → Seen (put_each xs t).0 op_id
    put_each-Recorded [] t op_id n h few = h.0
    put_each-Recorded (x ∷ xs) t op_id n h few =
        put_each-Recorded xs (put_with_op dm f site base w x.now x.key x.value x.op_id t).1 op_id
          (n + 1) (put-Recorded x t op_id n h (omega (arith, few))) (omega (arith, few))

    -- A put that is sent again with its operation id, after other puts and with any key and value,
    -- is answered with success, sends nothing and changes nothing, also if the first one failed, as
    -- long as the record of operations and the puts in between are together at most 10,001: after
    -- more of them the record is cleared.
    pub put_with_op_again :
        (now later : ℕ) (k k' : K) (v v' : V) (op_id : Str) (between : List (Put K V))
        (s : Store dm K V) (log : List Request)
        → (let first = (put_with_op dm f site base w now k v op_id (s, log)).1 in
            length (entries first.0.processed_ops) + length between ≤ 10_001)
        → (let t = put_each between (put_with_op dm f site base w now k v op_id (s, log)).1 in
            put_with_op dm f site base w later k' v' op_id t ≡ (ok tt, t))
    unfolding put_with_op
    put_with_op_again now later k k' v v' op_id between s log few =
        let p = partition_of dm site (f.to_string k) in
        let p' = partition_of dm site (f.to_string k') in
        let first = (put_with_op dm f site base w now k v op_id (s, log)).1 in
        let t = put_each between first in
        let seen =
          once-Seen now op_id (put_to dm f site base w (owners_of dm site p) p op_id k v)
            (put_to-Spares dm f site base w (owners_of dm site p) p op_id k v) s log in
        once_of_Seen later op_id (put_to dm f site base w (owners_of dm site p') p' op_id k' v') t.0
          t.1
          (put_each-Recorded between first op_id (length (entries first.0.processed_ops))
            (seen, omega arith) few)
