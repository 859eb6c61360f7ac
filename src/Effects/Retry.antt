-- ===== src/Effects/Retry.antt =====
-- The retry loops of src/executor/queue.rs and src/storage/memory.rs: how often they send, what
-- they return and how long they sleep.
use stage.Prelude.{
  ℕ, zero, suc, ◌+◌, ◌*◌, ◌%◌, ◌≤◌, ◌<◌, ◌≡◌, inl, inr, refl, ◌∙◌, min, false, none, some, List, [],
  ◌∷◌, ◌++◌, length, length-append, nat_beq, Option-cases, arith,
}
use mathlib.Core.List.{append_assoc, append-nil}
use stage.Effects.{transport, ok, err, Wire, attempt, send_with_retry}

abbrev pub copies {ℓ} : {Q : Type ℓ} → Q → ℕ → List Q
copies q zero = []
copies q (suc n) = q ∷ copies q n

module _ {Q R : Type 0} (w : Wire Q R) (q : Q) where
  -- The first `k` attempts after `log` go unanswered.
  abbrev pub Unanswered : ℕ → List Q → Type 0
  Unanswered zero log = Unit
  Unanswered (suc k) log = (w.answer log q ≡ none) × Unanswered k (log ++ q ∷ [])

  append-copies : (k : ℕ) (log : List Q) → (log ++ q ∷ []) ++ copies q k ≡ log ++ copies q (suc k)
  append-copies k log = append_assoc log (q ∷ []) (copies q k)

  answered :
      (n delay : ℕ) (log : List Q) (slept : ℕ) (r : R)
      → w.answer log q ≡ some r
      → attempt w q (suc n) delay log slept ≡ (ok r, log ++ q ∷ [], slept)
  unfolding attempt
  answered n delay log slept r e = rw (e, attempt)

  last_unanswered :
      (delay : ℕ) (log : List Q) (slept : ℕ)
      → w.answer log q ≡ none
      → attempt w q 1 delay log slept ≡ (err transport, log ++ q ∷ [], slept)
  unfolding attempt
  last_unanswered delay log slept e = rw (e, attempt)

  unanswered :
      (n delay : ℕ) (log : List Q) (slept : ℕ)
      → w.answer log q ≡ none
      → attempt w q (suc (suc n)) delay log slept
        ≡ attempt w q
            (suc n)
            (min (delay * 2) 1200)
            (log ++ q ∷ [])
            (slept + (delay + w.random (suc n) % 50))
  unfolding attempt
  unanswered n delay log slept e =
      let more : nat_beq (suc n) 0 ≡ false = ground arith in rw (e, attempt) (rw more)

  -- The loop returns the first answer that comes within its attempts, and sends nothing after it.
  pub attempt_first_answer :
      (n k delay : ℕ) (log : List Q) (slept : ℕ) (r : R)
      → k < n
      → Unanswered k log
      → w.answer (log ++ copies q k) q ≡ some r
      → ((attempt w q n delay log slept).0 ≡ ok r)
        × ((attempt w q n delay log slept).1 ≡ log ++ copies q (suc k))
  attempt_first_answer zero k delay log slept r h u a = absurd (omega arith)
  attempt_first_answer (suc n) zero delay log slept r h u a =
      rw (answered n delay log slept r (rw append-nil at a)) (refl, refl)
  attempt_first_answer (suc zero) (suc k) delay log slept r h u a = absurd (omega arith)
  attempt_first_answer (suc (suc n)) (suc k) delay log slept r h u a =
      let (found, sent) =
        attempt_first_answer (suc n) k (min (delay * 2) 1200) (log ++ q ∷ [])
          (slept + (delay + w.random (suc n) % 50)) r (omega arith) u.1
          (rw (append-copies k log) a) in
      rw (unanswered n delay log slept u.0) (found, sent ∙ append-copies (suc k) log)

  -- If no attempt is answered the loop ends with the transport's error, after all of them.
  pub attempt-Unanswered :
      (n delay : ℕ) (log : List Q) (slept : ℕ)
      → 0 < n
      → Unanswered n log
      → ((attempt w q n delay log slept).0 ≡ err transport)
        × ((attempt w q n delay log slept).1 ≡ log ++ copies q n)
  attempt-Unanswered zero delay log slept h u = absurd (omega arith)
  attempt-Unanswered (suc zero) delay log slept h u =
      rw (last_unanswered delay log slept u.0) (refl, refl)
  attempt-Unanswered (suc (suc n)) delay log slept h u =
      let (failed, sent) =
        attempt-Unanswered (suc n) (min (delay * 2) 1200) (log ++ q ∷ [])
          (slept + (delay + w.random (suc n) % 50)) (omega arith) u.1 in
      rw (unanswered n delay log slept u.0) (failed, sent ∙ append-copies (suc n) log)

  -- From a delay of at most 1200 ms, the loop sends its request at most once for each attempt,
  -- and sleeps less than 1250 ms before each attempt but the first.
  pub attempt_bound :
      (n delay : ℕ) (log : List Q) (slept : ℕ)
      → delay ≤ 1200
      → (length (attempt w q (suc n) delay log slept).1 ≤ length log + suc n)
        × ((attempt w q (suc n) delay log slept).2 ≤ slept + n * 1249)
  attempt_bound zero delay log slept h = elim (Option-cases (w.answer log q)) [
    | inl e ↦
        rw (last_unanswered delay log slept e)
          (omega (arith, length-append log (q ∷ [])), omega arith)
    | inr (r, e) ↦
        rw (answered zero delay log slept r e)
          (omega (arith, length-append log (q ∷ [])), omega arith)
  ]
  attempt_bound (suc n) delay log slept h =
      let (few, short) =
        attempt_bound n (min (delay * 2) 1200) (log ++ q ∷ [])
          (slept + (delay + w.random (suc n) % 50)) (omega arith) in
      elim (Option-cases (w.answer log q)) [
        | inl e ↦
            rw (unanswered n delay log slept e)
              (omega (arith, few, length-append log (q ∷ [])), omega (arith, short))
        | inr (r, e) ↦
            rw (answered (suc n) delay log slept r e)
              (omega (arith, length-append log (q ∷ [])), omega arith)
      ]

-- A request whose first attempt is answered is sent once.
pub send_answered :
    {S Q R : Type 0} (w : Wire Q R) (n : ℕ) (q : Q) (s : S) (log : List Q) (r : R)
    → w.answer log q ≡ some r
    → send_with_retry w (suc n) q (s, log) ≡ (ok r, (s, log ++ q ∷ []))
unfolding send_with_retry attempt
send_answered w n q s log r e = rw (e, attempt)
