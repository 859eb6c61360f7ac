-- ===== src/Effects.antt =====
-- Fallible actions on a component's state that send requests to other nodes: the `async` methods
-- of src/executor/queue.rs and src/storage/memory.rs. The log holds what was sent, oldest first;
-- the network answers each request as it likes, given all that was sent before.
pub mod Retry
pub mod Spares
pub mod Grows
pub mod Gives
pub mod Sends
pub mod Preserves
use stage.Prelude.{
  ℕ, zero, suc, ◌≡◌, ap, ◌+◌, ◌*◌, ◌%◌, min, Bool, true, false, ◌&&◌, Option, none, some, List, [],
  ◌∷◌, ◌++◌, Str, ltb, leb, nat_beq, if◌then◌else◌,
}

-- The `anyhow` errors, by what caused them.
pub data Error : Type 0 where
  node_not_found transport exhausted unreadable task_not_found not_running : Error
  bad_status : ℕ → Error
  raised : Str → Error

pub data Result {ℓ} (A : Type ℓ) : Type ℓ where
  ok : A → Result A
  err : Error → Result A

-- The network (`reqwest`) and the random numbers (`rand`) that the jitter is drawn from.
pub record Wire (Q R : Type 0) : Type 0 where
  pub answer : List Q → Q → Option R
  pub random : ℕ → ℕ

abbrev pub Action : Type 0 → Type 0 → Type 0 → Type 0
Action S Q A = S × List Q → Result A × (S × List Q)

module _ {S Q : Type 0} where
  infixl 5 ◌>>=◌ ◌>>◌
  abbrev pub ◌>>=◌ : {A B : Type 0} → Action S Q A → (A → Action S Q B) → Action S Q B
  ◌>>=◌ m f s = elim (m s).0 [ ok a ↦ f a (m s).1 | err e ↦ (err e, (m s).1) ]

  abbrev pub ◌>>◌ : {A B : Type 0} → Action S Q A → Action S Q B → Action S Q B
  m >> k = m >>= λ _. k

  abbrev pub pure : {A : Type 0} → A → Action S Q A
  pure a s = (ok a, s)

  abbrev pub fail : {A : Type 0} → Error → Action S Q A
  fail e s = (err e, s)

  abbrev pub modify : (S → S) → Action S Q Unit
  modify f (s, log) = (ok tt, (f s, log))

  -- A result that the caller looks at: `match m.await`, `if let Err(e) = m.await`.
  abbrev pub outcome : {A : Type 0} → Action S Q A → Action S Q (Result A)
  outcome m s = let (r, t) = m s in (ok r, t)

  -- `ok_or_else`
  abbrev pub or_fail : {A : Type 0} → Option A → Error → Action S Q A
  or_fail none e = fail e
  or_fail (some a) e = pure a

-- What follows a success is run on its result.
pub bind_of_ok :
    {S Q A B : Type 0} (m : Action S Q A) (g : A → Action S Q B) {s t : S × List Q} {a : A}
    → m s ≡ (ok a, t)
    → (m >>= g) s ≡ g a t
bind_of_ok m g e = ap (λ r. elim r.0 [ ok a ↦ g a r.1 | err x ↦ (err x, r.1) ]) e

module _ {Q R : Type 0} (w : Wire Q R) where
  -- The loop `for attempt in 0..attempts` of `post_with_retry` and `get_with_retry`, with the
  -- attempts that are left, the delay before the next one, and the time slept.
  unfoldable pub attempt : Q → ℕ → ℕ → List Q → ℕ → Result R × List Q × ℕ
  attempt q zero delay log slept = (err exhausted, log, slept)
  attempt q (suc n) delay log slept =
      let jitter = w.random n % 50 in
      let again = attempt q n (min (delay * 2) 1200) (log ++ q ∷ []) (slept + (delay + jitter)) in
      elim (w.answer log q) [
        | some r ↦ (ok r, log ++ q ∷ [], slept)
        | none ↦ if nat_beq n 0 then (err transport, log ++ q ∷ [], slept) else again
      ]

  -- `post_with_retry(url, payload, timeout, attempts)` and `get_with_retry(url, timeout, attempts)`.
  unfoldable pub send_with_retry : {S : Type 0} → ℕ → Q → Action S Q R
  unfolding attempt
  send_with_retry attempts q (s, log) =
      let (r, sent, _) = attempt q attempts 150 log 0 in (r, (s, sent))

-- `StatusCode::is_success`
abbrev pub is_success : ℕ → Bool
is_success status = leb 200 status && ltb status 300
