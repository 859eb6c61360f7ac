-- ===== src/Effects/Gives.antt =====
-- Actions that went well: what holds of their results and of the state and log they leave.
use stage.Prelude.{
  ℕ, zero, suc, ◌+◌, ◌*◌, ◌%◌, min, ◌≡◌, refl, ap, ◌∙◌, subst, Option, none, some, List, [], ◌∷◌,
  ◌++◌, nat_beq, if_cases, Option-cases, inl, inr, arith,
}
use mathlib.Core.List.{append_assoc}
use stage.Effects.{Error, Result, ok, err, Wire, Action, ◌>>=◌, or_fail, attempt, send_with_retry}
use stage.Effects.Grows.{Continues}

module _ {S Q : Type 0} where
  abbrev pub Gives : {A : Type 0} → Result A × (S × List Q) → (A → S × List Q → Type 0) → Type 0
  Gives (ok a, t) P = P a t
  Gives (err e, t) P = Unit

  pub Gives-bind :
      {A B : Type 0} (m : Action S Q A) (f : A → Action S Q B) (P : A → S × List Q → Type 0)
      (R : B → S × List Q → Type 0) (s : S × List Q)
      → Gives (m s) P
      → ((a : A) (t : S × List Q) → P a t → Gives (f a t) R)
      → Gives ((m >>= f) s) R
  Gives-bind {A = A} {B = B} m f P R s hm hf = after (m s) hm
    where
      after : (r : Result A × (S × List Q)) → Gives r P → Gives (◌>>=◌ (λ _. r) f s) R
      after (ok a, t) h = hf a t h
      after (err e, t) h = tt

  pub Gives-or_fail :
      {A : Type 0} (o : Option A) (e : Error) (s : S × List Q)
      → Gives (or_fail o e s) (λ a t. o ≡ some a)
  Gives-or_fail none e s = tt
  Gives-or_fail (some a) e s = refl

  pub Gives-weaken :
      {A : Type 0} (P R : A → S × List Q → Type 0) (r : Result A × (S × List Q))
      → Gives r P
      → ((a : A) (t : S × List Q) → P a t → R a t)
      → Gives r R
  Gives-weaken P R (ok a, t) h to = to a t h
  Gives-weaken P R (err e, t) h to = tt

  -- With what is known of the log, however the action ended.
  pub Gives-Continues :
      {A : Type 0} (P R : A → S × List Q → Type 0) (log : List Q) (r : Result A × (S × List Q))
      → Gives r P
      → Continues log r.1.1
      → ((a : A) (t : S × List Q) → P a t → Continues log t.1 → R a t)
      → Gives r R
  Gives-Continues P R log (ok a, t) h c to = to a t h c
  Gives-Continues P R log (err e, t) h c to = tt

  pub ok_of-Gives :
      {A : Type 0} (P : A → S × List Q → Type 0) (a : A) (r : Result A × (S × List Q))
      → Gives r P
      → r.0 ≡ ok a
      → P a r.1
  ok_of-Gives P a (ok b, t) h e = let same : b ≡ a = ground (arith, e) in subst (λ x. P x t) same h
  ok_of-Gives P a (err b, t) h e = absurd (ground (arith, e))

-- A request that was sent, with everything sent before it, and its answer.
abbrev pub SentIn : {Q R : Type 0} → Wire Q R → Q → R → List Q → Type 0
SentIn {Q} w q r log =
    (before : List Q) × (after : List Q) × (log ≡ before ++ q ∷ after)
    × (w.answer before q ≡ some r)

pub SentIn-Continues :
    {Q R : Type 0} (w : Wire Q R) (q : Q) (r : R) (log l : List Q)
    → SentIn w q r log
    → Continues log l
    → SentIn w q r l
SentIn-Continues w q r log l (before, after, e, h) (more, c) =
    (before, after ++ more, c ∙ ap (λ x. x ++ more) e ∙ append_assoc before (q ∷ after) more, h)

-- A retry loop that ends well has sent its request and been answered.
abbrev pub GivesAnswer : {Q R : Type 0} → Wire Q R → Q → Result R × List Q × ℕ → Type 0
GivesAnswer w q (ok r, log, slept) = SentIn w q r log
GivesAnswer w q (err e, log, slept) = Unit

attempt-Answered :
    {Q R : Type 0} (w : Wire Q R) (q : Q) (n delay : ℕ) (log : List Q) (slept : ℕ)
    → GivesAnswer w q (attempt w q n delay log slept)
unfolding attempt
attempt-Answered w q zero delay log slept = tt
attempt-Answered {Q = Q} {R = R} w q (suc n) delay log slept =
    elim (Option-cases (w.answer log q)) [
      | inr (r, e) ↦ rw (e, attempt) (log, [], refl, e)
      | inl e ↦
          rw (e, attempt)
            (if_cases (λ (x : Result R × List Q × ℕ). GivesAnswer w q x) (nat_beq n 0) (λ _. tt)
              (λ _.
                attempt-Answered w q n (min (delay * 2) 1200) (log ++ q ∷ [])
                  (slept + (delay + w.random n % 50))))
    ]

pub Gives-send :
    {S Q R : Type 0} (w : Wire Q R) (n : ℕ) (q : Q) (s : S × List Q)
    → Gives (send_with_retry w n q s) (λ r t. SentIn w q r t.1)
unfolding send_with_retry
Gives-send {S = S} {Q = Q} {R = R} w n q (s, log) =
    gives (attempt w q n 150 log 0) (attempt-Answered w q n 150 log 0)
  where
    gives :
        (x : Result R × List Q × ℕ)
        → GivesAnswer w q x
        → Gives (x.0, (s, x.1)) (λ r t. SentIn w q r t.1)
    gives (ok r, l, slept) h = h
    gives (err e, l, slept) h = tt
