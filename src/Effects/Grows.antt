-- ===== src/Effects/Grows.antt =====
-- Actions that only add to the log of requests.
use mathlib.Core.List.{append-nil, append_assoc}
use stage.Prelude.{
  ℕ, zero, suc, ◌+◌, ◌*◌, ◌%◌, min, ◌≡◌, refl, ap, sym, ◌∙◌, Bool, Option, none, some, List, [],
  ◌∷◌, ◌++◌, nat_beq, if◌then◌else◌, if_cases, Option-cases, inl, inr,
}
use stage.Effects.{
  Error, Result, ok, err, Wire, Action, ◌>>=◌, pure, fail, or_fail, attempt, send_with_retry,
}

-- A log that continues another.
abbrev pub Continues : {Q : Type 0} → List Q → List Q → Type 0
Continues {Q} log l = (more : List Q) × (l ≡ log ++ more)

pub Continues-refl : {Q : Type 0} (log : List Q) → Continues log log
Continues-refl log = ([], sym (append-nil log))

pub Continues-trans : {Q : Type 0} (a b c : List Q) → Continues a b → Continues b c → Continues a c
Continues-trans a b c (x, e) (y, h) = (x ++ y, h ∙ ap (λ l. l ++ y) e ∙ append_assoc a x y)

attempt-Continues :
    {Q R : Type 0} (w : Wire Q R) (q : Q) (n delay : ℕ) (log : List Q) (slept : ℕ)
    → Continues log (attempt w q n delay log slept).1
unfolding attempt
attempt-Continues w q zero delay log slept = Continues-refl log
attempt-Continues {Q = Q} {R = R} w q (suc n) delay log slept =
    elim (Option-cases (w.answer log q)) [
      | inr (r, e) ↦ rw (e, attempt) (q ∷ [], refl)
      | inl e ↦
          rw (e, attempt)
            (if_cases (λ (x : Result R × List Q × ℕ). Continues log x.1) (nat_beq n 0)
              (λ _. (q ∷ [], refl))
              (λ _.
                Continues-trans log (log ++ q ∷ [])
                  (attempt w q n (min (delay * 2) 1200) (log ++ q ∷ [])
                    (slept + (delay + w.random n % 50))).1
                  (q ∷ [], refl)
                  (attempt-Continues w q n (min (delay * 2) 1200) (log ++ q ∷ [])
                    (slept + (delay + w.random n % 50)))))
    ]

module _ {S Q : Type 0} where
  pub record Grows {A : Type 0} (m : Action S Q A) : Type 0 where
    pub at : (s : S) (log : List Q) → Continues log (m (s, log)).1.1

  Grows-rest :
      {A B : Type 0} (g : A → Action S Q B)
      → ((a : A) → Grows (g a))
      → (log : List Q) (r : Result A × (S × List Q)) → Continues log r.1.1
      → Continues log (◌>>=◌ (λ _. r) g r.1).1.1
  Grows-rest g hg log (ok a, (t, l)) h = Continues-trans log l (g a (t, l)).1.1 h ((hg a).at t l)
  Grows-rest g hg log (err e, (t, l)) h = h

  pub Grows-bind :
      {A B : Type 0} {m : Action S Q A} {g : A → Action S Q B}
      → Grows m
      → ((a : A) → Grows (g a))
      → Grows (m >>= g)
  Grows-bind {m} {g} hm hg = record { at = λ s log. Grows-rest g hg log (m (s, log)) (hm.at s log) }

  pub Grows-pure : {A : Type 0} (a : A) → Grows (pure a)
  Grows-pure a = record { at = λ s log. Continues-refl log }

  pub Grows-fail : {A : Type 0} (e : Error) → Grows {A = A} (fail e)
  Grows-fail e = record { at = λ s log. Continues-refl log }

  pub Grows-or_fail : {A : Type 0} (o : Option A) (e : Error) → Grows (or_fail o e)
  Grows-or_fail none e = Grows-fail e
  Grows-or_fail (some a) e = Grows-pure a

  pub Grows-send : {R : Type 0} (w : Wire Q R) (n : ℕ) (q : Q) → Grows (send_with_retry w n q)
  unfolding send_with_retry
  Grows-send w n q = record { at = λ s log. attempt-Continues w q n 150 log 0 }

  pub Grows-if :
      {A : Type 0} (b : Bool) {m n : Action S Q A} → Grows m → Grows n → Grows (if b then m else n)
  Grows-if b hm hn = if_cases Grows b (λ _. hm) (λ _. hn)
