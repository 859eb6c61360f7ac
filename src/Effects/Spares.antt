-- ===== src/Effects/Spares.antt =====
-- Actions that leave a part of the state alone, whatever they send and return.
use stage.Prelude.{ℕ, ◌≡◌, refl, ◌∙◌, Bool, Option, none, some, List, if◌then◌else◌, if_cases}
use stage.Effects.{
  Error, Result, ok, err, Wire, Action, ◌>>=◌, pure, fail, modify, or_fail, send_with_retry,
}

module _ {S Q X : Type 0} (part : S → X) where
  pub record Spares {A : Type 0} (m : Action S Q A) : Type 0 where
    pub at : (s : S) (log : List Q) → part (m (s, log)).1.0 ≡ part s

  Spares-rest :
      {A B : Type 0} (g : A → Action S Q B)
      → ((a : A) → Spares (g a))
      → (s : S) (r : Result A × (S × List Q)) → part r.1.0 ≡ part s
      → part (◌>>=◌ (λ _. r) g r.1).1.0 ≡ part s
  Spares-rest g hg s (ok a, (t, l)) h = (hg a).at t l ∙ h
  Spares-rest g hg s (err e, (t, l)) h = h

  pub Spares-bind :
      {A B : Type 0} {m : Action S Q A} {g : A → Action S Q B}
      → Spares m
      → ((a : A) → Spares (g a))
      → Spares (m >>= g)
  Spares-bind {m} {g} hm hg = record { at = λ s log. Spares-rest g hg s (m (s, log)) (hm.at s log) }

  pub Spares-pure : {A : Type 0} (a : A) → Spares (pure a)
  Spares-pure a = record { at = λ s log. refl }

  pub Spares-fail : {A : Type 0} (e : Error) → Spares {A = A} (fail e)
  Spares-fail e = record { at = λ s log. refl }

  pub Spares-or_fail : {A : Type 0} (o : Option A) (e : Error) → Spares (or_fail o e)
  Spares-or_fail none e = Spares-fail e
  Spares-or_fail (some a) e = Spares-pure a

  pub Spares-modify : (h : S → S) → ((s : S) → part (h s) ≡ part s) → Spares (modify h)
  Spares-modify h keeps = record { at = λ s log. keeps s }

  pub Spares-send : {R : Type 0} (w : Wire Q R) (n : ℕ) (q : Q) → Spares (send_with_retry w n q)
  unfolding send_with_retry
  Spares-send w n q = record { at = λ s log. refl }

  pub Spares-if :
      {A : Type 0} (b : Bool) {m n : Action S Q A}
      → Spares m
      → Spares n
      → Spares (if b then m else n)
  Spares-if b hm hn = if_cases Spares b (λ _. hm) (λ _. hn)
