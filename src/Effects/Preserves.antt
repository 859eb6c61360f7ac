-- ===== src/Effects/Preserves.antt =====
-- Actions after which the state has a property that it had before, whatever they send and return.
use stage.Prelude.{Option, none, some, List}
use stage.Effects.{Error, Result, ok, err, Action, ◌>>=◌, pure, fail, or_fail, outcome}

module _ {S Q : Type 0} (P : S → Type 0) where
  pub record Preserves {A : Type 0} (m : Action S Q A) : Type 0 where
    pub at : (s : S) (log : List Q) → P s → P (m (s, log)).1.0

  Preserves-rest :
      {A B : Type 0} (g : A → Action S Q B)
      → ((a : A) → Preserves (g a))
      → (r : Result A × (S × List Q)) → P r.1.0
      → P (◌>>=◌ (λ _. r) g r.1).1.0
  Preserves-rest g hg (ok a, (t, l)) h = (hg a).at t l h
  Preserves-rest g hg (err e, (t, l)) h = h

  pub Preserves-bind :
      {A B : Type 0} {m : Action S Q A} {g : A → Action S Q B}
      → Preserves m
      → ((a : A) → Preserves (g a))
      → Preserves (m >>= g)
  Preserves-bind {m} {g} hm hg = record {
    at = λ s log h. Preserves-rest g hg (m (s, log)) (hm.at s log h);
  }

  pub Preserves-pure : {A : Type 0} (a : A) → Preserves (pure a)
  Preserves-pure a = record { at = λ s log h. h }

  pub Preserves-fail : {A : Type 0} (e : Error) → Preserves {A = A} (fail e)
  Preserves-fail e = record { at = λ s log h. h }

  pub Preserves-or_fail : {A : Type 0} (o : Option A) (e : Error) → Preserves (or_fail o e)
  Preserves-or_fail none e = Preserves-fail e
  Preserves-or_fail (some a) e = Preserves-pure a

  pub Preserves-outcome : {A : Type 0} {m : Action S Q A} → Preserves m → Preserves (outcome m)
  Preserves-outcome hm = record { at = hm.at }
