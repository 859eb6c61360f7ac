-- ===== src/Effects/Sends.antt =====
-- Actions that only send requests of a kind.
use mathlib.Core.List.{append-nil, append_assoc}
use stage.Prelude.{
  ℕ, zero, suc, ◌+◌, ◌*◌, ◌%◌, min, ◌≡◌, ap, sym, ◌∙◌, refl, Bool, Option, none, some, List, [],
  ◌∷◌, ◌++◌, nat_beq, if◌then◌else◌, if_cases, Option-cases, inl, inr, All, All-append,
}
use stage.Effects.{
  Error, Result, ok, err, Wire, Action, ◌>>=◌, pure, fail, or_fail, attempt, send_with_retry,
}

-- A log that continues another by requests of the kind.
abbrev pub ContinuesBy : {Q : Type 0} → (Q → Type 0) → List Q → List Q → Type 0
ContinuesBy {Q} P log l = (more : List Q) × (l ≡ log ++ more) × All P more

ContinuesBy-refl : {Q : Type 0} (P : Q → Type 0) (log : List Q) → ContinuesBy P log log
ContinuesBy-refl P log = ([], sym (append-nil log), tt)

ContinuesBy-trans :
    {Q : Type 0} (P : Q → Type 0) (a b c : List Q)
    → ContinuesBy P a b
    → ContinuesBy P b c
    → ContinuesBy P a c
ContinuesBy-trans P a b c (x, e, p) (y, h, q) =
    (x ++ y, h ∙ ap (λ l. l ++ y) e ∙ append_assoc a x y, All-append P x y p q)

attempt-ContinuesBy :
    {Q R : Type 0} (P : Q → Type 0) (w : Wire Q R) (q : Q) (n delay : ℕ) (log : List Q) (slept : ℕ)
    → P q
    → ContinuesBy P log (attempt w q n delay log slept).1
unfolding attempt
attempt-ContinuesBy P w q zero delay log slept h = ContinuesBy-refl P log
attempt-ContinuesBy {Q = Q} {R = R} P w q (suc n) delay log slept h =
    elim (Option-cases (w.answer log q)) [
      | inr (r, e) ↦ rw (e, attempt) (q ∷ [], refl, (h, tt))
      | inl e ↦
          rw (e, attempt)
            (if_cases (λ (x : Result R × List Q × ℕ). ContinuesBy P log x.1) (nat_beq n 0)
              (λ _. (q ∷ [], refl, (h, tt)))
              (λ _.
                ContinuesBy-trans P log (log ++ q ∷ [])
                  (attempt w q n (min (delay * 2) 1200) (log ++ q ∷ [])
                    (slept + (delay + w.random n % 50))).1
                  (q ∷ [], refl, (h, tt))
                  (attempt-ContinuesBy P w q n (min (delay * 2) 1200) (log ++ q ∷ [])
                    (slept + (delay + w.random n % 50)) h)))
    ]

module _ {S Q : Type 0} (P : Q → Type 0) where
  pub record Sends {A : Type 0} (m : Action S Q A) : Type 0 where
    pub at : (s : S) (log : List Q) → ContinuesBy P log (m (s, log)).1.1

  Sends-rest :
      {A B : Type 0} (g : A → Action S Q B)
      → ((a : A) → Sends (g a))
      → (log : List Q) (r : Result A × (S × List Q)) → ContinuesBy P log r.1.1
      → ContinuesBy P log (◌>>=◌ (λ _. r) g r.1).1.1
  Sends-rest g hg log (ok a, (t, l)) h =
      ContinuesBy-trans P log l (g a (t, l)).1.1 h ((hg a).at t l)
  Sends-rest g hg log (err e, (t, l)) h = h

  pub Sends-bind :
      {A B : Type 0} {m : Action S Q A} {g : A → Action S Q B}
      → Sends m
      → ((a : A) → Sends (g a))
      → Sends (m >>= g)
  Sends-bind {m} {g} hm hg = record { at = λ s log. Sends-rest g hg log (m (s, log)) (hm.at s log) }

  pub Sends-pure : {A : Type 0} (a : A) → Sends (pure a)
  Sends-pure a = record { at = λ s log. ContinuesBy-refl P log }

  pub Sends-fail : {A : Type 0} (e : Error) → Sends {A = A} (fail e)
  Sends-fail e = record { at = λ s log. ContinuesBy-refl P log }

  pub Sends-or_fail : {A : Type 0} (o : Option A) (e : Error) → Sends (or_fail o e)
  Sends-or_fail none e = Sends-fail e
  Sends-or_fail (some a) e = Sends-pure a

  pub Sends-send : {R : Type 0} (w : Wire Q R) (n : ℕ) (q : Q) → P q → Sends (send_with_retry w n q)
  unfolding send_with_retry
  Sends-send w n q h = record { at = λ s log. attempt-ContinuesBy P w q n 150 log 0 h }

  pub Sends-if :
      {A : Type 0} (b : Bool) {m n : Action S Q A} → Sends m → Sends n → Sends (if b then m else n)
  Sends-if b hm hn = if_cases Sends b (λ _. hm) (λ _. hn)
