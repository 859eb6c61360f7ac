-- ===== src/Membership/Known.antt =====
-- What other nodes can tell of a member in src/membership/service.rs, its state and incarnation,
-- and how `merge_member` is meant to update it.
use stage.Prelude.{
  ℕ, ◌≤◌, ◌≡◌, ◌≢◌, refl, Option, none, some, List, [], ◌∷◌, All, ◌⊎◌, ◌==◌, ==_iff, str_eq, ltb,
  if◌then◌else◌, arith, Bool-cases, inl, inr, if_cases,
}
use stage.Membership.Types.{NodeId, NodeState, alive, suspect, dead, Node, state_eq}

-- What is known of a member.
abbrev pub Known : Type 0
Known = Option (NodeState × ℕ)

-- The larger incarnation wins, death is for good, and a member is not learnt of as dead.
unfoldable pub update : Known → NodeState → ℕ → Known
update none st i = if st == dead then none else some (st, i)
update (some (dead, i)) st j = some (dead, i)
update (some (alive, i)) st j = if ltb i j then some (st, j) else some (alive, i)
update (some (suspect, i)) st j = if ltb i j then some (st, j) else some (suspect, i)

abbrev pub known_of : Option Node → Known
known_of none = none
known_of (some m) = some (m.state, m.incarnation)

-- The updates that a list holds for the member `k`, in order.
unfoldable pub update_all : NodeId → Known → List Node → Known
update_all k v [] = v
update_all k v (n ∷ ns) = update_all k (if n.id == k then update v n.state n.incarnation else v) ns

pub update-known :
    (m : Node) (st st' : NodeState) (i : ℕ)
    → m.state ≡ st
    → update (known_of (some m)) st' i ≡ (
        if m.state == dead
        then known_of (some m)
        else if ltb m.incarnation i
        then some (st', i)
        else known_of (some m))
unfolding update
update-known m alive st' i e = ground arith
update-known m suspect st' i e = ground arith
update-known m dead st' i e = ground arith

-- An update by a living member is in effect already.
abbrev pub Absorbs : Known → NodeState → ℕ → Type 0
Absorbs none st i = ⊥
Absorbs (some (st', j)) st i = (st' ≡ dead) ⊎ (i ≤ j)

update-Absorbs : (v : Known) (st : NodeState) (i : ℕ) → st ≢ dead → Absorbs (update v st i) st i
unfolding update
update-Absorbs none st i h = ground arith
update-Absorbs (some (alive, j)) st i h = ground arith
update-Absorbs (some (suspect, j)) st i h = ground arith
update-Absorbs (some (dead, j)) st i h = ground arith

Absorbs-update :
    (v : Known) (st st' : NodeState) (i j : ℕ) → Absorbs v st i → Absorbs (update v st' j) st i
unfolding update
Absorbs-update none st st' i j h = elim h [ ]
Absorbs-update (some (alive, n)) st st' i j h = ground arith
Absorbs-update (some (suspect, n)) st st' i j h = ground arith
Absorbs-update (some (dead, n)) st st' i j h = ground arith

pub update_of_Absorbs : (v : Known) (st : NodeState) (i : ℕ) → Absorbs v st i → update v st i ≡ v
unfolding update
update_of_Absorbs none st i h = elim h [ ]
update_of_Absorbs (some (alive, n)) st i h = ground arith
update_of_Absorbs (some (suspect, n)) st i h = ground arith
update_of_Absorbs (some (dead, n)) st i h = refl

-- Updates at different incarnations about a member that is not dead commute.
pub update_comm :
    (v : Known) (st st' : NodeState) (i j : ℕ)
    → st ≢ dead
    → st' ≢ dead
    → i ≢ j
    → update (update v st i) st' j ≡ update (update v st' j) st i
unfolding update
update_comm none alive alive i j h h' d = ground arith
update_comm none alive suspect i j h h' d = ground arith
update_comm none suspect alive i j h h' d = ground arith
update_comm none suspect suspect i j h h' d = ground arith
update_comm v dead st' i j h h' d = absurd (h refl)
update_comm v st dead i j h h' d = absurd (h' refl)
update_comm (some (alive, n)) alive alive i j h h' d = ground arith
update_comm (some (alive, n)) alive suspect i j h h' d = ground arith
update_comm (some (alive, n)) suspect alive i j h h' d = ground arith
update_comm (some (alive, n)) suspect suspect i j h h' d = ground arith
update_comm (some (suspect, n)) alive alive i j h h' d = ground arith
update_comm (some (suspect, n)) alive suspect i j h h' d = ground arith
update_comm (some (suspect, n)) suspect alive i j h h' d = ground arith
update_comm (some (suspect, n)) suspect suspect i j h h' d = ground arith
update_comm (some (dead, n)) st st' i j h h' d = refl

-- Every update about `k` in the list is in effect.
abbrev pub AllAbsorbed : NodeId → Known → List Node → Type 0
AllAbsorbed k v ns = All (λ n. n.id ≡ k → Absorbs v n.state n.incarnation) ns

pub update-none :
    (st : NodeState) (i : ℕ) → update none st i ≡ (if st == dead then none else some (st, i))
unfolding update
update-none st i = refl

update_all-Absorbs :
    (k : NodeId) (v : Known) (st : NodeState) (i : ℕ) (ns : List Node)
    → Absorbs v st i
    → Absorbs (update_all k v ns) st i
unfolding update_all
update_all-Absorbs k v st i [] h = h
update_all-Absorbs k v st i (n ∷ ns) h =
    update_all-Absorbs k (if n.id == k then update v n.state n.incarnation else v) st i ns (
      if_cases (λ w. Absorbs w st i) (n.id == k)
        (λ _. Absorbs-update v st n.state i n.incarnation h) (λ _. h))

pub update_all-AllAbsorbed :
    (k : NodeId) (v : Known) (ns : List Node)
    → All (λ n. n.state ≢ dead) ns
    → AllAbsorbed k (update_all k v ns) ns
unfolding update_all
update_all-AllAbsorbed k v [] h = tt
update_all-AllAbsorbed k v (n ∷ ns) h = (
  λ e. update_all-Absorbs k _ n.state n.incarnation ns (
      if_cases (λ w. Absorbs w n.state n.incarnation) (n.id == k)
        (λ _. update-Absorbs v n.state n.incarnation h.0)
        (λ other. absurd (ground (arith, ==_iff n.id k)))),
  update_all-AllAbsorbed k (if n.id == k then update v n.state n.incarnation else v) ns h.1,
)

pub update_all_of_AllAbsorbed :
    (k : NodeId) (v : Known) (ns : List Node) → AllAbsorbed k v ns → update_all k v ns ≡ v
unfolding update_all
update_all_of_AllAbsorbed k v [] h = refl
update_all_of_AllAbsorbed k v (n ∷ ns) h = elim (Bool-cases (n.id == k)) [
  | inl e ↦
      rw (e, update_of_Absorbs v n.state n.incarnation (h.0 ((==_iff n.id k).0 e)))
        (update_all_of_AllAbsorbed k v ns h.1)
  | inr e ↦ rw e (update_all_of_AllAbsorbed k v ns h.1)
]
