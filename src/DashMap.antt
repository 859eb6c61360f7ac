-- ===== src/DashMap.antt =====
-- The `dashmap` crate as the program uses it: a map with an unspecified order of iteration. The
-- standard library's HashMap, as src/search/engine.rs uses it, is taken as one as well.
-- `insert` also stands for a write through `get_mut`, `update` for a write through `iter_mut`,
-- `empty` for `clear`. The laws are the documented behaviour.
use stage.Prelude.{
  ◌+◌, ◌≡◌, Option, none, some, List, [], map, length, Eq, ◌==◌, if◌then◌else◌, In, Distinct, ◌↔◌,
  Option-cases, inl, inr,
}
use mathlib.Core.Option

pub record DashMap : Type 1 where
  pub Map : Type 0 → Type 0 → Type 0
  pub empty : {K V : Type 0} → Map K V
  pub get : {K V : Type 0} ⦃e : Eq K⦄ → Map K V → K → Option V
  pub insert : {K V : Type 0} ⦃e : Eq K⦄ → Map K V → K → V → Map K V
  pub update : {K V : Type 0} → (V → V) → Map K V → Map K V
  pub entries : {K V : Type 0} → Map K V → List (K × V)
  pub entries-empty : {K V : Type 0} → entries (empty {K = K} {V = V}) ≡ []
  pub get-insert :
      {K V : Type 0} ⦃e : Eq K⦄ (m : Map K V) (k : K) (v : V) (j : K)
      → get (insert m k v) j ≡ (if k == j then some v else get m j)
  pub get-update :
      {K V : Type 0} ⦃e : Eq K⦄ (f : V → V) (m : Map K V) (k : K)
      → get (update f m) k ≡ Option.map f (get m k)
  pub In-entries :
      {K V : Type 0} ⦃e : Eq K⦄ (m : Map K V) (k : K) (v : V)
      → In (k, v) (entries m) ↔ (get m k ≡ some v)
  pub keys-Distinct : {K V : Type 0} (m : Map K V) → Distinct (map (λ e. e.0) (entries m))
  pub length-entries-insert :
      {K V : Type 0} ⦃e : Eq K⦄ (m : Map K V) (k : K) (v : V)
      → length (entries (insert m k v))
        ≡ (elim (get m k) [ none ↦ length (entries m) + 1 | some _ ↦ length (entries m) ])

-- The empty map has no entry.
pub get-empty :
    (dm : DashMap) {K V : Type 0} ⦃e : Eq K⦄ (k : K) → dm.get (dm.empty {K = K} {V = V}) k ≡ none
get-empty dm {K} {V} k = elim (Option-cases (dm.get (dm.empty {K = K} {V = V}) k)) [
  | inl e ↦ e
  | inr (x, e) ↦ absurd (rw dm.entries-empty at (dm.In-entries (dm.empty {K = K} {V = V}) k x).1 e)
]
