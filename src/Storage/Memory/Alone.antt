-- ===== src/Storage/Memory/Alone.antt =====
-- src/storage/memory.rs: what a read can do, and how reads and writes work on a node that owns
-- every partition alone.
use stage.Prelude.{
  ℕ, ltb, length, ◌≡◌, refl, ap, ◌∙◌, false, Option, none, some, List, [], ◌∷◌, Str, ◌==◌, ==_iff,
  ==_refl, str_eq, if◌then◌else◌, if_cases, Option-cases, Bool-cases, inl, inr, ◌⊎◌, arith, nat_eq,
}
use stage.DashMap.{DashMap, get-empty}
use stage.Effects.{Result, ok, err, Wire, Action}
use stage.Membership.Types.{NodeId}
use stage.Site.{Site, IsAlone, me, partition_of, owners_of}
use stage.Storage.Protocol.{Format, Request, Response}
use stage.Storage.Memory.{
  Store, should_process, store_local, lookup, get_local, once, put_to, replicate_to_all,
  put_with_op, fetch_remote, ask_owners, get_from, get_value,
}
use stage.Storage.Memory.Frames.{fetch_remote-Spares}
use stage.Storage.Memory.Local.{lookup-store_local, should_process_fresh}

module _ (dm : DashMap) {K V : Type 0} (f : Format K V) (site : Site dm) (base : Str)
    (w : Wire Request Response) where
  -- The action succeeded and left the local state as it was.
  abbrev pub Reads : Store dm K V → Result (Option V) × (Store dm K V × List Request) → Type 0
  Reads s r = (found : Option V) × (log : List Request) × (r ≡ (ok found, (s, log)))

  ask_further :
      (s : Store dm K V) (t : Store dm K V × List Request) (r : Result (Option V))
      (rest : Result (Option V) × (Store dm K V × List Request))
      → t.0 ≡ s
      → Reads s rest
      → Reads s (elim r [
        | ok found ↦ (elim found [ some v ↦ (ok (some v), t) | none ↦ rest ])
        | err _ ↦ rest
      ])
  ask_further s t (ok (some v)) rest e h = (some v, t.1, ap (λ x. (ok (some v), (x, t.1))) e)
  ask_further s t (ok none) rest e h = h
  ask_further s t (err x) rest e h = h

  ask_owners-Reads :
      (ids : List NodeId) (k : K) (s : Store dm K V) (t : Store dm K V × List Request)
      → t.0 ≡ s
      → Reads s (ask_owners dm f site base w ids k t)
  unfolding ask_owners
  ask_owners-Reads [] k s t e = (none, t.1, ap (λ x. (ok none, (x, t.1))) e)
  ask_owners-Reads (o ∷ os) k s t e =
      let r = fetch_remote dm f site base w o k t in
      let same = (fetch_remote-Spares dm f site base w (λ x. x) o k).at t.0 t.1 ∙ e in
      ask_further s r.1 r.0 (ask_owners dm f site base w os k r.1) same
        (ask_owners-Reads os k s r.1 same)

  get_from-Reads :
      (ids : List NodeId) (k : K) (s : Store dm K V) (log : List Request)
      → Reads s (get_from dm f site base w ids k (s, log))
  unfolding get_from
  get_from-Reads [] k s log = (none, log, refl)
  get_from-Reads (primary ∷ backups) k s log =
      if_cases (λ (m : Action (Store dm K V) Request (Option V)). Reads s (m (s, log)))
        (primary == me dm site) (λ _. ask_owners-Reads backups k s (s, log) refl)
        (λ _. ask_owners-Reads (primary ∷ backups) k s (s, log) refl)

  -- A read never fails, and leaves the local state as it was.
  pub get_value-Reads :
      (k : K) (s : Store dm K V) (log : List Request)
      → Reads s (get_value dm f site base w k (s, log))
  unfolding get_value
  get_value-Reads k s log =
      elim (Option-cases (lookup dm f s (partition_of dm site (f.to_string k)) k)) [
        | inl e ↦
            rw (e, get_value)
              (get_from-Reads (owners_of dm site (partition_of dm site (f.to_string k))) k s log)
        | inr (v, e) ↦ rw (e, get_value) (some v, log, refl)
      ]

  -- A node that owns everything alone answers from its shard, and asks nobody.
  pub get_value_alone :
      (k : K) (s : Store dm K V) (log : List Request)
      → IsAlone dm site
      → get_value dm f site base w k (s, log) ≡ (ok (get_local dm f site base w s k), (s, log))
  unfolding get_value get_local get_from ask_owners
  get_value_alone k s log alone =
      let p = partition_of dm site (f.to_string k) in
      elim (Option-cases (lookup dm f s p k)) [
        | inl e ↦ rw (e, get_value) (rw (alone p, get_from) (rw (==_refl (me dm site)) refl))
        | inr (v, e) ↦ rw (e, get_value) refl
      ]

  get_local_of_data :
      (s t : Store dm K V) (k : K)
      → s.local_data ≡ t.local_data
      → get_local dm f site base w s k ≡ get_local dm f site base w t k
  unfolding get_local lookup
  get_local_of_data s t k e = rw e refl

  get_local-store_local :
      (s : Store dm K V) (k : K) (v : V) (j : K)
      → get_local dm f site base w (store_local dm f s (partition_of dm site (f.to_string k)) k v) j
        ≡ (if f.key_eq.same k j then some v else get_local dm f site base w s j)
  unfolding get_local
  get_local-store_local s k v j =
      let p = partition_of dm site (f.to_string k) in
      let p' = partition_of dm site (f.to_string j) in
      lookup-store_local dm f s p k v p' j ∙ (elim (Bool-cases (f.key_eq.same k j)) [
        | inl e ↦
            let h : p ≡ p' =
              ap (λ x. partition_of dm site (f.to_string x)) ((f.key_eq.same_iff k j).0 e) in
            rw (e, (==_iff p p').1 h) refl
        | inr e ↦ rw e (ground arith)
      ])

  should_process_later :
      (now : ℕ) (s : Store dm K V) (op_id other : Str)
      → op_id == other ≡ false
      → dm.get s.processed_ops other ≡ none
      → dm.get (should_process dm f now s op_id).1.processed_ops other ≡ none
  unfolding should_process
  should_process_later now s op_id other apart fresh =
      elim (Option-cases (dm.get s.processed_ops op_id)) [
        | inl e ↦
            rw (e, should_process)
              (rw (dm.get-insert, apart)
                (if_cases (λ (m : dm.Map Str ℕ). dm.get m other ≡ none)
                  (ltb 10_000 (length (dm.entries s.processed_ops))) (λ _. get-empty dm other)
                  (λ _. fresh)))
        | inr (x, e) ↦ rw (e, should_process) fresh
      ]

  -- A new write on such a node succeeds, sends nothing, and is what the next reads find. Other
  -- operations stay new.
  pub put_with_op_alone :
      (now : ℕ) (k : K) (v : V) (op_id : Str) (s : Store dm K V) (log : List Request)
      → IsAlone dm site
      → dm.get s.processed_ops op_id ≡ none
      → (t : Store dm K V) × (put_with_op dm f site base w now k v op_id (s, log)
          ≡ (ok tt, (t, log)))
        × ((j : K)
            → get_local dm f site base w t j
              ≡ (if f.key_eq.same k j then some v else get_local dm f site base w s j))
        × ((other : Str)
            → op_id == other ≡ false
            → dm.get s.processed_ops other ≡ none
            → dm.get t.processed_ops other ≡ none)
  unfolding put_with_op once put_to replicate_to_all store_local
  put_with_op_alone now k v op_id s log alone fresh =
      let p = partition_of dm site (f.to_string k) in
      let t = (should_process dm f now s op_id).1 in
      let (passes, kept) = should_process_fresh dm f now s op_id fresh in
      (
        store_local dm f t p k v,
        rw (alone p, put_with_op) (rw (passes, ==_refl (me dm site)) refl),
        λ j.
            get_local-store_local t k v j
            ∙ ap (λ old. if f.key_eq.same k j then some v else old) (get_local_of_data t s j kept),
        λ other apart new. should_process_later now s op_id other apart new,
      )

  -- Any write on such a node, new or repeated, succeeds and sends nothing. A read then finds what
  -- it found before, or the value if it is of the key that was written.
  pub put_with_op_settled :
      (now : ℕ) (k : K) (v : V) (op_id : Str) (s : Store dm K V) (log : List Request)
      → IsAlone dm site
      → (t : Store dm K V) × (put_with_op dm f site base w now k v op_id (s, log)
          ≡ (ok tt, (t, log)))
        × ((j : K)
            → (get_local dm f site base w t j ≡ get_local dm f site base w s j)
              ⊎ ((k ≡ j) × (get_local dm f site base w t j ≡ some v)))
  unfolding put_with_op once should_process
  put_with_op_settled now k v op_id s log alone =
      elim (Option-cases (dm.get s.processed_ops op_id)) [
        | inl fresh ↦
            let (t, wrote, reads, _) = put_with_op_alone now k v op_id s log alone fresh in
            (
              t,
              wrote,
              λ j. elim (Bool-cases (f.key_eq.same k j)) [
                | inl e ↦ inr ((f.key_eq.same_iff k j).0 e, reads j ∙ rw e refl)
                | inr e ↦ inl (reads j ∙ rw e refl)
              ],
            )
        | inr (seen, e) ↦ (s, rw (e, should_process) refl, λ j. inl refl)
      ]
