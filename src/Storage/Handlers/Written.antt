-- ===== src/Storage/Handlers/Written.antt =====
-- src/storage/handlers.rs on a node that owns every partition alone: what a write by any of the three
-- endpoints changes for reads.
use stage.Prelude.{
  ℕ, ◌≡◌, refl, ap, sym, ◌∙◌, subst, Bool, true, false, ◌⊎◌, inl, inr, none, some, List, Str, ◌==◌,
  str_eq, nat_eq, if_cases, Bool-cases, Option-cases,
}
use stage.DashMap.{DashMap}
use stage.Effects.{Result, Wire}
use stage.Site.{Site, IsAlone, partition_of}
use stage.Storage.Protocol.{Format, Request, Response}
use stage.Storage.Memory.{
  Store, should_process, store_local, store_replica, lookup, get_local, once, replicate_to_all,
  store_as_primary,
}
use stage.Storage.Memory.Local.{lookup-store_local}
use stage.Storage.Memory.Alone.{get_value-Reads, put_with_op_settled}
use stage.Storage.Handlers.{
  Reply, Entrance, public, forwarded, replicated, parse_entry, handle_put, handle_forward_put,
  handle_replicate, handle_write, handle_get,
}

module _ (dm : DashMap) {K V : Type 0} (f : Format K V) (site : Site dm) (base : Str)
    (w : Wire Request Response) where
  -- A read after a write finds what it found before, or the value if it is of the key.
  abbrev pub IsSettled : K → V → Store dm K V → Store dm K V → Type 0
  IsSettled k v s t =
      (j : K)
      → (get_local dm f site base w t j ≡ get_local dm f site base w s j)
        ⊎ ((k ≡ j) × (get_local dm f site base w t j ≡ some v))

  store_local-IsSettled :
      (p : ℕ) (k : K) (v : V) (s : Store dm K V) → IsSettled k v s (store_local dm f s p k v)
  unfolding get_local
  store_local-IsSettled p k v s j =
      let p' = partition_of dm site (f.to_string j) in
      let e = lookup-store_local dm f s p k v p' j in
      elim (Bool-cases (p == p')) [
        | inr other ↦ inl (e ∙ rw other refl)
        | inl here ↦ elim (Bool-cases (f.key_eq.same k j)) [
          | inl same ↦ inr ((f.key_eq.same_iff k j).0 same, e ∙ rw (here, same) refl)
          | inr other ↦ inl (e ∙ rw (here, other) refl)
        ]
      ]

  should_process-data :
      (now : ℕ) (s : Store dm K V) (op_id : Str) (j : K)
      → get_local dm f site base w (should_process dm f now s op_id).1 j
        ≡ get_local dm f site base w s j
  unfolding get_local lookup should_process
  should_process-data now s op_id j = elim (Option-cases (dm.get s.processed_ops op_id)) [
    | inl e ↦ rw (e, should_process) refl
    | inr (t, e) ↦ rw (e, should_process) refl
  ]

  IsSettled-after :
      (now : ℕ) (op_id : Str) (k : K) (v : V) (s t : Store dm K V)
      → IsSettled k v (should_process dm f now s op_id).1 t
      → IsSettled k v s t
  IsSettled-after now op_id k v s t h j = elim (h j) [
    | inl e ↦ inl (e ∙ should_process-data now s op_id j)
    | inr e ↦ inr e
  ]

  store_replica-IsSettled :
      (now p : ℕ) (op_id : Str) (k : K) (v : V) (s : Store dm K V)
      → IsSettled k v s (store_replica dm f now p op_id k v s)
  unfolding store_replica
  store_replica-IsSettled now p op_id k v s =
      let t = (should_process dm f now s op_id).1 in
      if_cases (λ (u : Store dm K V). IsSettled k v s u) (should_process dm f now s op_id).0
        (λ _.
          IsSettled-after now op_id k v s (store_local dm f t p k v)
            (store_local-IsSettled p k v t))
        (λ _. λ j. inl (should_process-data now s op_id j))

  module _ (alone : IsAlone dm site) where
    store_as_primary-IsSettled :
        (now p : ℕ) (op_id : Str) (k : K) (v : V) (s : Store dm K V) (log : List Request)
        → IsSettled k v s (store_as_primary dm f site base w now p op_id k v (s, log)).1.0
    unfolding store_as_primary once replicate_to_all
    store_as_primary-IsSettled now p op_id k v s log =
        let t = (should_process dm f now s op_id).1 in
        rw (alone p, store_as_primary)
          (if_cases
            (λ (r : Result (Unit {0}) × (Store dm K V × List Request)). IsSettled k v s r.1.0)
            (should_process dm f now s op_id).0
            (λ _.
              IsSettled-after now op_id k v s (store_local dm f t p k v)
                (store_local-IsSettled p k v t))
            (λ _. λ j. inl (should_process-data now s op_id j)))

    -- A request to write changes nothing where its entry cannot be parsed, and otherwise only what is
    -- read of the key.
    pub handle_write-IsSettled :
        (way : Entrance) (now : ℕ) (op_id key value_json : Str) (s : Store dm K V)
        (log : List Request)
        → ((handle_write dm f site base w way now op_id key value_json (s, log)).0 ≡ s)
          ⊎ ((k : K) × (v : V) × (parse_entry dm f key value_json ≡ some (k, v))
              × IsSettled k v s
                  (handle_write dm f site base w way now op_id key value_json (s, log)).0)
    unfolding handle_write handle_put handle_forward_put handle_replicate
    handle_write-IsSettled way now op_id key value_json s log =
        elim (Option-cases (parse_entry dm f key value_json)) [
          | inl e ↦ inl (unparsed way e)
          | inr ((k, v), e) ↦ inr (k, v, e, parsed way k v e)
        ]
      where
        replicate_none :
            (p : ℕ)
            → parse_entry dm f key value_json ≡ none
            → handle_replicate dm f now p op_id key value_json s ≡ ((400, false), s)
        replicate_none p e = rw (e, handle_replicate) refl

        replicate_some :
            (p : ℕ) (k : K) (v : V)
            → parse_entry dm f key value_json ≡ some (k, v)
            → handle_replicate dm f now p op_id key value_json s
              ≡ ((200, true), store_replica dm f now p op_id k v s)
        replicate_some p k v e = rw (e, handle_replicate) refl

        unparsed :
            (way : Entrance)
            → parse_entry dm f key value_json ≡ none
            → (handle_write dm f site base w way now op_id key value_json (s, log)).0 ≡ s
        unparsed public e = rw (e, handle_write) refl
        unparsed (forwarded p) e = rw (e, handle_write) refl
        unparsed (replicated p) e = ap (λ (r : Reply Bool × Store dm K V). r.1) (replicate_none p e)

        parsed :
            (way : Entrance) (k : K) (v : V)
            → parse_entry dm f key value_json ≡ some (k, v)
            → IsSettled k v s
                (handle_write dm f site base w way now op_id key value_json (s, log)).0
        parsed public k v e =
            let (t, wrote, which) =
              put_with_op_settled dm f site base w now k v op_id s log alone in
            rw (e, handle_write) (rw wrote which)
        parsed (forwarded p) k v e =
            rw (e, handle_write) (store_as_primary-IsSettled now p op_id k v s log)
        parsed (replicated p) k v e =
            subst (λ (r : Reply Bool × Store dm K V). IsSettled k v s r.1)
              (sym (replicate_some p k v e)) (store_replica-IsSettled now p op_id k v s)

  -- A read changes nothing.
  pub handle_get_reads :
      (key : Str) (s : Store dm K V) (log : List Request)
      → (handle_get dm f site base w key (s, log)).1.0 ≡ s
  unfolding handle_get
  handle_get_reads key s log = elim (Option-cases (f.parse key)) [
    | inl e ↦ rw (e, handle_get) refl
    | inr (k, e) ↦
        let (found, sent, read) = get_value-Reads dm f site base w k s log in
        rw (e, handle_get) (ap (λ r. r.1.0) read)
  ]
