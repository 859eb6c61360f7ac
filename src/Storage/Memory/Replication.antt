-- ===== src/Storage/Memory/Replication.antt =====
-- src/storage/memory.rs: what a successful replication means.
use stage.Prelude.{
  ℕ, ◌≡◌, refl, sym, subst, true, none, some, List, [], ◌∷◌, Str, str_eq, drop, All, Bool-cases,
  inl, inr,
}
use stage.DashMap.{DashMap}
use stage.Effects.{
  ok, node_not_found, unreadable, bad_status, Wire, ◌>>=◌, or_fail, send_with_retry, is_success,
}
use stage.Effects.Grows.{
  Continues, Grows, Grows-bind, Grows-pure, Grows-fail, Grows-or_fail, Grows-send, Grows-if,
}
use stage.Effects.Gives.{
  Gives, Gives-bind, Gives-or_fail, Gives-weaken, Gives-Continues, ok_of-Gives, SentIn,
  SentIn-Continues, Gives-send,
}
use stage.Membership.Types.{NodeId, Node}
use stage.Membership.Service.{get_member}
use stage.Site.{Site, owners_of}
use stage.Storage.Protocol.{Format, Request, replicate, Response}
use stage.Storage.Memory.Local.{should_process_fresh}
use stage.Storage.Memory.{
  Store, should_process, store_local, once, store_as_primary, post, expect_success,
  replicate_to_backup, replicate_to_all,
}

module _ (dm : DashMap) {K V : Type 0} (f : Format K V) (site : Site dm) (base : Str)
    (w : Wire Request Response) where
  -- The backup is a known member, and the log holds a replica that was sent to it and that it
  -- answered with a success.
  abbrev pub Confirmed : ℕ → Str → K → V → List Request → NodeId → Type 0
  Confirmed p op_id k v log backup =
      (node : Node) × (json : Str) × (r : Response) × (get_member dm site.membership backup
        ≡ some node)
      × (f.to_json v ≡ some json)
      × SentIn w (node.http_addr, base, replicate p op_id (f.to_string k) json) r log
      × (is_success r.status ≡ true)

  Confirmed-Continues :
      (p : ℕ) (op_id : Str) (k : K) (v : V) (log l : List Request) (backup : NodeId)
      → Confirmed p op_id k v log backup
      → Continues log l
      → Confirmed p op_id k v l backup
  Confirmed-Continues p op_id k v log l backup (node, json, r, known, written, answered, success)
        c =
      (
        node,
        json,
        r,
        known,
        written,
        SentIn-Continues w (node.http_addr, base, replicate p op_id (f.to_string k) json) r log l
            answered c,
        success,
      )

  expect-Success :
      (r : Response) (s : Store dm K V × List Request)
      → Gives (expect_success dm f site base w r s) (λ u t. (is_success r.status ≡ true) × (t ≡ s))
  expect-Success r s = elim (Bool-cases (is_success r.status)) [
    | inl e ↦ rw e (refl, refl)
    | inr e ↦ rw e tt
  ]

  replicate_to_backup-Confirmed :
      (backup : NodeId) (p : ℕ) (op_id : Str) (k : K) (v : V) (s : Store dm K V × List Request)
      → Gives
          (replicate_to_backup dm f site base w backup p op_id k v s)
          (λ u t. Confirmed p op_id k v t.1 backup)
  unfolding replicate_to_backup post
  replicate_to_backup-Confirmed backup p op_id k v s =
      let R =
        λ (u : Unit {0}) (t : Store dm K V × List Request). Confirmed p op_id k v t.1 backup in
      Gives-bind (or_fail (get_member dm site.membership backup) node_not_found)
        (λ node. (or_fail (f.to_json v) unreadable) >>= λ json.
          post dm f site base w node (replicate p op_id (f.to_string k) json))
        (λ node t. get_member dm site.membership backup ≡ some node) R s
        (Gives-or_fail (get_member dm site.membership backup) node_not_found s)
        λ node s known.
          Gives-bind (or_fail (f.to_json v) unreadable)
            (λ json. post dm f site base w node (replicate p op_id (f.to_string k) json))
            (λ json t. f.to_json v ≡ some json) R s (Gives-or_fail (f.to_json v) unreadable s)
            λ json s written.
              let q : Request = (node.http_addr, base, replicate p op_id (f.to_string k) json) in
              Gives-bind (send_with_retry w 3 q) (expect_success dm f site base w)
                (λ r t. SentIn w q r t.1) R s (Gives-send w 3 q s)
                λ r t answered.
                  Gives-weaken (λ u l. (is_success r.status ≡ true) × (l ≡ t)) R
                    (expect_success dm f site base w r t) (expect-Success r t)
                    λ u l (success, same). (
                      node,
                      json,
                      r,
                      known,
                      written,
                      subst (λ x. SentIn w q r x.1) (sym same) answered,
                      success,
                    )

  replicate_to_backup-Grows :
      (backup : NodeId) (p : ℕ) (op_id : Str) (k : K) (v : V)
      → Grows (replicate_to_backup dm f site base w backup p op_id k v)
  unfolding replicate_to_backup post
  replicate_to_backup-Grows backup p op_id k v =
      Grows-bind (Grows-or_fail (get_member dm site.membership backup) node_not_found) λ node.
        Grows-bind {A = Str} (Grows-or_fail (f.to_json v) unreadable) λ json.
          Grows-bind (Grows-send w 3 _)
            λ r. Grows-if (is_success r.status) (Grows-pure tt) (Grows-fail (bad_status r.status))

  replicate_to_all-Grows :
      (ids : List NodeId) (p : ℕ) (op_id : Str) (k : K) (v : V)
      → Grows (replicate_to_all dm f site base w ids p op_id k v)
  unfolding replicate_to_all
  replicate_to_all-Grows [] p op_id k v = Grows-pure tt
  replicate_to_all-Grows (b ∷ bs) p op_id k v =
      Grows-bind (replicate_to_backup-Grows b p op_id k v)
        λ _. replicate_to_all-Grows bs p op_id k v

  replicate_to_all-Confirmed :
      (ids : List NodeId) (p : ℕ) (op_id : Str) (k : K) (v : V) (s : Store dm K V × List Request)
      → Gives
          (replicate_to_all dm f site base w ids p op_id k v s)
          (λ u t. All (Confirmed p op_id k v t.1) ids)
  unfolding replicate_to_all
  replicate_to_all-Confirmed [] p op_id k v s = tt
  replicate_to_all-Confirmed (b ∷ bs) p op_id k v s =
      let R = λ (u : Unit {0}) (t : Store dm K V × List Request).
        All (Confirmed p op_id k v t.1) (b ∷ bs) in
      Gives-bind (replicate_to_backup dm f site base w b p op_id k v)
        (λ u. replicate_to_all dm f site base w bs p op_id k v) (λ u t. Confirmed p op_id k v t.1 b)
        R s (replicate_to_backup-Confirmed b p op_id k v s)
        λ u t c.
          Gives-Continues (λ u l. All (Confirmed p op_id k v l.1) bs) R t.1
            (replicate_to_all dm f site base w bs p op_id k v t)
            (replicate_to_all-Confirmed bs p op_id k v t)
            ((replicate_to_all-Grows bs p op_id k v).at t.0 t.1)
            λ u l rest further. (Confirmed-Continues p op_id k v t.1 l.1 b c further, rest)

  -- A write that a primary acknowledges, under an operation id that it had not seen, has been sent
  -- to every backup of the partition and answered with success by it, each of them a known member.
  pub store_as_primary-Confirmed :
      (now p : ℕ) (op_id : Str) (k : K) (v : V) (s : Store dm K V) (log : List Request)
      → dm.get s.processed_ops op_id ≡ none
      → (store_as_primary dm f site base w now p op_id k v (s, log)).0 ≡ ok tt
      → All
          (Confirmed p op_id k v (store_as_primary dm f site base w now p op_id k v (s, log)).1.1)
          (drop 1 (owners_of dm site p))
  unfolding store_as_primary once
  store_as_primary-Confirmed now p op_id k v s log fresh h =
      let (accepted, _) = should_process_fresh dm f now s op_id fresh in
      let t = store_local dm f (should_process dm f now s op_id).1 p k v in
      let backups = drop 1 (owners_of dm site p) in
      rw accepted (
        ok_of-Gives (λ u l. All (Confirmed p op_id k v l.1) backups) tt
          (replicate_to_all dm f site base w backups p op_id k v (t, log))
          (replicate_to_all-Confirmed backups p op_id k v (t, log)) (rw accepted at h))
