-- ===== src/Storage/Handlers/Durable.antt =====
-- src/storage/memory.rs and src/storage/handlers.rs together: what a backup holds once the primary
-- has acknowledged a write.
use mathlib.Core.List.{append-nil, append_assoc}
use stage.Prelude.{
  ℕ, ◌≡◌, ◌⊎◌, refl, ap, sym, ◌∙◌, subst, Bool, true, ◌&&◌, Option, none, some, List, [], ◌∷◌, ◌++◌,
  Str, ◌==◌, ==_refl, str_eq, nat_eq, drop, All, All-split, In, In-of_All, if◌then◌else◌, if_cases,
  inl, inr, arith,
}
use stage.DashMap.{DashMap}
use stage.Effects.{ok, bad_status, node_not_found, unreadable, Wire, ◌>>=◌, or_fail, is_success}
use stage.Effects.Sends.{
  Sends, Sends-bind, Sends-pure, Sends-fail, Sends-or_fail, Sends-send, Sends-if,
}
use stage.Membership.Types.{NodeId, SocketAddr, Node}
use stage.Membership.Service.{get_member}
use stage.Site.{Site, owners_of}
use stage.Storage.Protocol.{
  Format, Request, replicate, forward_put, get_internal, partition_dump, Response,
}
use stage.Storage.Memory.{
  Store, should_process, store_local, store_replica, lookup, once, store_as_primary, post,
  replicate_to_backup, replicate_to_all,
}
use stage.Storage.Memory.Local.{should_process_fresh}
use stage.Storage.Memory.Idempotence.{Seen, should_process_of_Seen, store_replica-Seen}
use stage.Storage.Memory.Replication.{Confirmed, store_as_primary-Confirmed}
use stage.Storage.Handlers.{handle_replicate, parse_entry}
use stage.Storage.Handlers.Serving.{RoundTrips, store_replica_fresh}

-- Two addresses are the same.
abbrev pub addr_beq : SocketAddr → SocketAddr → Bool
addr_beq a b = (a.ip == b.ip) && (a.port == b.port)

module _ (dm : DashMap) {K V : Type 0} (f : Format K V) (base : Str) where
  -- A node at `addr` serves the replicas sent to it, each at its time if it arrives.
  module _ (addr : SocketAddr) (arrives : List Request → Request → Bool)
      (clock : List Request → ℕ) where
    -- The store of a node at `addr` after a request, given what has been sent before: a replica that is sent to
    -- it and arrives is handled.
    abbrev pub serve : List Request → Request → Store dm K V → Store dm K V
    serve before (to, path, replicate p op_id key json) s =
        if addr_beq to addr
          && (path == base)
          && arrives before (to, path, replicate p op_id key json)
        then (handle_replicate dm f (clock before) p op_id key json s).1
        else s
    serve before (to, path, forward_put p op_id key json) s = s
    serve before (to, path, get_internal key) s = s
    serve before (to, path, partition_dump p) s = s

    -- After a sequence of requests.
    unfoldable pub serve_all : List Request → List Request → Store dm K V → Store dm K V
    serve_all before [] s = s
    serve_all before (q ∷ qs) s = serve_all (before ++ q ∷ []) qs (serve before q s)

    serve_all-append :
        (before xs ys : List Request) (s : Store dm K V)
        → serve_all before (xs ++ ys) s ≡ serve_all (before ++ xs) ys (serve_all before xs s)
    unfolding serve_all
    serve_all-append before [] ys s = rw append-nil
    serve_all-append before (x ∷ xs) ys s =
        serve_all-append (before ++ x ∷ []) xs ys (serve before x s)
        ∙ ap (λ l. serve_all l ys (serve_all (before ++ x ∷ []) xs (serve before x s)))
            (append_assoc before (x ∷ []) xs)

    -- The replica of one write.
    module _ (rt : RoundTrips f) (p : ℕ) (op_id : Str) (k : K) (v : V) (json : Str)
        (written : f.to_json v ≡ some json) where
      abbrev pub IsReplica : Request → Type 0
      IsReplica q = q.2 ≡ replicate p op_id (f.to_string k) json

      -- The operation has been recorded, and the value is there.
      abbrev pub Held : Store dm K V → Type 0
      Held s = Seen dm f s op_id × (lookup dm f s p k ≡ some v)

      -- The operation is new, or the value is there.
      abbrev pub Fine : Store dm K V → Type 0
      Fine s = (dm.get s.processed_ops op_id ≡ none) ⊎ Held s

      store_replica-Held :
          (now : ℕ) (s : Store dm K V) → Fine s → Held (store_replica dm f now p op_id k v s)
      unfolding store_replica
      store_replica-Held now s (inl fresh) = (
        store_replica-Seen dm f now p op_id k v s,
        store_replica_fresh dm f rt now p op_id k v s p k fresh
            ∙ rw (==_refl p, (f.key_eq.same_iff k k).1 refl),
      )
      store_replica-Held now s (inr (seen, there)) =
          rw (should_process_of_Seen dm f now s op_id seen) (seen, there)

      handled :
          (now : ℕ) (s : Store dm K V)
          → (handle_replicate dm f now p op_id (f.to_string k) json s).1
            ≡ store_replica dm f now p op_id k v s
      unfolding handle_replicate parse_entry
      handled now s =
          rw (rt.parse-to_string k, handle_replicate)
            (rw (rt.from_json-to_json v json written, handle_replicate) refl)

      serve-Held :
          (before : List Request) (q : Request) (s : Store dm K V)
          → IsReplica q
          → Held s
          → Held (serve before q s)
      serve-Held before (to, path, call) s e h =
          subst (λ c. Held (serve before (to, path, c) s)) (sym e)
            (if_cases Held
              (addr_beq to addr
                && (path == base)
                && arrives before (to, path, replicate p op_id (f.to_string k) json))
              (λ _.
                subst Held (sym (handled (clock before) s))
                  (store_replica-Held (clock before) s (inr h)))
              (λ _. h))

      serve-Fine :
          (before : List Request) (q : Request) (s : Store dm K V)
          → IsReplica q
          → Fine s
          → Fine (serve before q s)
      serve-Fine before (to, path, call) s e h =
          subst (λ c. Fine (serve before (to, path, c) s)) (sym e)
            (if_cases Fine
              (addr_beq to addr
                && (path == base)
                && arrives before (to, path, replicate p op_id (f.to_string k) json))
              (λ _. inr (
                subst Held (sym (handled (clock before) s))
                  (store_replica-Held (clock before) s h)))
              (λ _. h))

      serve_arrived :
          (before : List Request) (s : Store dm K V)
          → arrives before (addr, base, replicate p op_id (f.to_string k) json) ≡ true
          → Fine s
          → Held (serve before (addr, base, replicate p op_id (f.to_string k) json) s)
      serve_arrived before s there h =
          rw (there, ==_refl {A = ℕ} addr.ip, ==_refl {A = ℕ} addr.port, ==_refl {A = Str} base)
            (subst Held (sym (handled (clock before) s)) (store_replica-Held (clock before) s h))

      serve_all-Fine :
          (before l : List Request) (s : Store dm K V)
          → All IsReplica l
          → Fine s
          → Fine (serve_all before l s)
      unfolding serve_all
      serve_all-Fine before [] s e h = h
      serve_all-Fine before (q ∷ l) s (e, es) h =
          serve_all-Fine (before ++ q ∷ []) l (serve before q s) es (serve-Fine before q s e h)

      serve_all-Held :
          (before l : List Request) (s : Store dm K V)
          → All IsReplica l
          → Held s
          → Held (serve_all before l s)
      unfolding serve_all
      serve_all-Held before [] s e h = h
      serve_all-Held before (q ∷ l) s (e, es) h =
          serve_all-Held (before ++ q ∷ []) l (serve before q s) es (serve-Held before q s e h)

      -- Replicas of one write of which one arrives leave the value.
      pub serve_all_arrived :
          (xs ys : List Request) (s : Store dm K V)
          → All IsReplica (xs ++ (addr, base, replicate p op_id (f.to_string k) json) ∷ ys)
          → arrives xs (addr, base, replicate p op_id (f.to_string k) json) ≡ true
          → Fine s
          → Held (serve_all [] (xs ++ (addr, base, replicate p op_id (f.to_string k) json) ∷ ys) s)
      unfolding serve_all
      serve_all_arrived xs ys s replicas there h =
          let q : Request = (addr, base, replicate p op_id (f.to_string k) json) in
          let (first, rest) = All-split IsReplica xs (q ∷ ys) replicas in
          subst Held (sym (serve_all-append [] xs (q ∷ ys) s)) (
            serve_all-Held (xs ++ q ∷ []) ys (serve xs q (serve_all [] xs s)) rest.1
              (serve_arrived xs (serve_all [] xs s) there (serve_all-Fine [] xs s first h)))

module _ (dm : DashMap) {K V : Type 0} (f : Format K V) (rt : RoundTrips f) (site : Site dm)
    (base : Str) (w : Wire Request Response) (p : ℕ) (op_id : Str) (k : K) (v : V) (json : Str)
    (written : f.to_json v ≡ some json) where
  abbrev OnlyReplicas : Request → Type 0
  OnlyReplicas q = q.2 ≡ replicate p op_id (f.to_string k) json

  post_written-Sends :
      (node : Node) (o : Option Str)
      → o ≡ some json
      → Sends OnlyReplicas (
          or_fail o unreadable >>= λ j.
          post dm f site base w node (replicate p op_id (f.to_string k) j))
  unfolding post
  post_written-Sends node none e = absurd (ground arith)
  post_written-Sends node (some j) e =
      let same : j ≡ json = ground arith in
      let q : Request = (node.http_addr, base, replicate p op_id (f.to_string k) j) in
      let posts : Sends OnlyReplicas (post dm f site base w node q.2) =
        Sends-bind OnlyReplicas
          (Sends-send OnlyReplicas w 3 q (ap (λ i. replicate p op_id (f.to_string k) i) same))
          λ r.
            Sends-if OnlyReplicas (is_success r.status) (Sends-pure OnlyReplicas tt)
              (Sends-fail OnlyReplicas (bad_status r.status)) in
      record { at = λ s log. posts.at s log }

  replicate_to_backup-Sends :
      (backup : NodeId)
      → Sends OnlyReplicas (replicate_to_backup dm f site base w backup p op_id k v)
  unfolding replicate_to_backup
  replicate_to_backup-Sends backup =
      Sends-bind OnlyReplicas
        (Sends-or_fail OnlyReplicas (get_member dm site.membership backup) node_not_found)
        λ node. post_written-Sends node (f.to_json v) written

  replicate_to_all-Sends :
      (ids : List NodeId) → Sends OnlyReplicas (replicate_to_all dm f site base w ids p op_id k v)
  unfolding replicate_to_all
  replicate_to_all-Sends [] = Sends-pure OnlyReplicas tt
  replicate_to_all-Sends (b ∷ bs) =
      Sends-bind OnlyReplicas (replicate_to_backup-Sends b) λ _. replicate_to_all-Sends bs

  -- A write that a primary acknowledges, under an operation id that it had not seen, is held by each
  -- backup of the partition that is a node of this program: a backup that does not answer a request without having received it, and whose
  -- store does not know the operation yet, has the value under its key once the requests that
  -- the write has sent are handled, whichever of them arrive and in whatever number.
  pub store_as_primary-Held :
      (now : ℕ) (s : Store dm K V) (backup : NodeId) (node : Node) (remote : Store dm K V)
      (arrives : List Request → Request → Bool) (clock : List Request → ℕ)
      → dm.get s.processed_ops op_id ≡ none
      → (store_as_primary dm f site base w now p op_id k v (s, [])).0 ≡ ok tt
      → In backup (drop 1 (owners_of dm site p))
      → get_member dm site.membership backup ≡ some node
      → dm.get remote.processed_ops op_id ≡ none
      → ((before : List Request) (q : Request) (r : Response)
          → w.answer before q ≡ some r
          → arrives before q ≡ true)
      → lookup dm f
          (serve_all dm f base node.http_addr arrives clock []
            (store_as_primary dm f site base w now p op_id k v (s, [])).1.1
            remote)
          p
          k
        ≡ some v
  unfolding store_as_primary once
  store_as_primary-Held now s backup node remote arrives clock fresh h i known new reached =
      let run = store_as_primary dm f site base w now p op_id k v (s, []) in
      let (node', json', r, known', written', (xs, ys, e, answered), success) =
        In-of_All (Confirmed dm f site base w p op_id k v run.1.1) (drop 1 (owners_of dm site p))
          (store_as_primary-Confirmed dm f site base w now p op_id k v s [] fresh h) backup i in
      let (accepted, _) = should_process_fresh dm f now s op_id fresh in
      let t = store_local dm f (should_process dm f now s op_id).1 p k v in
      let (more, grown, replicas) =
        (replicate_to_all-Sends (drop 1 (owners_of dm site p))).at t [] in
      let same_node : node' ≡ node = ground arith in
      let same_json : json' ≡ json = ground arith in
      let q : Request = (node.http_addr, base, replicate p op_id (f.to_string k) json) in
      let same_q : (node'.http_addr, base, replicate p op_id (f.to_string k) json') ≡ q =
        λ i. ((same_node i).http_addr, base, replicate p op_id (f.to_string k) (same_json i)) in
      let split : run.1.1 ≡ xs ++ q ∷ ys = e ∙ ap (λ z. xs ++ z ∷ ys) same_q in
      let all : run.1.1 ≡ more = rw accepted grown in
      let there = reached xs q r (subst (λ z. w.answer xs z ≡ some r) same_q answered) in
      subst
        (λ l.
          lookup dm f (serve_all dm f base node.http_addr arrives clock [] l remote) p k ≡ some v)
        (sym split)
        (serve_all_arrived dm f base node.http_addr arrives clock rt p op_id k v json written xs ys
          remote (subst (All OnlyReplicas) (sym all ∙ split) replicas) there (inl new)).1
