-- ===== src/Membership/Service/Convergence.antt =====
-- src/membership/service.rs, `merge_member` and the loop of `handle_ack`: merging against its
-- specification.
use stage.Prelude.{
  ℕ, suc, ◌≡◌, ◌≢◌, refl, ap, ◌∙◌, some, List, [], ◌∷◌, All, ◌==◌, ==_iff, str_eq, if◌then◌else◌,
  arith, Option-cases, inl, inr,
}
use stage.DashMap.{DashMap}
use stage.Membership.Types.{NodeId, dead, Node, state_eq}
use stage.Membership.Known.{
  Known, known_of, update, update_all, update-known, update-none, update_comm,
  update_all-AllAbsorbed, update_all_of_AllAbsorbed,
}
use stage.Membership.Service.{Service, merge_member, merge_all}

module _ (dm : DashMap) where
  open dm use {get, insert, get-insert}

  abbrev pub known : Service dm → NodeId → Known
  known s k = known_of (get s.members k)

  known-merge_member :
      (now : ℕ) (s : Service dm) (n : Node) (k : NodeId)
      → known (merge_member dm now s n) k
        ≡ (if n.id == k then update (known s k) n.state n.incarnation else known s k)
  unfolding merge_member
  known-merge_member now s n k = elim (Option-cases (get s.members n.id)) [
    | inl e ↦
        rw (e, merge_member)
          (ground (
            arith,
            get-insert s.members n.id (record n { last_seen = some now }) k,
            ==_iff n.id k,
            update-none n.state n.incarnation,
          ))
    | inr (m, e) ↦
        let heard : Node = record m {
          state = n.state;
          incarnation = n.incarnation;
          last_seen = some now;
        } in
        rw (e, merge_member)
          (ground (
            arith,
            get-insert s.members n.id heard k,
            ==_iff n.id k,
            update-known m m.state n.state n.incarnation refl,
          ))
  ]

  -- Merging a list leaves of each member what its updates in the list, applied in order, make of
  -- what was known before. The clock has no part in it.
  pub known-merge_all :
      (clock : ℕ → ℕ) (s : Service dm) (ns : List Node) (k : NodeId)
      → known (merge_all dm clock s ns) k ≡ update_all k (known s k) ns
  unfolding merge_all update_all
  known-merge_all clock s [] k = refl
  known-merge_all clock s (n ∷ ns) k =
      known-merge_all (λ i. clock (suc i)) (merge_member dm (clock 0) s n) ns k
      ∙ ap (λ v. update_all k v ns) (known-merge_member (clock 0) s n k)

  -- Gossip is idempotent: to merge a list in which nobody is dead a second time, whatever the
  -- clock, changes no state and no incarnation.
  pub merge_all_twice :
      (clock later : ℕ → ℕ) (s : Service dm) (ns : List Node) (k : NodeId)
      → All (λ n. n.state ≢ dead) ns
      → known (merge_all dm later (merge_all dm clock s ns) ns) k
        ≡ known (merge_all dm clock s ns) k
  merge_all_twice clock later s ns k living =
      rw (known-merge_all, known-merge_all)
        (update_all_of_AllAbsorbed k _ ns (update_all-AllAbsorbed k (known s k) ns living))

  -- The order of two updates does not matter, if neither says that the member is dead and they
  -- are at different incarnations when they are about the same member.
  pub merge_member_comm :
      (now later : ℕ) (s : Service dm) (a b : Node) (k : NodeId)
      → a.state ≢ dead
      → b.state ≢ dead
      → (a.id ≡ b.id → a.incarnation ≢ b.incarnation)
      → known (merge_member dm later (merge_member dm now s a) b) k
        ≡ known (merge_member dm later (merge_member dm now s b) a) k
  merge_member_comm now later s a b k ha hb apart =
      rw (known-merge_member, known-merge_member, known-merge_member, known-merge_member)
        (ground (
          arith,
          update_comm (known s k) a.state b.state a.incarnation b.incarnation ha hb,
          ==_iff a.id k,
          ==_iff b.id k,
          apart,
        ))
