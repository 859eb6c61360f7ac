-- ===== src/Membership/Nodes.antt =====
-- The values of the members map, as src/membership/service.rs iterates over them.
use stage.Prelude.{◌≡◌, ap, ◌∙◌, sym, ◌↔◌, some, In, In-map, In-of_In-map, In-keep_iff, str_eq}
use stage.DashMap.{DashMap}
use stage.Membership.Types.{NodeId, Node, alive, state_eq}
use stage.Membership.Service.{Service, nodes, get_alive_members}

module _ (dm : DashMap) where
  pub In-nodes :
      (v : dm.Map NodeId Node) (n : Node) → In n (nodes dm v) → (k : NodeId) × (dm.get v k ≡ some n)
  In-nodes v n i =
      let ((k, m), j, p) = In-of_In-map (λ (e : NodeId × Node). e.1) n (dm.entries v) i in
      (k, (dm.In-entries v k m).0 j ∙ ap some (sym p))

  pub nodes-In :
      (v : dm.Map NodeId Node) (k : NodeId) (n : Node) → dm.get v k ≡ some n → In n (nodes dm v)
  nodes-In v k n e =
      In-map (λ (e : NodeId × Node). e.1) (k, n) (dm.entries v) ((dm.In-entries v k n).1 e)

  -- The alive members are the entries of the view whose state is alive.
  pub In-get_alive_members_iff :
      (s : Service dm) (n : Node)
      → In n (get_alive_members dm s)
        ↔ ((k : NodeId) × (dm.get s.members k ≡ some n) × (n.state ≡ alive))
  unfolding get_alive_members
  In-get_alive_members_iff s n =
      let (to, from) =
        In-keep_iff (λ (n : Node). state_eq.same n.state alive) n (nodes dm s.members) in
      (
        λ h.
            let (i, a) = to h in
            let (k, e) = In-nodes s.members n i in (k, e, (state_eq.same_iff n.state alive).0 a),
        λ (k, e, a). from (nodes-In s.members k n e, (state_eq.same_iff n.state alive).1 a),
      )

  -- Each entry stands under its node's id, as every handler inserts it.
  abbrev pub WellKeyed : Service dm → Type 0
  WellKeyed s = (k : NodeId) (n : Node) → dm.get s.members k ≡ some n → n.id ≡ k
