-- ===== src/Membership/Service/SelfDefense.antt =====
-- src/membership/service.rs: a node that is suspected, `handle_suspect` for the local node, what
-- its answer does at the others, and the ways of being suspected that get no answer.
use stage.Prelude.{
  ℕ, ◌+◌, ◌%◌, ◌^◌, ◌<◌, ◌≡◌, ◌≢◌, some, ◌==◌, ==_iff, str_eq, if◌then◌else◌, arith,
}
use stage.DashMap.{DashMap}
use stage.Membership.Types.{NodeId, alive, dead, Node, alives, Codec, state_eq}
use stage.Membership.Service.{
  Service, merge_member, broadcast_message, refute, handle_suspect, handle_alive,
}

module _ (dm : DashMap) where
  open dm use {Map, get, insert, get-insert}

  -- A suspicion of the local node, at a larger incarnation than that of its living entry and while
  -- the counter is not at its end, moves the counter up by one, makes the local entry alive
  -- at that incarnation, leaves every other entry as it was, and broadcasts the new incarnation.
  pub handle_suspect_self :
      (c : Codec) (now : ℕ) (s : Service dm) (inc : ℕ) (m : Node)
      → get s.members s.local_node.id ≡ some m
      → m.id ≡ s.local_node.id
      → m.state ≢ dead
      → m.incarnation < inc
      → s.incarnation + 1 < 2 ^ 64
      → (t : Service dm) × (handle_suspect dm c now s s.local_node.id inc
          ≡ (t, broadcast_message dm c t (alives s.local_node.id (s.incarnation + 1))))
        × (t.incarnation ≡ s.incarnation + 1)
        × ((k : NodeId)
            → get t.members k ≡ (
                if s.local_node.id == k
                then some (record m {
                  state = alive;
                  incarnation = s.incarnation + 1;
                  last_seen = some now;
                })
                else get s.members k))
  unfolding handle_suspect refute
  handle_suspect_self c now s inc m e own living newer room =
      let local = s.local_node.id in
      let wraps : (s.incarnation + 1) % 2 ^ 64 ≡ s.incarnation + 1 = omega arith in
      (
        refute dm now s local m,
        rw (e, handle_suspect) (ground (arith, ==_iff m.id local)),
        wraps,
        λ k. rw (get-insert, wraps),
      )

  -- The answer carries the local counter plus one, whatever the suspicion's incarnation was: at a
  -- member that holds the suspicion at a larger one it changes nothing.
  pub handle_alive_too_low :
      (now : ℕ) (r : Service dm) (id : NodeId) (inc counter : ℕ) (n : Node)
      → get r.members id ≡ some n
      → n.incarnation ≡ inc
      → counter + 1 < inc
      → handle_alive dm now r id (counter + 1) ≡ r
  unfolding handle_alive
  handle_alive_too_low now r id inc counter n e p q = rw (e, handle_alive) (ground arith)

  -- A suspicion of the local node that comes inside a member list, at a larger incarnation, gets
  -- no answer: the counter stays, and the node's own view of itself is the suspicion.
  pub merge_member_self :
      (now : ℕ) (s : Service dm) (m n : Node)
      → get s.members s.local_node.id ≡ some m
      → n.id ≡ s.local_node.id
      → m.state ≢ dead
      → m.incarnation < n.incarnation
      → ((merge_member dm now s n).incarnation ≡ s.incarnation)
        × (get (merge_member dm now s n).members s.local_node.id
            ≡ some
                (record m { state = n.state; incarnation = n.incarnation; last_seen = some now }))
  unfolding merge_member
  merge_member_self now s m n e local living newer =
      let here : get s.members n.id ≡ some m = cc (e, local) in
      let heard : Node = record m {
        state = n.state;
        incarnation = n.incarnation;
        last_seen = some now;
      } in
      rw (here, merge_member)
        (ground
          (arith, get-insert s.members n.id heard s.local_node.id, ==_iff n.id s.local_node.id))
