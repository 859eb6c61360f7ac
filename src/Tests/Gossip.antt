-- ===== src/Tests/Gossip.antt =====
-- Two nodes of src/membership/service.rs: one is suspected although it goes on pinging.
use stage.Prelude.{
  zero, suc, ◌≡◌, ◌≢◌, refl, Option, none, some, List, [], ◌∷◌, Str, str_eq, arith, ◌∙◌, sym, subst,
  get_elem?,
}
use stage.Assoc.{assoc}
use stage.Membership.Types.{
  alive, suspect, dead, Node, GossipMessage, ping, ack, join, suspects, alives, Codec,
}
use stage.Membership.Service.{
  new, send_joins, receive, handle_message, handle_join, handle_ping, gossip_round, send_to,
}
use stage.Membership.Detector.{tick}
use stage.Membership.Cluster.{Event, launch, deliver, gossip, detect, run, nothing}
use stage.Membership.Cluster.Frozen.{IsFrozen, run-IsFrozen}
use stage.Membership.Cluster.Doubt.{Unjoined, DoubtsAt, run-DoubtsAt}
use stage.Tests.{ann, bob, addr}

-- A serialisation that carries requests to join, and no member lists. A node that joins is alive.
abbrev encode : GossipMessage → Option Str
encode (ping id i) = some (0 ∷ i ∷ id)
encode (suspects id i) = some (1 ∷ i ∷ id)
encode (alives id i) = some (2 ∷ i ∷ id)
encode (ack id i ns) = none
encode (join n) = elim n.state [
  | alive ↦ some (
      3 ∷ n.gossip_addr.ip ∷ n.gossip_addr.port ∷ n.http_addr.ip ∷ n.http_addr.port ∷ n.incarnation
      ∷ n.id)
  | suspect ↦ none
  | dead ↦ none
]

abbrev decode_join : Str → Option GossipMessage
decode_join (a ∷ b ∷ c ∷ d ∷ i ∷ id) = some (
    join (record {
      id = id;
      gossip_addr = record { ip = a; port = b };
      http_addr = record { ip = c; port = d };
      state = alive;
      incarnation = i;
      last_seen = none;
    }))
decode_join _ = none

abbrev decode : Str → Option GossipMessage
decode [] = none
decode (zero ∷ []) = none
decode (zero ∷ i ∷ id) = some (ping id i)
decode (suc zero ∷ []) = none
decode (suc zero ∷ i ∷ id) = some (suspects id i)
decode (suc (suc zero) ∷ []) = none
decode (suc (suc zero) ∷ i ∷ id) = some (alives id i)
decode (suc (suc (suc tag)) ∷ rest) = decode_join rest

abbrev joining : Codec
joining = record {
  serialize = encode;
  deserialize = decode;
  deserialize-serialize = λ m b h. ground arith;
}

-- Bob joins Ann, each pings the other, and Bob's ping is late.
abbrev early : List Event
early =
    launch 0 ann (addr 5000) 0 []
    ∷ launch 1 bob (addr 5001) 0 (addr 5000 ∷ [])
    ∷ deliver 0 0 (λ i. 10) (addr 5001)
    ∷ gossip 0 0
    ∷ deliver 1 1 (λ i. 20) (addr 5000)
    ∷ gossip 1 0
    ∷ detect 0 6000
    ∷ []

abbrev late : List Event
late = deliver 0 2 (λ i. 6001) (addr 5001) ∷ detect 0 7000 ∷ []

run-IsFrozen_example : IsFrozen assoc joining (run assoc joining (nothing assoc) early)
run-IsFrozen_example = run-IsFrozen assoc joining early

bob_suspected : DoubtsAt assoc joining (run assoc joining (nothing assoc) early) 0 bob
unfolding run new send_joins receive handle_message handle_join handle_ping tick gossip_round
bob_suspected = (_, refl, (_, refl, λ h. ground arith))

ping_not_join :
    (b : Str) (n : Node) → some (0 ∷ 1 ∷ bob) ≡ some b → joining.deserialize b ≢ some (join n)
ping_not_join b n e h =
    let same : 0 ∷ 1 ∷ bob ≡ b = ground arith in
    let k = subst (λ s. joining.deserialize s ≡ some (join n)) (sym same) h in ground arith

third_sent : get_elem? (run assoc joining (nothing assoc) early).flight 2 ≡ some (0 ∷ 1 ∷ bob)
unfolding run new send_joins receive handle_message handle_join handle_ping tick gossip_round
    send_to
third_sent = refl

bob_stays_out : Unjoined assoc joining (run assoc joining (nothing assoc) early) 0 bob late
bob_stays_out = (
  λ (n, clock, src, b, m, e, here, reads, same).
      let flight = (run assoc joining (nothing assoc) early).flight in
      let third : n ≡ 2 = ground arith in
      let there = subst (λ i. get_elem? flight i ≡ some b) third here in
      ping_not_join b m (sym third_sent ∙ there) reads,
  ((λ (n, clock, src, b, m, e, here, reads, same). ground arith), tt),
)

run-DoubtsAt_example :
    DoubtsAt assoc joining (run assoc joining (run assoc joining (nothing assoc) early) late) 0 bob
run-DoubtsAt_example = run-DoubtsAt assoc joining early late 0 bob bob_suspected bob_stays_out
