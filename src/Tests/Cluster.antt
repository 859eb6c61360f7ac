-- ===== src/Tests/Cluster.antt =====
-- Runs of src/membership/service.rs and src/storage/partitioner.rs on small clusters.
use stage.Prelude.{ℕ, ◌+◌, ◌≡◌, ◌⊎◌, Option, none, some, List, [], ◌∷◌, str_eq, arith}
use stage.Assoc.{assoc}
use stage.Membership.Types.{Node, alive, suspect, suspects, state_eq}
use stage.Membership.Known.{update_all}
use stage.Membership.Service.{merge_all, handle_message}
use stage.Membership.Service.Monotone.{OwnsCounter, Persists, handle_message-Keeps}
use stage.Membership.Service.Convergence.{known, known-merge_all}
use stage.Membership.Detector.{tick}
use stage.Membership.Detector.Tick.{Inspected, tick-Inspected}
use stage.Tests.{ann, bob, addr, node, codec, pair, pair-WellKeyed}

abbrev clock : ℕ → ℕ
clock i = 7 + i

abbrev heard : List Node
heard = node bob suspect 3 none ∷ node ann alive 2 none ∷ []

-- What `ann` knows of herself.
abbrev herself : Node
herself = node ann alive 1 (some 0)

pair-OwnsCounter : OwnsCounter assoc pair
pair-OwnsCounter = record {
  at_key = pair-WellKeyed;
  ahead = λ m h. ground arith;
  room = omega arith;
}

handle_message-Keeps_example :
    Persists
      (assoc.get pair.members bob)
      (assoc.get (handle_message assoc codec clock pair (suspects bob 5) (addr 1)).0.members bob)
handle_message-Keeps_example =
    handle_message-Keeps assoc codec clock pair (suspects bob 5) (addr 1) bob pair-OwnsCounter
      (λ h. h)

known-merge_all_example :
    known assoc (merge_all assoc clock pair heard) bob ≡ update_all bob (known assoc pair bob) heard
known-merge_all_example = known-merge_all assoc clock pair heard bob

tick-Inspected_example :
    ((assoc.get pair.members bob ≡ none)
      × (assoc.get (tick assoc codec 6000 pair).0.members bob ≡ none))
    ⊎ ((m n : Node) × (assoc.get pair.members bob ≡ some m)
        × (assoc.get (tick assoc codec 6000 pair).0.members bob ≡ some n)
        × Inspected ann 6000 m n)
tick-Inspected_example = tick-Inspected assoc codec 6000 pair bob

abbrev incarnation_of : Option Node → ℕ
incarnation_of none = 0
incarnation_of (some m) = m.incarnation
