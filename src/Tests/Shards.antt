-- ===== src/Tests/Shards.antt =====
-- Runs of src/storage/memory.rs and of the retry loop.
use stage.Prelude.{ℕ, ◌≡◌, refl, arith, Option, none, some, List, [], ◌∷◌, Str, str, str_eq, nat_eq}
use stage.Assoc.{assoc}
use stage.Effects.{ok, Wire, attempt}
use stage.Effects.Retry.{attempt_first_answer}
use stage.Storage.Protocol.{Request}
use stage.Storage.Memory.{Store, put_with_op, once, replicate_to_all, store_local}
use stage.Storage.Partitioner.{get_owners, new_with_replication, get_partition}
use stage.Membership.Service.{get_alive_members}
use stage.Storage.Memory.Idempotence.{Put, put_each, put_with_op_again}
use stage.Tests.{texts, empty_store, key, old, down, site}

abbrev new_value : Str
new_value = str "new"

-- A network on which the third request is answered.
abbrev third : List ℕ → ℕ → Option ℕ
third (_ ∷ _ ∷ log) q = some q
third log q = none

abbrev slow : Wire ℕ ℕ
slow = record { answer = third; random = λ n. n }

attempt_first_answer_example :
    ((attempt slow 9 3 150 [] 0).0 ≡ ok 9) × ((attempt slow 9 3 150 [] 0).1 ≡ 9 ∷ 9 ∷ 9 ∷ [])
attempt_first_answer_example =
    attempt_first_answer slow 9 3 2 150 [] 0 9 (omega arith) (refl, (refl, tt)) refl

abbrev first_put : Store assoc Str Str × List Request
first_put = (put_with_op assoc texts site [] down 5 key old (str "op") (empty_store, [])).1

abbrev between : List (Put Str Str)
between = record { now = 6; op_id = str "other"; key = key; value = old } ∷ []

put_with_op_again_example :
    put_with_op assoc texts site [] down 9 key new_value
      (str "op")
      (put_each assoc texts site [] down between first_put)
    ≡ (ok tt, put_each assoc texts site [] down between first_put)
unfolding put_with_op once get_owners get_alive_members new_with_replication get_partition
    replicate_to_all store_local
put_with_op_again_example =
    put_with_op_again assoc texts site [] down 5 9 key key old new_value (str "op") between
      empty_store [] (omega arith)
