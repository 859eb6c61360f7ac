-- ===== src/Tests/Peers.antt =====
-- Runs of src/storage/handlers.rs and of the resync of src/main.rs between two nodes.
use stage.Prelude.{All, inl, true, drop, sym, ◌≡◌, refl, some, [], ◌∷◌, Str, str, str_eq, nat_eq}
use stage.Assoc.{assoc}
use stage.Effects.{send_with_retry, attempt, ok, Wire}
use stage.Membership.Types.{Node, alive}
use stage.Membership.Service.{get_member, get_alive_members}
use stage.Storage.Partitioner.{new_with_replication, get_owners}
use stage.Site.{owners_of, Site, source_owner}
use stage.Storage.Protocol.{other_body, Request, Response, get_internal}
use stage.Storage.Memory.{
  store_as_primary, once, should_process, replicate_to_all, replicate_to_backup, post, Store,
  store_local, has_partition, get_local, lookup, fetch_remote,
}
use stage.Storage.Memory.Local.{or_else}
use stage.Storage.Handlers.{
  handle_get_internal, value_reply, handle_partition_dump, get_answer, dump_answer,
}
use stage.Storage.Memory.Replication.{Confirmed, store_as_primary-Confirmed}
use stage.Storage.Handlers.Durable.{serve_all, store_as_primary-Held}
use stage.Storage.Handlers.Serving.{RoundTrips, fetch_remote-handle_get_internal}
use stage.Storage.Sync.{sync_partition}
use stage.Storage.Sync.Recovery.{lookup-sync_partition}
use stage.Tests.{bob, addr, node, pair, length_hash, texts, empty_store, key, old, down}

texts-RoundTrips : RoundTrips texts
texts-RoundTrips = record { parse-to_string = λ k. refl; from_json-to_json = λ v json e. sym e }

abbrev pub pair_site : Site assoc
pair_site = record { membership = pair; partitioner = new_with_replication 2; hash = length_hash }

abbrev remote : Store assoc Str Str
remote = store_local assoc texts empty_store 3 key old

-- A network on which `bob` answers with what `remote` has.
abbrev reads_bob : Wire Request Response
reads_bob = record {
  answer =
      λ log q. some (get_answer (handle_get_internal assoc texts pair_site [] down remote key));
  random = λ n. n;
}

abbrev dumps_bob : Wire Request Response
dumps_bob = record {
  answer = λ log q. some (dump_answer (handle_partition_dump assoc texts remote 3));
  random = λ n. n;
}

abbrev bob_node : Node
bob_node = node bob alive 1 (some 0)

fetch_remote-handle_get_internal_example :
    fetch_remote assoc texts pair_site [] reads_bob bob key (empty_store, []) ≡ (
      ok (get_local assoc texts pair_site [] reads_bob remote key),
      (empty_store, (addr 6000, [], get_internal key) ∷ []),
    )
unfolding get_member handle_get_internal get_local value_reply
fetch_remote-handle_get_internal_example =
    fetch_remote-handle_get_internal assoc texts texts-RoundTrips pair_site [] reads_bob bob
      bob_node key remote empty_store [] refl refl (λ v e. (v, refl))

lookup-sync_partition_example :
    lookup assoc texts
      (sync_partition assoc texts pair_site [] dumps_bob 3 (empty_store, [])).0
      3
      key
    ≡ or_else (lookup assoc texts remote 3 key) (lookup assoc texts empty_store 3 key)
unfolding source_owner get_owners get_alive_members new_with_replication has_partition get_member
lookup-sync_partition_example =
    lookup-sync_partition assoc texts pair_site [] dumps_bob 3 bob bob_node remote empty_store [] 3
      key texts-RoundTrips (λ v. (v, refl)) refl refl refl

-- A network on which every request succeeds.
abbrev accepts_all : Wire Request Response
accepts_all = record {
  answer = λ log q. some (record { status = 200; body = other_body });
  random = λ n. n;
}

store_as_primary-Confirmed_example :
    All
      (Confirmed assoc texts pair_site [] accepts_all 0
        (str "op")
        key
        old
        (store_as_primary assoc texts pair_site [] accepts_all 7 0
          (str "op")
          key
          old
          (empty_store, [])).1.1)
      (drop 1 (owners_of assoc pair_site 0))
unfolding store_as_primary once should_process replicate_to_all replicate_to_backup post
    send_with_retry attempt get_member get_owners get_alive_members new_with_replication
store_as_primary-Confirmed_example =
    store_as_primary-Confirmed assoc texts pair_site [] accepts_all 7 0 (str "op") key old
      empty_store [] refl refl

store_as_primary-Held_example :
    lookup assoc texts
      (serve_all assoc texts []
        (addr 6000)
        (λ before q. true)
        (λ before. 8)
        []
        (store_as_primary assoc texts pair_site [] accepts_all 7 4
          (str "op")
          key
          old
          (empty_store, [])).1.1
        empty_store)
      4
      key
    ≡ some old
unfolding store_as_primary once should_process replicate_to_all replicate_to_backup post
    send_with_retry attempt get_member get_owners get_alive_members new_with_replication
store_as_primary-Held_example =
    store_as_primary-Held assoc texts texts-RoundTrips pair_site [] accepts_all 4 (str "op") key old
      old refl 7 empty_store bob bob_node empty_store (λ before q. true) (λ before. 8) refl refl
      (inl refl) refl refl (λ before q r e. refl)
