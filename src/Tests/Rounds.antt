-- ===== src/Tests/Rounds.antt =====
-- A worker of a node that is alone runs the task of a book that has been taken in.
use stage.Prelude.{◌≡◌, refl, some, [], str, str_eq, inl}
use stage.Assoc.{assoc}
use stage.Effects.{ok}
use stage.Membership.Service.{get_alive_members}
use stage.Storage.Partitioner.{get_owners, get_partition, my_primary_partitions}
use stage.Storage.Memory.{get_local, lookup, get_value, put_with_op, replicate_to_all}
use stage.Executor.Queue.{new_entry, get_task_local, my_pending_tasks, try_claim_task}
use stage.Executor.Routing.{my_tasks, submit}
use stage.Executor.Worker.{claim_first}
use stage.Text.{len, split_whitespace, split_from, is_whitespace, find, starts_with, trim}
use stage.App.{index_task}
use stage.Search.Tokenizer.{collect_set, tokenize_text}
use stage.Ingestion.Parsing.{split_gutenberg_text, split_at, slice}
use stage.Ingestion.Handlers.{response, handle_ingest_gutenberg}
use stage.Ingestion.Handlers.Stored.{metadata_of}
use stage.Indexer.Round.{node_round, Indexed}
use stage.Indexer.Pipeline.{node_round-handle_ingest_gutenberg}
use stage.Tests.Texts.{setting, empty_app, emma, small_site-IsAlone}
use stage.Tests.Books.{drawn, clock, in_order, draws, text, download, drawn-IsFresh}

claimed_task :
    let s = (handle_ingest_gutenberg assoc setting download draws emma (empty_app, [])) in
    let r = node_round assoc setting (λ e. []) in_order 8 clock clock drawn [] s.1 in
    r ≡ (r.0, some (str "task", index_task assoc setting emma))
unfolding handle_ingest_gutenberg node_round claim_first my_tasks my_pending_tasks
    my_primary_partitions get_owners get_alive_members get_value get_partition put_with_op
    replicate_to_all submit stage.Executor.Routing.store_as_primary
    stage.Executor.Routing.replicate_to_all stage.Executor.Queue.store_local new_entry
    try_claim_task
claimed_task = refl

node_round-handle_ingest_gutenberg_example :
    let s = (handle_ingest_gutenberg assoc setting download draws emma (empty_app, [])) in
    let r = node_round assoc setting (λ e. []) in_order 8 clock clock drawn [] s.1 in
    (s.0 ≡ ok (202, response emma (str "ingested")))
    × Indexed assoc setting
        (λ e. [])
        in_order
        (str "task")
        emma
        (str "rust")
        (metadata_of assoc setting emma (str "Title: Emma") (str "rust"))
        (r.0, some (str "task", index_task assoc setting emma))
unfolding get_local lookup get_partition get_task_local split_gutenberg_text split_at slice find
    starts_with trim tokenize_text collect_set len split_whitespace split_from is_whitespace
node_round-handle_ingest_gutenberg_example =
    let s = handle_ingest_gutenberg assoc setting download draws emma (empty_app, []) in
    let r = node_round assoc setting (λ e. []) in_order 8 clock clock drawn [] s.1 in
    node_round-handle_ingest_gutenberg assoc setting download draws emma text (str "Title: Emma")
      (str "rust") (str "rust") (λ e. []) in_order clock drawn 8 clock [] empty_app r.0.0 [] r.0.1
      small_site-IsAlone refl refl refl refl refl refl drawn-IsFresh (λ w ws i. i) (inl refl)
      claimed_task
