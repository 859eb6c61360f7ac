-- ===== src/Tests/Starts.antt =====
-- A node starts from its command line, takes its first book in, and goes on working.
use stage.Prelude.{
  subst, true, All, any, ◌==◌, ℕ, In, ◌≢◌, ◌≡◌, refl, Option, none, some, List, [], ◌∷◌, Str, str,
  str_eq, nat_eq, inl, arith,
}
use stage.Assoc.{assoc}
use stage.Effects.{ok}
use stage.Membership.Types.{SocketAddr}
use stage.Membership.Service.{Service, new, local_node_of, send_joins}
use stage.Membership.Service.{get_alive_members}
use stage.Storage.Partitioner.{
  new_with_replication, get_owners, get_partition, my_primary_partitions,
}
use stage.Storage.Memory.{get_local, lookup, get_value, put_with_op, replicate_to_all}
use stage.Executor.Queue.{new_entry, my_pending_tasks, try_claim_task, complete_task}
use stage.Executor.Routing.{my_tasks, submit}
use stage.Executor.Worker.{claim_first}
use stage.Indexer.{index_document, push_absent}
use stage.App.{App, Setting, index_task}
use stage.Text.{len, split_whitespace, split_from, is_whitespace, find, starts_with, trim}
use stage.Search.Tokenizer.{collect_set, tokenize_text}
use stage.Ingestion.Parsing.{split_gutenberg_text, split_at, slice}
use stage.Ingestion.Handlers.{response, handle_ingest_gutenberg}
use stage.Ingestion.Handlers.Stored.{metadata_of}
use stage.Storage.Protocol.{Request}
use stage.Search.Types.{BookMetadata}
use stage.Search.Engine.{Scored, search}
use stage.Search.Tokenizer.{tokenize_query}
use stage.Search.Handlers.{CreateBookRequest}
use stage.Server.Node.{
  NodeEvent, add_book, work, ask_status, resync_index, ingest_book, write_book, write_posting, run,
}
use stage.Storage.Handlers.{public, parse_entry}
use stage.Server.Node.Lasting.{Keeps, search-run}
use stage.Server.Node.Unseen.{IsUnseen, search-run_unseen}
use stage.Search.Engine.Scores.{occurrences}
use stage.Indexer.Round.{node_round, Indexed}
use stage.Server.Args.{parse_args, scan}
use stage.Server.Boot.{
  boot, join_cluster, set_up, replication_factor, usize_or, empty_node, boot-IsAlone,
}
use stage.Server.Boot.Onward.{search-boot}
use stage.Server.Boot.FirstBook.{node_round-boot}
use stage.Tests.{ann, addr, codec, length_hash}
use stage.Tests.Texts.{setting, emma, unsent}
use stage.Tests.Books.{clock, in_order, drawn, draws, text, download}

abbrev parse_port : Str → Option SocketAddr
parse_port [] = none
parse_port (p ∷ s) = some (addr p)

abbrev founder : Service assoc
unfolding local_node_of
founder = record {
  local_node = local_node_of assoc ann (addr 5000) 0;
  members = assoc.insert assoc.empty ann (local_node_of assoc ann (addr 5000) 0);
  incarnation = 1;
}

abbrev founded : Setting assoc
founded = record setting {
  site = record { membership = founder; partitioner = new_with_replication 3; hash = length_hash };
  formats = record setting.formats { index = record unsent { from_json = λ s. some (s ∷ []) } };
}

abbrev environment : Str → Option Str
environment name = some (str "3")

abbrev command_line : List Str
command_line = str "node" ∷ str "--bind" ∷ (5000 ∷ []) ∷ []

boots :
    boot assoc codec length_hash parse_port environment ann 0 command_line
    ≡ some (founded.site, (empty_node assoc, []))
unfolding boot join_cluster set_up replication_factor usize_or new send_joins parse_args scan
    stage.Text.parse_unsigned stage.Text.parse_digits
boots = refl

node_round-boot_example :
    let took = handle_ingest_gutenberg assoc founded download draws emma (empty_node assoc, []) in
    let ran = node_round assoc founded (λ e. []) in_order 8 clock clock drawn [] took.1 in
    (took.0 ≡ ok (202, response emma (str "ingested")))
    × (ran.1 ≡ some (str "task", index_task assoc founded emma))
    × Indexed assoc founded
        (λ e. [])
        in_order
        (str "task")
        emma
        (str "rust")
        (metadata_of assoc founded emma (str "Title: Emma") (str "rust"))
        ran
unfolding split_gutenberg_text split_at slice find starts_with trim tokenize_text collect_set len
    split_whitespace split_from is_whitespace
node_round-boot_example =
    node_round-boot assoc founded codec length_hash parse_port environment ann 0 command_line
      (empty_node assoc) [] download draws emma text (str "Title: Emma") (str "rust") (str "rust")
      (λ e. []) in_order clock drawn 8 clock [] [] boots refl refl (λ i j e. ground (arith, e))
      (λ w ws i. i) (inl refl)

-- The node after a worker's round has run the task.
abbrev ready : App assoc × List Request
ready =
    (node_round assoc founded (λ e. []) in_order 8 clock clock drawn []
      (handle_ingest_gutenberg assoc founded download draws emma (empty_node assoc, [])).1).0

abbrev by_hand : CreateBookRequest
by_hand = record { title = str "Emma"; author = str "Austen"; language = str "en"; year = none }

abbrev day : List NodeEvent
day =
    add_book 20 21 (str "159") (str "op-2") (str "task-2") by_hand
    ∷ work 21 clock clock (λ i. 1 ∷ i ∷ []) []
    ∷ ask_status emma
    ∷ resync_index (λ ps. ps)
    ∷ ingest_book draws emma
    ∷ write_posting public 22 (str "op-3") (str "rust") emma
    ∷ write_book public 23 (str "op-4") (str "emma") (str "not metadata")
    ∷ []

-- The direct write of postings gives the id of the book.
day_posting :
    (k : Str) (v : List Str)
    → parse_entry assoc founded.formats.index (str "rust") emma ≡ some (k, v)
    → emma ∷ [] ≡ v
unfolding parse_entry
day_posting k v parsed = ground (arith, parsed)

day_metadata :
    (k : Str) (v : BookMetadata)
    → parse_entry assoc founded.formats.books (str "emma") (str "not metadata") ≡ some (k, v)
    → v.book_id ≡ k
unfolding parse_entry
day_metadata k v parsed = absurd (ground (arith, parsed))

day-Keeps : All (Keeps assoc founded emma (str "rust")) day
day-Keeps = (
  tt,
  (
    tt,
    (
      tt,
      (
        tt,
        (
          tt,
          (
            λ k v parsed same.
                subst (λ l. any (λ i. i == emma) l ≡ true) (day_posting k v parsed) refl,
            (day_metadata, tt),
          ),
        ),
      ),
    ),
  ),
)

search-run_example :
    let s = run assoc founded download (λ e. []) in_order day ready in
    (m : BookMetadata) × (m.book_id ≡ emma)
    × (results : List Scored) × (sent : List Request) × (search assoc founded (str "rust") s
        ≡ (ok results, (s.0, sent)))
    × ((n : ℕ) × In (m, n) results)
unfolding get_local lookup handle_ingest_gutenberg node_round claim_first my_tasks my_pending_tasks
    my_primary_partitions new_with_replication local_node_of get_owners get_alive_members get_value
    get_partition put_with_op replicate_to_all submit stage.Executor.Routing.store_as_primary
    stage.Executor.Routing.replicate_to_all stage.Executor.Queue.store_local new_entry
    try_claim_task complete_task index_document push_absent len split_whitespace split_from
    is_whitespace find starts_with trim stage.Storage.Memory.store_local tokenize_query
search-run_example =
    search-run assoc founded emma (str "rust")
      (boot-IsAlone assoc codec length_hash parse_port environment ann 0 command_line founded.site
        (empty_node assoc) [] boots)
      download (λ e. []) in_order day ready.0 ready.1 ((_, refl, refl), ([], refl)) day-Keeps refl

untouched : IsUnseen assoc founded (str "159") (empty_node assoc)
unfolding get_local lookup occurrences
untouched = record {
  no_document = refl;
  no_postings = λ t. refl;
  named = λ k m there. absurd (ground (arith, there));
}

no_posting : occurrences (str "159") (emma ∷ []) ≡ 0
unfolding occurrences
no_posting = refl

search-run_unseen_example :
    let s = run assoc founded download (λ e. []) in_order day (empty_node assoc, []) in
    (results : List Scored) × (sent : List Request) × (search assoc founded (str "emma austen") s
      ≡ (ok results, (s.0, sent)))
    × ((m : BookMetadata) (n : ℕ) → In (m, n) results → m.book_id ≢ str "159")
search-run_unseen_example =
    search-run_unseen assoc founded (str "159")
      (boot-IsAlone assoc codec length_hash parse_port environment ann 0 command_line founded.site
        (empty_node assoc) [] boots)
      download (λ e. []) in_order day (empty_node assoc) [] (str "emma austen") untouched
      (
        tt,
        (
          tt,
          (
            tt,
            (
              tt,
              (
                λ e. ground (arith, e),
                (
                  λ k v parsed.
                      subst (λ l. occurrences (str "159") l ≡ 0) (day_posting k v parsed)
                        no_posting,
                  (day_metadata, tt),
                ),
              ),
            ),
          ),
        ),
      )

search-boot_example :
    let took = handle_ingest_gutenberg assoc founded download draws emma (empty_node assoc, []) in
    let ran = node_round assoc founded (λ e. []) in_order 8 clock clock drawn [] took.1 in
    let s = run assoc founded download (λ e. []) in_order day ran.0 in
    (took.0 ≡ ok (202, response emma (str "ingested")))
    × (m : BookMetadata) × (m.book_id ≡ emma)
    × (results : List Scored) × (sent : List Request) × (search assoc founded (str "rust") s
        ≡ (ok results, (s.0, sent)))
    × ((n : ℕ) × In (m, n) results)
unfolding split_gutenberg_text split_at slice find starts_with trim tokenize_text collect_set len
    split_whitespace split_from is_whitespace
search-boot_example =
    search-boot assoc founded codec length_hash parse_port environment ann 0 command_line
      (empty_node assoc) [] download draws emma text (str "Title: Emma") (str "rust") (str "rust")
      (λ e. []) in_order clock drawn 8 clock [] [] day boots refl refl (λ i j e. ground (arith, e))
      (λ w ws i. i) (inl refl) day-Keeps
