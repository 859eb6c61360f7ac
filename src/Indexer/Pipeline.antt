-- ===== src/Indexer/Pipeline.antt =====
-- src/ingestion, src/main.rs and src/search together: from a download to a search.
use stage.Prelude.{ℕ, ◌≡◌, refl, ap, sym, subst, Option, none, some, List, Str, str, str_eq, In}
use stage.DashMap.{DashMap}
use stage.Effects.{Error, ok}
use stage.Site.{IsAlone, partition_of}
use stage.Storage.Protocol.{Request}
use stage.Executor.Queue.{new_entry, get_task_local}
use stage.App.{App, Setting, index_task}
use stage.App.Alone.{documents_in}
use stage.Ingestion.Parsing.{parse_metadata, split_gutenberg_text}
use stage.Ingestion.Handlers.{source_url_of, response, raw_doc, Draws, handle_ingest_gutenberg}
use stage.Ingestion.Handlers.Stored.{metadata_of, handle_ingest_gutenberg_alone}
use stage.Search.Tokenizer.{tokenize_text}
use stage.Search.Engine.{Scored, search}
use stage.Indexer.{index_document}
use stage.Indexer.Postings.{IsFresh}
use stage.Indexer.Found.{search-index_document}
use stage.Indexer.Round.{node_round, Indexed, node_round_found}
use stage.Executor.Queue.Claims.{Op}

module _ (dm : DashMap) (x : Setting dm) where
  -- On a node that owns everything, a book whose text can be downloaded and split is taken in with
  -- 202 and its task is pending; once that task has run, a search for any term of its body finds
  -- the book with the metadata that its header gives.
  pub search-handle_ingest_gutenberg :
      (fetch_gutenberg_text : Str → Option Str) (d : Draws) (book_id text header body term : Str)
      (shuffle : List Str → List Str) (clock : ℕ → ℕ) (op_ids : ℕ → Str) (a : App dm)
      (log : List Request)
      → IsAlone dm x.site
      → documents_in dm x a book_id ≡ none
      → fetch_gutenberg_text (source_url_of book_id) ≡ some text
      → split_gutenberg_text text ≡ some (some (header, body))
      → dm.get a.datalake.processed_ops d.document_op ≡ none
      → dm.get a.books.processed_ops d.book_op ≡ none
      → get_task_local dm a.tasks (partition_of dm x.site d.task_id) d.task_id ≡ none
      → IsFresh dm x a.index op_ids
      → ((w : Str) (ws : List Str) → In w ws → In w (shuffle ws))
      → In term (tokenize_text x.unicode x.regex body)
      → (b : App dm) × (handle_ingest_gutenberg dm x fetch_gutenberg_text d book_id (a, log)
          ≡ (ok (202, response book_id (str "ingested")), (b, log)))
        × (get_task_local dm b.tasks (partition_of dm x.site d.task_id) d.task_id
            ≡ some (new_entry d.task_now (index_task dm x book_id)))
        × (let c =
              (index_document dm x shuffle clock op_ids (index_task dm x book_id) (b, log)).1 in
            (results : List Scored) × (sent : List Request) × (search dm x term c
              ≡ (ok results, (c.0, sent)))
            × ((n : ℕ) × In (metadata_of dm x book_id header body, n) results))
  search-handle_ingest_gutenberg fetch_gutenberg_text d book_id text header body term shuffle clock
        op_ids a log alone missing fetched split new_document new_book absent fresh keeps i =
      let (b, done, kept, holds, _) =
        handle_ingest_gutenberg_alone dm x fetch_gutenberg_text d d book_id text header body a log
          alone missing fetched split new_document new_book absent in
      (
        b,
        done,
        holds.task,
        search-index_document dm x shuffle clock op_ids book_id (raw_doc book_id header body)
            (metadata_of dm x book_id header body) term b log keeps alone
            (subst (λ s. IsFresh dm x s op_ids) (sym kept) fresh) holds.document holds.metadata i,
      )

  -- On a node that owns everything, a book that is not there and whose text can be downloaded and
  -- split is taken in with 202, and once a worker's round has claimed the task that this left, the
  -- task is completed without a lease, the book has metadata that name it and is in the postings of
  -- any term of its body, and a search for the term finds it with the metadata that its header
  -- gives. While the task runs, anything may happen to the queue. The operations of the request and
  -- of the task are new, and an order of iteration loses no token.
  pub node_round-handle_ingest_gutenberg :
      (fetch_gutenberg_text : Str → Option Str) (d : Draws) (book_id text header body term : Str)
      (show : Error → Str) (shuffle : List Str → List Str) (clock : ℕ → ℕ) (op_ids : ℕ → Str)
      (now : ℕ) (claims : ℕ → ℕ) (meanwhile : List Op) (a c : App dm) (log sent : List Request)
      → IsAlone dm x.site
      → documents_in dm x a book_id ≡ none
      → fetch_gutenberg_text (source_url_of book_id) ≡ some text
      → split_gutenberg_text text ≡ some (some (header, body))
      → dm.get a.datalake.processed_ops d.document_op ≡ none
      → dm.get a.books.processed_ops d.book_op ≡ none
      → get_task_local dm a.tasks (partition_of dm x.site d.task_id) d.task_id ≡ none
      → IsFresh dm x a.index op_ids
      → ((w : Str) (ws : List Str) → In w ws → In w (shuffle ws))
      → In term (tokenize_text x.unicode x.regex body)
      → node_round dm x show shuffle now claims clock op_ids meanwhile
          (handle_ingest_gutenberg dm x fetch_gutenberg_text d book_id (a, log)).1
        ≡ ((c, sent), some (d.task_id, index_task dm x book_id))
      → ((handle_ingest_gutenberg dm x fetch_gutenberg_text d book_id (a, log)).0
          ≡ ok (202, response book_id (str "ingested")))
        × Indexed dm x show shuffle d.task_id book_id term
            (metadata_of dm x book_id header body)
            ((c, sent), some (d.task_id, index_task dm x book_id))
  unfolding parse_metadata
  node_round-handle_ingest_gutenberg fetch_gutenberg_text d book_id text header body term show
        shuffle clock op_ids now claims meanwhile a c log sent alone missing fetched split
        new_document new_book absent fresh keeps i ran =
      let (b, done, kept, holds, _) =
        handle_ingest_gutenberg_alone dm x fetch_gutenberg_text d d book_id text header body a log
          alone missing fetched split new_document new_book absent in
      (
        ap (λ r. r.0) done,
        node_round_found dm x show shuffle clock op_ids meanwhile d.task_id book_id term
            (raw_doc book_id header body) (metadata_of dm x book_id header body) keeps alone i refl
            now claims b c log sent
            (subst
              (λ (s : App dm × List Request).
                node_round dm x show shuffle now claims clock op_ids meanwhile s
                ≡ ((c, sent), some (d.task_id, index_task dm x book_id)))
              (ap (λ r. r.1) done) ran)
            (subst (λ s. IsFresh dm x s op_ids) (sym kept) fresh) holds.document holds.metadata,
      )
