-- ===== src/Tests/Books.antt =====
-- A node that is alone takes a book in, indexes it and finds it.
use stage.Prelude.{
  ℕ, ◌-◌, min, take, drop, ◌↔◌, ◌≡◌, refl, Option, none, some, List, [], ◌∷◌, Str, str, str_eq,
  nat_eq, In, inl, inr, arith, length, map,
}
use stage.Assoc.{assoc}
use stage.Effects.{ok}
use stage.Membership.Service.{get_alive_members}
use stage.Storage.Partitioner.{get_owners, owners_among, ring}
use stage.Storage.Sort.{sort_ids}
use stage.Storage.Protocol.{Request}
use stage.Text.{split_whitespace}
use stage.App.{App}
use stage.Search.Types.{BookMetadata}
use stage.Ingestion.Types.{RawDocument}
use stage.App.{index_task, get_document}
use stage.App.Alone.{postings_in, books_in, get_postings_alone, get_book_alone}
use stage.Storage.Memory.{
  get_local, lookup, get_value, get_from, ask_owners, put_with_op, once, should_process, put_to,
  store_local, replicate_to_all,
}
use stage.Storage.Partitioner.{get_partition}
use stage.Executor.Queue.{get_task_local}
use stage.Text.{len, split_from, is_whitespace, find, starts_with, trim}
use stage.Search.Types.{SearchResponse}
use stage.Search.Tokenizer.{collect_set, tokenize_text, tokenize_query}
use stage.Search.Tokenizer.Agreement.{tokenize_query-tokenize_text}
use stage.Search.Engine.{Scored, search}
use stage.Search.Engine.Scores.{hits, plus_points}
use stage.Search.Engine.Ranking.{IsRanked}
use stage.Search.Engine.Results.{search_lem}
use stage.Search.Handlers.{SearchParams, unwrap_or, item_of, handle_search}
use stage.Search.Handlers.Pages.{handle_search_lem}
use stage.Ingestion.Parsing.{split_gutenberg_text, split_at, slice}
use stage.Ingestion.Parsing.Markers.{split_gutenberg_text_total}
use stage.Ingestion.Handlers.{Draws, source_url_of, response, handle_ingest_gutenberg}
use stage.Ingestion.Handlers.Outcomes.{refusal, Answered, handle_ingest_gutenberg_lem}
use stage.Ingestion.Handlers.Stored.{Holds, handle_ingest_gutenberg_alone}
use stage.Indexer.{index_document, index_tokens, push_absent}
use stage.Indexer.Postings.{IsFresh}
use stage.Indexer.Found.{index_document_again}
use stage.Prelude.{any, ◌==◌, false}
use stage.Indexer.{or_default}
use stage.Indexer.Race.{interleaved, interleaved_lost}
use stage.Tests.Texts.{
  ascii, spaced, setting, empty_app, emma, document, shelved, small_site-IsAlone,
}

abbrev pub drawn : ℕ → Str
drawn i = i ∷ []

abbrev redrawn : ℕ → Str
redrawn i = 0 ∷ i ∷ []

abbrev pub clock : ℕ → ℕ
clock i = i

pub drawn-IsFresh : IsFresh assoc setting shelved.index drawn
drawn-IsFresh = (λ i. refl, λ i j e. ground (arith, e))

abbrev pub in_order : List Str → List Str
in_order ws = ws

redrawn-IsFresh :
    IsFresh assoc setting
      (index_document assoc setting in_order clock drawn
        (index_task assoc setting emma)
        (shelved, [])).1.0.index
      redrawn
unfolding index_document index_tokens push_absent tokenize_text collect_set len split_whitespace
    split_from is_whitespace get_value get_from ask_owners lookup get_partition get_owners
    owners_among ring sort_ids get_alive_members put_with_op once should_process put_to store_local
    replicate_to_all
redrawn-IsFresh = (λ i. refl, λ i j e. ground (arith, e))

index_document_again_example :
    let once =
      index_document assoc setting in_order clock drawn
        (index_task assoc setting emma)
        (shelved, []) in
    let twice =
      index_document assoc setting in_order clock redrawn (index_task assoc setting emma) once.1 in
    postings_in assoc setting twice.1.0 (str "rust")
    ≡ postings_in assoc setting once.1.0 (str "rust")
unfolding get_local lookup get_partition
index_document_again_example =
    index_document_again assoc setting in_order clock clock drawn redrawn emma document shelved []
      (str "rust") small_site-IsAlone drawn-IsFresh refl redrawn-IsFresh

search_lem_example :
    (results : List Scored) × (sent : List Request) × (search assoc setting
        (str "rust")
        (shelved, [])
      ≡ (ok results, (shelved, sent)))
    × IsRanked results
    × ((m : BookMetadata) (n : ℕ)
        → In (m, n) results ↔ (
            (id : Str) × (books_in assoc setting shelved id ≡ some m)
            × (plus_points none
                  (hits (postings_in assoc setting shelved) id (tokenize_query ascii (str "rust")))
                ≡ some n)))
search_lem_example =
    search_lem assoc setting shelved (postings_in assoc setting shelved)
      (books_in assoc setting shelved)
      (λ k l. (l, get_postings_alone assoc setting shelved k l small_site-IsAlone))
      (λ k l. (l, get_book_alone assoc setting shelved k l small_site-IsAlone)) (str "rust") []

abbrev pub draws : Draws
draws = record {
  document_now = 7;
  book_now = 8;
  task_now = 9;
  document_op = str "a";
  book_op = str "b";
  task_id = str "task";
}

abbrev later : Draws
later = record {
  document_now = 10;
  book_now = 11;
  task_now = 12;
  document_op = str "c";
  book_op = str "d";
  task_id = str "again";
}

abbrev pub text : Str
text =
    str
      "Title: Emma\n*** START OF THE PROJECT GUTENBERG EBOOK rust *** END OF THE PROJECT GUTENBERG EBOOK"

abbrev pub download : Str → Option Str
download url = some text

handle_ingest_gutenberg_lem_example :
    (found : Option RawDocument) × (sent : List Request) × (get_document assoc setting emma
        (empty_app, [])
      ≡ (ok found, (empty_app, sent)))
    × Answered assoc setting draws emma empty_app sent
        (download (source_url_of emma))
        (refusal found (download (source_url_of emma)))
        (handle_ingest_gutenberg assoc setting download draws emma (empty_app, []))
handle_ingest_gutenberg_lem_example =
    handle_ingest_gutenberg_lem assoc setting download draws emma empty_app []

interleaved_lost_example :
    (b : App assoc) × (interleaved assoc setting 7
        (str "a")
        (str "b")
        emma
        (str "84")
        (str "rust")
        (shelved, [])
      ≡ (ok tt, (b, [])))
    × (any (λ i. i == emma) (or_default (postings_in assoc setting b (str "rust"))) ≡ false)
unfolding get_local lookup get_partition
interleaved_lost_example =
    interleaved_lost assoc setting 7 (str "a") (str "b") emma (str "84") (str "rust") shelved []
      small_site-IsAlone refl refl refl refl refl

handle_ingest_gutenberg_alone_example :
    (b : App assoc) × (handle_ingest_gutenberg assoc setting download draws emma (empty_app, [])
      ≡ (ok (202, response emma (str "ingested")), (b, [])))
    × (b.index ≡ empty_app.index)
    × Holds assoc setting draws emma (str "Title: Emma") (str "rust") empty_app b
    × (handle_ingest_gutenberg assoc setting download later emma (b, [])
        ≡ (ok (200, response emma (str "already_exists")), (b, [])))
unfolding get_local lookup get_partition get_task_local split_gutenberg_text split_at slice find
    starts_with trim
handle_ingest_gutenberg_alone_example =
    handle_ingest_gutenberg_alone assoc setting download draws later emma text (str "Title: Emma")
      (str "rust") empty_app [] small_site-IsAlone refl refl refl refl refl refl

abbrev query : SearchParams
query = record { q = str "rust"; limit = some 1; offset = none }

handle_search_lem_example :
    (results : List Scored) × (sent : List Request) × (response : SearchResponse) × (search assoc
        setting query.q
        (shelved, [])
      ≡ (ok results, (shelved, sent)))
    × (handle_search assoc setting query (shelved, []) ≡ (ok response, (shelved, sent)))
    × (response.total_count ≡ length results)
    × (response.count ≡ min (unwrap_or query.limit 10) (length results - unwrap_or query.offset 0))
    × (response.results
        ≡ take (unwrap_or query.limit 10) (drop (unwrap_or query.offset 0) (map item_of results)))
handle_search_lem_example = handle_search_lem assoc setting shelved query []

tokenize_query-tokenize_text_example : tokenize_query ascii (str "lang") ≡ str "lang" ∷ []
unfolding tokenize_text collect_set len split_whitespace split_from is_whitespace
tokenize_query-tokenize_text_example =
    tokenize_query-tokenize_text ascii spaced (str "Rust lang") (str "lang") (inr (inl refl))

split_gutenberg_text_total_example :
    (parts : Option (Str × Str)) × (split_gutenberg_text text ≡ some parts)
split_gutenberg_text_total_example = split_gutenberg_text_total text
