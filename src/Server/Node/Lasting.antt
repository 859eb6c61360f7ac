-- ===== src/Server/Node/Lasting.antt =====
-- src/main.rs with all services: what a search has found once, it finds again.
use stage.Prelude.{ℕ, ◌≡◌, List, [], ◌∷◌, All, Option, Str, In}
use stage.DashMap.{DashMap}
use stage.Effects.{Error, ok}
use stage.Site.{IsAlone}
use stage.Storage.Protocol.{Request}
use stage.App.{App, Setting}
use stage.Search.Types.{BookMetadata}
use stage.Search.Tokenizer.{tokenize_query}
use stage.Search.Engine.{Scored, search}
use stage.Indexer.Found.{search_posted}
use stage.Indexer.Lasting.{
  IsFindable, Posts, book_written-IsFindable, posting_written-IsFindable, index_document-Preserves,
}
use stage.Server.Node.{NodeEvent, run}
use stage.Server.Node.Kept.{IsKept, Allows, run-Kept}

module _ (dm : DashMap) (x : Setting dm) (id term : Str) where
  abbrev pub Keeps : NodeEvent → Type 0
  Keeps = Allows dm x (IsFindable dm x id term) (λ k. Unit) (Posts dm x id term)

  module _ (alone : IsAlone dm x.site) where
    IsFindable-IsKept : IsKept dm x (IsFindable dm x id term) (λ k. Unit) (Posts dm x id term)
    IsFindable-IsKept = record {
      on_tasks = λ a q l h. h;
      on_book = book_written-IsFindable dm x id term;
      on_document = λ a k v t may which h. h;
      on_posting = posting_written-IsFindable dm x id term;
      on_index = index_document-Preserves dm x id term alone;
    }

    -- On a node that owns everything, a book that has metadata, which name its id, and is in the
    -- postings of a term is found by that term after any requests to the node's routes, rounds of
    -- the workers and resyncs, in any order, with whatever operation ids they draw. Excepted are two
    -- kinds of writes to the routes of the maps: those that give the term postings without the id, and
    -- those that store metadata under an id that they do not name. The term is one that a query gives
    -- as it is.
    pub search-run :
        (fetch_gutenberg_text : Str → Option Str) (show : Error → Str) (order : List Str → List Str)
        (es : List NodeEvent) (a : App dm) (log : List Request)
        → IsFindable dm x id term a
        → All Keeps es
        → tokenize_query x.unicode term ≡ term ∷ []
        → (let s = run dm x fetch_gutenberg_text show order es (a, log) in
            (m : BookMetadata) × (m.book_id ≡ id)
            × (results : List Scored) × (sent : List Request) × (search dm x term s
                ≡ (ok results, (s.0, sent)))
            × ((n : ℕ) × In (m, n) results))
    search-run fetch_gutenberg_text show order es a log h may read =
        let s = run dm x fetch_gutenberg_text show order es (a, log) in
        let ((m, known, named), (ids, posted)) =
          run-Kept dm x (IsFindable dm x id term) (λ k. Unit) (Posts dm x id term) alone
            IsFindable-IsKept fetch_gutenberg_text show order es a log may h in
        let (results, sent, found, seen) =
          search_posted dm x s.0 id term ids m s.1 alone posted known read in
        (m, named, results, sent, found, seen)
