-- ===== src/Server/Boot/Onward.antt =====
-- src/main.rs with all services: from a command line to every later search.
use stage.Prelude.{All, ℕ, ◌≡◌, Option, some, List, Str, str, In}
use stage.DashMap.{DashMap}
use stage.Effects.{Error, ok}
use stage.Membership.Types.{NodeId, SocketAddr, Codec}
use stage.Membership.Service.{Datagram}
use stage.Storage.Protocol.{Request}
use stage.Storage.Partitioner.{Hasher}
use stage.Executor.Queue.Claims.{Op}
use stage.App.{App, Setting}
use stage.Search.Types.{BookMetadata}
use stage.Search.Tokenizer.{tokenize_text}
use stage.Search.Tokenizer.Agreement.{tokenize_query-tokenize_text}
use stage.Search.Engine.{Scored, search}
use stage.Ingestion.Parsing.{split_gutenberg_text}
use stage.Ingestion.Handlers.{source_url_of, response, Draws, handle_ingest_gutenberg}
use stage.Indexer.Round.{node_round}
use stage.Server.Node.{NodeEvent, run}
use stage.Server.Node.Lasting.{Keeps, search-run}
use stage.Server.Boot.{boot, boot-IsAlone}
use stage.Server.Boot.FirstBook.{node_round-boot}

module _ (dm : DashMap) (x : Setting dm) (c : Codec) (hash : Hasher)
    (parse : Str → Option SocketAddr) (env : Str → Option Str) (id : NodeId) (started_at : ℕ)
    (args : List Str) (a : App dm) (joins : List Datagram) where
  -- A node is started by a command line, and its view of the members stays as it is then. If the
  -- text of a book can be downloaded and split, the book is taken in with 202, and after the next
  -- round of a worker every search for a term of its body finds the book, whatever requests to the
  -- node's routes, rounds of the workers and resyncs come in between. Excepted are two kinds of
  -- writes to the routes of the maps: those that give the term postings without the id of the book,
  -- and those that store metadata under an id that they do not name. The operations that the task
  -- draws are distinct, and an order of iteration loses no token.
  pub search-boot :
      (fetch_gutenberg_text : Str → Option Str) (d : Draws) (book_id text header body term : Str)
      (show : Error → Str) (shuffle : List Str → List Str) (clock : ℕ → ℕ) (op_ids : ℕ → Str)
      (now : ℕ) (claims : ℕ → ℕ) (meanwhile : List Op) (log : List Request) (es : List NodeEvent)
      → boot dm c hash parse env id started_at args ≡ some (x.site, (a, joins))
      → fetch_gutenberg_text (source_url_of book_id) ≡ some text
      → split_gutenberg_text text ≡ some (some (header, body))
      → ((i j : ℕ) → op_ids i ≡ op_ids j → i ≡ j)
      → ((w : Str) (ws : List Str) → In w ws → In w (shuffle ws))
      → In term (tokenize_text x.unicode x.regex body)
      → All (Keeps dm x book_id term) es
      → (let took = handle_ingest_gutenberg dm x fetch_gutenberg_text d book_id (a, log) in
          let ran = node_round dm x show shuffle now claims clock op_ids meanwhile took.1 in
          let s = run dm x fetch_gutenberg_text show shuffle es ran.0 in
          (took.0 ≡ ok (202, response book_id (str "ingested")))
          × (m : BookMetadata) × (m.book_id ≡ book_id)
          × (results : List Scored) × (sent : List Request) × (search dm x term s
              ≡ (ok results, (s.0, sent)))
          × ((n : ℕ) × In (m, n) results))
  search-boot fetch_gutenberg_text d book_id text header body term show shuffle clock op_ids now
        claims meanwhile log es started fetched split distinct keeps i may =
      let took = handle_ingest_gutenberg dm x fetch_gutenberg_text d book_id (a, log) in
      let ran = node_round dm x show shuffle now claims clock op_ids meanwhile took.1 in
      let (answered, _, (_, findable, _)) =
        node_round-boot dm x c hash parse env id started_at args a joins fetch_gutenberg_text d
          book_id text header body term show shuffle clock op_ids now claims meanwhile log started
          fetched split distinct keeps i in
      let (m, named, results, sent, found, seen) =
        search-run dm x book_id term
          (boot-IsAlone dm c hash parse env id started_at args x.site a joins started)
          fetch_gutenberg_text show shuffle es ran.0.0 ran.0.1 findable may
          (tokenize_query-tokenize_text x.unicode x.regex body term i) in
      (answered, m, named, results, sent, found, seen)
