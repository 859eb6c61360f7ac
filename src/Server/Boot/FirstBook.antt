-- ===== src/Server/Boot/FirstBook.antt =====
-- src/main.rs with src/ingestion, src/executor and src/search: the first book of a node that has
-- just started.
use stage.Prelude.{
  ℕ, ◌≡◌, ◌&&◌, ◌==◌, ==_iff, refl, ap, sym, ◌∙◌, subst, Bool-cases, inl, inr, Option, none, some,
  List, Str, str, str_eq, nat_eq, In, arith,
}
use stage.DashMap.{DashMap, get-empty}
use stage.Effects.{Error, ok}
use stage.Membership.Types.{NodeId, SocketAddr, Codec}
use stage.Membership.Service.{Datagram}
use stage.Site.{partition_of}
use stage.Storage.Protocol.{Format, Request}
use stage.Storage.Partitioner.{Hasher}
use stage.Storage.Memory.{get_local, lookup}
use stage.Executor.Types.{TaskId, TaskEntry}
use stage.Executor.Queue.{Partition, new_entry, get_task_local}
use stage.Executor.Queue.Claims.{Op}
use stage.Executor.Worker.Chosen.{IsHeld, IsThis, claim_first_only}
use stage.App.{App, Setting, index_task}
use stage.App.Alone.{documents_in}
use stage.Ingestion.Parsing.{parse_metadata, split_gutenberg_text}
use stage.Ingestion.Handlers.{source_url_of, response, raw_doc, Draws, handle_ingest_gutenberg}
use stage.Ingestion.Handlers.Stored.{Holds, metadata_of, handle_ingest_gutenberg_alone}
use stage.Search.Tokenizer.{tokenize_text}
use stage.Indexer.Round.{node_round, Indexed, node_round-claim_first, node_round_found}
use stage.Indexer.Postings.{IsFresh}
use stage.Server.Boot.{boot, new_with_base, empty_node, boot_empty, boot-IsAlone, boot_primary}

module _ (dm : DashMap) (x : Setting dm) where
  lookup_empty :
      {K V : Type 0} (f : Format K V) (p : ℕ) (k : K) → lookup dm f (new_with_base dm) p k ≡ none
  unfolding lookup
  lookup_empty {K} {V} f p k = rw (get-empty dm {V = dm.Map K V} p, lookup) refl

  no_document : (book_id : Str) → documents_in dm x (empty_node dm) book_id ≡ none
  unfolding get_local
  no_document book_id =
      lookup_empty x.formats.datalake
        (partition_of dm x.site (x.formats.datalake.to_string book_id)) book_id

  no_task : (p : ℕ) (id : TaskId) → get_task_local dm dm.empty p id ≡ none
  unfolding get_task_local
  no_task p id = rw (get-empty dm {V = Partition dm} p, get_task_local) refl

  -- The task of the first book is the only one.
  task-IsThis :
      (d : Draws) (book_id header body : Str) (a b : App dm)
      → a ≡ empty_node dm
      → Holds dm x d book_id header body a b
      → (e : TaskId × TaskEntry) → IsHeld dm b.tasks e
      → IsThis dm x.site dm.empty d.task_id (index_task dm x book_id) e
  unfolding new_entry
  task-IsThis d book_id header body a b nothing holds (id, e) (p, there) =
      let new = new_entry d.task_now (index_task dm x book_id) in
      let none_before : get_task_local dm a.tasks p id ≡ none =
        ap (λ (s : App dm). get_task_local dm s.tasks p id) nothing ∙ no_task p id in
      let found = sym there ∙ holds.others p id in
      elim (Bool-cases ((partition_of dm x.site d.task_id == p) && (d.task_id == id))) [
        | inl same ↦
            let key : d.task_id ≡ id = ground (arith, same, ==_iff d.task_id id) in
            let taken : some e ≡ some new = rw same at found in
            let entry : e ≡ new = ground (arith, taken) in (sym key, ap (λ e. e.task) entry)
        | inr other ↦ absurd (ground (arith, rw (other, none_before) at found))
      ]

  module _ (c : Codec) (hash : Hasher) (parse : Str → Option SocketAddr) (env : Str → Option Str)
      (id : NodeId) (started_at : ℕ) (args : List Str) (a : App dm) (joins : List Datagram) where
    -- A node is started by a command line, and its view of the members stays as it is then: it owns
    -- everything, also where the command line names seeds. If the text of a book can be downloaded and split, the
    -- book is taken in with 202; the next round of a worker runs its task, whatever happens to the
    -- queue meanwhile; and then the task is completed without a lease, the book has metadata that name
    -- it and is in the postings of any term of its body, and a search for the term finds it with the
    -- metadata that its header gives. The operations that the task draws are distinct, and an order
    -- of iteration loses no token.
    pub node_round-boot :
        (fetch_gutenberg_text : Str → Option Str) (d : Draws) (book_id text header body term : Str)
        (show : Error → Str) (shuffle : List Str → List Str) (clock : ℕ → ℕ) (op_ids : ℕ → Str)
        (now : ℕ) (claims : ℕ → ℕ) (meanwhile : List Op) (log : List Request)
        → boot dm c hash parse env id started_at args ≡ some (x.site, (a, joins))
        → fetch_gutenberg_text (source_url_of book_id) ≡ some text
        → split_gutenberg_text text ≡ some (some (header, body))
        → ((i j : ℕ) → op_ids i ≡ op_ids j → i ≡ j)
        → ((w : Str) (ws : List Str) → In w ws → In w (shuffle ws))
        → In term (tokenize_text x.unicode x.regex body)
        → (let took = handle_ingest_gutenberg dm x fetch_gutenberg_text d book_id (a, log) in
            let ran = node_round dm x show shuffle now claims clock op_ids meanwhile took.1 in
            (took.0 ≡ ok (202, response book_id (str "ingested")))
            × (ran.1 ≡ some (d.task_id, index_task dm x book_id))
            × Indexed dm x show shuffle d.task_id book_id term
                (metadata_of dm x book_id header body)
                ran)
    unfolding new_entry parse_metadata
    node_round-boot fetch_gutenberg_text d book_id text header body term show shuffle clock op_ids
          now claims meanwhile log started fetched split distinct keeps i =
        let nothing = boot_empty dm c hash parse env id started_at args x.site a joins started in
        let alone = boot-IsAlone dm c hash parse env id started_at args x.site a joins started in
        let owned =
          boot_primary dm c hash parse env id started_at args x.site a joins started d.task_id in
        let (b, done, kept, holds, _) =
          handle_ingest_gutenberg_alone dm x fetch_gutenberg_text d d book_id text header body a log
            alone (ap (λ s. documents_in dm x s book_id) nothing ∙ no_document book_id) fetched
            split
            (ap (λ s. dm.get s.datalake.processed_ops d.document_op) nothing
              ∙ get-empty dm d.document_op)
            (ap (λ s. dm.get s.books.processed_ops d.book_op) nothing ∙ get-empty dm d.book_op)
            (ap (λ s. get_task_local dm s.tasks (partition_of dm x.site d.task_id) d.task_id)
                nothing
              ∙ no_task (partition_of dm x.site d.task_id) d.task_id) in
        let won =
          node_round-claim_first dm x show shuffle now claims clock op_ids meanwhile b log
          ∙ claim_first_only dm x.site dm.empty d.task_id (index_task dm x book_id) now claims
              b.tasks (new_entry d.task_now (index_task dm x book_id)) owned holds.task refl
              (task-IsThis d book_id header body a b nothing holds) in
        let fresh : IsFresh dm x b.index op_ids =
          subst (λ s. IsFresh dm x s op_ids) (sym (kept ∙ ap (λ s. s.index) nothing))
            (λ i. get-empty dm (op_ids i), distinct) in
        let m = metadata_of dm x book_id header body in
        let ran = node_round dm x show shuffle now claims clock op_ids meanwhile (b, log) in
        let found =
          node_round_found dm x show shuffle clock op_ids meanwhile d.task_id book_id term
            (raw_doc book_id header body) m keeps alone i refl now claims b ran.0.0 log ran.0.1
            (ap (λ o. (ran.0, o)) won) fresh holds.document holds.metadata in
        let Ran : App dm × List Request → Type 0 = λ s.
          let after = node_round dm x show shuffle now claims clock op_ids meanwhile s in
          (after.1 ≡ some (d.task_id, index_task dm x book_id))
          × Indexed dm x show shuffle d.task_id book_id term m after in
        let (reported, indexed) = subst Ran (sym (ap (λ r. r.1) done)) (
          won,
          subst (λ o. Indexed dm x show shuffle d.task_id book_id term m (ran.0, o)) (sym won)
              found,
        ) in
        (ap (λ r. r.0) done, reported, indexed)
