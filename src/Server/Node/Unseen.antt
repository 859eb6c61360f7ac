-- ===== src/Server/Node/Unseen.antt =====
-- src/main.rs with all services: a book whose document is not taken in is not found, such as one that
-- `handle_create_book` of src/search/handlers.rs creates.
use stage.Prelude.{
  ℕ, zero, ◌+◌, ◌≡◌, ◌≢◌, refl, ap, ap₂, sym, ◌∙◌, if_cases, inl, inr, Option, none, some, List, [],
  ◌∷◌, ◌++◌, Str, str, str_eq, ◌==◌, ==_iff, any, All, In, arith,
}
use stage.DashMap.{DashMap}
use stage.Effects.{Error, ok}
use stage.Site.{IsAlone}
use stage.Storage.Protocol.{Request}
use stage.Storage.Memory.{Store}
use stage.Storage.Handlers.Written.{IsSettled}
use stage.App.{App, Setting}
use stage.App.Alone.{documents_in, books_in, postings_in, get_postings_alone, get_book_alone}
use stage.Search.Types.{BookMetadata}
use stage.Search.Tokenizer.{tokenize_query}
use stage.Search.Engine.{Scored, search}
use stage.Search.Engine.Scores.{occurrences, hits, plus_points}
use stage.Search.Engine.Results.{search_lem}
use stage.Ingestion.Types.{RawDocument}
use stage.Indexer.{or_default, push_absent}
use stage.Indexer.Pushes.{KeepsPush, index_document-Preserves}
use stage.Server.Node.{NodeEvent, run}
use stage.Server.Node.Kept.{IsKept, Allows, run-Kept}

occurrences_snoc_other :
    (id other : Str) (ids : List Str)
    → other ≢ id
    → occurrences id ids ≡ 0
    → occurrences id (ids ++ other ∷ []) ≡ 0
unfolding occurrences
occurrences_snoc_other id other [] apart h = ground (arith, ==_iff other id, apart)
occurrences_snoc_other id other (i ∷ ids) apart h =
    ground (arith, h, occurrences_snoc_other id other ids apart)

occurrences-push_absent_other :
    (id other : Str) (ids : List Str)
    → other ≢ id
    → occurrences id ids ≡ 0
    → occurrences id (push_absent other ids) ≡ 0
unfolding push_absent
occurrences-push_absent_other id other ids apart h =
    if_cases (λ l. occurrences id l ≡ 0) (any (λ i. i == other) ids) (λ _. h)
      (λ _. occurrences_snoc_other id other ids apart h)

of_default :
    (id : Str) (o : Option (List Str))
    → occurrences id (or_default o) ≡ 0
    → (elim o as (λ _. ℕ) [ none ↦ zero | some ids ↦ occurrences id ids ]) ≡ zero
of_default id none h = refl
of_default id (some ids) h = h

no_hits :
    (postings : Str → Option (List Str)) (id : Str) (tokens : List Str)
    → ((t : Str) → occurrences id (or_default (postings t)) ≡ 0)
    → hits postings id tokens ≡ 0
unfolding hits
no_hits postings id [] h = refl
no_hits postings id (t ∷ tokens) h =
    ap₂ (λ a b. a + b) (of_default id (postings t) (h t)) (no_hits postings id tokens h)

module _ (dm : DashMap) (x : Setting dm) (id : Str) where
  -- The book has no document and is in no postings; metadata stand under the id that they name.
  pub record IsUnseen (a : App dm) : Type 0 where
    pub no_document : documents_in dm x a id ≡ none
    pub no_postings : (t : Str) → occurrences id (or_default (postings_in dm x a t)) ≡ 0
    pub named : (k : Str) (m : BookMetadata) → books_in dm x a k ≡ some m → m.book_id ≡ k

  abbrev pub Other : Str → Type 0
  Other k = k ≢ id

  -- A direct write to postings does not put the id there.
  abbrev pub Skips : Str → List Str → Type 0
  Skips k v = occurrences id v ≡ 0

  book_written-IsUnseen :
      (a : App dm) (k : Str) (v : BookMetadata) (t : Store dm Str BookMetadata)
      → v.book_id ≡ k
      → IsSettled dm x.formats.books x.site (str "/books") x.wire k v a.books t
      → IsUnseen a
      → IsUnseen (record a { books = t })
  book_written-IsUnseen a k v t named which h = record {
    no_document = h.no_document;
    no_postings = h.no_postings;
    named = λ j m there. elim (which j) [
      | inl e ↦ h.named j m (sym e ∙ there)
      | inr (same, e) ↦
          let taken : v ≡ m = ground (arith, sym e ∙ there) in
          ap (λ n. n.book_id) (sym taken) ∙ named ∙ same
    ];
  }

  document_written-IsUnseen :
      (a : App dm) (k : Str) (v : RawDocument) (t : Store dm Str RawDocument)
      → Other k
      → IsSettled dm x.formats.datalake x.site (str "/datalake") x.wire k v a.datalake t
      → IsUnseen a
      → IsUnseen (record a { datalake = t })
  document_written-IsUnseen a k v t apart which h = record {
    no_document = elim (which id) [
      | inl e ↦ e ∙ h.no_document
      | inr (same, e) ↦ absurd (apart same)
    ];
    no_postings = h.no_postings;
    named = h.named;
  }

  posting_written-IsUnseen :
      (a : App dm) (k : Str) (v : List Str) (t : Store dm Str (List Str))
      → Skips k v
      → IsSettled dm x.formats.index x.site (str "/index") x.wire k v a.index t
      → IsUnseen a
      → IsUnseen (record a { index = t })
  posting_written-IsUnseen a k v t skips which h = record {
    no_document = h.no_document;
    no_postings = λ j. elim (which j) [
      | inl e ↦ ap (λ o. occurrences id (or_default o)) e ∙ h.no_postings j
      | inr (same, e) ↦ ap (λ o. occurrences id (or_default o)) e ∙ skips
    ];
    named = h.named;
  }

  module _ (alone : IsAlone dm x.site) where
    IsUnseen-KeepsPush : (book_id : Str) → Other book_id → KeepsPush dm x IsUnseen alone book_id
    IsUnseen-KeepsPush book_id apart a token t h which = record {
      no_document = h.no_document;
      no_postings = λ j. elim (which j) [
        | inl e ↦ ap (λ o. occurrences id (or_default o)) e ∙ h.no_postings j
        | inr (same, e) ↦
            ap (λ o. occurrences id (or_default o)) e
            ∙ occurrences-push_absent_other id book_id (or_default (postings_in dm x a token)) apart
                (h.no_postings token)
      ];
      named = h.named;
    }

    IsUnseen-IsKept : IsKept dm x IsUnseen Other Skips
    IsUnseen-IsKept = record {
      on_tasks = λ a q l h. record {
        no_document = h.no_document;
        no_postings = h.no_postings;
        named = h.named;
      };
      on_book = book_written-IsUnseen;
      on_document = document_written-IsUnseen;
      on_posting = posting_written-IsUnseen;
      on_index = λ order clock op_ids task.
          index_document-Preserves dm x IsUnseen alone order clock op_ids task
            (λ a book_id doc h there.
              IsUnseen-KeepsPush book_id (λ same.
                ground (arith, sym there ∙ ap (documents_in dm x a) same ∙ h.no_document)));
    }

    module _ (fetch_gutenberg_text : Str → Option Str) (show : Error → Str)
        (order : List Str → List Str) where
      -- On a node that owns everything and whose metadata stand under the id that they name, a book
      -- that has no document and is in no postings is in the results of no search, after any requests
      -- to the node's routes, rounds of the workers and resyncs: also if it has been created by hand,
      -- and its index task has run. Excepted are requests that take in or write a document under its
      -- id, those that write postings with its id, and those that write metadata under an id that
      -- they do not name.
      pub search-run_unseen :
          (es : List NodeEvent) (a : App dm) (log : List Request) (query : Str)
          → IsUnseen a
          → All (Allows dm x IsUnseen Other Skips) es
          → (let s = run dm x fetch_gutenberg_text show order es (a, log) in
              (results : List Scored) × (sent : List Request) × (search dm x query s
                ≡ (ok results, (s.0, sent)))
              × ((m : BookMetadata) (n : ℕ) → In (m, n) results → m.book_id ≢ id))
      search-run_unseen es a log query h may =
          let s = run dm x fetch_gutenberg_text show order es (a, log) in
          let still =
            run-Kept dm x IsUnseen Other Skips alone IsUnseen-IsKept fetch_gutenberg_text show order
              es a log may h in
          let (results, sent, found, _, which) =
            search_lem dm x s.0 (postings_in dm x s.0) (books_in dm x s.0)
              (λ k l. (l, get_postings_alone dm x s.0 k l alone))
              (λ k l. (l, get_book_alone dm x s.0 k l alone)) query s.1 in
          (
            results,
            sent,
            found,
            λ m n i same.
                let (k, known, scored) = (which m n).0 i in
                let here : k ≡ id = sym (still.named k m known) ∙ same in
                let none_left =
                  ap
                    (λ j.
                      plus_points none
                        (hits (postings_in dm x s.0) j (tokenize_query x.unicode query)))
                    here
                  ∙ ap (plus_points none) (
                      no_hits (postings_in dm x s.0) id (tokenize_query x.unicode query)
                        still.no_postings) in
                absurd (ground (arith, sym scored ∙ none_left)),
          )
