-- ===== src/Indexer/Pushes.antt =====
-- src/main.rs, `index_document`: a property of a node that every push into the postings keeps is kept
-- by the index task.
use stage.Prelude.{
  ℕ, suc, ◌≡◌, refl, ap, sym, ◌∙◌, subst, ◌⊎◌, Option, none, some, List, [], ◌∷◌, Str, str, str_eq,
}
use stage.DashMap.{DashMap}
use stage.Effects.{unreadable, Result, ◌>>=◌, ◌>>◌, pure, bind_of_ok}
use stage.Effects.Preserves.{Preserves, Preserves-bind, Preserves-pure, Preserves-or_fail}
use stage.Site.{IsAlone}
use stage.Storage.Protocol.{Request}
use stage.Storage.Memory.{Store}
use stage.Storage.Memory.Alone.{put_with_op_settled}
use stage.Executor.Types.{Task, execute}
use stage.App.{App, Act, Setting, get_document, get_postings, put_postings}
use stage.App.Alone.{postings_in, documents_in, get_postings_alone, get_document_alone}
use stage.Search.Tokenizer.{tokenize_text}
use stage.Ingestion.Types.{RawDocument}
use stage.Indexer.{or_default, push_absent, index_tokens, index_document}

module _ (dm : DashMap) (x : Setting dm) (P : App dm → Type 0) (alone : IsAlone dm x.site) where
  -- The write of a token's postings with `book_id` pushed, as later reads see it.
  abbrev pub IsPush : Str → Str → App dm → Store dm Str (List Str) → Type 0
  IsPush book_id token a t =
      (j : Str)
      → (postings_in dm x (record a { index = t }) j ≡ postings_in dm x a j)
        ⊎ ((token ≡ j)
            × (postings_in dm x (record a { index = t }) j
                ≡ some (push_absent book_id (or_default (postings_in dm x a token)))))

  abbrev pub KeepsPush : Str → Type 0
  KeepsPush book_id =
      (a : App dm) (token : Str) (t : Store dm Str (List Str))
      → P a
      → IsPush book_id token a t
      → P (record a { index = t })

  pub index_tokens-Preserves :
      (clock : ℕ → ℕ) (op_ids : ℕ → Str) (book_id : Str) (tokens : List Str)
      → KeepsPush book_id
      → Preserves P (index_tokens dm x clock op_ids book_id tokens)
  unfolding index_tokens
  index_tokens-Preserves clock op_ids book_id [] keeps = Preserves-pure P tt
  index_tokens-Preserves clock op_ids book_id (token ∷ tokens) keeps = record {
    at = λ a log h.
        let v = push_absent book_id (or_default (postings_in dm x a token)) in
        let (t, wrote, which) =
          put_with_op_settled dm x.formats.index x.site (str "/index") x.wire (clock 0) token v
            (op_ids 0) a.index log alone in
        let rest = index_tokens dm x (λ i. clock (suc i)) (λ i. op_ids (suc i)) book_id tokens in
        let later =
          index_tokens-Preserves (λ i. clock (suc i)) (λ i. op_ids (suc i)) book_id tokens keeps in
        subst (λ (r : Result (Unit {0}) × (App dm × List Request)). P r.1.0)
          (sym (
            bind_of_ok (get_postings dm x token)
              (λ found.
                put_postings dm x (clock 0) (op_ids 0) token
                  (push_absent book_id (or_default found))
                >> rest)
              (get_postings_alone dm x a token log alone)
            ∙ bind_of_ok (put_postings dm x (clock 0) (op_ids 0) token v) (λ _. rest)
                (ap (λ r. (r.0, (record a { index = r.1.0 }, r.1.1))) wrote)))
          (later.at (record a { index = t }) log (keeps a token t h which));
  }

  -- What follows the look at the document.
  abbrev index_found :
      (List Str → List Str) → (ℕ → ℕ) → (ℕ → Str) → Str → Option RawDocument → Act dm (Unit {0})
  index_found shuffle clock op_ids book_id found = elim found [
    | none ↦ pure tt
    | some raw_doc ↦
        index_tokens dm x clock op_ids book_id
          (shuffle (tokenize_text x.unicode x.regex raw_doc.body))
  ]

  index_found-Preserves :
      (shuffle : List Str → List Str) (clock : ℕ → ℕ) (op_ids : ℕ → Str) (book_id : Str)
      (found : Option RawDocument)
      → ((doc : RawDocument) → found ≡ some doc → KeepsPush book_id)
      → Preserves P (index_found shuffle clock op_ids book_id found)
  index_found-Preserves shuffle clock op_ids book_id none keeps = Preserves-pure P tt
  index_found-Preserves shuffle clock op_ids book_id (some doc) keeps =
      index_tokens-Preserves clock op_ids book_id
        (shuffle (tokenize_text x.unicode x.regex doc.body)) (keeps doc refl)

  -- The pushes are those of books whose document is there.
  abbrev pub KeepsPushes : Type 0
  KeepsPushes =
      (a : App dm) (book_id : Str) (doc : RawDocument)
      → P a
      → documents_in dm x a book_id ≡ some doc
      → KeepsPush book_id

  look_up-Preserves :
      (shuffle : List Str → List Str) (clock : ℕ → ℕ) (op_ids : ℕ → Str) (book_id : Str)
      → KeepsPushes
      → Preserves P (get_document dm x book_id >>= index_found shuffle clock op_ids book_id)
  look_up-Preserves shuffle clock op_ids book_id keeps = record {
    at = λ a log h.
        subst (λ (r : Result (Unit {0}) × (App dm × List Request)). P r.1.0)
          (sym (
            bind_of_ok (get_document dm x book_id) (index_found shuffle clock op_ids book_id)
              (get_document_alone dm x a book_id log alone)))
          ((index_found-Preserves shuffle clock op_ids book_id (documents_in dm x a book_id)
              (λ doc there. keeps a book_id doc h there)).at
            a log h);
  }

  pub index_document-Preserves :
      (shuffle : List Str → List Str) (clock : ℕ → ℕ) (op_ids : ℕ → Str) (task : Task)
      → KeepsPushes
      → Preserves P (index_document dm x shuffle clock op_ids task)
  unfolding index_document
  index_document-Preserves shuffle clock op_ids (execute handler payload) keeps =
      Preserves-bind P (Preserves-or_fail P (x.formats.from_payload payload) unreadable)
        (λ p. look_up-Preserves shuffle clock op_ids p.book_id keeps)
