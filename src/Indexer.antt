-- ===== src/Indexer.antt =====
-- src/main.rs, the handler `index_document`, which a worker runs for each book that is taken in.
pub mod Postings
pub mod Found
pub mod Round
pub mod Pipeline
pub mod Race
pub mod Pushes
pub mod Lasting
use stage.Prelude.{
  ℕ, suc, Option, none, some, List, [], ◌∷◌, ◌++◌, Str, ◌==◌, str_eq, any, if◌then◌else◌,
}
use stage.DashMap.{DashMap}
use stage.Effects.{unreadable, ◌>>=◌, ◌>>◌, pure, or_fail}
use stage.Executor.Types.{Task, execute}
use stage.App.{Act, Setting, get_document, get_postings, put_postings}
use stage.Search.Tokenizer.{tokenize_text}

-- `unwrap_or_default`, and the push of an id that is not there.
abbrev pub or_default : Option (List Str) → List Str
or_default none = []
or_default (some ids) = ids

unfoldable pub push_absent : Str → List Str → List Str
push_absent book_id ids = if any (λ id. id == book_id) ids then ids else ids ++ book_id ∷ []

module _ (dm : DashMap) (x : Setting dm) where
  -- The loop over the tokens, ended by the first write that fails. Each write reads the clock and
  -- draws an operation id.
  unfoldable pub index_tokens : (ℕ → ℕ) → (ℕ → Str) → Str → List Str → Act dm (Unit {0})
  unfolding push_absent
  index_tokens clock op_ids book_id [] = pure tt
  index_tokens clock op_ids book_id (token ∷ tokens) = do
    found ← get_postings dm x token
    put_postings dm x (clock 0) (op_ids 0) token (push_absent book_id (or_default found))
    index_tokens (λ i. clock (suc i)) (λ i. op_ids (suc i)) book_id tokens

  -- `shuffle` is the order in which the set of tokens is iterated. A document that is not there is
  -- skipped.
  unfoldable pub index_document :
      (List Str → List Str) → (ℕ → ℕ) → (ℕ → Str) → Task → Act dm (Unit {0})
  unfolding index_tokens tokenize_text
  index_document shuffle clock op_ids (execute handler payload) = do
    p ← or_fail (x.formats.from_payload payload) unreadable
    found ← get_document dm x p.book_id
    elim found [
      | none ↦ pure tt
      | some raw_doc ↦
          index_tokens clock op_ids p.book_id
            (shuffle (tokenize_text x.unicode x.regex raw_doc.body))
    ]
