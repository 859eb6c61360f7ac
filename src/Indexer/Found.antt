-- ===== src/Indexer/Found.antt =====
-- src/main.rs and src/search: a book that has been indexed is found by its terms.
use stage.Prelude.{
  ℕ, suc, zero, ◌<◌, ◌≡◌, refl, ap, sym, ◌∙◌, subst, Bool, true, false, Option, none, some, List,
  [], ◌∷◌, ◌++◌, Str, ◌==◌, ==_iff, ==_refl, str_eq, any, if◌then◌else◌, Bool-cases, inl, inr,
  arith, In,
}
use stage.DashMap.{DashMap}
use stage.Effects.{Result, ok, pure, bind_of_ok}
use stage.Site.{IsAlone}
use stage.Storage.Protocol.{Request}
use stage.Storage.Memory.{Store}
use stage.App.{App, Act, Setting, index_task, get_document}
use stage.App.Alone.{
  postings_in, books_in, documents_in, get_postings_alone, get_book_alone, get_document_alone,
}
use stage.Search.Types.{BookMetadata}
use stage.Ingestion.Types.{RawDocument}
use stage.Search.Tokenizer.{tokenize_text, tokenize_query}
use stage.Search.Tokenizer.Agreement.{tokenize_query-tokenize_text}
use stage.Search.Engine.{Scored, search}
use stage.Search.Engine.Scores.{occurrences, hits, plus_points}
use stage.Search.Engine.Results.{search_lem}
use stage.Indexer.{or_default, push_absent, index_tokens, index_document}
use stage.Indexer.Postings.{IsFresh, push_absent_twice, index_tokens_alone}

occurrences_of_any :
    (id : Str) (ids : List Str) → any (λ i. i == id) ids ≡ true → 0 < occurrences id ids
unfolding occurrences
occurrences_of_any id [] h = absurd (ground (arith, h))
occurrences_of_any id (i ∷ ids) h = ground (arith, occurrences_of_any id ids)

occurrences_snoc : (id : Str) (ids : List Str) → 0 < occurrences id (ids ++ id ∷ [])
unfolding occurrences
occurrences_snoc id [] = rw (==_refl id) (omega arith)
occurrences_snoc id (i ∷ ids) = omega (arith, occurrences_snoc id ids)

occurrences-push_absent : (id : Str) (ids : List Str) → 0 < occurrences id (push_absent id ids)
unfolding push_absent
occurrences-push_absent id ids = elim (Bool-cases (any (λ i. i == id) ids)) [
  | inl e ↦ rw e (occurrences_of_any id ids e)
  | inr e ↦ rw e (occurrences_snoc id ids)
]

any_of_In : (w : Str) (ws : List Str) → In w ws → any (λ v. v == w) ws ≡ true
any_of_In w [] i = elim i [ ]
any_of_In w (v ∷ ws) i = ground (arith, any_of_In w ws, ==_iff v w)

some_points : (n : ℕ) → 0 < n → (m : ℕ) × (plus_points none n ≡ some m)
some_points zero h = absurd (omega (arith, h))
some_points (suc n) h = (_, refl)

-- An update by `push_absent` is in effect already.
stable :
    (id : Str) (named : Bool) (old now : Option (List Str))
    → now ≡ (if named then some (push_absent id (or_default old)) else old)
    → (if named then some (push_absent id (or_default now)) else now) ≡ now
stable id true old now e = rw e (ap some (push_absent_twice id (or_default old)))
stable id false old now e = refl

hit :
    (postings : Str → Option (List Str)) (id term : Str) (ids : List Str)
    → postings term ≡ some (push_absent id ids)
    → 0 < hits postings id (term ∷ [])
unfolding hits
hit postings id term ids e = rw e (omega (arith, occurrences-push_absent id ids))

module _ (dm : DashMap) (x : Setting dm) where
  -- On a node that owns everything, the index task of a stored document succeeds and adds its book
  -- to the postings of each of its terms, once, and to no others.
  pub index_document_alone :
      (shuffle : List Str → List Str) (clock : ℕ → ℕ) (op_ids : ℕ → Str) (book_id : Str)
      (doc : RawDocument) (a : App dm) (log : List Request)
      → IsAlone dm x.site
      → IsFresh dm x a.index op_ids
      → documents_in dm x a book_id ≡ some doc
      → (t : Store dm Str (List Str)) × (index_document dm x shuffle clock op_ids
            (index_task dm x book_id)
            (a, log)
          ≡ (ok tt, (record a { index = t }, log)))
        × ((j : Str)
            → postings_in dm x (record a { index = t }) j ≡ (
                if any (λ w. w == j) (shuffle (tokenize_text x.unicode x.regex doc.body))
                then some (push_absent book_id (or_default (postings_in dm x a j)))
                else postings_in dm x a j))
  unfolding index_document
  index_document_alone shuffle clock op_ids book_id doc a log alone fresh there =
      let tokens = shuffle (tokenize_text x.unicode x.regex doc.body) in
      let step : Option RawDocument → Act dm (Unit {0}) = λ found. elim found [
        | none ↦ pure tt
        | some raw_doc ↦
            index_tokens dm x clock op_ids book_id
              (shuffle (tokenize_text x.unicode x.regex raw_doc.body))
      ] in
      let (t, ran, final) = index_tokens_alone dm x clock op_ids book_id tokens a log alone fresh in
      (
        t,
        rw x.formats.from_payload-to_payload (
            bind_of_ok (get_document dm x book_id) step
              (get_document_alone dm x a book_id log alone)
            ∙ ap (λ found. step found (a, log)) there
            ∙ ran),
        final,
      )

  -- In particular the book is in the postings of each of its terms.
  pub index_document_posted :
      (shuffle : List Str → List Str) (clock : ℕ → ℕ) (op_ids : ℕ → Str) (book_id : Str)
      (doc : RawDocument) (term : Str) (a : App dm) (log : List Request)
      → ((w : Str) (ws : List Str) → In w ws → In w (shuffle ws))
      → IsAlone dm x.site
      → IsFresh dm x a.index op_ids
      → documents_in dm x a book_id ≡ some doc
      → In term (tokenize_text x.unicode x.regex doc.body)
      → (t : Store dm Str (List Str)) × (index_document dm x shuffle clock op_ids
            (index_task dm x book_id)
            (a, log)
          ≡ (ok tt, (record a { index = t }, log)))
        × (postings_in dm x (record a { index = t }) term
            ≡ some (push_absent book_id (or_default (postings_in dm x a term))))
  index_document_posted shuffle clock op_ids book_id doc term a log keeps alone fresh there i =
      let (t, ran, final) =
        index_document_alone shuffle clock op_ids book_id doc a log alone fresh there in
      (
        t,
        ran,
        final term
            ∙ rw
                (any_of_In term (shuffle (tokenize_text x.unicode x.regex doc.body))
                  (keeps term (tokenize_text x.unicode x.regex doc.body) i))
                refl,
      )

  -- A book whose postings have its id and whose metadata are there is found by the token.
  pub search_posted :
      (b : App dm) (book_id term : Str) (ids : List Str) (m : BookMetadata) (log : List Request)
      → IsAlone dm x.site
      → postings_in dm x b term ≡ some (push_absent book_id ids)
      → books_in dm x b book_id ≡ some m
      → tokenize_query x.unicode term ≡ term ∷ []
      → (results : List Scored) × (sent : List Request) × (search dm x term (b, log)
          ≡ (ok results, (b, sent)))
        × ((n : ℕ) × In (m, n) results)
  search_posted b book_id term ids m log alone posted known read =
      let (results, sent, found, ranked, which) =
        search_lem dm x b (postings_in dm x b) (books_in dm x b)
          (λ k l. (l, get_postings_alone dm x b k l alone))
          (λ k l. (l, get_book_alone dm x b k l alone)) term log in
      let (n, scored) =
        some_points (hits (postings_in dm x b) book_id (term ∷ []))
          (hit (postings_in dm x b) book_id term ids posted) in
      (
        results,
        sent,
        found,
        (
          n,
          (which m n).1 (
            book_id,
            known,
            ap (λ ts. plus_points none (hits (postings_in dm x b) book_id ts)) read ∙ scored,
          ),
        ),
      )

  -- A node that owns everything and has indexed a document whose metadata it holds finds the book
  -- when it is asked for any term of the document.
  pub search-index_document :
      (shuffle : List Str → List Str) (clock : ℕ → ℕ) (op_ids : ℕ → Str) (book_id : Str)
      (doc : RawDocument) (m : BookMetadata) (term : Str) (a : App dm) (log : List Request)
      → ((w : Str) (ws : List Str) → In w ws → In w (shuffle ws))
      → IsAlone dm x.site
      → IsFresh dm x a.index op_ids
      → documents_in dm x a book_id ≡ some doc
      → books_in dm x a book_id ≡ some m
      → In term (tokenize_text x.unicode x.regex doc.body)
      → let b = (index_document dm x shuffle clock op_ids (index_task dm x book_id) (a, log)).1 in
        (results : List Scored) × (sent : List Request) × (search dm x term b
          ≡ (ok results, (b.0, sent)))
        × ((n : ℕ) × In (m, n) results)
  search-index_document shuffle clock op_ids book_id doc m term a log keeps alone fresh there known
        i =
      let (t, ran, posted) =
        index_document_posted shuffle clock op_ids book_id doc term a log keeps alone fresh there
          i in
      subst
        (λ (r : Result (Unit {0}) × (App dm × List Request)).
          (results : List Scored) × (sent : List Request) × (search dm x term r.1
            ≡ (ok results, (r.1.0, sent)))
          × ((n : ℕ) × In (m, n) results))
        (sym ran)
        (search_posted (record a { index = t }) book_id term (or_default (postings_in dm x a term))
          m log alone posted known (tokenize_query-tokenize_text x.unicode x.regex doc.body term i))

  pub index_document_again :
      (shuffle : List Str → List Str) (clock later : ℕ → ℕ) (op_ids op_ids' : ℕ → Str)
      (book_id : Str) (doc : RawDocument) (a : App dm) (log : List Request) (j : Str)
      → IsAlone dm x.site
      → IsFresh dm x a.index op_ids
      → documents_in dm x a book_id ≡ some doc
      → IsFresh dm x
          (index_document dm x shuffle clock op_ids (index_task dm x book_id) (a, log)).1.0.index
          op_ids'
      → let once = index_document dm x shuffle clock op_ids (index_task dm x book_id) (a, log) in
        let twice = index_document dm x shuffle later op_ids' (index_task dm x book_id) once.1 in
        postings_in dm x twice.1.0 j ≡ postings_in dm x once.1.0 j
  index_document_again shuffle clock later op_ids op_ids' book_id doc a log j alone fresh there
        fresh' =
      let (t, ran, final) =
        index_document_alone shuffle clock op_ids book_id doc a log alone fresh there in
      let b = record a { index = t } in
      let again : IsFresh dm x t op_ids' =
        subst
          (λ (r : Result (Unit {0}) × (App dm × List Request)). IsFresh dm x r.1.0.index op_ids')
          ran fresh' in
      let (u, reran, final') =
        index_document_alone shuffle later op_ids' book_id doc b log alone again there in
      subst
        (λ (r : Result (Unit {0}) × (App dm × List Request)).
          postings_in dm x
            (index_document dm x shuffle later op_ids' (index_task dm x book_id) r.1).1.0 j
          ≡ postings_in dm x r.1.0 j)
        (sym ran)
        (ap (λ (r : Result (Unit {0}) × (App dm × List Request)). postings_in dm x r.1.0 j) reran
          ∙ final' j
          ∙ stable book_id (any (λ w. w == j) (shuffle (tokenize_text x.unicode x.regex doc.body)))
              (postings_in dm x a j) (postings_in dm x b j) (final j))
