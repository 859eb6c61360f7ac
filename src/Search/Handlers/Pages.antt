-- ===== src/Search/Handlers/Pages.antt =====
-- src/search/handlers.rs, `handle_search`: it always answers, with a page within its bounds.
use stage.Prelude.{
  ℕ, zero, suc, ◌-◌, min, ◌≡◌, refl, ap, ◌∙◌, List, [], ◌∷◌, map, Str, str, length, take, drop,
  arith,
}
use stage.DashMap.{DashMap}
use stage.Effects.{ok, ◌>>=◌, pure, bind_of_ok}
use stage.Storage.Protocol.{Request}
use stage.Storage.Memory.Alone.{get_value-Reads}
use stage.App.{App, Setting, get_postings, get_book}
use stage.Search.Types.{SearchResponse}
use stage.Search.Engine.{
  Scored, Scores, add_found, push_found, score_tokens, hydrate, search, sort_by_score,
}
use stage.Search.Tokenizer.{tokenize_query}
use stage.Search.Handlers.{SearchParams, unwrap_or, item_of, paginate, handle_search}

module _ {A B : Type 0} where
  length-map : (f : A → B) (xs : List A) → length (map f xs) ≡ length xs
  length-map f [] = refl
  length-map f (x ∷ xs) = ap suc (length-map f xs)

module _ {A : Type 0} where
  length-drop : (n : ℕ) (xs : List A) → length (drop n xs) ≡ length xs - n
  length-drop zero xs = omega arith
  length-drop (suc n) [] = omega arith
  length-drop (suc n) (x ∷ xs) = omega (arith, length-drop n xs)

  length-take : (n : ℕ) (xs : List A) → length (take n xs) ≡ min n (length xs)
  length-take zero xs = omega arith
  length-take (suc n) [] = omega arith
  length-take (suc n) (x ∷ xs) = omega (arith, length-take n xs)

module _ (dm : DashMap) (x : Setting dm) (a : App dm) where
  score_tokens_total :
      (tokens : List Str) (scores : Scores dm) (log : List Request)
      → (after : Scores dm) × (sent : List Request) × (score_tokens dm x scores tokens (a, log)
          ≡ (ok after, (a, sent)))
  unfolding score_tokens
  score_tokens_total [] scores log = (scores, log, refl)
  score_tokens_total (token ∷ tokens) scores log =
      let (found, mid, e) =
        get_value-Reads dm x.formats.index x.site (str "/index") x.wire token a.index log in
      let (after, sent, h) = score_tokens_total tokens (add_found dm scores found) mid in
      (
        after,
        sent,
        bind_of_ok (get_postings dm x token)
              (λ found. score_tokens dm x (add_found dm scores found) tokens)
              (ap (λ r. (r.0, (record a { index = r.1.0 }, r.1.1))) e)
            ∙ h,
      )

  hydrate_total :
      (l : List (Str × ℕ)) (log : List Request)
      → (results : List Scored) × (sent : List Request) × (hydrate dm x l (a, log)
          ≡ (ok results, (a, sent)))
  unfolding hydrate
  hydrate_total [] log = ([], log, refl)
  hydrate_total ((id, score) ∷ l) log =
      let (found, mid, e) =
        get_value-Reads dm x.formats.books x.site (str "/books") x.wire id a.books log in
      let (results, sent, h) = hydrate_total l mid in
      (
        push_found dm x found score results,
        sent,
        bind_of_ok (get_book dm x id)
              (λ found. hydrate dm x l >>= λ rest. pure (push_found dm x found score rest))
              (ap (λ r. (r.0, (record a { books = r.1.0 }, r.1.1))) e)
            ∙ bind_of_ok (hydrate dm x l) (λ rest. pure (push_found dm x found score rest)) h,
      )

  search_total :
      (query : Str) (log : List Request)
      → (results : List Scored) × (sent : List Request) × (search dm x query (a, log)
          ≡ (ok results, (a, sent)))
  unfolding search
  search_total query log =
      let tokens = tokenize_query x.unicode query in
      let (scores, mid, e) = score_tokens_total tokens dm.empty log in
      let (results, sent, h) = hydrate_total (dm.entries scores) mid in
      (
        sort_by_score results,
        sent,
        bind_of_ok (score_tokens dm x dm.empty tokens)
              (λ s. hydrate dm x (dm.entries s) >>= λ l. pure (sort_by_score l)) e
            ∙ bind_of_ok (hydrate dm x (dm.entries scores)) (λ l. pure (sort_by_score l)) h,
      )

  -- The search endpoint answers whatever the network does, and changes nothing: its total is the
  -- number of the results, and its page holds those after the offset (0 if none is given), at most
  -- `limit` of them (10).
  pub handle_search_lem :
      (params : SearchParams) (log : List Request)
      → (results : List Scored) × (sent : List Request) × (response : SearchResponse) × (search dm x
            params.q
            (a, log)
          ≡ (ok results, (a, sent)))
        × (handle_search dm x params (a, log) ≡ (ok response, (a, sent)))
        × (response.total_count ≡ length results)
        × (response.count
            ≡ min (unwrap_or params.limit 10) (length results - unwrap_or params.offset 0))
        × (response.results
            ≡ take
                (unwrap_or params.limit 10)
                (drop (unwrap_or params.offset 0) (map item_of results)))
  unfolding handle_search paginate
  handle_search_lem params log =
      let (results, sent, e) = search_total params.q log in
      let items = map item_of results in
      let from = unwrap_or params.offset 0 in
      let most = unwrap_or params.limit 10 in
      (
        results,
        sent,
        paginate params items,
        e,
        bind_of_ok (search dm x params.q) (λ found. pure (paginate params (map item_of found))) e,
        length-map item_of results,
        omega (
          arith,
          length-take most (drop from items),
          length-drop from items,
          length-map item_of results,
        ),
        refl,
      )
