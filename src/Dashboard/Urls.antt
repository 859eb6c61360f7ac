-- ===== src/Dashboard/Urls.antt =====
-- ui/src/main.rs: the URLs that requests are passed on to.
use stage.Prelude.{◌≡◌, Option, none, some, Str, str, if_cases, is_empty}
use stage.Text.{trim, trim_end_matches}
use stage.Text.Edges.{trim_end_matches_twice}
use stage.Dashboard.{is_slash, state_of, candidate_of, with_scheme, resolve_node_url}

state_of_bare :
    (env : Option Str) → trim_end_matches is_slash (state_of env).node_url ≡ (state_of env).node_url
unfolding state_of
state_of_bare none = trim_end_matches_twice is_slash (str "http://localhost")
state_of_bare (some url) = trim_end_matches_twice is_slash url

-- Whatever node is configured and whatever node a request names, the URL that a path is appended
-- to does not end with a slash.
pub resolve_node_url_bare :
    (env override_url : Option Str)
    → trim_end_matches is_slash (resolve_node_url (state_of env) override_url)
      ≡ resolve_node_url (state_of env) override_url
unfolding resolve_node_url
resolve_node_url_bare env override_url =
    if_cases (λ (u : Str). trim_end_matches is_slash u ≡ u)
      (is_empty (trim (candidate_of (state_of env) override_url))) (λ _. state_of_bare env)
      (λ _.
        trim_end_matches_twice is_slash
          (with_scheme (trim (candidate_of (state_of env) override_url))))
