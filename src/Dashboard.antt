-- ===== src/Dashboard.antt =====
-- ui/src/main.rs: the dashboard's server, which passes requests on to a node. The page itself is
-- static. A JSON value is kept as its text.
pub mod Urls
use stage.Prelude.{
  ℕ, zero, suc, ◌+◌, ◌/◌, ◌%◌, Bool, true, false, ◌||◌, Option, none, some, List, [], ◌∷◌, ◌++◌,
  Str, str, ltb, nat_beq, if◌then◌else◌, is_empty,
}
use stage.Text.{trim, trim_end_matches, starts_with, digits}

-- The `reqwest` client is a parameter of the handlers.
pub record AppState : Type 0 where
  pub node_url : Str

pub record IngestParams : Type 0 where
  pub id : Str
  pub node : Option Str

pub record SearchParams : Type 0 where
  pub q : Str
  pub limit : Option ℕ
  pub node : Option Str

pub record NodeParams : Type 0 where
  pub node : Option Str

pub record ProxyResponse : Type 0 where
  pub status : ℕ
  pub body : Str

-- What sending a request gives: the error's text, or a status and the body if it is JSON.
pub data Sent : Type 0 where
  not_sent : Str → Sent
  answered : ℕ → Option Str → Sent

pub data Method : Type 0 where
  http_get http_post : Method

abbrev pub Client : Type 0
Client = Method → Str → Sent

-- `Result<Json<ProxyResponse>, (StatusCode, String)>`
pub data Proxied : Type 0 where
  proxied : ProxyResponse → Proxied
  refused : ℕ → Str → Proxied

abbrev pub is_slash : ℕ → Bool
is_slash c = nat_beq c 47

-- `main`: the state from the variable NODE_URL.
unfoldable pub state_of : Option Str → AppState
unfolding trim_end_matches
state_of none = record { node_url = trim_end_matches is_slash (str "http://localhost") }
state_of (some url) = record { node_url = trim_end_matches is_slash url }

-- `unwrap_or_else`
abbrev pub candidate_of : AppState → Option Str → Str
candidate_of state none = state.node_url
candidate_of state (some url) = url

abbrev pub with_scheme : Str → Str
with_scheme trimmed =
    if starts_with trimmed (str "http://") || starts_with trimmed (str "https://")
    then trimmed
    else str "http://" ++ trimmed

unfoldable pub resolve_node_url : AppState → Option Str → Str
unfolding trim trim_end_matches starts_with
resolve_node_url state override_url =
    let trimmed = trim (candidate_of state override_url) in
    if is_empty trimmed then state.node_url else trim_end_matches is_slash (with_scheme trimmed)

-- The end of each handler.
unfoldable pub proxy_reply : Sent → Proxied
proxy_reply (not_sent e) = refused 502 e
proxy_reply (answered status none) =
    proxied (record { status = status; body = str "{\"error\":\"invalid json\"}" })
proxy_reply (answered status (some body)) = proxied (record { status = status; body = body })

abbrev pub limit_or : Option ℕ → ℕ
limit_or none = 5
limit_or (some n) = n

module _ (client : Client) (state : AppState) where
  unfoldable pub api_ingest : IngestParams → Proxied
  unfolding resolve_node_url proxy_reply
  api_ingest params =
      proxy_reply
        (client http_post (resolve_node_url state params.node ++ str "/ingest/" ++ params.id))

  -- `encode` is `urlencoding::encode`.
  unfoldable pub api_search : (Str → Str) → SearchParams → Proxied
  unfolding resolve_node_url digits proxy_reply
  api_search encode params = proxy_reply (
      client http_get (
        resolve_node_url state params.node
        ++ str "/search?q="
        ++ encode params.q
        ++ str "&limit="
        ++ digits 20 (limit_or params.limit)))

  unfoldable pub api_status : IngestParams → Proxied
  unfolding resolve_node_url proxy_reply
  api_status params =
      proxy_reply
        (client http_get (resolve_node_url state params.node ++ str "/ingest/status/" ++ params.id))

  unfoldable pub api_stats : NodeParams → Proxied
  unfolding resolve_node_url proxy_reply
  api_stats params =
      proxy_reply (client http_get (resolve_node_url state params.node ++ str "/health/stats"))
