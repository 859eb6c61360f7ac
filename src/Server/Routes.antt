-- ===== src/Server/Routes.antt =====
-- src/main.rs, the routes of `main`, and the paths of the requests that src/storage/memory.rs and
-- src/executor/queue.rs send to them.
pub mod Matching
pub mod Served
pub mod Unserved
use stage.Prelude.{
  ℕ, Bool, Option, some, List, [], ◌∷◌, ◌++◌, map, Str, str, is_empty, if◌then◌else◌, ◌≡◌, ◌≢◌, ◌↔◌,
  All, any, none, nat_beq, not, ◌&&◌, ◌||◌, ltb, ◌==◌, str_eq,
}
use stage.Text.{trim_end_matches, starts_with, digits}
use stage.Storage.Protocol
use stage.Executor.Types

-- The constants of src/storage/protocol.rs and src/executor/protocol.rs.
abbrev pub endpoint_replicate : Str
endpoint_replicate = str "/replicate"

abbrev pub endpoint_forward_put : Str
endpoint_forward_put = str "/forward_put"

abbrev pub endpoint_put : Str
endpoint_put = str "/put"

abbrev pub endpoint_get : Str
endpoint_get = str "/get"

abbrev pub endpoint_get_internal : Str
endpoint_get_internal = str "/internal/get"

abbrev pub endpoint_partition_dump : Str
endpoint_partition_dump = str "/internal/partition"

abbrev pub endpoint_submit_task : Str
endpoint_submit_task = str "/task/submit"

abbrev pub endpoint_internal_submit : Str
endpoint_internal_submit = str "/internal/submit_task"

abbrev pub endpoint_task_internal_get : Str
endpoint_task_internal_get = str "/internal/get_task"

abbrev pub endpoint_task_status : Str
endpoint_task_status = str "/task/status"

abbrev pub endpoint_task_replicate : Str
endpoint_task_replicate = str "/internal/replicate_task"

abbrev pub endpoint_task_partition_dump : Str
endpoint_task_partition_dump = str "/internal/task_partition"

pub data Method : Type 0 where
  get post : Method

-- A route's pattern: a path, or a prefix with "/:name" after it.
pub data Pattern : Type 0 where
  fixed : Str → Pattern
  capture : Str → Str → Pattern

-- The three maps.
pub data MapName : Type 0 where
  books datalake index : MapName

-- The handlers.
pub data Endpoint : Type 0 where
  health_routes stats ingest_gutenberg ingest_status search_books create_book : Endpoint
  put_value get_value get_internal partition_dump forward_put replicate : MapName → Endpoint
  submit_task task_status get_task_internal task_partition_dump internal_submit : Endpoint
  replicate_task : Endpoint

pub record Route : Type 0 where
  pub method : Method
  pub pattern : Pattern
  pub endpoint : Endpoint

abbrev route : Method → Pattern → Endpoint → Route
route m p e = record { method = m; pattern = p; endpoint = e }

-- `nest`
abbrev pub nested : Str → Pattern → Pattern
nested base (fixed s) = fixed (base ++ s)
nested base (capture s name) = capture (base ++ s) name

abbrev pub nest : Str → Route → Route
nest base r = record r { pattern = nested base r.pattern }

unfoldable pub map_routes : MapName → List Route
map_routes m =
    route post (fixed endpoint_put) (put_value m)
    ∷ route get (capture endpoint_get (str "key")) (get_value m)
    ∷ route get (capture endpoint_get_internal (str "key")) (get_internal m)
    ∷ route get (capture endpoint_partition_dump (str "id")) (partition_dump m)
    ∷ route post (fixed endpoint_forward_put) (forward_put m)
    ∷ route post (fixed endpoint_replicate) (replicate m)
    ∷ []

unfoldable pub task_routes : List Route
task_routes =
    route post (fixed endpoint_submit_task) submit_task
    ∷ route get (capture endpoint_task_status (str "id")) task_status
    ∷ route get (capture endpoint_task_internal_get (str "id")) get_task_internal
    ∷ route get (capture endpoint_task_partition_dump (str "id")) task_partition_dump
    ∷ route post (fixed endpoint_internal_submit) internal_submit
    ∷ route post (fixed endpoint_task_replicate) replicate_task
    ∷ []

unfoldable pub public_routes : List Route
public_routes =
    route get (fixed (str "/health/routes")) health_routes
    ∷ route get (fixed (str "/health/stats")) stats
    ∷ route post (capture (str "/ingest") (str "book_id")) ingest_gutenberg
    ∷ route get (capture (str "/ingest/status") (str "book_id")) ingest_status
    ∷ route get (fixed (str "/search")) search_books
    ∷ route post (fixed (str "/books")) create_book
    ∷ []

-- The path that a map is nested under, which `main` also gives it as its base path.
abbrev pub base_of : MapName → Str
base_of books = str "/books"
base_of datalake = str "/datalake"
base_of index = str "/index"

-- The router of `main`.
unfoldable pub app_routes : List Route
unfolding map_routes task_routes public_routes
app_routes =
    public_routes
    ++ map (nest (base_of books)) (map_routes books)
    ++ map (nest (base_of datalake)) (map_routes datalake)
    ++ map (nest (base_of index)) (map_routes index)
    ++ task_routes

abbrev pub is_slash : ℕ → Bool
is_slash c = nat_beq c 47

-- `DistributedMap::new_with_base`
unfoldable pub clean_base : Str → Str
unfolding trim_end_matches starts_with
clean_base base_path =
    let cleaned = trim_end_matches is_slash base_path in
    if is_empty cleaned
    then []
    else if starts_with cleaned (str "/")
    then cleaned
    else str "/" ++ cleaned

-- The method and the path of a request of a map whose base path is `base`.
unfoldable pub map_target : Str → Protocol.Call → Method × Str
unfolding digits
map_target base (Protocol.Call.replicate p op_id key value) = (post, base ++ endpoint_replicate)
map_target base (Protocol.Call.forward_put p op_id key value) = (post, base ++ endpoint_forward_put)
map_target base (Protocol.Call.get_internal key) =
    (get, base ++ (endpoint_get_internal ++ (str "/" ++ key)))
map_target base (Protocol.Call.partition_dump p) =
    (get, base ++ (endpoint_partition_dump ++ (str "/" ++ digits 20 p)))

-- The same for the queue, which has no base path.
unfoldable pub task_target : Types.Call → Method × Str
unfolding digits
task_target (Types.Call.replicate_task p id e) = (post, endpoint_task_replicate)
task_target (Types.Call.internal_submit p id task) = (post, str "/internal/submit_task")
task_target (Types.Call.internal_get key) = (get, endpoint_task_internal_get ++ (str "/" ++ key))
task_target (Types.Call.partition_dump p) =
    (get, endpoint_task_partition_dump ++ (str "/" ++ digits 20 p))

-- A route as it is written.
abbrev pub path_of : Pattern → Str
path_of (fixed s) = s
path_of (capture s name) = s ++ str "/:" ++ name

-- The reply of `handle_routes`.
unfoldable pub handle_routes : List Str
handle_routes =
    str "/health/routes"
    ∷ str "/health/stats"
    ∷ str "/ingest/:book_id"
    ∷ str "/ingest/status/:book_id"
    ∷ str "/search"
    ∷ str "/books"
    ∷ str "/books/put"
    ∷ str "/books/get/:key"
    ∷ str "/books/internal/get/:key"
    ∷ str "/books/forward_put"
    ∷ str "/books/replicate"
    ∷ str "/datalake/put"
    ∷ str "/datalake/get/:key"
    ∷ str "/datalake/internal/get/:key"
    ∷ str "/datalake/forward_put"
    ∷ str "/datalake/replicate"
    ∷ str "/index/put"
    ∷ str "/index/get/:key"
    ∷ str "/index/internal/get/:key"
    ∷ str "/index/forward_put"
    ∷ str "/index/replicate"
    ∷ str "/submit_task"
    ∷ str "/task_status/:id"
    ∷ str "/internal/task/:id"
    ∷ str "/internal/submit_task"
    ∷ str "/internal/task_partition/:id"
    ∷ str "/task_replicate"
    ∷ []
