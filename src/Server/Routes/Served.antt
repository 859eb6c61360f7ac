-- ===== src/Server/Routes/Served.antt =====
-- src/main.rs, src/storage/memory.rs and src/executor/queue.rs together: which handler a request
-- between two nodes reaches.
use stage.Prelude.{
  ℕ, ◌≡◌, refl, ap, sym, ◌∙◌, subst, true, false, some, List, [], ◌∷◌, ◌++◌, map, Str, str, str_eq,
  All, All-append, All-weaken, All-of_all, In, In-append_left, In-append_right, inl, inr, arith,
  all, ==_refl,
}
use mathlib.Core.List.{append_assoc}
use stage.Text.{digits}
use stage.Text.Digits.{is_digit, digits-All, digits-ne-nil}
use stage.Storage.Protocol
use stage.Executor.Types
use stage.Server.Routes.{
  Method, get, post, fixed, capture, MapName, books, datalake, index, Endpoint, get_internal,
  partition_dump, forward_put, replicate, get_task_internal, task_partition_dump, internal_submit,
  replicate_task, Route, nest, map_routes, task_routes, public_routes, base_of, app_routes,
  clean_base, map_target, task_target, endpoint_get_internal, endpoint_partition_dump,
  endpoint_task_internal_get, endpoint_task_partition_dump, endpoint_replicate,
  endpoint_forward_put, endpoint_task_replicate, endpoint_internal_submit,
}
use stage.Server.Routes.Matching.{
  is_plain, IsPlain, has_slash, IsSegment, Router, apart, apart_unique, captures-clash,
}

-- A key that is a segment of a path.
abbrev pub IsKey : Str → Type 0
IsKey k = IsSegment k × IsPlain k

-- What a call of a map is for, and what its path carries.
abbrev pub map_endpoint : MapName → Protocol.Call → Endpoint
map_endpoint m (Protocol.Call.replicate p op_id key value) = replicate m
map_endpoint m (Protocol.Call.forward_put p op_id key value) = forward_put m
map_endpoint m (Protocol.Call.get_internal key) = get_internal m
map_endpoint m (Protocol.Call.partition_dump p) = partition_dump m

abbrev pub map_arg : Protocol.Call → Str
map_arg (Protocol.Call.replicate p op_id key value) = []
map_arg (Protocol.Call.forward_put p op_id key value) = []
map_arg (Protocol.Call.get_internal key) = key
map_arg (Protocol.Call.partition_dump p) = digits 20 p

abbrev pub MapCallFits : Protocol.Call → Type 0
MapCallFits (Protocol.Call.replicate p op_id key value) = Unit
MapCallFits (Protocol.Call.forward_put p op_id key value) = Unit
MapCallFits (Protocol.Call.get_internal key) = IsKey key
MapCallFits (Protocol.Call.partition_dump p) = Unit

-- The same for a call of the queue.
abbrev pub task_endpoint : Types.Call → Endpoint
task_endpoint (Types.Call.replicate_task p id e) = replicate_task
task_endpoint (Types.Call.internal_submit p id task) = internal_submit
task_endpoint (Types.Call.internal_get key) = get_task_internal
task_endpoint (Types.Call.partition_dump p) = task_partition_dump

abbrev pub task_arg : Types.Call → Str
task_arg (Types.Call.replicate_task p id e) = []
task_arg (Types.Call.internal_submit p id task) = []
task_arg (Types.Call.internal_get key) = key
task_arg (Types.Call.partition_dump p) = digits 20 p

abbrev pub TaskCallFits : Types.Call → Type 0
TaskCallFits (Types.Call.replicate_task p id e) = Unit
TaskCallFits (Types.Call.internal_submit p id task) = Unit
TaskCallFits (Types.Call.internal_get key) = IsKey key
TaskCallFits (Types.Call.partition_dump p) = Unit

app_routes-apart : apart app_routes ≡ true
unfolding app_routes
app_routes-apart = refl

IsPlain-of_all : (s : Str) → all is_plain s ≡ true → IsPlain s
IsPlain-of_all s h = All-of_all is_plain s h

digits-IsKey : (p : ℕ) → IsKey (digits 20 p)
digits-IsKey p = (
  (digits-ne-nil 19 p, no_slash (digits 20 p) (digits-All 20 p)),
  All-weaken (λ c. is_digit c ≡ true) (λ c. is_plain c ≡ true) (digits 20 p) (λ c h. ground arith)
      (digits-All 20 p),
)
  where
    no_slash : (s : Str) → All (λ c. is_digit c ≡ true) s → has_slash s ≡ false
    no_slash [] h = refl
    no_slash (c ∷ s) (e, h) = ground (arith, no_slash s h)

-- The routes of a map under its path, and what follows them.
abbrev routes_of : MapName → List Route
routes_of m = map (nest (base_of m)) (map_routes m)

abbrev after_datalake : List Route
after_datalake = routes_of index ++ task_routes

abbrev after_books : List Route
after_books = routes_of datalake ++ after_datalake

map_route_In : (m : MapName) (x : Route) → In x (routes_of m) → In x app_routes
unfolding app_routes
map_route_In books x i =
    In-append_right x public_routes (routes_of books ++ after_books)
      (In-append_left x (routes_of books) after_books i)
map_route_In datalake x i = In-append_right x public_routes (routes_of books ++ after_books) (
    In-append_right x (routes_of books) after_books
      (In-append_left x (routes_of datalake) after_datalake i))
map_route_In index x i = In-append_right x public_routes (routes_of books ++ after_books) (
    In-append_right x (routes_of books) after_books (
      In-append_right x (routes_of datalake) after_datalake
        (In-append_left x (routes_of index) task_routes i)))

task_route_In : (x : Route) → In x task_routes → In x app_routes
unfolding app_routes
task_route_In x i = In-append_right x public_routes (routes_of books ++ after_books) (
    In-append_right x (routes_of books) after_books (
      In-append_right x (routes_of datalake) after_datalake
        (In-append_right x (routes_of index) task_routes i)))

-- The paths of the routes are plain, whichever map they are of.
path_plain : (m : MapName) (s : Str) → all is_plain s ≡ true → all is_plain (base_of m ++ s) ≡ true
path_plain books s h = h
path_plain datalake s h = h
path_plain index s h = h

-- The base paths are clean as they are.
clean_base-base_of : (m : MapName) → clean_base (base_of m) ≡ base_of m
unfolding clean_base
clean_base-base_of books = refl
clean_base-base_of datalake = refl
clean_base-base_of index = refl

module _ (r : Router) where
  -- The router has a route with this method for the path, which leads to the endpoint with this
  -- argument; and any route that meets the path does.
  abbrev pub Served : Method × Str → Endpoint → Str → Type 0
  Served (method, path) e arg =
      ((x : Route) × In x app_routes
        × (x.method ≡ method)
        × (x.endpoint ≡ e)
        × (r.captures x.pattern path ≡ some arg))
      × ((y : Route) (a : Str)
          → In y app_routes
          → r.captures y.pattern path ≡ some a
          → (y.method ≡ method) × (y.endpoint ≡ e) × (a ≡ arg))

  served :
      (x : Route) (path arg : Str)
      → In x app_routes
      → IsPlain path
      → r.captures x.pattern path ≡ some arg
      → Served (x.method, path) x.endpoint arg
  served x path arg i plain h = (
    (x, i, refl, refl, h),
    λ y a j k.
        let same : y ≡ x =
          apart_unique app_routes y x app_routes-apart j i
            (captures-clash r y.pattern x.pattern path a arg plain k h) in
        let k' = subst (λ z. r.captures z.pattern path ≡ some a) same k in
        (ap (λ (z : Route). z.method) same, ap (λ (z : Route). z.endpoint) same, ground arith),
  )

  fixed-Served :
      (m : Method) (path : Str) (e : Endpoint)
      → In (record { method = m; pattern = fixed path; endpoint = e }) app_routes
      → all is_plain path ≡ true
      → Served (m, path) e []
  fixed-Served m path e i plain =
      served (record { method = m; pattern = fixed path; endpoint = e }) path [] i
        (IsPlain-of_all path plain)
        (r.captures-fixed path path (IsPlain-of_all path plain) ∙ rw (==_refl path))

  capture-Served :
      (m : Method) (pre name arg path : Str) (e : Endpoint)
      → In (record { method = m; pattern = capture pre name; endpoint = e }) app_routes
      → all is_plain pre ≡ true
      → IsKey arg
      → path ≡ pre ++ (47 ∷ arg)
      → Served (m, path) e arg
  capture-Served m pre name arg path e i plain (segment, plain_arg) same =
      let all_plain : IsPlain path = subst IsPlain (sym same) (
        All-append (λ c. is_plain c ≡ true) pre (47 ∷ arg) (IsPlain-of_all pre plain)
          (refl, plain_arg)) in
      served (record { method = m; pattern = capture pre name; endpoint = e }) path arg i all_plain
        ((r.captures-capture pre name arg path all_plain).1 (same, segment))

  map_target_plain :
      (m : MapName) (call : Protocol.Call)
      → MapCallFits call
      → Served (map_target (base_of m) call) (map_endpoint m call) (map_arg call)
  unfolding map_target map_routes
  map_target_plain m (Protocol.Call.replicate p op_id key value) fits =
      let path = base_of m ++ endpoint_replicate in
      fixed-Served post path (replicate m)
        (map_route_In m (record { method = post; pattern = fixed path; endpoint = replicate m })
          (inr (inr (inr (inr (inr (inl refl)))))))
        (path_plain m endpoint_replicate refl)
  map_target_plain m (Protocol.Call.forward_put p op_id key value) fits =
      let path = base_of m ++ endpoint_forward_put in
      fixed-Served post path (forward_put m)
        (map_route_In m (record { method = post; pattern = fixed path; endpoint = forward_put m })
          (inr (inr (inr (inr (inl refl))))))
        (path_plain m endpoint_forward_put refl)
  map_target_plain m (Protocol.Call.get_internal key) fits =
      let pre = base_of m ++ endpoint_get_internal in
      capture-Served get pre (str "key") key
        (base_of m ++ (endpoint_get_internal ++ (str "/" ++ key))) (get_internal m)
        (map_route_In m
          (record { method = get; pattern = capture pre (str "key"); endpoint = get_internal m })
          (inr (inr (inl refl))))
        (path_plain m endpoint_get_internal refl) fits
        (sym (append_assoc (base_of m) endpoint_get_internal (47 ∷ key)))
  map_target_plain m (Protocol.Call.partition_dump p) fits =
      let pre = base_of m ++ endpoint_partition_dump in
      capture-Served get pre (str "id") (digits 20 p)
        (base_of m ++ (endpoint_partition_dump ++ (str "/" ++ digits 20 p))) (partition_dump m)
        (map_route_In m
          (record { method = get; pattern = capture pre (str "id"); endpoint = partition_dump m })
          (inr (inr (inr (inl refl)))))
        (path_plain m endpoint_partition_dump refl) (digits-IsKey p)
        (sym (append_assoc (base_of m) endpoint_partition_dump (47 ∷ digits 20 p)))

  -- Each request that a map sends is met by exactly one route, that of the endpoint of that map
  -- that it is meant for, which reads the key or the partition in it. A key in a path must be one
  -- segment, of characters that mean nothing in a URL.
  pub map_target-Served :
      (m : MapName) (call : Protocol.Call)
      → MapCallFits call
      → Served (map_target (clean_base (base_of m)) call) (map_endpoint m call) (map_arg call)
  map_target-Served m call fits =
      subst (λ base. Served (map_target base call) (map_endpoint m call) (map_arg call))
        (sym (clean_base-base_of m)) (map_target_plain m call fits)

  -- Each request that the queue sends is met by exactly one route, that of the endpoint that it is
  -- meant for, which reads the id or the partition in it. An id in a path must be one segment, of
  -- characters that mean nothing in a URL.
  pub task_target-Served :
      (call : Types.Call)
      → TaskCallFits call
      → Served (task_target call) (task_endpoint call) (task_arg call)
  unfolding task_target task_routes
  task_target-Served (Types.Call.replicate_task p id e) fits =
      fixed-Served post endpoint_task_replicate replicate_task
        (task_route_In _ (inr (inr (inr (inr (inr (inl refl))))))) refl
  task_target-Served (Types.Call.internal_submit p id task) fits =
      fixed-Served post endpoint_internal_submit internal_submit
        (task_route_In _ (inr (inr (inr (inr (inl refl)))))) refl
  task_target-Served (Types.Call.internal_get key) fits =
      capture-Served get endpoint_task_internal_get (str "id") key
        (endpoint_task_internal_get ++ (str "/" ++ key)) get_task_internal
        (task_route_In _ (inr (inr (inl refl)))) refl fits refl
  task_target-Served (Types.Call.partition_dump p) fits =
      capture-Served get endpoint_task_partition_dump (str "id") (digits 20 p)
        (endpoint_task_partition_dump ++ (str "/" ++ digits 20 p)) task_partition_dump
        (task_route_In _ (inr (inr (inr (inl refl))))) refl (digits-IsKey p) refl
