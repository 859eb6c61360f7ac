-- ===== src/Tests/Routing.antt =====
-- Requests between two nodes on the routes of src/main.rs.
use stage.Prelude.{
  ◌≡◌, ◌↔◌, refl, ap, sym, ◌∙◌, subst, ◌||◌, Option, none, some, [], ◌∷◌, ◌++◌, Str, str, ◌==◌,
  str_eq, nat_beq, keep, not, any, map, if◌then◌else◌, is_empty, inl, inr, arith, Bool-cases,
}
use mathlib.Core.List.{append_assoc}
use stage.Text.{digits}
use stage.Storage.Protocol
use stage.Executor.Types
use stage.Server.Routes.{
  Method, Pattern, fixed, capture, books, Endpoint, Route, base_of, app_routes, map_target,
  task_target, clean_base, path_of, handle_routes,
}
use stage.Server.Routes.Matching.{has_slash, IsSegment, Router}
use stage.Server.Routes.Served.{
  Served, map_endpoint, task_endpoint, map_target-Served, task_target-Served,
}
use stage.Server.Routes.Unserved.{slash_key_unserved}

abbrev strip : Str → Str → Option Str
strip [] p = some p
strip (c ∷ pre) [] = none
strip (c ∷ pre) (d ∷ p) = if nat_beq c d then strip pre p else none

strip-append : (pre a : Str) → strip pre (pre ++ a) ≡ some a
strip-append [] a = refl
strip-append (c ∷ pre) a = ground (arith, strip-append pre a)

append-strip : (pre p a : Str) → strip pre p ≡ some a → p ≡ pre ++ a
append-strip [] p a h = ground arith
append-strip (c ∷ pre) [] a h = absurd (ground arith)
append-strip (c ∷ pre) (d ∷ p) a h = ground (arith, append-strip pre p a)

abbrev segment_of : Option Str → Option Str
segment_of none = none
segment_of (some a) = if is_empty a || has_slash a then none else some a

segment_of_lem : (o : Option Str) (a : Str) → segment_of o ≡ some a → (o ≡ some a) × IsSegment a
segment_of_lem none a h = absurd (ground arith)
segment_of_lem (some []) a h = absurd (ground arith)
segment_of_lem (some (c ∷ s)) a h = elim (Bool-cases (has_slash (c ∷ s))) [
  | inl e ↦ absurd (let k = rw e at h in ground arith)
  | inr e ↦
      let k = rw e at h in
      let same : c ∷ s ≡ a = ground arith in
      (ap some same, subst IsSegment same ((λ z. ground arith), e))
]

segment_of-IsSegment : (a : Str) → IsSegment a → segment_of (some a) ≡ some a
segment_of-IsSegment [] (n, e) = absurd (n refl)
segment_of-IsSegment (c ∷ s) (n, e) = rw e

abbrev captured : Pattern → Str → Option Str
captured (fixed s) p = if p == s then some [] else none
captured (capture pre name) p = segment_of (strip (pre ++ str "/") p)

captured_iff :
    (pre name arg p : Str)
    → (captured (capture pre name) p ≡ some arg) ↔ ((p ≡ pre ++ (47 ∷ arg)) × IsSegment arg)
captured_iff pre name arg p = (
  λ h.
      let (e, s) = segment_of_lem (strip (pre ++ str "/") p) arg h in
      (append-strip (pre ++ str "/") p arg e ∙ append_assoc pre (str "/") arg, s),
  λ (e, s).
      let there : p ≡ (pre ++ str "/") ++ arg = e ∙ sym (append_assoc pre (str "/") arg) in
      ap (λ z. segment_of (strip (pre ++ str "/") z)) there
      ∙ ap segment_of (strip-append (pre ++ str "/") arg)
      ∙ segment_of-IsSegment arg s,
)

abbrev axum : Router
axum = record {
  captures = captured;
  captures-fixed = λ s p plain. refl;
  captures-capture = λ pre name arg p plain. captured_iff pre name arg p;
}

abbrev emma : Str
emma = str "158"

map_target-Served_example :
    Served axum
      (map_target (clean_base (base_of books)) (Protocol.Call.get_internal emma))
      (map_endpoint books (Protocol.Call.get_internal emma))
      emma
map_target-Served_example =
    map_target-Served axum books (Protocol.Call.get_internal emma)
      (((λ z. ground arith), refl), (refl, (refl, (refl, tt))))

task_target-Served_example :
    Served axum
      (task_target (Types.Call.partition_dump 17))
      (task_endpoint (Types.Call.partition_dump 17))
      (digits 20 17)
task_target-Served_example = task_target-Served axum (Types.Call.partition_dump 17) tt

-- The first route of the router.
abbrev first_route : Route
first_route = record {
  method = Method.get;
  pattern = fixed (str "/health/routes");
  endpoint = Endpoint.health_routes;
}

slash_key_unserved_example :
    captured
      (fixed (str "/health/routes"))
      (map_target (base_of books) (Protocol.Call.get_internal (str "a/b"))).1
    ≡ none
unfolding app_routes
slash_key_unserved_example =
    slash_key_unserved axum books (str "a/b") first_route (refl, (refl, (refl, tt))) refl (inl refl)

-- The paths that `handle_routes` gives and that no route has.
unrouted :
    keep (λ s. not (any (λ r. path_of r.pattern == s) app_routes)) handle_routes
    ≡ str "/submit_task"
      ∷ str "/task_status/:id"
      ∷ str "/internal/task/:id"
      ∷ str "/task_replicate"
      ∷ []
unfolding handle_routes app_routes
unrouted = refl

-- The routes that it does not give.
unlisted :
    keep (λ s. not (any (λ p. p == s) handle_routes)) (map (λ r. path_of r.pattern) app_routes)
    ≡ str "/books/internal/partition/:id"
      ∷ str "/datalake/internal/partition/:id"
      ∷ str "/index/internal/partition/:id"
      ∷ str "/task/submit"
      ∷ str "/task/status/:id"
      ∷ str "/internal/get_task/:id"
      ∷ str "/internal/replicate_task"
      ∷ []
unfolding handle_routes app_routes
unlisted = refl
