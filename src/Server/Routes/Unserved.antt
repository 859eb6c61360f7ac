-- ===== src/Server/Routes/Unserved.antt =====
-- src/main.rs and src/storage/memory.rs together: keys that cannot stand in a path.
use stage.Prelude.{
  ◌≡◌, refl, ap, sym, ◌∙◌, subst, true, not, none, some, [], ◌∷◌, ◌++◌, Str, str, All-append, In,
  In-of_All, Option-cases, inl, inr, arith, all, All-of_all,
}
use stage.Text.{starts_with}
use stage.Storage.Protocol
use stage.Server.Routes.{
  MapName, books, datalake, index, Pattern, fixed, capture, Route, base_of, app_routes, map_target,
  endpoint_get_internal,
}
use stage.Server.Routes.Matching.{
  is_plain, IsPlain, has_slash, Router, dir, captures_fixed, captures_dir,
}

abbrev stem : Pattern → Str
stem (fixed s) = s
stem (capture pre name) = pre

-- The path up to the key.
abbrev before_key : MapName → Str
before_key m = base_of m ++ endpoint_get_internal ++ str "/"

stems_elsewhere :
    (m : MapName)
    → all (λ (x : Route). not (starts_with (stem x.pattern) (before_key m))) app_routes ≡ true
unfolding app_routes starts_with
stems_elsewhere books = refl
stems_elsewhere datalake = refl
stems_elsewhere index = refl

starts_with-append : (pre s : Str) → starts_with (pre ++ s) pre ≡ true
unfolding starts_with
starts_with-append [] [] = refl
starts_with-append [] (c ∷ s) = refl
starts_with-append (c ∷ pre) s = ground (arith, starts_with-append pre s)

before_key_plain : (m : MapName) → all is_plain (before_key m) ≡ true
before_key_plain books = refl
before_key_plain datalake = refl
before_key_plain index = refl

has_slash-append_right : (s t : Str) → has_slash t ≡ true → has_slash (s ++ t) ≡ true
has_slash-append_right [] t h = h
has_slash-append_right (c ∷ s) t h = ground (arith, has_slash-append_right s t h)

dir-append_slash : (pre s : Str) → has_slash s ≡ true → dir (pre ++ s) ≡ pre ++ dir s
dir-append_slash [] s h = refl
dir-append_slash (c ∷ pre) s h = rw (has_slash-append_right pre s h, dir-append_slash pre s h)

module _ (r : Router) where
  pub slash_key_unserved :
      (m : MapName) (key : Str) (x : Route)
      → IsPlain key
      → has_slash key ≡ true
      → In x app_routes
      → r.captures x.pattern (map_target (base_of m) (Protocol.Call.get_internal key)).1 ≡ none
  unfolding map_target
  slash_key_unserved m key x plain slash i = elim (Option-cases (r.captures x.pattern path)) [
    | inl e ↦ e
    | inr (a, e) ↦ absurd (
        let no_stem =
          In-of_All (λ (y : Route). not (starts_with (stem y.pattern) (before_key m)) ≡ true)
            app_routes
            (All-of_all (λ (y : Route). not (starts_with (stem y.pattern) (before_key m)))
              app_routes (stems_elsewhere m))
            x i in
        meets x.pattern a e no_stem)
  ]
    where
      path : Str
      path = base_of m ++ (endpoint_get_internal ++ (str "/" ++ key))

      split : path ≡ before_key m ++ key
      split =
          elim m
            as (λ n.
              base_of n ++ (endpoint_get_internal ++ (str "/" ++ key)) ≡ before_key n ++ key) [
                | books ↦ refl
                | datalake ↦ refl
                | index ↦ refl
              ]

      path_plain : IsPlain path
      path_plain = subst IsPlain (sym split) (
          All-append (λ c. is_plain c ≡ true) (before_key m) key
            (All-of_all is_plain (before_key m) (before_key_plain m)) plain)

      begins : (s t : Str) → s ≡ before_key m ++ t → starts_with s (before_key m) ≡ true
      begins s t e =
          subst (λ z. starts_with z (before_key m) ≡ true) (sym e)
            (starts_with-append (before_key m) t)

      meets :
          (p : Pattern) (a : Str)
          → r.captures p path ≡ some a
          → not (starts_with (stem p) (before_key m)) ≡ true
          → ⊥
      meets (fixed s) a e away =
          let (same, _) = captures_fixed r s path a path_plain e in
          let k = begins s key (sym same ∙ split) in ground arith
      meets (capture pre name) a e away =
          let (same, _) = captures_dir r pre name path a path_plain e in
          let k =
            begins pre (dir key)
              (sym same ∙ ap dir split ∙ dir-append_slash (before_key m) key slash) in
          ground arith
