-- ===== src/Server/Args.antt =====
-- src/main.rs, `main`: the command line, as `std::env::args` gives it.
use stage.Prelude.{
  suc, ◌≡◌, refl, ap, sym, ◌∙◌, Bool, true, false, ◌||◌, Option, none, some, List, [], ◌∷◌, ◌++◌,
  Str, str, ◌==◌, str_eq, ltb, if◌then◌else◌, length, arith,
}
use mathlib.Core.List.{append-nil, append_assoc}
use stage.Membership.Types.{SocketAddr}

-- What the arguments come to: the usage is printed, an index is out of bounds, an address does
-- not parse, `expect` fails, or the node starts.
pub data Startup : Type 0 where
  usage out_of_bounds bad_address bind_required : Startup
  starts : SocketAddr → List SocketAddr → Startup

abbrev pub bind_flag : Str
bind_flag = str "--bind"

abbrev pub seed_flag : Str
seed_flag = str "--seed"

-- `bind_addr.expect("--bind is required")`
abbrev pub start : Option SocketAddr → List SocketAddr → Startup
start none seeds = bind_required
start (some b) seeds = starts b seeds

module _ (parse : Str → Option SocketAddr) where
  -- The loop over the arguments after the program's name.
  unfoldable pub scan : Option SocketAddr → List SocketAddr → List Str → Startup
  scan bind_addr seed_nodes [] = start bind_addr seed_nodes
  scan bind_addr seed_nodes (flag ∷ []) =
      if (flag == bind_flag) || (flag == seed_flag)
      then out_of_bounds
      else start bind_addr seed_nodes
  scan bind_addr seed_nodes (flag ∷ value ∷ rest) =
      let skip = scan bind_addr seed_nodes (value ∷ rest) in
      let bound = λ (a : SocketAddr). scan (some a) seed_nodes rest in
      let seeded = λ (a : SocketAddr). scan bind_addr (seed_nodes ++ a ∷ []) rest in
      if flag == bind_flag
      then (elim (parse value) [ none ↦ bad_address | some a ↦ bound a ])
      else if flag == seed_flag
      then (elim (parse value) [ none ↦ bad_address | some a ↦ seeded a ])
      else skip

  unfoldable pub parse_args : List Str → Startup
  parse_args [] = usage
  parse_args (program ∷ args) = if ltb (length (program ∷ args)) 3 then usage else scan none [] args

-- A command line of the two flags, `true` for `--bind`.
abbrev pub render : (SocketAddr → Str) → List (Bool × SocketAddr) → List Str
render show [] = []
render show ((true, a) ∷ l) = bind_flag ∷ show a ∷ render show l
render show ((false, a) ∷ l) = seed_flag ∷ show a ∷ render show l

-- The last address to bind to, and the seeds in order.
abbrev pub last_bind : Option SocketAddr → List (Bool × SocketAddr) → Option SocketAddr
last_bind b [] = b
last_bind b ((true, a) ∷ l) = last_bind (some a) l
last_bind b ((false, a) ∷ l) = last_bind b l

abbrev pub seeds_of : List (Bool × SocketAddr) → List SocketAddr
seeds_of [] = []
seeds_of ((true, a) ∷ l) = seeds_of l
seeds_of ((false, a) ∷ l) = a ∷ seeds_of l

module _ (parse : Str → Option SocketAddr) (show : SocketAddr → Str)
    (parse-show : (a : SocketAddr) → parse (show a) ≡ some a) where
  scan-render :
      (b : Option SocketAddr) (seeds : List SocketAddr) (l : List (Bool × SocketAddr))
      → scan parse b seeds (render show l) ≡ start (last_bind b l) (seeds ++ seeds_of l)
  unfolding scan
  scan-render b seeds [] = ap (start b) (sym (append-nil seeds))
  scan-render b seeds ((true, a) ∷ l) = rw (parse-show a) (scan-render (some a) seeds l)
  scan-render b seeds ((false, a) ∷ l) = rw (parse-show a) (
      scan-render b (seeds ++ a ∷ []) l
      ∙ ap (start (last_bind b l)) (append_assoc seeds (a ∷ []) (seeds_of l)))

  scan_dangling :
      (b : Option SocketAddr) (seeds : List SocketAddr) (l : List (Bool × SocketAddr)) (flag : Str)
      → (flag == bind_flag) || (flag == seed_flag) ≡ true
      → scan parse b seeds (render show l ++ flag ∷ []) ≡ out_of_bounds
  unfolding scan
  scan_dangling b seeds [] flag h = rw h refl
  scan_dangling b seeds ((true, a) ∷ l) flag h =
      rw (parse-show a) (scan_dangling (some a) seeds l flag h)
  scan_dangling b seeds ((false, a) ∷ l) flag h =
      rw (parse-show a) (scan_dangling b (seeds ++ a ∷ []) l flag h)

  enough : (l : List Str) → ltb (suc (suc (suc (length l)))) 3 ≡ false
  enough l = ground arith

  -- A command line of at least one flag with its address starts a node with the last address to
  -- bind to and all seeds in order, or ends with a panic where there is none to bind to.
  pub parse_args-render :
      (program : Str) (f : Bool × SocketAddr) (l : List (Bool × SocketAddr))
      → parse_args parse (program ∷ render show (f ∷ l))
        ≡ start (last_bind none (f ∷ l)) (seeds_of (f ∷ l))
  unfolding parse_args
  parse_args-render program (true, a) l =
      rw (enough (render show l)) (scan-render none [] ((true, a) ∷ l))
  parse_args-render program (false, a) l =
      rw (enough (render show l)) (scan-render none [] ((false, a) ∷ l))

  -- A flag without a value at the end of a command line makes the node panic.
  pub parse_args_dangling :
      (program flag : Str) (f : Bool × SocketAddr) (l : List (Bool × SocketAddr))
      → (flag == bind_flag) || (flag == seed_flag) ≡ true
      → parse_args parse (program ∷ (render show (f ∷ l) ++ flag ∷ [])) ≡ out_of_bounds
  unfolding parse_args
  parse_args_dangling program flag (true, a) l h =
      rw (enough (render show l ++ flag ∷ [])) (scan_dangling none [] ((true, a) ∷ l) flag h)
  parse_args_dangling program flag (false, a) l h =
      rw (enough (render show l ++ flag ∷ [])) (scan_dangling none [] ((false, a) ∷ l) flag h)
