-- ===== src/Server/Routes/Matching.antt =====
-- `axum` and `reqwest` as the routes of src/main.rs use them: how a path as a client writes it
-- meets a route's pattern.
use stage.Prelude.{
  ℕ, ◌≡◌, ◌≢◌, ◌↔◌, refl, ap, sym, ◌∙◌, subst, Bool, true, false, not, ◌&&◌, ◌||◌, Option, none,
  some, List, [], ◌∷◌, ◌++◌, Str, ◌==◌, ==_iff, str_eq, nat_beq, ltb, any, if◌then◌else◌, All, In,
  inl, inr, arith,
}
use stage.Server.Routes.{Pattern, fixed, capture, Route, is_slash}

-- Characters that a URL leaves alone or encodes, and that do not end a path or take part in it.
abbrev pub is_plain : ℕ → Bool
is_plain c =
    ltb 32 c && not (nat_beq c 35 || nat_beq c 37 || nat_beq c 46 || nat_beq c 63 || nat_beq c 92)

abbrev pub IsPlain : Str → Type 0
IsPlain = All (λ c. is_plain c ≡ true)

abbrev pub has_slash : Str → Bool
has_slash = any is_slash

-- One segment of a path.
abbrev pub IsSegment : Str → Type 0
IsSegment s = (s ≢ []) × (has_slash s ≡ false)

-- What a pattern captures in the path of a request: nothing for a fixed path, one whole segment
-- for a prefix with a name after it.
pub record Router : Type 0 where
  pub captures : Pattern → Str → Option Str
  pub captures-fixed :
      (s p : Str) → IsPlain p → captures (fixed s) p ≡ (if p == s then some [] else none)
  pub captures-capture :
      (pre name arg p : Str)
      → IsPlain p
      → (captures (capture pre name) p ≡ some arg) ↔ ((p ≡ pre ++ (47 ∷ arg)) × IsSegment arg)

-- The text before the last slash.
abbrev pub dir : Str → Str
dir [] = []
dir (c ∷ s) = if has_slash s then c ∷ dir s else []

has_slash-append : (s t : Str) → has_slash t ≡ true → has_slash (s ++ t) ≡ true
has_slash-append [] t h = h
has_slash-append (c ∷ s) t h = ground (arith, has_slash-append s t h)

pub dir-append : (pre arg : Str) → has_slash arg ≡ false → dir (pre ++ (47 ∷ arg)) ≡ pre
dir-append [] arg h = rw h
dir-append (c ∷ pre) arg h = rw (has_slash-append pre (47 ∷ arg) refl, dir-append pre arg h)

-- Whether some path could meet both patterns.
abbrev pub clash : Pattern → Pattern → Bool
clash (fixed s) (fixed t) = s == t
clash (fixed s) (capture pre name) = dir s == pre
clash (capture pre name) (fixed s) = dir s == pre
clash (capture pre name) (capture post other) = pre == post

abbrev pub apart_from : Route → List Route → Bool
apart_from x [] = true
apart_from x (y ∷ ys) = not (clash x.pattern y.pattern) && apart_from x ys

abbrev pub apart : List Route → Bool
apart [] = true
apart (x ∷ xs) = apart_from x xs && apart xs

clash_comm : (p q : Pattern) → clash p q ≡ true → clash q p ≡ true
clash_comm (fixed s) (fixed t) h = ground (arith, ==_iff s t, ==_iff t s)
clash_comm (fixed s) (capture pre name) h = h
clash_comm (capture pre name) (fixed s) h = h
clash_comm (capture pre name) (capture post other) h =
    ground (arith, ==_iff pre post, ==_iff post pre)

apart_from_not :
    (x y : Route) (l : List Route)
    → apart_from x l ≡ true
    → In y l
    → clash x.pattern y.pattern ≡ false
apart_from_not x y [] h i = elim i [ ]
apart_from_not x y (z ∷ l) h (inl e) = rw e (ground arith)
apart_from_not x y (z ∷ l) h (inr i) = apart_from_not x y l (ground arith) i

-- Of routes that are apart, two that clash are one.
pub apart_unique :
    (l : List Route) (x y : Route)
    → apart l ≡ true
    → In x l
    → In y l
    → clash x.pattern y.pattern ≡ true
    → x ≡ y
apart_unique [] x y h i j e = elim i [ ]
apart_unique (z ∷ l) x y h (inl i) (inl j) e = i ∙ sym j
apart_unique (z ∷ l) x y h (inl i) (inr j) e =
    let k : clash x.pattern y.pattern ≡ false =
      subst (λ v. clash v.pattern y.pattern ≡ false) (sym i)
        (apart_from_not z y l (ground arith) j) in
    absurd (ground arith)
apart_unique (z ∷ l) x y h (inr i) (inl j) e =
    let k : clash y.pattern x.pattern ≡ false =
      subst (λ v. clash v.pattern x.pattern ≡ false) (sym j)
        (apart_from_not z x l (ground arith) i) in
    absurd (let back = clash_comm x.pattern y.pattern e in ground arith)
apart_unique (z ∷ l) x y h (inr i) (inr j) e = apart_unique l x y (ground arith) i j e

module _ (r : Router) where
  pub captures_fixed :
      (s p a : Str) → IsPlain p → r.captures (fixed s) p ≡ some a → (p ≡ s) × (a ≡ [])
  captures_fixed s p a plain h =
      let k = sym (r.captures-fixed s p plain) ∙ h in ground (arith, ==_iff p s)

  pub captures_dir :
      (pre name p a : Str)
      → IsPlain p
      → r.captures (capture pre name) p ≡ some a
      → (dir p ≡ pre) × (p ≡ pre ++ (47 ∷ a))
  captures_dir pre name p a plain h =
      let (e, segment) = (r.captures-capture pre name a p plain).0 h in
      (ap dir e ∙ dir-append pre a segment.1, e)

  -- Two patterns that meet one path clash.
  pub captures-clash :
      (x y : Pattern) (p a b : Str)
      → IsPlain p
      → r.captures x p ≡ some a
      → r.captures y p ≡ some b
      → clash x y ≡ true
  captures-clash (fixed s) (fixed t) p a b plain h k =
      let (e, _) = captures_fixed s p a plain h in
      let (f, _) = captures_fixed t p b plain k in (==_iff s t).1 (sym e ∙ f)
  captures-clash (fixed s) (capture pre name) p a b plain h k =
      let (e, _) = captures_fixed s p a plain h in
      let (f, _) = captures_dir pre name p b plain k in (==_iff (dir s) pre).1 (sym (ap dir e) ∙ f)
  captures-clash (capture pre name) (fixed s) p a b plain h k =
      let (e, _) = captures_dir pre name p a plain h in
      let (f, _) = captures_fixed s p b plain k in (==_iff (dir s) pre).1 (sym (ap dir f) ∙ e)
  captures-clash (capture pre name) (capture post other) p a b plain h k =
      let (e, _) = captures_dir pre name p a plain h in
      let (f, _) = captures_dir post other p b plain k in (==_iff pre post).1 (sym e ∙ f)
