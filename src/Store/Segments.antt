-- ===== src/Store/Segments.antt =====
-- matchSegments of internal/store/store.go, and the runs of a path that a pattern stands for.
use oku.Base.{
  Bool, Bool-cases, Bytes, List, [], and_true, ap, arith, false, inl, inr, is_nil, refl, subst, sym,
  true, ◌&&◌, ◌++◌, ◌||◌, ◌↔◌, ◌∙◌, ◌∷◌, ◌≡◌,
}
use oku.Netpolicy.{matches}
use oku.Store.{is_stars, match_one, match_segments, some_tail}
use oku.Version.{runs}
use oku.Version.Pick.{fits}

abbrev pub concat : List (List Bytes) → List Bytes
concat [] = []
concat (run ∷ runs) = run ++ concat runs

-- the run is one segment that fits
abbrev pub is_one : (Bytes → Bytes → Bool) → Bytes → List Bytes → Bool
is_one fits p [] = false
is_one fits p (s ∷ rest) = is_nil rest && fits p s

-- each segment of the pattern stands for a run: "**" for any, and another for one that fits
abbrev pub covers : (Bytes → Bytes → Bool) → List Bytes → List (List Bytes) → Bool
covers fits [] [] = true
covers fits [] (run ∷ runs) = false
covers fits (p ∷ pattern) [] = false
covers fits (p ∷ pattern) (run ∷ runs) =
    (is_stars p || is_one fits p run) && covers fits pattern runs

-- the path falls into runs that the pattern stands for
abbrev pub IsCovered : (Bytes → Bytes → Bool) → List Bytes → List Bytes → Type 0
IsCovered fits pattern segments =
    (runs : List (List Bytes)) × ((concat runs ≡ segments) × (covers fits pattern runs ≡ true))

some_tail-found :
    (f : List Bytes → Bool) (segments : List Bytes)
    → some_tail f segments ≡ true
    → (front : List Bytes) × ((back : List Bytes) × ((front ++ back ≡ segments) × (f back ≡ true)))
some_tail-found f [] h = ([], ([], (refl, h)))
some_tail-found f (s ∷ segments) h = elim (Bool-cases (f (s ∷ segments))) [
  | inl here ↦ ([], (s ∷ segments, (refl, here)))
  | inr later ↦
      let (front, (back, (same, found))) = some_tail-found f segments (rw later at h) in
      (s ∷ front, (back, (ap (λ l. s ∷ l) same, found)))
]

some_tail-append :
    (f : List Bytes → Bool) (front back : List Bytes)
    → f back ≡ true
    → some_tail f (front ++ back) ≡ true
some_tail-append f [] [] h = h
some_tail-append f [] (s ∷ back) h = rw h refl
some_tail-append f (s ∷ front) back h =
    let rest = some_tail-append f front back h in ground (arith, rest)

nil-of-is_nil : (l : List Bytes) → is_nil l ≡ true → l ≡ []
nil-of-is_nil [] h = refl
nil-of-is_nil (s ∷ l) h = cc

match_one-runs :
    (fits : Bytes → Bytes → Bool) (p : Bytes) (pattern segments : List Bytes)
    → ((l : List Bytes) → match_segments fits pattern l ≡ true → IsCovered fits pattern l)
    → match_one fits p (match_segments fits pattern) segments ≡ true
    → IsCovered fits (p ∷ pattern) segments
match_one-runs fits p pattern [] later h = cc
match_one-runs fits p pattern (s ∷ rest) later h =
    let (here, matches) = and_true (fits p s) (match_segments fits pattern rest) h in
    let (runs, (joined, all)) = later rest matches in
    ((s ∷ []) ∷ runs, (ap (λ l. s ∷ l) joined, rw (here, all) (ground arith)))

match_segments-runs :
    (fits : Bytes → Bytes → Bool) (pattern segments : List Bytes)
    → match_segments fits pattern segments ≡ true
    → IsCovered fits pattern segments
unfolding match_segments
match_segments-runs fits [] segments h = ([], (sym (nil-of-is_nil segments h), refl))
match_segments-runs fits (p ∷ pattern) segments h = elim (Bool-cases (is_stars p)) [
  | inl stars ↦
      let (front, (back, (same, found))) =
        some_tail-found (match_segments fits pattern) segments (rw stars at h) in
      let (runs, (joined, all)) = match_segments-runs fits pattern back found in
      (front ∷ runs, (ap (λ l. front ++ l) joined ∙ same, rw stars all))
  | inr other ↦
      match_one-runs fits p pattern segments (λ l k. match_segments-runs fits pattern l k)
        (rw other at h)
]

runs-match_segments :
    (fits : Bytes → Bytes → Bool) (pattern : List Bytes) (runs : List (List Bytes))
    → covers fits pattern runs ≡ true
    → match_segments fits pattern (concat runs) ≡ true
unfolding match_segments
runs-match_segments fits [] [] h = refl
runs-match_segments fits [] (run ∷ runs) h = cc
runs-match_segments fits (p ∷ pattern) [] h = cc
runs-match_segments fits (p ∷ pattern) (run ∷ runs) h =
    let (here, later) = and_true (is_stars p || is_one fits p run) (covers fits pattern runs) h in
    let rest = runs-match_segments fits pattern runs later in
    elim (Bool-cases (is_stars p)) [
      | inl stars ↦ rw stars (some_tail-append (match_segments fits pattern) run (concat runs) rest)
      | inr other ↦ rw other (one run (rw other at here) rest)
    ]
  where
    one :
        (r : List Bytes)
        → is_one fits p r ≡ true
        → match_segments fits pattern (concat runs) ≡ true
        → match_one fits p (match_segments fits pattern) (r ++ concat runs) ≡ true
    one [] k rest = cc
    one (s ∷ []) k rest = rw rest (ground (arith, k))
    one (s ∷ (t ∷ r)) k rest = cc

-- matchSegments accepts exactly the paths that fall into runs of segments, one for each segment of
-- the pattern: any run for "**", and one segment that fits for another.
pub match_segments-covers :
    (fits : Bytes → Bytes → Bool) (pattern segments : List Bytes)
    → (match_segments fits pattern segments ≡ true) ↔ IsCovered fits pattern segments
match_segments-covers fits pattern segments = (
  match_segments-runs fits pattern segments,
  λ (runs, (joined, all)).
      subst (λ l. match_segments fits pattern l ≡ true) joined
        (runs-match_segments fits pattern runs all),
)
