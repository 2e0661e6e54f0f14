-- ===== src/Platform/Cover.antt =====
-- `When.Of` and `Cover` of internal/platform/platform.go.
pub mod Exact
mod Within
mod Loop
use oku.Base.{
  Bool, List, [], any, find, if◌then◌else◌, keep, none, not, some, ◌&&◌, ◌++◌, ◌||◌, ◌∷◌,
}
use oku.Platform.{Platform, Selector, When, all_platforms, holds, selector_matches, when_matches}
use oku.Trust.Allowed.{set}

-- `When.Of`
unfoldable pub when_of : When → List Platform
when_of w = keep (when_matches w) all_platforms

-- `in` in `Cover`: every platform that `s` matches is in `set`
unfoldable pub within : List Platform → Selector → Bool
within set s = not (any (λ p. selector_matches s p && not (holds set p)) all_platforms)

-- the selectors that `Cover` tries for one platform, the widest first
abbrev pub candidates : Platform → List Selector
candidates p =
    record { os = p.os; arch = []; libc = []; host = [] }
    ∷ record { os = p.os; arch = p.arch; libc = []; host = [] }
    ∷ record { os = p.os; arch = []; libc = p.libc; host = [] }
    ∷ record { os = p.os; arch = p.arch; libc = p.libc; host = [] }
    ∷ []

-- the `when` built so far, and the platforms that it covers
pub record Covering : Type 0 where
  pub found : When
  pub covered : List Platform

-- the loop body for a platform of `set` that is not covered: the first candidate within `set`
unfoldable pub cover_one : List Platform → Platform → Covering → Covering
cover_one set p c = elim (find (within set) (candidates p)) [
  | some s ↦ record c {
    found = c.found ++ (s ∷ []);
    covered = keep (selector_matches s) all_platforms ++ c.covered;
  }
  | none ↦ c
]

unfoldable pub cover_step : List Platform → Platform → Covering → Covering
cover_step set p c = if not (holds set p) || holds c.covered p then c else cover_one set p c

unfoldable pub cover_loop : List Platform → List Platform → Covering → Covering
cover_loop set [] c = c
cover_loop set (p ∷ ps) c = cover_loop set ps (cover_step set p c)

-- `Cover`
unfoldable pub cover : List Platform → When
cover set =
    if within set (record { os = []; arch = []; libc = []; host = [] })
    then []
    else (cover_loop set all_platforms (record { found = []; covered = [] })).found
