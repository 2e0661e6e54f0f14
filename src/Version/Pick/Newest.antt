-- ===== src/Version/Pick/Newest.antt =====
-- What `newest` returns.
use oku.Base.{
  All, Bool, List, Result, [], err, false, if◌then◌else◌, is_nil, ok, true, ◌++◌, ◌∷◌, ◌≡◌, ◌⊎◌,
}
use oku.Version.Pick.{
  Outcome, Release, Resolver, VersionSource, bad_range, no_versions, nothing_fits, picked, too_new,
  waits,
}
use oku.Version.Range.{RangeError}

module _ (r : Resolver) (v : VersionSource) (test : Release → Result RangeError Bool) where
  -- a release that `newest` goes past: it does not fit, or it fits and is too new
  abbrev pub IsPassed : Release → Type 0
  IsPassed q = (test q ≡ ok false) ⊎ ((test q ≡ ok true) × (too_new r v q ≡ true))

  -- the first release that fits, out of releases that are passed over, or else the one given
  abbrev pub first_waiting : List Release → Release → Release
  first_waiting [] w = w
  first_waiting (q ∷ qs) w =
      if is_nil w.version
      then elim (test q) [ ok true ↦ first_waiting qs q | _ ↦ first_waiting qs w ]
      else w

  -- the last release that fits, or else the one given
  abbrev pub last_waiting : List Release → Release → Release
  last_waiting [] w = w
  last_waiting (q ∷ qs) w = elim (test q) [ ok true ↦ last_waiting qs q | _ ↦ last_waiting qs w ]

  -- `before` are the releases in front of the first that stops the loop.
  pub record Stops (releases : List Release) (q : Release) (before : List Release) : Type 0 where
    pub behind : List Release
    pub splits : releases ≡ before ++ (q ∷ behind)
    pub passed : All IsPassed before

  -- each outcome of the loop, from the first and the last release that wait already, with what it
  -- says
  abbrev pub Explains : Release → Release → List Release → Outcome → Type 0
  Explains w₀ s₀ releases (picked q w) =
      (before : List Release) × Stops releases q before
      × (test q ≡ ok true)
      × (too_new r v q ≡ false)
      × (w ≡ first_waiting before w₀)
  Explains w₀ s₀ releases (waits w s) =
      All IsPassed releases
      × (is_nil w.version ≡ false)
      × (w ≡ first_waiting releases w₀)
      × (s ≡ last_waiting releases s₀)
  Explains w₀ s₀ releases (nothing_fits seen) =
      (is_nil w₀.version ≡ true) × All (λ q. test q ≡ ok false) releases
  Explains w₀ s₀ releases (bad_range e) =
      (q : Release) × (before : List Release) × Stops releases q before × (test q ≡ err e)
  Explains w₀ s₀ releases no_versions = ⊥

  abbrev next_waiting : Release → Release → Release
  next_waiting q w = if is_nil w.version then q else w
