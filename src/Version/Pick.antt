-- ===== src/Version/Pick.antt =====
-- `pickFrom`, `newest`, `fits` and `tooNew` of internal/resolve/resolve.go. Of a release the model
-- keeps what these functions read and the tag and commit that they return. Times count
-- nanoseconds from the zero time, and durations nanoseconds; `Published.After(now - MinAge)` is
-- written as a sum. The digests that a release carries are left out.
pub mod Newest
use oku.Base.{
  Bool, Bytes, List, Result, [], codes, equal, err, false, find, has_prefix, if◌then◌else◌, is_nil,
  length, ltb, none, not, ok, some, true, ℕ, ◌&&◌, ◌++◌, ◌+◌, ◌||◌, ◌∷◌,
}
use oku.Version.Range.{RangeError, is_range, satisfies}

pub record Release : Type 0 where
  pub version : Bytes
  pub tag : Bytes
  pub commit : Bytes
  pub published : ℕ

-- the zero `Release`
abbrev pub no_release : Release
no_release = record { version = []; tag = []; commit = []; published = 0 }

-- the fields of `manifest.Version` that `tooNew` reads
pub record VersionSource : Type 0 where
  pub from : Bytes
  pub moving_tag : Bytes

-- the `MinAge` of a `Resolver` and the time that it counts back from
pub record Resolver : Type 0 where
  pub min_age : ℕ
  pub now : ℕ

abbrev git_branch : Bytes
git_branch = codes "git-branch"

-- `tooNew`
unfoldable pub too_new : Resolver → VersionSource → Release → Bool
too_new r v release =
    ltb 0 r.min_age
    && is_nil v.moving_tag
    && not (equal v.from git_branch)
    && ltb r.now (release.published + r.min_age)

-- `fits`
unfoldable pub fits : Bytes → Release → Result RangeError Bool
fits want release =
    if is_range want
    then satisfies release.version want
    else ok (is_nil want || has_prefix (want ++ (b'.' ∷ [])) release.version)

-- What `newest` and `pickFrom` return: the release and the one that waits, or an error.
pub data Outcome : Type 0 where
  picked : Release → Release → Outcome
  waits : Release → Release → Outcome
  nothing_fits : List Bytes → Outcome
  bad_range : RangeError → Outcome
  no_versions : Outcome

-- the locals of `newest`
pub record Seen : Type 0 where
  pub waiting : Release
  pub soonest : Release
  pub seen : List Bytes

module _ (r : Resolver) (v : VersionSource) (test : Release → Result RangeError Bool) where
  abbrev pub note : Release → Seen → Seen
  note release s = record s {
    seen = if ltb (length s.seen) 5 then s.seen ++ (release.version ∷ []) else s.seen;
  }

  abbrev pub pass_over : Release → Seen → Seen
  pass_over release s = record s {
    waiting = if is_nil s.waiting.version then release else s.waiting;
    soonest = release;
  }

  unfoldable pub newest_from : List Release → Seen → Outcome
  newest_from [] s =
      if not (is_nil s.waiting.version) then waits s.waiting s.soonest else nothing_fits s.seen
  newest_from (release ∷ rest) s = elim (test release) [
    | err e ↦ bad_range e
    | ok false ↦ newest_from rest (note release s)
    | ok true ↦ elim (too_new r v release) [
      | false ↦ picked release s.waiting
      | true ↦ newest_from rest (pass_over release (note release s))
    ]
  ]

  -- `newest`
  unfoldable pub newest : List Release → Outcome
  newest releases =
      newest_from releases (record { waiting = no_release; soonest = no_release; seen = [] })

-- `pickFrom`
unfoldable pub pick_from : Resolver → VersionSource → List Release → Bytes → Outcome
pick_from r v [] want = no_versions
pick_from r v (release ∷ rest) want =
    if is_range want
    then newest r v (fits want) (release ∷ rest)
    else elim (find (λ x. not (is_nil want) && equal x.version want) (release ∷ rest)) [
      | some exact ↦ picked exact no_release
      | none ↦ newest r v (fits want) (release ∷ rest)
    ]
