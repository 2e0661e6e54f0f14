-- ===== src/Lock/Checks.antt =====
-- `Weaker`, `CheckedSignature` and `checkVersions` of internal/lock/lock.go, with `CheckVersion` of
-- internal/manifest/manifest.go.
pub mod Rank
pub mod Versions
use oku.Base.{
  Bool, Bytes, List, Option, [], any, codes, equal, false, if◌then◌else◌, leb, length, ltb, none,
  some, ℕ, ◌&&◌, ◌==◌, ◌||◌, ◌∷◌,
}
use oku.Lock.{Deps, Package, PlatformPin, dep, no_deps, pin_of, pinned}
use oku.Platform.{check}

-- the map `verifiedRank`
unfoldable pub verified_rank : Bytes → Option ℕ
verified_rank check =
    if equal check (codes "sigstore")
    then some 3
    else if equal check (codes "minisign")
    then some 3
    else if equal check (codes "cosign")
    then some 3
    else if equal check (codes "manifest")
    then some 2
    else if equal check (codes "checksum-file")
    then some 1
    else if equal check (codes "published")
    then some 1
    else if equal check (codes "first-use")
    then some 0
    else none

abbrev pub weaker_rank : Option ℕ → Option ℕ → Bool
weaker_rank (some now) (some was) = ltb now was
weaker_rank _ _ = false

-- `Weaker`
unfoldable pub weaker : Bytes → Bytes → Bool
weaker now was = weaker_rank (verified_rank now) (verified_rank was)

-- a missing key gives the zero rank
abbrev rank_or_zero : Option ℕ → ℕ
rank_or_zero none = 0
rank_or_zero (some n) = n

-- `Package.CheckedSignature`
unfoldable pub checked_signature : Package → Bool
checked_signature p =
    any (λ entry. rank_or_zero (verified_rank (entry.1).verified) == 3) (pin_of p).platforms

pub data VersionError : Type 0 where
  too_long has_separator has_control : VersionError

-- the second byte of a control character that UTF-8 writes in two, the first of which is 194
abbrev is_second : Bytes → Bool
is_second [] = false
is_second (c ∷ rest) = leb 128 c && leb c 159

-- `strings.ContainsFunc(v, unicode.IsControl)`: a byte below 32, 127, or 194 before a byte from 128
-- to 159. No other rune holds one of these, and a byte that is no UTF-8 is no control character.
abbrev pub holds_control : Bytes → Bool
holds_control [] = false
holds_control (c ∷ rest) =
    ltb c 32 || c == 127 || (c == 194 && is_second rest) || holds_control rest

-- `CheckVersion`
unfoldable pub check_version : Bytes → Option VersionError
check_version v =
    if ltb 128 (length v)
    then some too_long
    else if any (λ c. c == b'/' || c == b'\\') v
    then some has_separator
    else if holds_control v
    then some has_control
    else none

-- the names in the message: the package, and the platform if the version is a platform's
pub data LockError : Type 0 where
  bad_version : Bytes → VersionError → LockError
  bad_version_on : Bytes → Bytes → VersionError → LockError

abbrev pub else_check : Option LockError → Option LockError → Option LockError
else_check none later = later
else_check (some e) later = some e

abbrev pub wrap {ℓ} : {A : Type ℓ} → (VersionError → A) → Option VersionError → Option A
wrap f none = none
wrap f (some e) = some (f e)

-- the loop over the platforms, in the order in which the map yields them
unfoldable pub check_platforms : Bytes → List (Bytes × PlatformPin) → Option LockError
check_platforms name [] = none
check_platforms name ((key, pin) ∷ rest) =
    else_check (wrap (bad_version_on name key) (check_version pin.version))
      (check_platforms name rest)

unfoldable mutual
  pub check_package : Package → Option LockError
  check_package (pinned p ds) =
      else_check (wrap (bad_version p.name) (check_version p.version))
        (else_check (check_platforms p.name p.platforms) (check_deps ds))

  pub check_deps : Deps → Option LockError
  check_deps no_deps = none
  check_deps (dep p ds) = else_check (check_package p) (check_deps ds)

-- `checkVersions` on the packages of the lock
unfoldable pub check_versions : List Package → Option LockError
check_versions [] = none
check_versions (p ∷ ps) = else_check (check_package p) (check_versions ps)
