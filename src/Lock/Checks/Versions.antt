-- ===== src/Lock/Checks/Versions.antt =====
-- Which locks `checkVersions` lets through.
use oku.Base.{
  All, Bytes, List, Option, [], any, arith, false, length, none, refl, some, ◌==◌, ◌||◌, ◌↔◌, ◌∷◌,
  ◌≡◌, ◌≢◌, ◌≤◌,
}
use oku.Lock.{Deps, Package, PlatformPin, dep, no_deps, pinned}
use oku.Lock.Checks.{
  LockError, VersionError, bad_version, bad_version_on, check_deps, check_package, check_platforms,
  check_version, check_versions, else_check, holds_control, wrap,
}

-- a version that can be part of a file name
abbrev pub IsSafe : Bytes → Type 0
IsSafe v = (length v ≤ 128) × All (λ c. (c ≢ b'/') × (c ≢ b'\\')) v × (holds_control v ≡ false)

-- every version of a package and of its deps is safe
abbrev mutual
  pub AreSafe : Package → Type 0
  AreSafe (pinned p ds) =
      IsSafe p.version × (All (λ entry. IsSafe (entry.1).version) p.platforms × AreSafeDeps ds)

  pub AreSafeDeps : Deps → Type 0
  AreSafeDeps no_deps = Unit
  AreSafeDeps (dep p ds) = AreSafe p × AreSafeDeps ds

no_separator :
    (v : Bytes)
    → (any (λ c. c == b'/' || c == b'\\') v ≡ false) ↔ All (λ c. (c ≢ b'/') × (c ≢ b'\\')) v
no_separator [] = (λ _. tt, λ _. refl)
no_separator (c ∷ v) = ground (arith, no_separator v)

check_version-IsSafe : (v : Bytes) → (check_version v ≡ none) ↔ IsSafe v
unfolding check_version
check_version-IsSafe v = ground (arith, no_separator v)

both_pass :
    {P Q : Type 0} (a b : Option LockError)
    → (a ≡ none) ↔ P
    → (b ≡ none) ↔ Q
    → (else_check a b ≡ none) ↔ (P × Q)
both_pass none b (f, g) (h, k) = (λ e. (f refl, h e), λ (p, q). k q)
both_pass (some e) b (f, g) (h, k) = (λ k. cc, λ (p, q). g p)

wrap-IsSafe :
    (f : VersionError → LockError) (v : Bytes) → (wrap f (check_version v) ≡ none) ↔ IsSafe v
wrap-IsSafe f v = same (check_version v) (check_version-IsSafe v)
  where
    same : (x : Option VersionError) → (x ≡ none) ↔ IsSafe v → (wrap f x ≡ none) ↔ IsSafe v
    same none h = (λ _. h.0 refl, λ _. refl)
    same (some e) h = (λ k. cc, λ safe. cc (h.1 safe))

check_platforms-IsSafe :
    (name : Bytes) (entries : List (Bytes × PlatformPin))
    → (check_platforms name entries ≡ none) ↔ All (λ entry. IsSafe (entry.1).version) entries
unfolding check_platforms
check_platforms-IsSafe name [] = (λ _. tt, λ _. refl)
check_platforms-IsSafe name ((key, pin) ∷ entries) =
    both_pass (wrap (bad_version_on name key) (check_version pin.version))
      (check_platforms name entries) (wrap-IsSafe (bad_version_on name key) pin.version)
      (check_platforms-IsSafe name entries)

mutual
  unfolding check_package

  check_package-AreSafe : (p : Package) → (check_package p ≡ none) ↔ AreSafe p
  check_package-AreSafe (pinned p ds) =
      both_pass (wrap (bad_version p.name) (check_version p.version))
        (else_check (check_platforms p.name p.platforms) (check_deps ds))
        (wrap-IsSafe (bad_version p.name) p.version)
        (both_pass (check_platforms p.name p.platforms) (check_deps ds)
          (check_platforms-IsSafe p.name p.platforms) (check_deps-AreSafe ds))

  check_deps-AreSafe : (ds : Deps) → (check_deps ds ≡ none) ↔ AreSafeDeps ds
  check_deps-AreSafe no_deps = (λ _. tt, λ _. refl)
  check_deps-AreSafe (dep p ds) =
      both_pass (check_package p) (check_deps ds) (check_package-AreSafe p) (check_deps-AreSafe ds)

-- `check_versions` lets the packages through exactly if every version in them, on every platform
-- and in the deps at every depth, has at most 128 bytes and no separator or control character.
pub check_versions-AreSafe : (ps : List Package) → (check_versions ps ≡ none) ↔ All AreSafe ps
unfolding check_versions
check_versions-AreSafe [] = (λ _. tt, λ _. refl)
check_versions-AreSafe (p ∷ ps) =
    both_pass (check_package p) (check_versions ps) (check_package-AreSafe p)
      (check_versions-AreSafe ps)
