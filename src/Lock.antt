-- ===== src/Lock.antt =====
-- internal/lock/lock.go: the pins of oku.lock. A map from a platform's name to its pin is the list
-- of its entries. Decoding and rendering TOML and the paths of file refs are left out.
pub mod Packages
pub mod Checks
pub mod Refs
pub mod Conflicts
pub mod Merge
use oku.Base.{Bool, Bytes, List, [], ℤ, ◌∷◌}

-- `Platform`: what one platform installs
pub record PlatformPin : Type 0 where
  pub strategy : Bytes
  pub url : Bytes
  pub sha256 : Bytes
  pub verified : Bytes
  pub impure : Bool
  pub commands : Bool
  pub vendor_sha256 : Bytes
  pub version : Bytes
  pub tag : Bytes
  pub signed_at : ℤ

-- the fields of `Package` but its deps
pub record Pin : Type 0 where
  pub name : Bytes
  pub ref : Bytes
  pub commit : Bytes
  pub manifest_sha256 : Bytes
  pub version : Bytes
  pub signing_key : Bytes
  pub signer_workflow : Bytes
  pub tag : Bytes
  pub tag_commit : Bytes
  pub inferred : Bool
  pub manifest : Bytes
  pub asset : Bytes
  pub bins : List Bytes
  pub platforms : List (Bytes × PlatformPin)

-- A package pins its own deps.
mutual
  pub data Package : Type 0 where
    pinned : Pin → Deps → Package

  pub data Deps : Type 0 where
    no_deps : Deps
    dep : Package → Deps → Deps

abbrev pub pin_of : Package → Pin
pin_of (pinned p ds) = p

abbrev pub deps_of : Package → Deps
deps_of (pinned p ds) = ds

abbrev pub deps_list : Deps → List Package
deps_list no_deps = []
deps_list (dep p ds) = p ∷ deps_list ds

-- `Include`
pub record Include : Type 0 where
  pub ref : Bytes
  pub commit : Bytes
  pub sha256 : Bytes

-- `Lock`
pub record Lock : Type 0 where
  pub includes : List Include
  pub packages : List Package
