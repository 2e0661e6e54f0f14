-- ===== src/Profile.antt =====
-- internal/profile/profile.go: the generations of a profile. The encrypted secrets of a file and the
-- requirements of [host] are left out.
pub mod Prune
pub mod Stages
use oku.Base.{Bool, Bytes, List, ℕ, ℤ}

-- `Package`
pub record ProfilePackage : Type 0 where
  pub name : Bytes
  pub version : Bytes
  pub ref : Bytes
  pub store_path : Bytes
  pub closure : List Bytes
  pub build_only : List Bytes
  pub env : List (Bytes × Bytes)
  pub service : Bool
  pub system : Bool
  pub run_as : Bytes

-- `File`
pub record ProfileFile : Type 0 where
  pub target : Bytes
  pub link : Bytes
  pub content : Bytes
  pub mode : ℕ
  pub hash : Bytes
  pub text : Bytes

-- `Setting`
pub record Setting : Type 0 where
  pub domain : Bytes
  pub key : Bytes
  pub value : Bytes

-- `Generation`; a time counts from the zero time
pub record Generation : Type 0 where
  pub number : ℕ
  pub created : ℕ
  pub packages : List ProfilePackage
  pub files : List ProfileFile
  pub settings : List Setting
  pub from_number : ℕ
  pub is_current : Bool

-- `Retention`
pub record Retention : Type 0 where
  pub keep_newest : ℤ
  pub since : ℕ
