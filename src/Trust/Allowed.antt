-- ===== src/Trust/Allowed.antt =====
-- `Allowed` of internal/trust/trust.go: the projects whose environment the shell hook may apply.
pub mod Last
use oku.Base.{
  Bytes, List, Option, [], equal, err, find, if◌then◌else◌, keep, none, not, ok, some, ℤ, ◌++◌, ◌∷◌,
}
use oku.Trust.{After, Machine, Toml, not_locked, read, save}

pub record Untracked : Type 0 where
  pub path : Bytes
  pub mod_time : ℤ

pub record Allow : Type 0 where
  pub dir : Bytes
  pub list_sha256 : Bytes
  pub untracked : List Untracked

-- `Get`
unfoldable pub get : List Allow → Bytes → Option Allow
get items dir = find (λ item. equal item.dir dir) items

-- the items without those of the directory
abbrev pub without : Bytes → List Allow → List Allow
without dir = keep (λ item. not (equal item.dir dir))

-- the items of the file with the directory's allow changed
unfoldable pub changed : Bytes → Option Allow → List Allow → List Allow
changed dir none items = without dir items
changed dir (some allow) items = without dir items ++ (record allow { dir = dir } ∷ [])

module _ (toml : Toml Allow) where
  open toml use {Data}

  -- `Set` on the items that the process holds. The file is read again under the lock.
  unfoldable pub set : Machine → List Allow → Bytes → Option Allow → Option Data → After Allow Data
  set machine items dir allow file =
      if machine.locks
      then elim (read toml file) [
        | err e ↦ record { items = items; file = file; error = some e }
        | ok now ↦ save toml machine (changed dir allow now) file
      ]
      else record { items = items; file = file; error = some not_locked }
