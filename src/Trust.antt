-- ===== src/Trust.antt =====
-- internal/trust/trust.go: the files that record what the user allowed. The TOML library is a
-- parameter, and so is what the machine answers: whether the lock is taken and whether the file is
-- written. A file that fails to be written stays as it was, as list.WriteFile renames a temporary
-- file over it.
pub mod Allowed
pub mod Sources
use oku.Base.{Bool, List, Option, Result, [], err, if◌then◌else◌, none, ok, some, true, ◌≡◌}

-- The TOML library at one type of items: what it writes is read back.
pub record Toml (A : Type 0) : Type 1 where
  pub Data : Type 0
  pub marshal : List A → Data
  pub unmarshal : Data → Option (List A)
  pub unmarshal-marshal : (items : List A) → unmarshal (marshal items) ≡ some items

pub data TrustError : Type 0 where
  not_locked not_parsed not_written : TrustError

-- the answers of the machine to one operation
pub record Machine : Type 0 where
  pub locks : Bool
  pub writes : Bool

-- The items that a process holds, the file, and the error if there is one.
pub record After (A : Type 0) (Data : Type 0) : Type 0 where
  pub items : List A
  pub file : Option Data
  pub error : Option TrustError

module _ {A : Type 0} (toml : Toml A) where
  open toml use {Data, marshal, unmarshal}

  abbrev parsed : Option (List A) → Result TrustError (List A)
  parsed none = err not_parsed
  parsed (some items) = ok items

  -- `Read`, `ReadAllowed` and `ReadSources`; a missing file holds no items
  unfoldable pub read : Option Data → Result TrustError (List A)
  read none = ok []
  read (some file) = parsed (unmarshal file)

  -- the end of `Approvals.Add`, `Allowed.Set` and `Sources.Add`
  unfoldable pub save : Machine → List A → Option Data → After A Data
  save machine items file =
      if machine.writes
      then record { items = items; file = some (marshal items); error = none }
      else record { items = items; file = file; error = some not_written }

  pub read-save :
      (machine : Machine) (items : List A) (file : Option Data)
      → machine.writes ≡ true
      → read (save machine items file).file ≡ ok items
  unfolding read save
  read-save machine items file h = rw (h, toml.unmarshal-marshal items)
