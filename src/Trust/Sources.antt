-- ===== src/Trust/Sources.antt =====
-- `Sources` and `Approvals` of internal/trust/trust.go: the origins that the user trusts, and the
-- manifests that the user allowed to run commands. A time is its seconds.
pub mod Added
use oku.Base.{
  Bool, Bytes, List, Option, [], any, equal, if◌then◌else◌, is_nil, length, none, not, ℕ, ◌&&◌,
  ◌++◌, ◌==◌, ◌∷◌,
}
use oku.Trust.{After, Machine, Toml, save}

pub record Source : Type 0 where
  pub origin : Bytes
  pub trusted_at : ℕ

-- `Sources.Has`
unfoldable pub has_origin : List Source → Bytes → Bool
has_origin items origin = any (λ item. equal item.origin origin) items

-- the loop of `Sources.Add`
unfoldable pub add_each : ℕ → List Bytes → List Source → List Source
add_each now [] items = items
add_each now (origin ∷ origins) items = add_each now origins (
    if not (is_nil origin) && not (has_origin items origin)
    then items ++ (record { origin = origin; trusted_at = now } ∷ [])
    else items)

pub record Approval : Type 0 where
  pub name : Bytes
  pub manifest_sha256 : Bytes
  pub approved_at : ℕ

-- `Approvals.Has`
unfoldable pub has_manifest : List Approval → Bytes → Bool
has_manifest items sha256 = any (λ item. equal item.manifest_sha256 sha256) items

module _ (toml : Toml Source) where
  open toml use {Data}

  -- `Sources.Add`; with nothing to add it writes nothing
  unfoldable pub add_origins :
      Machine → ℕ → List Bytes → List Source → Option Data → After Source Data
  add_origins machine now origins items file =
      let added = add_each now origins items in
      if length added == length items
      then record { items = added; file = file; error = none }
      else save toml machine added file

module _ (toml : Toml Approval) where
  open toml use {Data}

  -- `Approvals.Add`
  unfoldable pub approve :
      Machine → ℕ → Bytes → Bytes → List Approval → Option Data → After Approval Data
  approve machine now name sha256 items file =
      save toml machine
        (items ++ (record { name = name; manifest_sha256 = sha256; approved_at = now } ∷ [])) file
