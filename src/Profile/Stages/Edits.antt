-- ===== src/Profile/Stages/Edits.antt =====
-- Add, Remove, Activate and DropUnfinished of internal/profile/profile.go. A state file that is there
-- can be read.
pub mod Added
pub mod Finished
pub mod Removed
use oku.Base.{
  Bool, Bytes, List, Option, Result, [], any, codes, contains, equal, err, false, has_prefix,
  if◌then◌else◌, keep, negsuc, none, not, pos, some, suc, true, zero, ℤ, ◌&&◌, ◌++◌, ◌∷◌,
}
use oku.List.Env.{fails}
use oku.Profile.{ProfilePackage, Setting}
use oku.Profile.Stages.{
  Disk, Entry, Faults, Held, StageError, current_number, find_entry, gen_prefix, generation_name,
  not_installed, stage,
}

abbrev empty_held : Held
empty_held = record {
  packages = [];
  files = [];
  settings = [];
  lock_data = [];
  from_number = pos 0;
}

abbrev held_or_empty : Option Entry → Held
held_or_empty none = empty_held
held_or_empty (some e) = elim e.held [ some held ↦ held | none ↦ empty_held ]

-- `stateIn` of "current"
unfoldable pub active_held : Disk → Held
active_held disk = elim disk.active [
  | none ↦ empty_held
  | some name ↦ held_or_empty (find_entry name disk.entries)
]

abbrev pub is_number_zero : ℤ → Bool
is_number_zero (pos zero) = true
is_number_zero (pos (suc n)) = false
is_number_zero (negsuc n) = false

-- `SettingsOf`
unfoldable pub settings_of : Disk → ℤ → List Setting
settings_of disk n =
    if is_number_zero n
    then []
    else (held_or_empty (find_entry (generation_name n) disk.entries)).settings

-- `Activate`, and whether it fails
unfoldable pub activate : Bool → ℤ → Disk → Disk × Bool
activate fails n disk =
    if fails
    then (disk, true)
    else if is_number_zero n
    then (record disk { active = none }, false)
    else (record disk { active = some (generation_name n) }, false)

-- a new generation of packages, with the files and settings of the active one
abbrev pub next_held : Disk → List ProfilePackage → Bytes → Held
next_held disk packages lock_data = record (active_held disk) {
  packages = packages;
  settings = settings_of disk (current_number disk.active);
  lock_data = lock_data;
}

abbrev pub has_name : Bytes → ProfilePackage → Bool
has_name name p = equal p.name name

-- `Add`
unfoldable pub add : Faults → ProfilePackage → Bytes → Disk → Disk × Result StageError ℤ
add faults pkg lock_data disk =
    let have = keep (λ p. not (has_name pkg.name p)) (active_held disk).packages in
    stage faults (next_held disk (have ++ (pkg ∷ [])) lock_data) disk

-- the loop of `Remove`: the first name that is not installed
unfoldable pub first_missing : List ProfilePackage → List Bytes → Option Bytes
first_missing packages [] = none
first_missing packages (name ∷ names) =
    let rest = first_missing packages names in
    if any (has_name name) packages then rest else some name

-- the early return of `Remove`
abbrev pub unless_missing :
    Option Bytes → Disk → Disk × Result StageError ℤ → Disk × Result StageError ℤ
unless_missing (some name) disk result = (disk, err (not_installed name))
unless_missing none disk result = result

-- `Remove`
unfoldable pub remove : Faults → List Bytes → Bytes → Disk → Disk × Result StageError ℤ
remove faults names lock_data disk =
    let have = (active_held disk).packages in
    let kept = keep (λ (p : ProfilePackage). not (contains names p.name)) have in
    unless_missing (first_missing have names) disk
      (stage faults (next_held disk kept lock_data) disk)

abbrev pub is_bare : Option Held → Bool
is_bare none = true
is_bare (some held) = false

-- whether an entry is what a killed oku left
unfoldable pub is_unfinished : Entry → Bool
is_unfinished e =
    e.is_dir
    && (if has_prefix gen_prefix e.name then is_bare e.held else has_prefix (codes ".tmp-") e.name)

-- the loop of `DropUnfinished`, which stops at an entry that cannot be deleted
unfoldable pub drop_unfinished : (Bytes → Bool) → List Entry → List Entry × Option Bytes
drop_unfinished stays [] = ([], none)
drop_unfinished stays (e ∷ l) =
    let (left, failed) = drop_unfinished stays l in
    if not (is_unfinished e)
    then (e ∷ left, failed)
    else if stays e.name
    then (e ∷ l, some e.name)
    else (left, failed)
