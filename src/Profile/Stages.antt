-- ===== src/Profile/Stages.antt =====
-- The directory of a profile and the operations on its generations, internal/profile/profile.go:
-- nextGeneration, stage and Current. Which calls of the machine fail is an argument. The packages of
-- a generation have different names. Of the project file and of the link trees the model keeps that
-- they are there, and not what they hold.
pub mod Kept
pub mod Fresh
pub mod Edits
use oku.Base.{
  Bool, Bytes, List, Option, Result, [], codes, equal, err, false, if◌then◌else◌, is_nil, ltb,
  negsuc, none, not, ok, pos, some, text_leq, trim_prefix, true, ℕ, ℤ, ◌&&◌, ◌++◌, ◌||◌, ◌∷◌,
}
use oku.Profile.{ProfileFile, ProfilePackage, Setting}
use oku.Version.{atoi}
use oku.Version.Range.{increment, itoa}

-- the state file of a generation, with the lock snapshot beside it
pub record Held : Type 0 where
  pub packages : List ProfilePackage
  pub files : List ProfileFile
  pub settings : List Setting
  pub lock_data : Bytes
  pub from_number : ℤ

-- an entry of the directory; one without a state file holds none
pub record Entry : Type 0 where
  pub name : Bytes
  pub is_dir : Bool
  pub held : Option Held

-- the directory, with the name that "current" points at, and the project whose profile it is
pub record Disk : Type 0 where
  pub entries : List Entry
  pub active : Option Bytes
  pub project : Bytes

-- `genPrefix`
abbrev pub gen_prefix : Bytes
gen_prefix = codes "gen-"

-- the number that `Atoi` reads behind the prefix, above the highest so far
abbrev pub raised_by : ℕ → Option ℤ → ℕ
raised_by highest none = highest
raised_by highest (some (negsuc n)) = highest
raised_by highest (some (pos n)) = if ltb highest n then n else highest

abbrev pub number_of : Bytes → Option ℤ
number_of name = atoi (trim_prefix gen_prefix name)

-- the loop of `nextGeneration`
unfoldable pub highest_from : ℕ → List Entry → ℕ
highest_from highest [] = highest
highest_from highest (e ∷ l) = highest_from (raised_by highest (number_of e.name)) l

-- `nextGeneration`; the sum wraps around
unfoldable pub next_generation : List Entry → ℤ
next_generation entries = increment (pos (highest_from 0 entries))

unfoldable pub generation_name : ℤ → Bytes
generation_name n = gen_prefix ++ itoa n

unfoldable pub unfinished_name : ℤ → Bytes
unfinished_name n = codes ".tmp-" ++ generation_name n

unfoldable pub find_entry : Bytes → List Entry → Option Entry
find_entry name [] = none
find_entry name (e ∷ l) = if equal name e.name then some e else find_entry name l

unfoldable pub without_entry : Bytes → List Entry → List Entry
without_entry name [] = []
without_entry name (e ∷ l) =
    let rest = without_entry name l in if equal name e.name then rest else e ∷ rest

abbrev pub is_entry : Option Entry → Bool
is_entry none = false
is_entry (some e) = true

-- `Current`; the number of a name that does not parse is 0
abbrev pub number_or_zero : Option ℤ → ℤ
number_or_zero none = pos 0
number_or_zero (some n) = n

unfoldable pub current_number : Option Bytes → ℤ
current_number none = pos 0
current_number (some active) = number_or_zero (number_of active)

-- `slices.SortFunc` by the names
unfoldable pub insert_package : ProfilePackage → List ProfilePackage → List ProfilePackage
insert_package p [] = p ∷ []
insert_package p (q ∷ l) =
    let rest = insert_package p l in if text_leq p.name q.name then p ∷ q ∷ l else q ∷ rest

unfoldable pub sort_packages : List ProfilePackage → List ProfilePackage
sort_packages [] = []
sort_packages (p ∷ l) = insert_package p (sort_packages l)

-- the calls of the machine that fail in `stage`, and whether `buildTree` makes `treesDir`
pub record Faults : Type 0 where
  pub remove_fails : Bool
  pub make_fails : Bool
  pub record_fails : Bool
  pub tree_made : Bool
  pub links_fail : Bool
  pub build_fails : Bool
  pub rename_fails : Bool
  pub cleanup_fails : Bool

pub data StageError : Type 0 where
  cannot_create : StageError
  cannot_build : StageError
  not_installed : Bytes → StageError

-- the `os.RemoveAll(tmp)` after a failure, whose own error is dropped
abbrev pub clean_up : Bool → Bytes → Disk → Disk
clean_up fails tmp disk =
    if fails then disk else record disk { entries = without_entry tmp disk.entries }

-- `projectFile` and `treesDir`
abbrev pub project_file : Bytes
project_file = codes "project"

abbrev pub trees_dir : Bytes
trees_dir = codes "trees"

-- `recordProject`, whose failure is left alone
unfoldable pub record_project : Bool → Disk → Disk
record_project fails disk = if is_nil disk.project || fails then disk else record disk {
  entries =
      record { name = project_file; is_dir = false; held = none }
      ∷ without_entry project_file disk.entries;
}

-- the directories that `linkPackages` makes for some packages; one that is there stays
unfoldable pub link_packages : Bool → List ProfilePackage → Disk → Disk
link_packages made packages disk =
    if is_nil packages || not made || is_entry (find_entry trees_dir disk.entries)
    then disk
    else record disk {
      entries = record { name = trees_dir; is_dir = true; held = none } ∷ disk.entries;
    }

-- whether `linkPackages` fails
abbrev pub link_error : Faults → List ProfilePackage → Bool
link_error faults packages = not (is_nil packages) && faults.links_fail

-- the generation under its name before it is complete
abbrev pub half_built : Bytes → Option Held → Disk → Disk
half_built tmp held disk = record disk {
  entries = record { name = tmp; is_dir = true; held = held } ∷ without_entry tmp disk.entries;
}

-- `os.Rename`
abbrev pub complete : Bytes → Bytes → Held → Disk → Disk
complete tmp gen held disk = record disk {
  entries =
      record { name = gen; is_dir = true; held = some held }
      ∷ without_entry tmp (without_entry gen disk.entries);
}

-- what the new generation holds
abbrev pub staged : Held → Disk → Held
staged held disk = record held {
  packages = sort_packages held.packages;
  from_number = current_number disk.active;
}

-- `stage`
unfoldable pub stage : Faults → Held → Disk → Disk × Result StageError ℤ
stage faults held disk =
    let next = next_generation disk.entries in
    let gen = generation_name next in
    let tmp = unfinished_name next in
    let whole = staged held disk in
    if faults.remove_fails
    then (disk, err cannot_create)
    else if faults.make_fails
    then (record disk { entries = without_entry tmp disk.entries }, err cannot_create)
    else (let linked =
          link_packages faults.tree_made whole.packages (record_project faults.record_fails disk) in
        if link_error faults whole.packages || faults.build_fails
        then (clean_up faults.cleanup_fails tmp (half_built tmp none linked), err cannot_build)
        else if faults.rename_fails
        then (
          clean_up faults.cleanup_fails tmp (half_built tmp (some whole) linked),
          err cannot_build,
        )
        else (complete tmp gen whole linked, ok next))
