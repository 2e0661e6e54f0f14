-- ===== src/Tests/StagesTests.antt =====
-- Tests of the steps on a profile's directory.
use Prim.Native.String.{String}
use oku.Base.{
  Bool, Bytes, List, Option, [], codes, cut_prefix, equal, err, false, find, none, ok, pos, refl,
  some, text_leq, true, ℤ, ◌++◌, ◌∷◌, ◌≡◌,
}
use oku.Profile.{ProfilePackage}
use oku.Profile.Stages.{
  Disk, Entry, Faults, Held, find_entry, generation_name, next_generation, not_installed,
  sort_packages, stage,
}
use oku.Profile.Stages.Edits.{
  activate, active_held, add, drop_unfinished, has_name, is_unfinished, remove,
}
use oku.Profile.Stages.Edits.Added.{add-activate}
use oku.Profile.Stages.Edits.Removed.{remove-finds}
use oku.Profile.Stages.Fresh.{stage-loses_none}

abbrev in_store : String → String → ProfilePackage
in_store name version = record {
  name = codes name;
  version = codes version;
  ref = [];
  store_path = codes "/store/" ++ codes version;
  closure = [];
  build_only = [];
  env = [];
  service = false;
  system = false;
  run_as = [];
}

abbrev holds : List ProfilePackage → ℤ → Held
holds packages from_number = record {
  packages = packages;
  files = [];
  settings = [];
  lock_data = [];
  from_number = from_number;
}

abbrev dir_of : String → Option Held → Entry
dir_of name held = record { name = codes name; is_dir = true; held = held }

-- generation 2 is active, and a killed oku left two directories
abbrev some_disk : Disk
some_disk = record {
  project = codes "/home/me/app";
  entries =
      dir_of ".tmp-gen-4" none
      ∷ dir_of "gen-1" (some (holds [] (pos 0)))
      ∷ dir_of "gen-2" (some (holds (in_store "fd" "9" ∷ in_store "rg" "13" ∷ []) (pos 1)))
      ∷ dir_of "gen-3" none
      ∷ dir_of "trees" none
      ∷ [];
  active = some (codes "gen-2");
}

abbrev no_faults : Faults
no_faults = record {
  remove_fails = false;
  make_fails = false;
  record_fails = false;
  tree_made = true;
  links_fail = false;
  build_fails = false;
  rename_fails = false;
  cleanup_fails = false;
}

abbrev never : Bytes → Bool
never name = false

next_test : next_generation some_disk.entries ≡ pos 4
unfolding next_generation oku.Profile.Stages.highest_from oku.Profile.Stages.record_project
    oku.Profile.Stages.link_packages oku.Version.atoi cut_prefix oku.Version.Range.increment
    oku.Version.Range.itoa add remove oku.Profile.Stages.Edits.first_missing
    oku.Profile.Stages.Edits.settings_of oku.Profile.Stages.Edits.active_held stage sort_packages
    oku.Profile.Stages.insert_package text_leq find_entry oku.Profile.Stages.without_entry
    generation_name oku.Profile.Stages.unfinished_name oku.Profile.Stages.current_number equal
    drop_unfinished is_unfinished oku.Base.has_prefix
next_test = refl

add_test : (add no_faults (in_store "bat" "1") [] some_disk).1 ≡ ok (pos 4)
unfolding next_generation oku.Profile.Stages.highest_from oku.Profile.Stages.record_project
    oku.Profile.Stages.link_packages oku.Version.atoi cut_prefix oku.Version.Range.increment
    oku.Version.Range.itoa add remove oku.Profile.Stages.Edits.first_missing
    oku.Profile.Stages.Edits.settings_of oku.Profile.Stages.Edits.active_held stage sort_packages
    oku.Profile.Stages.insert_package text_leq find_entry oku.Profile.Stages.without_entry
    generation_name oku.Profile.Stages.unfinished_name oku.Profile.Stages.current_number equal
    drop_unfinished is_unfinished oku.Base.has_prefix
add_test = refl

remove_test : (remove no_faults (codes "fd" ∷ []) [] some_disk).1 ≡ ok (pos 4)
unfolding next_generation oku.Profile.Stages.highest_from oku.Profile.Stages.record_project
    oku.Profile.Stages.link_packages oku.Version.atoi cut_prefix oku.Version.Range.increment
    oku.Version.Range.itoa add remove oku.Profile.Stages.Edits.first_missing
    oku.Profile.Stages.Edits.settings_of oku.Profile.Stages.Edits.active_held stage sort_packages
    oku.Profile.Stages.insert_package text_leq find_entry oku.Profile.Stages.without_entry
    generation_name oku.Profile.Stages.unfinished_name oku.Profile.Stages.current_number equal
    drop_unfinished is_unfinished oku.Base.has_prefix
remove_test = refl

missing_test :
    (remove no_faults (codes "fd" ∷ codes "jq" ∷ []) [] some_disk).1
    ≡ err (not_installed (codes "jq"))
unfolding next_generation oku.Profile.Stages.highest_from oku.Profile.Stages.record_project
    oku.Profile.Stages.link_packages oku.Version.atoi cut_prefix oku.Version.Range.increment
    oku.Version.Range.itoa add remove oku.Profile.Stages.Edits.first_missing
    oku.Profile.Stages.Edits.settings_of oku.Profile.Stages.Edits.active_held stage sort_packages
    oku.Profile.Stages.insert_package text_leq find_entry oku.Profile.Stages.without_entry
    generation_name oku.Profile.Stages.unfinished_name oku.Profile.Stages.current_number equal
    drop_unfinished is_unfinished oku.Base.has_prefix
missing_test = refl

drop_test : drop_unfinished never some_disk.entries ≡ (
  dir_of "gen-1" (some (holds [] (pos 0)))
      ∷ dir_of "gen-2" (some (holds (in_store "fd" "9" ∷ in_store "rg" "13" ∷ []) (pos 1)))
      ∷ dir_of "trees" none
      ∷ [],
  none,
)
unfolding next_generation oku.Profile.Stages.highest_from oku.Profile.Stages.record_project
    oku.Profile.Stages.link_packages oku.Version.atoi cut_prefix oku.Version.Range.increment
    oku.Version.Range.itoa add remove oku.Profile.Stages.Edits.first_missing
    oku.Profile.Stages.Edits.settings_of oku.Profile.Stages.Edits.active_held stage sort_packages
    oku.Profile.Stages.insert_package text_leq find_entry oku.Profile.Stages.without_entry
    generation_name oku.Profile.Stages.unfinished_name oku.Profile.Stages.current_number equal
    drop_unfinished is_unfinished oku.Base.has_prefix
drop_test = refl

abbrev first_entry : Entry
first_entry = dir_of "gen-1" (some (holds [] (pos 0)))

stage-loses_none_example :
    find_entry (codes "gen-1") (stage no_faults (holds [] (pos 0)) some_disk).0.entries
    ≡ some first_entry
unfolding next_generation oku.Profile.Stages.highest_from oku.Profile.Stages.record_project
    oku.Profile.Stages.link_packages oku.Version.atoi cut_prefix oku.Version.Range.increment
    oku.Version.Range.itoa add remove oku.Profile.Stages.Edits.first_missing
    oku.Profile.Stages.Edits.settings_of oku.Profile.Stages.Edits.active_held stage sort_packages
    oku.Profile.Stages.insert_package text_leq find_entry oku.Profile.Stages.without_entry
    generation_name oku.Profile.Stages.unfinished_name oku.Profile.Stages.current_number equal
    drop_unfinished is_unfinished oku.Base.has_prefix
stage-loses_none_example =
    stage-loses_none no_faults (holds [] (pos 0)) some_disk first_entry (codes "gen-1") refl refl
      refl refl

abbrev with_bat : Disk
with_bat = (activate false (pos 4) (add no_faults (in_store "bat" "1") [] some_disk).0).0

add-activate_example :
    find (has_name (codes "fd")) (active_held with_bat).packages
    ≡ find (has_name (codes "fd")) (active_held some_disk).packages
unfolding equal
add-activate_example =
    add-activate no_faults (in_store "bat" "1") [] some_disk (pos 4) (codes "fd") add_test

remove-finds_example :
    (held : Held) × (find_entry
        (generation_name (pos 4))
        (remove no_faults (codes "fd" ∷ []) [] some_disk).0.entries
      ≡ some (record { name = generation_name (pos 4); is_dir = true; held = some held }))
    × (find (has_name (codes "fd")) held.packages ≡ none)
unfolding equal
remove-finds_example =
    remove-finds no_faults (codes "fd" ∷ []) [] some_disk (codes "fd") (pos 4) remove_test
