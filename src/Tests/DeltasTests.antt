-- ===== src/Tests/DeltasTests.antt =====
-- Tests of the deltas of generations and locks.
use Prim.Native.String.{String}
use oku.Base.{
  Bytes, List, Option, [], codes, equal, false, find, insert_text, none, refl, some, sorted,
  text_leq, ℕ, ◌++◌, ◌∷◌, ◌≡◌,
}
use oku.Deltas.{
  changed_rows, delta_of, kind_dep, kind_file, kind_package, removed_rows, was_added, was_changed,
  was_removed,
}
use oku.Deltas.Generations.{generation_deltas, package_row, same_package}
use oku.Deltas.Generations.Applied.{generation_deltas-applied}
use oku.Deltas.Generations.Silent.{generation_deltas-silent, looked, package_look}
use oku.Deltas.Locks.{
  add_version, all_pin_rows, by_ref_from, dep_deltas, dep_gone, dep_row, dep_rows, dep_versions,
  lock_deltas, package_deltas, pin_rows, platform_rows, repinned, same_platforms, text_at,
  with_commas,
}
use oku.Deltas.Locks.Silent.{Agree, lock_deltas-silent}
use oku.Deltas.Rows.{after_rows}
use oku.Lock.{Deps, Include, Lock, Package, dep, no_deps, pinned}
use oku.Lock.Packages.{find_package}
use oku.Profile.{Generation, ProfileFile, ProfilePackage, Setting}

abbrev installed : String → String → ProfilePackage
installed name version = record {
  name = codes name;
  version = codes version;
  ref = [];
  store_path = codes "/store/" ++ codes version;
  closure = [];
  build_only = [];
  env = [];
  service = false;
  system = false;
  run_as = [];
}

abbrev holding : List ProfilePackage → Generation
holding packages = record {
  number = 1;
  created = 0;
  packages = packages;
  files = [];
  settings = [];
  from_number = 0;
  is_current = false;
}

abbrev first : Generation
first = holding (installed "fd" "9" ∷ installed "rg" "13" ∷ [])

abbrev second : Generation
second = holding (installed "jq" "1.7" ∷ installed "rg" "14" ∷ [])

deltas_test :
    generation_deltas first second
    ≡ record (delta_of kind_package (codes "fd") was_removed) { before = codes "9" }
      ∷ record (delta_of kind_package (codes "jq") was_added) { after = codes "1.7" }
      ∷ record (delta_of kind_package (codes "rg") was_changed) {
        before = codes "13";
        after = codes "14";
      }
      ∷ []
unfolding generation_deltas removed_rows changed_rows package_row equal
deltas_test = refl

generation_deltas-applied_example :
    (after_rows kind_package (codes "rg") (generation_deltas first second) (some (codes "13"))
      ≡ some (codes "14"))
    × (after_rows kind_file (codes "rg") (generation_deltas first second) none ≡ none)
unfolding equal
generation_deltas-applied_example =
    generation_deltas-applied first second (codes "rg") (refl, (refl, tt)) tt

generation_deltas-silent_example :
    ((p : ProfilePackage)
      → looked package_look (find (same_package p) first.packages)
        ≡ looked package_look (find (same_package p) first.packages))
    × ((f : ProfileFile) → ◌≡◌ {A = Option (Bytes × Bytes × ℕ)} none none)
    × ((s : Setting) → ◌≡◌ {A = Option Bytes} none none)
unfolding generation_deltas removed_rows changed_rows package_row equal
generation_deltas-silent_example = generation_deltas-silent first (record first { number = 2 }) refl

abbrev pin : String → String → Deps → Package
pin name version deps =
    pinned
      (record {
        name = codes name;
        ref = codes "github:me/" ++ codes name;
        commit = [];
        manifest_sha256 = [];
        version = codes version;
        signing_key = [];
        signer_workflow = [];
        tag = [];
        tag_commit = [];
        inferred = false;
        manifest = [];
        asset = [];
        bins = [];
        platforms = [];
      })
      deps

abbrev lock_with : Deps → Lock
lock_with deps = record { includes = []; packages = pin "tool" "1" deps ∷ [] }

locks_test :
    lock_deltas
      (lock_with (dep (pin "lib" "2" no_deps) no_deps))
      (lock_with (dep (pin "lib" "3" no_deps) (dep (pin "lib" "2" no_deps) no_deps)))
    ≡ record (delta_of kind_dep (codes "tool github:me/lib") was_changed) {
      before = codes "2";
      after = codes "2, 3";
    }
      ∷ []
unfolding lock_deltas removed_rows changed_rows all_pin_rows pin_rows find_package package_deltas
    repinned same_platforms platform_rows sorted insert_text text_leq dep_deltas dep_versions
    by_ref_from add_version with_commas dep_rows dep_gone dep_row text_at equal
locks_test = refl

abbrev lib_two : Deps
lib_two = dep (pin "lib" "2" no_deps) no_deps

lock_deltas-silent_example :
    ((name : Bytes)
      → Agree (find_package (lock_with lib_two) name) (find_package (lock_with lib_two) name))
    × ((inc : Include) → ◌≡◌ {A = Option (Bytes × Bytes)} none none)
unfolding lock_deltas removed_rows changed_rows all_pin_rows pin_rows find_package package_deltas
    repinned same_platforms platform_rows sorted insert_text dep_deltas dep_versions by_ref_from
    add_version with_commas dep_rows dep_gone dep_row text_at equal
lock_deltas-silent_example =
    lock_deltas-silent (lock_with lib_two) (lock_with lib_two) ((refl, tt), tt) ((refl, tt), tt)
      refl
