-- ===== src/Tests/LockTests.antt =====
-- Tests of the lock's modules.
use Prim.Native.String.{String}
use oku.Base.{
  All, Bytes, List, [], any, codes, cut, equal, false, has_prefix, if◌then◌else◌, none, pos, refl,
  some, split, split_pieces, trim_left, trim_right, true, ◌++◌, ◌↔◌, ◌∷◌, ◌≡◌,
}
use oku.Lock.{Lock, Package, Pin, PlatformPin, dep, deps_of, no_deps, pinned}
use oku.Lock.Checks.{
  bad_version, check_package, check_platforms, check_version, check_versions, has_separator,
}
use oku.Lock.Checks.Versions.{AreSafe, check_versions-AreSafe}
use oku.Lock.Conflicts.{conflicted, line_before, lines, note_line, note_lines}
use oku.Lock.Conflicts.Marks.{conflicted-marks, last_label}
use oku.Lock.Merge.{
  add_deps, copy_pins, kept_list, merge_includes, merge_locks, merge_packages, same_pin,
  took_theirs,
}
use oku.Lock.Merge.Includes.{IsMerged, merge_locks-finds}
use oku.Lock.Merge.Merged.{either_include, have_own_names}
use oku.Lock.Packages.{delete_package, find_include, find_package, set_package}
use oku.Lock.Packages.Found.{find_package-set_package}
use oku.Version.{
  atoi, compare_part, compare_parts, compare_pre, compare_runs, compare_suffix, compare_tail,
  compare_version, runs, split_number,
}

abbrev on_linux : String → PlatformPin
on_linux version = record {
  strategy = codes "fetch";
  url = [];
  sha256 = [];
  verified = codes "sigstore";
  impure = false;
  commands = false;
  vendor_sha256 = [];
  version = codes version;
  tag = [];
  signed_at = pos 0;
}

abbrev pin : String → String → List (Bytes × PlatformPin) → Pin
pin name version platforms = record {
  name = codes name;
  ref = codes "github:me/" ++ codes name;
  commit = [];
  manifest_sha256 = [];
  version = codes version;
  signing_key = [];
  signer_workflow = [];
  tag = [];
  tag_commit = [];
  inferred = false;
  manifest = [];
  asset = [];
  bins = [];
  platforms = platforms;
}

abbrev linux : Bytes
linux = codes "linux-amd64-glibc"

-- a package whose dep another version of the same dep follows, for a platform
abbrev tool : Package
tool = pinned (pin "tool" "1.2" []) (
    dep (pinned (pin "lib" "3.0" []) no_deps)
      (dep (pinned (pin "lib" "2.0" ((linux, on_linux "2.0.1") ∷ [])) no_deps) no_deps))

abbrev other : Package
other = pinned (pin "other" "0.1" []) no_deps

abbrev lock : Lock
lock = record { includes = []; packages = other ∷ pinned (pin "tool" "1.1" []) no_deps ∷ [] }

abbrev bad : Package
bad = pinned (pin "bad" "1.0" []) (dep (pinned (pin "lib" "../x" []) no_deps) no_deps)

set_test : (set_package lock tool).packages ≡ other ∷ tool ∷ []
unfolding set_package delete_package equal
set_test = refl

versions_test :
    (check_versions (tool ∷ []) ≡ none)
    × (check_versions (tool ∷ bad ∷ []) ≡ some (bad_version (codes "lib") has_separator))
unfolding check_versions check_package check_platforms check_version
versions_test = (refl, refl)

find_package-set_package_example :
    (find_package (set_package lock tool) (codes "other") ≡ (
      if equal (codes "tool") (codes "other")
      then some tool
      else find_package lock (codes "other")))
    × ((set_package lock tool).includes ≡ [])
find_package-set_package_example = find_package-set_package lock tool (codes "other")

abbrev lib_on_linux : Package
lib_on_linux = pinned (pin "lib" "2.0" ((linux, on_linux "2.0.1") ∷ [])) no_deps

check_versions-AreSafe_example :
    (check_versions (tool ∷ other ∷ []) ≡ none) ↔ All AreSafe (tool ∷ other ∷ [])
check_versions-AreSafe_example = check_versions-AreSafe (tool ∷ other ∷ [])

-- a text with one conflict
abbrev conflict : Bytes
conflict = codes "<<<<<<< HEAD" ++ (10 ∷ []) ++ codes "x" ++ (10 ∷ []) ++ codes ">>>>>>>"

conflicted_test :
    conflicted conflict ≡ record { ours = codes "HEAD"; theirs = codes "theirs"; found = true }
unfolding conflicted lines line_before note_line note_lines equal trim_left trim_right
conflicted_test = refl

conflicted-marks_example : conflicted conflict ≡ record {
  ours = last_label (codes "<<<<<<<") (codes "ours") (lines conflict) [];
  theirs = last_label (codes ">>>>>>>") (codes "theirs") (lines conflict) [];
  found = any (has_prefix (codes "<<<<<<<")) (lines conflict);
}
conflicted-marks_example = conflicted-marks conflict

-- two sides with one package each of the same version, for two platforms, and one that is newer
abbrev on_mac : Package
on_mac = pinned (pin "tool" "1.2" ((codes "darwin-arm64", on_linux "1.2") ∷ [])) no_deps

abbrev theirs_side : Lock
theirs_side = record {
  includes = record { ref = codes "github:me/list"; commit = codes "b"; sha256 = [] } ∷ [];
  packages = on_mac ∷ pinned (pin "other" "0.2" []) no_deps ∷ [];
}

abbrev ours_side : Lock
ours_side = record {
  includes = record { ref = codes "github:me/list"; commit = codes "a"; sha256 = [] } ∷ [];
  packages = tool ∷ other ∷ [];
}

same_pin-tool :
    same_pin on_mac tool
    ≡ pinned (pin "tool" "1.2" ((codes "darwin-arm64", on_linux "1.2") ∷ [])) (deps_of tool)
unfolding same_pin copy_pins add_deps equal
same_pin-tool = refl

merge_locks-notes :
    (merge_locks ours_side theirs_side).notes
    ≡ kept_list (codes "github:me/list") ∷ took_theirs (codes "other") ∷ []
unfolding merge_locks merge_includes merge_packages find_package find_include equal compare_version
    compare_parts compare_part split_number compare_suffix compare_runs compare_pre compare_tail
    atoi split split_pieces cut runs
merge_locks-notes = refl

theirs-have_own_names : have_own_names theirs_side.packages ≡ true
unfolding equal
theirs-have_own_names = refl

merge_locks-finds_example :
    IsMerged
      (find_package ours_side (codes "tool"))
      (find_package theirs_side (codes "tool"))
      (find_package (merge_locks ours_side theirs_side).merged (codes "tool"))
    × (find_include (merge_locks ours_side theirs_side).merged (codes "github:me/list")
        ≡ either_include
            (find_include ours_side (codes "github:me/list"))
            (find_include theirs_side (codes "github:me/list")))
merge_locks-finds_example =
    merge_locks-finds ours_side theirs_side (codes "tool") (codes "github:me/list")
      theirs-have_own_names
