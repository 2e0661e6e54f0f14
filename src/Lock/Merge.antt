-- ===== src/Lock/Merge.antt =====
-- mergeLocks and samePin of internal/cli/lockconflict.go.
pub mod Both
pub mod Merged
pub mod Includes
use oku.Base.{
  Bool, Bytes, List, Option, Ordering, [], any, equal, if◌then◌else◌, keep, none, not, some, ◌&&◌,
  ◌++◌, ◌||◌, ◌∷◌,
}
use oku.Lock.{
  Deps, Include, Lock, Package, PlatformPin, dep, deps_list, deps_of, no_deps, pin_of, pinned,
}
use oku.Lock.Conflicts.{from}
use oku.Lock.Packages.{find_include, find_package, set_package}
use oku.Version.{compare_version}
use oku.Version.Pick.{note}

-- a choice between the sides that is told
pub data Note : Type 0 where
  kept_list : Bytes → Note
  took_theirs : Bytes → Note
  took_ours : Bytes → Note

-- the merged lock and the notes so far
pub record Merging : Type 0 where
  pub merged : Lock
  pub notes : List Note

abbrev has_key : List (Bytes × PlatformPin) → Bytes → Bool
has_key pins key = any (λ (entry : Bytes × PlatformPin). equal entry.0 key) pins

-- `maps.Copy`
unfoldable pub copy_pins :
    List (Bytes × PlatformPin) → List (Bytes × PlatformPin) → List (Bytes × PlatformPin)
copy_pins from onto =
    from ++ keep (λ (entry : Bytes × PlatformPin). not (has_key from entry.0)) onto

abbrev pub deps_append : Deps → Package → Deps
deps_append no_deps p = dep p no_deps
deps_append (dep q ds) p = dep q (deps_append ds p)

-- a dep of the same ref and version
abbrev pub is_same_dep : Package → Package → Bool
is_same_dep p d = equal (pin_of d).ref (pin_of p).ref && equal (pin_of d).version (pin_of p).version

-- the loop of `samePin` over the deps
unfoldable pub add_deps : Deps → Deps → Deps
add_deps merged no_deps = merged
add_deps merged (dep p ds) =
    let skipped = add_deps merged ds in
    let added = add_deps (deps_append merged p) ds in
    if any (is_same_dep p) (deps_list merged) then skipped else added

-- `samePin`
unfoldable pub same_pin : Package → Package → Package
same_pin ours theirs =
    let platforms = copy_pins (pin_of ours).platforms (copy_pins (pin_of theirs).platforms []) in
    pinned (record (pin_of ours) { platforms = platforms })
      (add_deps (deps_of ours) (deps_of theirs))

-- the list is pinned at another commit
abbrev pub differs_from : Include → Include → Bool
differs_from inc ours = not (equal ours.commit inc.commit) || not (equal ours.sha256 inc.sha256)

abbrev pub with_note : Note → Merging → Merging
with_note note m = record m { notes = m.notes ++ (note ∷ []) }

abbrev pub add_include : Include → Merging → Option Include → Merging
add_include inc m none = record m {
  merged = record m.merged { includes = m.merged.includes ++ (inc ∷ []) };
}
add_include inc m (some ours) = if differs_from inc ours then with_note (kept_list inc.ref) m else m

-- the loop of `mergeLocks` over the included lists of theirs
unfoldable pub merge_includes : Lock → Merging → List Include → Merging
merge_includes ours m [] = m
merge_includes ours m (inc ∷ l) =
    merge_includes ours (add_include inc m (find_include ours inc.ref)) l

abbrev pub set_in : Package → Merging → Merging
set_in p m = record m { merged = set_package m.merged p }

abbrev pub choose : Package → Package → Merging → Ordering → Merging
choose ours theirs m Ordering.lt = with_note (took_theirs (pin_of theirs).name) (set_in theirs m)
choose ours theirs m Ordering.gt = with_note (took_ours (pin_of ours).name) m
choose ours theirs m Ordering.eq = set_in (same_pin ours theirs) m

-- a round of the loop over the packages of theirs
abbrev pub merge_package : Package → Merging → Option Package → Merging
merge_package theirs m none = set_in theirs m
merge_package theirs m (some ours) =
    choose ours theirs m (compare_version (pin_of ours).version (pin_of theirs).version)

unfoldable pub merge_packages : Lock → Merging → List Package → Merging
merge_packages ours m [] = m
merge_packages ours m (theirs ∷ l) =
    merge_packages ours (merge_package theirs m (find_package ours (pin_of theirs).name)) l

-- `mergeLocks`
unfoldable pub merge_locks : Lock → Lock → Merging
merge_locks ours theirs =
    merge_packages ours (merge_includes ours (record { merged = ours; notes = [] }) theirs.includes)
      theirs.packages
