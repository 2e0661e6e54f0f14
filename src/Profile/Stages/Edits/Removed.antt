-- ===== src/Profile/Stages/Edits/Removed.antt =====
-- The generation behind `Remove` of internal/profile/profile.go.
use oku.Base.{
  Bool-cases, Bytes, List, Option-cases, Result, [], any, ap, arith, contains, equal, equal_iff,
  equal_refl, err, false, find, if◌then◌else◌, inl, inr, keep, none, not, ok, refl, some, subst,
  sym, true, ℤ, ◌||◌, ◌∙◌, ◌∷◌, ◌≡◌, ◌≢◌,
}
use oku.Change.{failed}
use oku.Profile.{ProfilePackage}
use oku.Profile.Stages.{
  Disk, Faults, Held, StageError, find_entry, generation_name, link_error, next_generation,
  not_installed, stage, staged,
}
use oku.Profile.Stages.Edits.{active_held, first_missing, has_name, next_held, remove}
use oku.Profile.Stages.Edits.Added.{find-sort_packages, not_unfinished}
use oku.Profile.Stages.Kept.{generation_name-is_beside, if-both, stage-Keeps}

find-kept :
    (names : List Bytes) (name : Bytes) (l : List ProfilePackage)
    → find (has_name name) (keep (λ (p : ProfilePackage). not (contains names p.name)) l)
      ≡ (if contains names name then none else find (has_name name) l)
find-kept names name [] = elim (Bool-cases (contains names name)) [
  | inl gone ↦ rw gone refl
  | inr kept ↦ rw kept refl
]
find-kept names name (p ∷ l) = elim (Bool-cases (equal p.name name)) [
  | inl here ↦
      let same : contains names p.name ≡ contains names name =
        ap (contains names) ((equal_iff p.name name).0 here) in
      ground (arith, find-kept names name l, same)
  | inr other ↦ ground (arith, find-kept names name l)
]

first_missing-none :
    (packages : List ProfilePackage) (names : List Bytes) (name : Bytes)
    → first_missing packages names ≡ some name
    → (contains names name ≡ true) × (any (has_name name) packages ≡ false)
unfolding first_missing
first_missing-none packages [] name h = cc
first_missing-none packages (x ∷ names) name h = elim (Bool-cases (any (has_name x) packages)) [
  | inl there ↦
      let (listed, absent) = first_missing-none packages names name (rw there at h) in
      (rw listed (ground arith), absent)
  | inr absent ↦
      let same : x ≡ name = (let found : some x ≡ some name = rw absent at h in cc) in
      (
        rw (sym same) (rw (equal_refl x) refl),
        subst (λ y. any (has_name y) packages ≡ false) same absent,
      )
]

stage-installed :
    (faults : Faults) (held : Held) (disk : Disk) (name : Bytes)
    → (stage faults held disk).1 ≢ err (not_installed name)
unfolding stage
stage-installed faults held disk name =
    let Other = λ (r : Disk × Result StageError ℤ). r.1 ≢ err (not_installed name) in
    if-both Other faults.remove_fails _ _ (λ e. cc)
      (if-both Other faults.make_fails _ _ (λ e. cc)
        (if-both Other (link_error faults (staged held disk).packages || faults.build_fails) _ _
          (λ e. cc) (if-both Other faults.rename_fails _ _ (λ e. cc) (λ e. cc))))

remove-both :
    (faults : Faults) (names : List Bytes) (lock_data : Bytes) (disk : Disk) (name : Bytes)
    → ((n : ℤ)
        → (remove faults names lock_data disk).1 ≡ ok n
        → (held : Held) × (find_entry
              (generation_name n)
              (remove faults names lock_data disk).0.entries
            ≡ some (record { name = generation_name n; is_dir = true; held = some held }))
          × (find (has_name name) held.packages ≡ (
              if contains names name
              then none
              else find (has_name name) (active_held disk).packages)))
      × ((remove faults names lock_data disk).1 ≡ err (not_installed name)
          → (contains names name ≡ true)
            × (any (has_name name) (active_held disk).packages ≡ false)
            × ((remove faults names lock_data disk).0 ≡ disk))
unfolding remove
remove-both faults names lock_data disk name =
    let have = (active_held disk).packages in
    let kept = keep (λ (p : ProfilePackage). not (contains names p.name)) have in
    let held = next_held disk kept lock_data in
    elim (Option-cases (first_missing have names)) [
      | inr (first, e) ↦ rw e (
        λ n h. cc,
        λ h.
            let same : first ≡ name = cc in
            let (listed, absent) = first_missing-none have names name (e ∙ ap some same) in
            (listed, absent, refl),
      )
      | inl e ↦ rw e (
        λ n h.
            let (active, failed, good) =
              stage-Keeps faults held disk (generation_name n)
                (not_unfinished n (next_generation disk.entries)) (generation_name-is_beside n) in
            (
              staged held disk,
              (good n h).1 ∙ rw (equal_refl (generation_name n)) refl,
              find-sort_packages name kept ∙ find-kept names name have,
            ),
        λ h. absurd (stage-installed faults held disk name h),
      )
    ]

-- If `remove` succeeds, the generation of the number that it reports holds none of the names, and
-- under any other name the package of the active generation, or none where that has none.
pub remove-finds :
    (faults : Faults) (names : List Bytes) (lock_data : Bytes) (disk : Disk) (name : Bytes) (n : ℤ)
    → (remove faults names lock_data disk).1 ≡ ok n
    → (held : Held) × (find_entry (generation_name n) (remove faults names lock_data disk).0.entries
        ≡ some (record { name = generation_name n; is_dir = true; held = some held }))
      × (find (has_name name) held.packages ≡ (
          if contains names name then none else find (has_name name) (active_held disk).packages))
remove-finds faults names lock_data disk name = (remove-both faults names lock_data disk name).0

-- If `remove` fails because a name is not installed, then the name is one that it was given, the
-- active generation does not hold it, and the directory is as before.
pub remove-not_installed :
    (faults : Faults) (names : List Bytes) (lock_data : Bytes) (disk : Disk) (name : Bytes)
    → (remove faults names lock_data disk).1 ≡ err (not_installed name)
    → (contains names name ≡ true)
      × (any (has_name name) (active_held disk).packages ≡ false)
      × ((remove faults names lock_data disk).0 ≡ disk)
remove-not_installed faults names lock_data disk name =
    (remove-both faults names lock_data disk name).1
