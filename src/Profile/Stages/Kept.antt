-- ===== src/Profile/Stages/Kept.antt =====
-- `stage` of internal/profile/profile.go and the entries of a profile.
use oku.Base.{
  Bool, Bool-cases, Bytes, List, Option, Result, [], ap, arith, equal, equal_iff, err, false,
  if◌then◌else◌, inl, inr, is_nil, none, not, ok, refl, some, subst, sym, true, ℤ, ◌||◌, ◌∙◌, ◌∷◌,
  ◌≡◌,
}
use oku.Profile.{ProfilePackage}
use oku.Profile.Stages.{
  Disk, Entry, Faults, Held, StageError, cannot_build, cannot_create, clean_up, complete,
  find_entry, generation_name, half_built, is_entry, link_error, link_packages, next_generation,
  project_file, record_project, stage, staged, trees_dir, unfinished_name, without_entry,
}

find_entry-without :
    (name other : Bytes) (l : List Entry)
    → equal name other ≡ false
    → find_entry name (without_entry other l) ≡ find_entry name l
unfolding find_entry without_entry
find_entry-without name other [] h = refl
find_entry-without name other (e ∷ l) h = elim (Bool-cases (equal other e.name)) [
  | inl same ↦
      let differs = subst (λ x. equal name x ≡ false) ((equal_iff other e.name).0 same) h in
      rw (same, differs) (find_entry-without name other l h)
  | inr kept ↦ rw (kept, find_entry-without name other l h) refl
]

find_entry-clean_up :
    (fails : Bool) (name tmp : Bytes) (disk : Disk)
    → equal name tmp ≡ false
    → find_entry name (clean_up fails tmp disk).entries ≡ find_entry name disk.entries
find_entry-clean_up true name tmp disk h = refl
find_entry-clean_up false name tmp disk h = find_entry-without name tmp disk.entries h

find_entry-half_built :
    (held : Option Held) (name tmp : Bytes) (disk : Disk)
    → equal name tmp ≡ false
    → find_entry name (half_built tmp held disk).entries ≡ find_entry name disk.entries
unfolding find_entry
find_entry-half_built held name tmp disk h = rw h (find_entry-without name tmp disk.entries h)

pub if-both :
    {X : Type 0} → (P : X → Type 0) (b : Bool) (x y : X) → P x → P y → P (if b then x else y)
if-both P true x y h k = h
if-both P false x y h k = k

-- the entry of a name in the directory with the new generation
abbrev entry_after : Held → Disk → Bytes → ℤ → Option Entry
entry_after held disk name n =
    if equal name (generation_name n)
    then some (record { name = generation_name n; is_dir = true; held = some (staged held disk) })
    else find_entry name disk.entries

-- the result of `stage` on a directory, beside the entry of a name
abbrev pub Keeps : Held → Disk → Bytes → Disk × Result StageError ℤ → Type 0
Keeps held disk name result =
    (result.0.active ≡ disk.active)
    × ((e : StageError)
        → result.1 ≡ err e
        → find_entry name result.0.entries ≡ find_entry name disk.entries)
    × ((n : ℤ)
        → result.1 ≡ ok n
        → (n ≡ next_generation disk.entries)
          × (find_entry name result.0.entries ≡ entry_after held disk name n))

failed-Keeps :
    (held : Held) (disk after : Disk) (name : Bytes) (e : StageError)
    → after.active ≡ disk.active
    → find_entry name after.entries ≡ find_entry name disk.entries
    → Keeps held disk name (after, err e)
failed-Keeps held disk after name e h k = (h, λ d r. k, λ n r. cc)

active-clean_up :
    (fails : Bool) (tmp : Bytes) (disk : Disk) → (clean_up fails tmp disk).active ≡ disk.active
active-clean_up true tmp disk = refl
active-clean_up false tmp disk = refl

-- a directory with the entry of a name as another has it
abbrev IsLike : Disk → Bytes → Disk → Type 0
IsLike disk name linked =
    (linked.active ≡ disk.active) × (find_entry name linked.entries ≡ find_entry name disk.entries)

-- the name of what stands beside the generations
abbrev pub is_beside : Bytes → Bool
is_beside name = equal name project_file || equal name trees_dir

record_project-IsLike :
    (fails : Bool) (disk : Disk) (name : Bytes)
    → equal name project_file ≡ false
    → IsLike disk name (record_project fails disk)
unfolding record_project find_entry
record_project-IsLike fails disk name h = elim (Bool-cases (is_nil disk.project || fails)) [
  | inl left ↦ rw left (refl, refl)
  | inr written ↦ rw (written, h) (refl, find_entry-without name project_file disk.entries h)
]

link_packages-IsLike :
    (made : Bool) (packages : List ProfilePackage) (disk : Disk) (name : Bytes)
    → equal name trees_dir ≡ false
    → IsLike disk name (link_packages made packages disk)
unfolding link_packages find_entry
link_packages-IsLike made packages disk name h =
    elim (Bool-cases
      (is_nil packages || not made || is_entry (find_entry trees_dir disk.entries))) [
        | inl there ↦ rw there (refl, refl)
        | inr new ↦ rw (new, h) (refl, refl)
      ]

half_built-Keeps :
    (held : Held) (disk linked : Disk) (name tmp : Bytes) (fails : Bool) (half : Option Held)
    → equal name tmp ≡ false
    → IsLike disk name linked
    → Keeps held disk name (clean_up fails tmp (half_built tmp half linked), err cannot_build)
half_built-Keeps held disk linked name tmp fails half h like =
    failed-Keeps held disk (clean_up fails tmp (half_built tmp half linked)) name cannot_build
      (active-clean_up fails tmp (half_built tmp half linked) ∙ like.0)
      (find_entry-clean_up fails name tmp (half_built tmp half linked) h
        ∙ find_entry-half_built half name tmp linked h
        ∙ like.1)

find_entry-complete :
    (name tmp gen : Bytes) (whole : Held) (disk : Disk)
    → equal name tmp ≡ false
    → find_entry name (complete tmp gen whole disk).entries ≡ (
        if equal name gen
        then some (record { name = gen; is_dir = true; held = some whole })
        else find_entry name disk.entries)
unfolding find_entry
find_entry-complete name tmp gen whole disk h = elim (Bool-cases (equal name gen)) [
  | inl here ↦ rw here refl
  | inr other ↦ rw other (
      find_entry-without name tmp (without_entry gen disk.entries) h
      ∙ find_entry-without name gen disk.entries other)
]

complete-Keeps :
    (held : Held) (disk linked : Disk) (name tmp : Bytes)
    → equal name tmp ≡ false
    → IsLike disk name linked
    → Keeps held disk name (
      complete tmp (generation_name (next_generation disk.entries)) (staged held disk) linked,
      ok (next_generation disk.entries),
    )
complete-Keeps held disk linked name tmp h like = (
  like.0,
  λ e r. cc,
  λ n r.
      let same : next_generation disk.entries ≡ n = cc in
      let gen = generation_name (next_generation disk.entries) in
      let whole : Entry = record { name = gen; is_dir = true; held = some (staged held disk) } in
      (
        sym same,
        find_entry-complete name tmp gen (staged held disk) linked h
            ∙ ap (λ o. if equal name gen then some whole else o) like.1
            ∙ ap (entry_after held disk name) same,
      ),
)

-- Whatever fails, `stage` leaves "current" as it is. Where it fails, every entry is as before, and
-- where it succeeds, its number is the one that `next_generation` gives, and every entry is as before
-- but the generation of this number, which holds what was asked for with its packages sorted and the
-- active generation noted. This is said of any name but those of the unfinished copy, of the project
-- file and of the directory of the link trees.
pub stage-Keeps :
    (faults : Faults) (held : Held) (disk : Disk) (name : Bytes)
    → equal name (unfinished_name (next_generation disk.entries)) ≡ false
    → is_beside name ≡ false
    → Keeps held disk name (stage faults held disk)
unfolding stage
stage-Keeps faults held disk name h beside =
    let tmp = unfinished_name (next_generation disk.entries) in
    let fails = faults.cleanup_fails in
    let packages = (staged held disk).packages in
    let recorded = record_project faults.record_fails disk in
    let linked = link_packages faults.tree_made packages recorded in
    let (active, entry) = record_project-IsLike faults.record_fails disk name (ground arith) in
    let (active_too, entry_too) =
      link_packages-IsLike faults.tree_made packages recorded name (ground arith) in
    let like : IsLike disk name linked = (active_too ∙ active, entry_too ∙ entry) in
    if-both (Keeps held disk name) faults.remove_fails _ _
      (failed-Keeps held disk disk name cannot_create refl refl)
      (if-both (Keeps held disk name) faults.make_fails _ _
        (failed-Keeps held disk (record disk { entries = without_entry tmp disk.entries }) name
          cannot_create refl (find_entry-without name tmp disk.entries h))
        (if-both (Keeps held disk name) (link_error faults packages || faults.build_fails) _ _
          (half_built-Keeps held disk linked name tmp fails none h like)
          (if-both (Keeps held disk name) faults.rename_fails _ _
            (half_built-Keeps held disk linked name tmp fails (some (staged held disk)) h like)
            (complete-Keeps held disk linked name tmp h like))))

-- A generation stands beside neither.
pub generation_name-is_beside : (n : ℤ) → is_beside (generation_name n) ≡ false
unfolding generation_name equal
generation_name-is_beside n = ground arith
