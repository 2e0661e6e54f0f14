-- ===== src/Profile/Stages/Edits/Added.antt =====
-- The generation behind `Add` of internal/profile/profile.go.
use oku.Base.{
  Bool-cases, Bytes, List, [], ap, arith, differ, equal, equal_iff, equal_refl, false, find,
  if◌then◌else◌, inl, inr, keep, negsuc, not, ok, pos, refl, some, subst, suc, sym, text_leq, true,
  ℕ, ℤ, ◌++◌, ◌+◌, ◌-◌, ◌==◌, ◌∙◌, ◌∷◌, ◌≡◌,
}
use oku.Change.{failed}
use oku.Profile.{ProfilePackage}
use oku.Profile.Stages.{
  Disk, Entry, Faults, Held, find_entry, generation_name, highest_from, insert_package,
  next_generation, sort_packages, staged, unfinished_name,
}
use oku.Profile.Stages.Edits.{activate, active_held, add, has_name, is_number_zero, next_held}
use oku.Profile.Stages.Kept.{generation_name-is_beside, stage-Keeps}
use oku.Version.{two_63}
use oku.Version.Range.{increment}

text_leq_refl : (a : Bytes) → text_leq a a ≡ true
unfolding text_leq
text_leq_refl [] = refl
text_leq_refl (c ∷ a) = ground (arith, text_leq_refl a)

find-insert_package :
    (name : Bytes) (p : ProfilePackage) (l : List ProfilePackage)
    → find (has_name name) (insert_package p l) ≡ find (has_name name) (p ∷ l)
unfolding insert_package
find-insert_package name p [] = refl
find-insert_package name p (q ∷ l) = elim (Bool-cases (text_leq p.name q.name)) [
  | inl before ↦ rw before refl
  | inr behind ↦ elim (Bool-cases (equal p.name name)) [
    | inr other ↦ rw (behind, find-insert_package name p l, other) refl
    | inl same ↦ elim (Bool-cases (equal q.name name)) [
      | inr other ↦ rw (behind, find-insert_package name p l, other, same) refl
      | inl also ↦
          let equals = (equal_iff p.name name).0 same ∙ sym ((equal_iff q.name name).0 also) in
          let contrary = subst (λ x. text_leq p.name x ≡ false) (sym equals) behind in
          let reflexive = text_leq_refl p.name in cc
    ]
  ]
]

pub find-sort_packages :
    (name : Bytes) (l : List ProfilePackage)
    → find (has_name name) (sort_packages l) ≡ find (has_name name) l
unfolding sort_packages
find-sort_packages name [] = refl
find-sort_packages name (p ∷ l) =
    find-insert_package name p (sort_packages l)
    ∙ ap (λ o. if has_name name p then some p else o) (find-sort_packages name l)

unequal : (a b c : Bytes) → equal a b ≡ false → equal a c ≡ true → equal b c ≡ false
unequal a b c h k = elim (Bool-cases (equal b c)) [
  | inr differ ↦ differ
  | inl same ↦
      let alike = (equal_iff a b).1 ((equal_iff a c).0 k ∙ sym ((equal_iff b c).0 same)) in cc
]

pub not_unfinished : (n m : ℤ) → equal (generation_name n) (unfinished_name m) ≡ false
unfolding generation_name unfinished_name equal
not_unfinished n m = ground arith

find-replaced :
    (pkg : ProfilePackage) (name : Bytes) (l : List ProfilePackage)
    → find (has_name name) (keep (λ p. not (has_name pkg.name p)) l ++ (pkg ∷ []))
      ≡ (if equal pkg.name name then some pkg else find (has_name name) l)
find-replaced pkg name [] = refl
find-replaced pkg name (p ∷ l) = elim (Bool-cases (equal p.name pkg.name)) [
  | inl same ↦
      let alike : equal p.name name ≡ equal pkg.name name =
        ap (λ x. equal x name) ((equal_iff p.name pkg.name).0 same) in
      rw same (ground (arith, find-replaced pkg name l, alike))
  | inr other ↦ elim (Bool-cases (equal p.name name)) [
    | inl found ↦
        let differs : equal pkg.name name ≡ false = unequal p.name pkg.name name other found in
        rw (other, found, differs) refl
    | inr not_found ↦ rw (other, not_found) (find-replaced pkg name l)
  ]
]

-- If `add` succeeds, the generation of the number that it reports holds the package under its name,
-- and under any other name the package of the active generation, or none where that has none.
pub add-finds :
    (faults : Faults) (pkg : ProfilePackage) (lock_data : Bytes) (disk : Disk) (n : ℤ)
    (name : Bytes)
    → (add faults pkg lock_data disk).1 ≡ ok n
    → (held : Held) × (find_entry (generation_name n) (add faults pkg lock_data disk).0.entries
        ≡ some (record { name = generation_name n; is_dir = true; held = some held }))
      × (find (has_name name) held.packages ≡ (
          if equal pkg.name name
          then some pkg
          else find (has_name name) (active_held disk).packages))
unfolding add
add-finds faults pkg lock_data disk n name h =
    let have = keep (λ p. not (has_name pkg.name p)) (active_held disk).packages in
    let held = next_held disk (have ++ (pkg ∷ [])) lock_data in
    let (active, failed, good) =
      stage-Keeps faults held disk (generation_name n)
        (not_unfinished n (next_generation disk.entries)) (generation_name-is_beside n) in
    let (next, after) = good n h in
    (
      staged held disk,
      after ∙ rw (equal_refl (generation_name n)) refl,
      find-sort_packages name (have ++ (pkg ∷ []))
          ∙ find-replaced pkg name (active_held disk).packages,
    )

next-not_zero : (entries : List Entry) → is_number_zero (next_generation entries) ≡ false
unfolding next_generation increment
next-not_zero entries = go (highest_from 0 entries)
  where
    after : (h : ℕ) → pos (h + 1) ≡ pos (suc h)
    after h = ap pos (omega arith)

    go :
        (h : ℕ)
        → is_number_zero (if h == two_63 - 1 then negsuc (two_63 - 1) else pos (h + 1)) ≡ false
    go h = elim (Bool-cases (h == two_63 - 1)) [
      | inl last ↦ rw last refl
      | inr more ↦ rw more (ap is_number_zero (after h))
    ]

add-not_zero :
    (faults : Faults) (pkg : ProfilePackage) (lock_data : Bytes) (disk : Disk) (n : ℤ)
    → (add faults pkg lock_data disk).1 ≡ ok n
    → is_number_zero n ≡ false
unfolding add
add-not_zero faults pkg lock_data disk n h =
    let have = keep (λ p. not (has_name pkg.name p)) (active_held disk).packages in
    let held = next_held disk (have ++ (pkg ∷ [])) lock_data in
    let (active, failed, good) =
      stage-Keeps faults held disk (generation_name n)
        (not_unfinished n (next_generation disk.entries)) (generation_name-is_beside n) in
    ap is_number_zero (good n h).0 ∙ next-not_zero disk.entries

-- If `add` succeeds and then `activate` with the number that it reports does, the active generation
-- holds the package under its name, and under any other name the package that the active generation
-- held before, or none where that had none.
pub add-activate :
    (faults : Faults) (pkg : ProfilePackage) (lock_data : Bytes) (disk : Disk) (n : ℤ)
    (name : Bytes)
    → (add faults pkg lock_data disk).1 ≡ ok n
    → find
        (has_name name)
        (active_held (activate false n (add faults pkg lock_data disk).0).0).packages
      ≡ (if equal pkg.name name then some pkg else find (has_name name) (active_held disk).packages)
unfolding activate active_held
add-activate faults pkg lock_data disk n name h =
    let (held, there, finds) = add-finds faults pkg lock_data disk n name h in
    rw (add-not_zero faults pkg lock_data disk n h, there) finds
