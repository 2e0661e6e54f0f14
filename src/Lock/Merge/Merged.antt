-- ===== src/Lock/Merge/Merged.antt =====
-- What the lock that mergeLocks of internal/cli/lockconflict.go gives holds.
use oku.Base.{
  Bool, Bool-cases, Bytes, List, Option, Ordering, [], and_true, any, ap, arith, equal, equal_iff,
  equal_refl, find, find-holds, if◌then◌else◌, inl, inr, none, not, refl, some, subst, true, ◌&&◌,
  ◌∙◌, ◌∷◌, ◌≡◌,
}
use oku.Lock.{Include, Lock, Package, pin_of}
use oku.Lock.Merge.{Merging, choose, merge_package, merge_packages, same_pin, set_in}
use oku.Lock.Packages.{find_package, is_named}
use oku.Lock.Packages.Found.{find_package-set_package}
use oku.Version.{compare_version}

-- of the pin of ours and the one of theirs, the one with the newer version, and at the same version
-- both in one
abbrev pub newer_pin : Package → Package → Ordering → Package
newer_pin ours theirs Ordering.lt = theirs
newer_pin ours theirs Ordering.gt = ours
newer_pin ours theirs Ordering.eq = same_pin ours theirs

abbrev pub either_pin : Option Package → Option Package → Option Package
either_pin ours none = ours
either_pin none (some theirs) = some theirs
either_pin (some ours) (some theirs) =
    some (newer_pin ours theirs (compare_version (pin_of ours).version (pin_of theirs).version))

abbrev pub either_include : Option Include → Option Include → Option Include
either_include none theirs = theirs
either_include (some ours) theirs = some ours

-- no two packages have one name
abbrev pub have_own_names : List Package → Bool
have_own_names [] = true
have_own_names (p ∷ l) = not (any (is_named (pin_of p).name) l) && have_own_names l

-- the packages with a name that is still to come are those of ours
abbrev pub IsFresh : Lock → Merging → List Package → Type 0
IsFresh ours m l =
    (name : Bytes)
    → any (is_named name) l ≡ true
    → find_package m.merged name ≡ find_package ours name

set_in-finds :
    (m : Merging) (p : Package) (name : Bytes)
    → find_package (set_in p m).merged name
      ≡ (if is_named name p then some p else find_package m.merged name)
set_in-finds m p name = (find_package-set_package m.merged p name).0

same_pin-name : (ours theirs : Package) → (pin_of (same_pin ours theirs)).name ≡ (pin_of ours).name
unfolding same_pin
same_pin-name ours theirs = refl

find_package-name :
    (l : Lock) (name : Bytes) (p : Package) → find_package l name ≡ some p → (pin_of p).name ≡ name
unfolding find_package
find_package-name l name p h =
    (equal_iff (pin_of p).name name).0 (find-holds (is_named name) l.packages h)

choose-finds :
    (m : Merging) (ours theirs : Package) (name : Bytes) (order : Ordering)
    → find_package m.merged (pin_of theirs).name ≡ some ours
    → (pin_of ours).name ≡ (pin_of theirs).name
    → find_package (choose ours theirs m order).merged name ≡ (
        if is_named name theirs
        then some (newer_pin ours theirs order)
        else find_package m.merged name)
choose-finds m ours theirs name Ordering.lt h same = set_in-finds m theirs name
choose-finds m ours theirs name Ordering.eq h same =
    subst
      (λ n.
        find_package (set_in (same_pin ours theirs) m).merged name
        ≡ (if equal n name then some (same_pin ours theirs) else find_package m.merged name))
      (same_pin-name ours theirs ∙ same) (set_in-finds m (same_pin ours theirs) name)
choose-finds m ours theirs name Ordering.gt h same =
    elim (Bool-cases (equal (pin_of theirs).name name)) [
      | inr other ↦ rw other refl
      | inl named ↦
          let at = (equal_iff (pin_of theirs).name name).0 named in
          rw named (subst (λ n. find_package m.merged n ≡ some ours) at h)
    ]

merge_package-finds :
    (m : Merging) (theirs : Package) (name : Bytes) (found : Option Package)
    → find_package m.merged (pin_of theirs).name ≡ found
    → ((ours : Package) → found ≡ some ours → (pin_of ours).name ≡ (pin_of theirs).name)
    → find_package (merge_package theirs m found).merged name ≡ (
        if is_named name theirs then either_pin found (some theirs) else find_package m.merged name)
merge_package-finds m theirs name none h named = set_in-finds m theirs name
merge_package-finds m theirs name (some ours) h named =
    choose-finds m ours theirs name (compare_version (pin_of ours).version (pin_of theirs).version)
      h (named ours refl)

-- a round of the loop
merged-finds :
    (ours : Lock) (m : Merging) (theirs : Package) (l : List Package) (name : Bytes)
    → IsFresh ours m (theirs ∷ l)
    → find_package (merge_package theirs m (find_package ours (pin_of theirs).name)).merged name ≡ (
        if is_named name theirs
        then either_pin (find_package ours (pin_of theirs).name) (some theirs)
        else find_package m.merged name)
merged-finds ours m theirs l name fresh =
    let here = fresh (pin_of theirs).name (rw (equal_refl (pin_of theirs).name) refl) in
    merge_package-finds m theirs name (find_package ours (pin_of theirs).name) here
      (λ o. find_package-name ours (pin_of theirs).name o)

IsFresh-next :
    (ours : Lock) (m : Merging) (theirs : Package) (l : List Package)
    → have_own_names (theirs ∷ l) ≡ true
    → IsFresh ours m (theirs ∷ l)
    → IsFresh ours (merge_package theirs m (find_package ours (pin_of theirs).name)) l
IsFresh-next ours m theirs l own fresh name later =
    elim (Bool-cases (equal (pin_of theirs).name name)) [
      | inr other ↦
          merged-finds ours m theirs l name fresh ∙ rw other (fresh name (rw (other, later) refl))
      | inl same ↦
          let at = (equal_iff (pin_of theirs).name name).0 same in
          let alone =
            (and_true (not (any (is_named (pin_of theirs).name) l)) (have_own_names l) own).0 in
          let none_later = subst (λ n. not (any (is_named n) l) ≡ true) at alone in
          absurd (ground (arith, none_later, later))
    ]

find_absent : (f : Package → Bool) (l : List Package) → not (any f l) ≡ true → find f l ≡ none
find_absent f [] h = refl
find_absent f (p ∷ l) h = let rest = find_absent f l (ground (arith, h)) in ground (arith, h, rest)

-- what the loop over the packages finds, from a lock on
abbrev pub found_or : Option Package → Option Package → Option Package → Option Package
found_or before ours none = before
found_or before ours (some theirs) = either_pin ours (some theirs)

pub merge_packages-finds :
    (ours : Lock) (m : Merging) (l : List Package) (name : Bytes)
    → have_own_names l ≡ true
    → IsFresh ours m l
    → find_package (merge_packages ours m l).merged name
      ≡ found_or (find_package m.merged name) (find_package ours name) (find (is_named name) l)
unfolding merge_packages
merge_packages-finds ours m [] name own fresh = refl
merge_packages-finds ours m (theirs ∷ l) name own fresh =
    let next = merge_package theirs m (find_package ours (pin_of theirs).name) in
    let (alone, own_rest) =
      and_true (not (any (is_named (pin_of theirs).name) l)) (have_own_names l) own in
    let rest =
      merge_packages-finds ours next l name own_rest (IsFresh-next ours m theirs l own fresh) in
    let here = merged-finds ours m theirs l name fresh in
    rest ∙ elim (Bool-cases (equal (pin_of theirs).name name)) [
      | inl same ↦
          let name_at = (equal_iff (pin_of theirs).name name).0 same in
          let absent =
            find_absent (is_named name) l
              (subst (λ n. not (any (is_named n) l) ≡ true) name_at alone) in
          rw (absent, same)
            (here ∙ rw same (ap (λ n. either_pin (find_package ours n) (some theirs)) name_at))
      | inr other ↦ rw other (
          ap (λ before. found_or before (find_package ours name) (find (is_named name) l))
            (here ∙ rw other refl))
    ]
