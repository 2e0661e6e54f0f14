-- ===== src/Lock/Merge/Includes.antt =====
-- The included lists that mergeLocks of internal/cli/lockconflict.go keeps, and the whole lock.
use mathlib.Core.List.{append-nil, append_assoc}
use oku.Base.{
  Bool, Bool-cases, Bytes, List, Option, Option-cases, Ordering, [], ap, arith, equal, equal_iff,
  false, find, if◌then◌else◌, inl, inr, keep, none, refl, some, subst, sym, true, ◌++◌, ◌∙◌, ◌∷◌,
  ◌≡◌,
}
use oku.Lock.{Include, Lock, Package, pin_of}
use oku.Lock.Merge.{
  Merging, Note, add_include, choose, differs_from, kept_list, merge_includes, merge_locks,
  merge_package, merge_packages, same_pin, with_note,
}
use oku.Lock.Merge.Both.{IsBoth, same_pin-IsBoth}
use oku.Lock.Merge.Merged.{
  either_include, either_pin, found_or, have_own_names, merge_packages-finds, newer_pin,
}
use oku.Lock.Packages.{find_include, find_package, is_named}
use oku.Lock.Packages.Found.{find_package-set_package}
use oku.Version.{compare_version}

abbrev is_new : Option Include → Bool
is_new none = true
is_new (some ours) = false

-- the lists that only theirs includes
abbrev new_includes : Lock → List Include → List Include
new_includes ours = keep (λ inc. is_new (find_include ours inc.ref))

noted-merged :
    (test : Bool) (told : Note) (m : Merging)
    → (if test then with_note told m else m).merged ≡ m.merged
noted-merged true told m = refl
noted-merged false told m = refl

-- a lock with other lists
abbrev including : Lock → List Include → Lock
including l includes = record l { includes = includes }

add_include-merged :
    (inc : Include) (m : Merging) (found : Option Include)
    → (add_include inc m found).merged
      ≡ record m.merged { includes = m.merged.includes ++ (if is_new found then inc ∷ [] else []) }
add_include-merged inc m none = refl
add_include-merged inc m (some ours) =
    noted-merged (differs_from inc ours) (kept_list inc.ref) m
    ∙ ap (including m.merged) (sym (append-nil m.merged.includes))

one_more :
    (test : Bool) (inc : Include) (front l : List Include)
    → (front ++ (if test then inc ∷ [] else [])) ++ l ≡ front ++ (if test then inc ∷ l else l)
one_more true inc front l = append_assoc front (inc ∷ []) l
one_more false inc front l = rw (append-nil front) refl

merge_includes-merged :
    (ours : Lock) (m : Merging) (l : List Include)
    → (merge_includes ours m l).merged
      ≡ including m.merged (m.merged.includes ++ new_includes ours l)
unfolding merge_includes
merge_includes-merged ours m [] = ap (including m.merged) (sym (append-nil m.merged.includes))
merge_includes-merged ours m (inc ∷ l) =
    let found = find_include ours inc.ref in
    let next = add_include inc m found in
    merge_includes-merged ours next l
    ∙ ap (λ (k : Lock). including k (k.includes ++ new_includes ours l))
        (add_include-merged inc m found)
    ∙ ap (including m.merged) (one_more (is_new found) inc m.merged.includes (new_includes ours l))

choose-includes :
    (ours theirs : Package) (m : Merging) (order : Ordering)
    → (choose ours theirs m order).merged.includes ≡ m.merged.includes
choose-includes ours theirs m Ordering.lt = (find_package-set_package m.merged theirs []).1
choose-includes ours theirs m Ordering.eq =
    (find_package-set_package m.merged (same_pin ours theirs) []).1
choose-includes ours theirs m Ordering.gt = refl

merge_package-includes :
    (theirs : Package) (m : Merging) (found : Option Package)
    → (merge_package theirs m found).merged.includes ≡ m.merged.includes
merge_package-includes theirs m none = (find_package-set_package m.merged theirs []).1
merge_package-includes theirs m (some ours) =
    choose-includes ours theirs m (compare_version (pin_of ours).version (pin_of theirs).version)

merge_packages-includes :
    (ours : Lock) (m : Merging) (l : List Package)
    → (merge_packages ours m l).merged.includes ≡ m.merged.includes
unfolding merge_packages
merge_packages-includes ours m [] = refl
merge_packages-includes ours m (p ∷ l) =
    merge_packages-includes ours (merge_package p m (find_package ours (pin_of p).name)) l
    ∙ merge_package-includes p m (find_package ours (pin_of p).name)

find_append :
    (f : Include → Bool) (a b : List Include)
    → find f (a ++ b) ≡ elim (find f a) [ some x ↦ some x | none ↦ find f b ]
find_append f [] b = refl
find_append f (x ∷ a) b = ground (arith, find_append f a b)

find_new :
    (ours : Lock) (l : List Include) (ref : Bytes)
    → find_include ours ref ≡ none
    → find (λ inc. equal inc.ref ref) (new_includes ours l) ≡ find (λ inc. equal inc.ref ref) l
find_new ours [] ref h = refl
find_new ours (inc ∷ l) ref h =
    let rest = find_new ours l ref h in
    elim (Bool-cases (equal inc.ref ref)) [
      | inr other ↦ elim (Bool-cases (is_new (find_include ours inc.ref))) [
        | inl new ↦ rw (new, other) rest
        | inr old ↦ rw (old, other) rest
      ]
      | inl same ↦
          let at_ref : find_include ours inc.ref ≡ none =
            subst (λ r. find_include ours r ≡ none) (sym ((equal_iff inc.ref ref).0 same)) h in
          rw (at_ref, same) refl
    ]

either_found :
    (before ours theirs : Option Package)
    → before ≡ ours
    → found_or before ours theirs ≡ either_pin ours theirs
either_found before ours none h = h
either_found before none (some t) h = refl
either_found before (some o) (some t) h = refl

find_either :
    (ours : Lock) (l : List Include) (ref : Bytes)
    → elim (find_include ours ref) [
      | some x ↦ some x
      | none ↦ find (λ (inc : Include). equal inc.ref ref) (new_includes ours l)
    ]
      ≡ either_include (find_include ours ref) (find (λ (inc : Include). equal inc.ref ref) l)
find_either ours l ref = elim (Option-cases (find_include ours ref)) [
  | inl gone ↦ rw gone (find_new ours l ref gone)
  | inr (x, found) ↦ rw found refl
]

merge_locks-either :
    (ours theirs : Lock) (name ref : Bytes)
    → have_own_names theirs.packages ≡ true
    → (find_package (merge_locks ours theirs).merged name
        ≡ either_pin (find_package ours name) (find_package theirs name))
      × (find_include (merge_locks ours theirs).merged ref
          ≡ either_include (find_include ours ref) (find_include theirs ref))
unfolding merge_locks find_package find_include
merge_locks-either ours theirs name ref own =
    let start : Merging = record { merged = ours; notes = [] } in
    let included = merge_includes ours start theirs.includes in
    let merged = merge_includes-merged ours start theirs.includes in
    let same : included.merged.packages ≡ ours.packages = ap (λ (l : Lock). l.packages) merged in
    let includes = merge_packages-includes ours included theirs.packages in
    (
      merge_packages-finds ours included theirs.packages name own
            (λ n later. ap (λ packages. find (is_named n) packages) same)
          ∙ either_found (find_package included.merged name) (find_package ours name)
              (find (is_named name) theirs.packages)
              (ap (λ packages. find (is_named name) packages) same),
      ap (λ l. find (λ (inc : Include). equal inc.ref ref) l)
            (includes ∙ ap (λ (l : Lock). l.includes) merged)
          ∙ find_append (λ inc. equal inc.ref ref) ours.includes (new_includes ours theirs.includes)
          ∙ find_either ours theirs.includes ref,
    )

-- the newer of two pins, or at the same version both in one
abbrev pub IsNewer : Package → Package → Option Package → Ordering → Type 0
IsNewer ours theirs merged Ordering.lt = merged ≡ some theirs
IsNewer ours theirs merged Ordering.gt = merged ≡ some ours
IsNewer ours theirs merged Ordering.eq =
    (both : Package) × (merged ≡ some both) × IsBoth ours theirs both

newer_pin-IsNewer :
    (ours theirs : Package) (order : Ordering)
    → IsNewer ours theirs (some (newer_pin ours theirs order)) order
newer_pin-IsNewer ours theirs Ordering.lt = refl
newer_pin-IsNewer ours theirs Ordering.gt = refl
newer_pin-IsNewer ours theirs Ordering.eq =
    (same_pin ours theirs, refl, same_pin-IsBoth ours theirs)

-- what the merged lock pins under a name, from the pins of ours and of theirs
abbrev pub IsMerged : Option Package → Option Package → Option Package → Type 0
IsMerged ours none merged = merged ≡ ours
IsMerged none (some theirs) merged = merged ≡ some theirs
IsMerged (some ours) (some theirs) merged =
    IsNewer ours theirs merged (compare_version (pin_of ours).version (pin_of theirs).version)

either_pin-IsMerged : (ours theirs : Option Package) → IsMerged ours theirs (either_pin ours theirs)
either_pin-IsMerged none none = refl
either_pin-IsMerged (some o) none = refl
either_pin-IsMerged none (some t) = refl
either_pin-IsMerged (some o) (some t) =
    newer_pin-IsNewer o t (compare_version (pin_of o).version (pin_of t).version)

-- The merge of two locks finds, for each name, the pin of the side that alone has it, and of two the
-- one with the newer version. At the same version it finds the pin of ours with the platforms of
-- ours and those that only theirs pins, and with the dep of ours for each ref and version, or else
-- that of theirs. It finds each included list as ours pins it, or else as theirs does. The
-- packages of theirs have different names.
pub merge_locks-finds :
    (ours theirs : Lock) (name ref : Bytes)
    → have_own_names theirs.packages ≡ true
    → IsMerged
        (find_package ours name)
        (find_package theirs name)
        (find_package (merge_locks ours theirs).merged name)
      × (find_include (merge_locks ours theirs).merged ref
          ≡ either_include (find_include ours ref) (find_include theirs ref))
merge_locks-finds ours theirs name ref own =
    let (pin, include) = merge_locks-either ours theirs name ref own in
    (
      subst (IsMerged (find_package ours name) (find_package theirs name)) (sym pin)
          (either_pin-IsMerged (find_package ours name) (find_package theirs name)),
      include,
    )
