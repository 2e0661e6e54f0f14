-- ===== src/Lock/Packages/Found.antt =====
-- What is found after a package is set, and which dep is found for a platform.
use oku.Base.{
  Bool, Bool-cases, Bytes, List, Option, [], any, arith, equal, equal_iff, false, find, find-holds,
  if◌then◌else◌, inl, inr, keep, none, not, refl, some, subst, true, ◌&&◌, ◌++◌, ◌∙◌, ◌∷◌, ◌≡◌,
}
use oku.Lock.{Lock, Package, deps_list, deps_of, pin_of}
use oku.Lock.Packages.{
  delete_package, find_dep, find_dep_for, find_package, is_from, is_named, pins_one, set_package,
}

find_last :
    (f : Package → Bool) (l : List Package) (p : Package)
    → find f (l ++ (p ∷ []))
      ≡ elim (find f l) [ some q ↦ some q | none ↦ if f p then some p else none ]
find_last f [] p = refl
find_last f (q ∷ l) p = ground (arith, find_last f l p)

find_deleted_self :
    (name : Bytes) (l : List Package)
    → find (is_named name) (keep (λ p. not (is_named name p)) l) ≡ none
find_deleted_self name [] = refl
find_deleted_self name (q ∷ l) = ground (arith, find_deleted_self name l)

find_deleted_other :
    (name other : Bytes) (l : List Package)
    → equal name other ≡ false
    → find (is_named other) (keep (λ p. not (is_named name p)) l) ≡ find (is_named other) l
find_deleted_other name other [] h = refl
find_deleted_other name other (q ∷ l) h = ground (
  arith,
  find_deleted_other name other l h,
  equal_iff (pin_of q).name name,
  equal_iff (pin_of q).name other,
  equal_iff name other,
)

-- After `set_package`, the package is the one found under its name, every other name finds what it
-- found before, and the includes are the same.
pub find_package-set_package :
    (l : Lock) (p : Package) (name : Bytes)
    → (find_package (set_package l p) name
        ≡ (if equal (pin_of p).name name then some p else find_package l name))
      × ((set_package l p).includes ≡ l.includes)
unfolding find_package set_package delete_package
find_package-set_package l p name = (
  elim (Bool-cases (equal (pin_of p).name name)) [
    | inl e ↦
        let gone : find (is_named name) (keep (λ q. not (is_named (pin_of p).name q)) l.packages)
            ≡ none =
          subst
            (λ n.
              find (is_named n) (keep (λ q. not (is_named (pin_of p).name q)) l.packages) ≡ none)
            ((equal_iff (pin_of p).name name).0 e) (find_deleted_self (pin_of p).name l.packages) in
        find_last (is_named name) (keep (λ q. not (is_named (pin_of p).name q)) l.packages) p
        ∙ rw (gone, e)
    | inr e ↦
        find_last (is_named name) (keep (λ q. not (is_named (pin_of p).name q)) l.packages) p
        ∙ ground (arith, find_deleted_other (pin_of p).name name l.packages e)
  ],
  refl,
)

find-any :
    (f : Package → Bool) (l : List Package) {d : Package} → find f l ≡ some d → any f l ≡ true
find-any f [] h = cc
find-any f (q ∷ l) {d} h = elim (Bool-cases (f q)) [
  | inl e ↦ ground arith
  | inr e ↦ ground (arith, find-any f l (rw e at h))
]

find-weaker :
    (f g : Package → Bool) (l : List Package)
    → find (λ d. f d && g d) l ≡ none
    → any (λ d. f d && g d) l ≡ false
find-weaker f g [] h = refl
find-weaker f g (q ∷ l) h = ground (arith, find-weaker f g l)

-- an element that is found passes no test that every element fails
find-fails :
    (f h : Package → Bool) (l : List Package) {d : Package}
    → find f l ≡ some d
    → find h l ≡ none
    → h d ≡ false
find-fails f h [] {d} found fails = cc
find-fails f h (q ∷ l) {d} found fails = elim (Bool-cases (h q)) [
  | inl e ↦ ground arith
  | inr e ↦ elim (Bool-cases (f q)) [
    | inl here ↦ ground arith
    | inr later ↦ find-fails f h l (rw later at found) (rw e at fails)
  ]
]

dep_found :
    (f g : Package → Bool) (l : List Package) (best : Option Package) {d : Package}
    → find (λ q. f q && g q) l ≡ best
    → elim best [ some q ↦ some q | none ↦ find f l ] ≡ some d
    → (f d ≡ true) × (g d ≡ any (λ q. f q && g q) l)
dep_found f g l none {d} e h = (
  find-holds f l h,
  ground (arith, find-holds f l h, find-weaker f g l e, find-fails f (λ q. f q && g q) l h e),
)
dep_found f g l (some q) {d} e h =
    ground (arith, find-holds (λ x. f x && g x) l e, find-any (λ x. f x && g x) l e)

-- `find_dep_for` finds a dep of the ref that pins one of the keys if there is one, and otherwise
-- what `find_dep` finds.
pub find_dep_for-pins_one :
    (p : Package) (ref : Bytes) (keys : List Bytes) (d : Package)
    → find_dep_for p ref keys ≡ some d
    → (is_from ref d ≡ true)
      × (pins_one keys d ≡ any (λ q. is_from ref q && pins_one keys q) (deps_list (deps_of p)))
unfolding find_dep_for find_dep
find_dep_for-pins_one p ref keys d h =
    dep_found (is_from ref) (pins_one keys) (deps_list (deps_of p))
      (find (λ q. is_from ref q && pins_one keys q) (deps_list (deps_of p))) refl h
