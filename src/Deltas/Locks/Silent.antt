-- ===== src/Deltas/Locks/Silent.antt =====
-- Locks between which `lockDeltas` of internal/cli/changes.go has no row.
use oku.Base.{
  All, Bool-cases, Bytes, List, Option, Option-cases, [], ap, arith, equal_iff, find, find-All, inl,
  inr, none, refl, some, subst, sym, ◌++◌, ◌∙◌, ◌∷◌, ◌≡◌, ◌≢◌,
}
use oku.Deltas.{changed_rows, removed_rows}
use oku.Deltas.Generations.Silent.{append-nil_both, looked, looked-same}
use oku.Deltas.Locks.{
  all_pin_rows, dep_deltas, include_gone, include_row, lock_deltas, package_deltas, pin_gone,
  pin_rows, repinned, same_include, same_name,
}
use oku.Deltas.Locks.Pins.{PinAlike, same_platforms-PinAlike}
use oku.Deltas.Locks.Quiet.{dep_deltas-silent, package_deltas-silent}
use oku.Deltas.Locks.Versions.{HavePlainVersions, dep_versions-has_dep, has_dep}
use oku.Lock.{Include, Lock, Package, deps_list, deps_of, pin_of}
use oku.Lock.Packages.{find_package, is_named}
use oku.Trust.Allowed.{changed}

-- two packages whose pins show no difference
abbrev pub AgreeOn : Package → Package → Type 0
AgreeOn was now =
    ((pin_of was).ref ≡ (pin_of now).ref)
    × ((pin_of was).version ≡ (pin_of now).version)
    × ((pin_of was).manifest_sha256 ≡ (pin_of now).manifest_sha256)
    × ((pin_of was).commit ≡ (pin_of now).commit)
    × ((pin_of was).tag_commit ≡ (pin_of now).tag_commit)
    × PinAlike (pin_of was).platforms (pin_of now).platforms
    × ((ref version : Bytes)
        → has_dep ref version (deps_list (deps_of was))
          ≡ has_dep ref version (deps_list (deps_of now)))

-- no version of a package's deps has a comma
abbrev pub HasPlainDeps : Package → Type 0
HasPlainDeps p = HavePlainVersions (deps_list (deps_of p))

abbrev pub Agree : Option Package → Option Package → Type 0
Agree none none = Unit
Agree (some was) (some now) = AgreeOn was now
Agree _ _ = ⊥

pin_rows-silent :
    (was now : Package)
    → HasPlainDeps was
    → HasPlainDeps now
    → pin_rows (some was) now ≡ []
    → AgreeOn was now
unfolding pin_rows repinned
pin_rows-silent was now was_plain now_plain h =
    let (no_row, no_dep) =
      append-nil_both (package_deltas was now)
        (dep_deltas (pin_of now).name (deps_list (deps_of was)) (deps_list (deps_of now))) h in
    let (ref, version, same) = package_deltas-silent was now no_row in
    (
      ref,
      version,
      ground (arith, equal_iff (pin_of was).manifest_sha256 (pin_of now).manifest_sha256),
      ground (arith, equal_iff (pin_of was).commit (pin_of now).commit),
      ground (arith, equal_iff (pin_of was).tag_commit (pin_of now).tag_commit),
      same_platforms-PinAlike (pin_of was).platforms (pin_of now).platforms (ground arith),
      λ wanted version.
          dep_versions-has_dep (deps_list (deps_of was)) (deps_list (deps_of now)) wanted version
            was_plain now_plain
            (dep_deltas-silent (pin_of now).name (deps_list (deps_of was)) (deps_list (deps_of now))
              no_dep wanted),
    )

pin_rows-none : (p : Package) → pin_rows none p ≢ []
unfolding pin_rows
pin_rows-none p h = cc

not_gone :
    (name : Bytes) (old new : List Package) {a : Package}
    → removed_rows same_name pin_gone old new ≡ []
    → find (is_named name) old ≡ some a
    → find (is_named name) new ≢ none
unfolding removed_rows
not_gone name [] new h k = cc
not_gone name (p ∷ old) new h k = elim (Option-cases (find (same_name p) new)) [
  | inl e ↦ let rows : pin_gone p ∷ removed_rows same_name pin_gone old new ≡ [] = rw e at h in cc
  | inr (b, e) ↦ elim (Bool-cases (is_named name p)) [
    | inl g ↦
        let there = ap (λ n. find (is_named n) new) ((equal_iff (pin_of p).name name).0 g) in
        λ m. let gone : some b ≡ none = sym e ∙ there ∙ m in cc
    | inr g ↦ not_gone name old new (rw e at h) (rw g at k)
  ]
]

pins_silent :
    (old : Lock) (name : Bytes) (ps : List Package) {p : Package}
    → all_pin_rows old ps ≡ []
    → find (is_named name) ps ≡ some p
    → pin_rows (find_package old name) p ≡ []
unfolding all_pin_rows
pins_silent old name [] h k = cc
pins_silent old name (q ∷ ps) {p} h k =
    let (here, rest) =
      append-nil_both (pin_rows (find_package old (pin_of q).name) q) (all_pin_rows old ps) h in
    elim (Bool-cases (is_named name q)) [
      | inl e ↦
          let found_there : some q ≡ some p = rw e at k in
          let same : q ≡ p = cc in
          subst (λ x. pin_rows (find_package old name) x ≡ []) same
            (ap (λ n. pin_rows (find_package old n) q) (sym ((equal_iff (pin_of q).name name).0 e))
              ∙ here)
      | inr e ↦ pins_silent old name ps rest (rw e at k)
    ]

abbrev pub include_look : Include → Bytes × Bytes
include_look inc = (inc.commit, inc.sha256)

include_row-none : (b : Include) → include_row none b ≢ none
unfolding include_row
include_row-none b h = cc

include_row-some : (a b : Include) → include_row (some a) b ≡ none → include_look a ≡ include_look b
unfolding include_row
include_row-some a b h =
    let c : a.commit ≡ b.commit = ground (arith, equal_iff a.commit b.commit) in
    let s : a.sha256 ≡ b.sha256 = ground (arith, equal_iff a.sha256 b.sha256) in cc

pins-Agree :
    (old new : Lock)
    → All HasPlainDeps old.packages
    → All HasPlainDeps new.packages
    → removed_rows same_name pin_gone old.packages new.packages ≡ []
    → all_pin_rows old new.packages ≡ []
    → (name : Bytes) → Agree (find_package old name) (find_package new name)
unfolding find_package
pins-Agree old new old_plain new_plain no_gone no_row name =
    both (find_package old name) (find_package new name) refl refl
  where
    both :
        (x y : Option Package)
        → find (is_named name) old.packages ≡ x
        → find (is_named name) new.packages ≡ y
        → Agree x y
    both none none e f = tt
    both (some a) none e f = absurd (not_gone name old.packages new.packages no_gone e f)
    both none (some b) e f = absurd (
        pin_rows-none b
          (ap (λ x. pin_rows x b) (sym e) ∙ pins_silent old name new.packages no_row f))
    both (some a) (some b) e f =
        pin_rows-silent a b (find-All HasPlainDeps (is_named name) old.packages old_plain e)
          (find-All HasPlainDeps (is_named name) new.packages new_plain f)
          (ap (λ x. pin_rows x b) (sym e) ∙ pins_silent old name new.packages no_row f)

-- Where no row stands between two locks, and no version of their deps has a comma, each name is
-- pinned in both or in neither: with one ref, version, digest of the manifest, commit and commit of
-- the tag, with as many platforms, where each that the old lock pins has the same pin in the new
-- one, and with a dep of a ref at a version in both or in neither. Each included ref has one commit
-- and digest in both, or is in neither.
pub lock_deltas-silent :
    (old new : Lock)
    → All HasPlainDeps old.packages
    → All HasPlainDeps new.packages
    → lock_deltas old new ≡ []
    → ((name : Bytes) → Agree (find_package old name) (find_package new name))
      × ((inc : Include)
          → looked include_look (find (same_include inc) old.includes)
            ≡ looked include_look (find (same_include inc) new.includes))
unfolding lock_deltas find_package
lock_deltas-silent old new old_plain new_plain h =
    let (gone, rest) =
      append-nil_both (removed_rows same_include include_gone old.includes new.includes)
        (changed_rows same_include include_row old.includes new.includes
          ++ (removed_rows same_name pin_gone old.packages new.packages
              ++ all_pin_rows old new.packages))
        h in
    let (changed, pins) =
      append-nil_both (changed_rows same_include include_row old.includes new.includes)
        (removed_rows same_name pin_gone old.packages new.packages ++ all_pin_rows old new.packages)
        rest in
    let (no_gone, no_row) =
      append-nil_both (removed_rows same_name pin_gone old.packages new.packages)
        (all_pin_rows old new.packages) pins in
    (
      pins-Agree old new old_plain new_plain no_gone no_row,
      λ inc.
          looked-same Include.ref include_look same_include
            (λ a b. ground (arith, equal_iff b.ref a.ref)) include_gone include_row include_row-none
            include_row-some inc old.includes new.includes
            (ap (λ rows. rows ++ changed_rows same_include include_row old.includes new.includes)
                gone
              ∙ changed),
    )
