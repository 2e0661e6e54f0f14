-- ===== src/Lock/Merge/Both.antt =====
-- What samePin of internal/cli/lockconflict.go makes of two pins, by what is found in it.
use oku.Base.{
  Bool, Bool-cases, Bytes, List, Option, Option-cases, [], and_true, any, any-find, any_mono, ap,
  equal, equal_iff, false, find, if◌then◌else◌, inl, inr, keep, none, not, refl, some, subst, sym,
  true, ◌&&◌, ◌++◌, ◌∙◌, ◌∷◌, ◌≡◌,
}
use oku.Lock.{Deps, Package, PlatformPin, dep, deps_list, deps_of, no_deps, pin_of}
use oku.Lock.Conflicts.{from}
use oku.Lock.Merge.{add_deps, copy_pins, deps_append, is_same_dep, same_pin}
use oku.Lock.Packages.{platform_pin}
use oku.Platform.And.{both}

-- the first, or else the second
abbrev pub first_of {ℓ} : {A : Type ℓ} → Option A → Option A → Option A
first_of none b = b
first_of (some x) b = some x

-- a dep of a ref at a version
abbrev pub is_dep_at : Bytes → Bytes → Package → Bool
is_dep_at ref version d = equal (pin_of d).ref ref && equal (pin_of d).version version

-- The pin is that of ours but for its platforms and deps. It has the platforms of ours, and those
-- that only theirs pins, and of each ref and version the dep of ours, or else that of theirs.
abbrev pub IsBoth : Package → Package → Package → Type 0
IsBoth ours theirs both =
    (pin_of both ≡ record (pin_of ours) { platforms = (pin_of both).platforms })
    × ((key : Bytes)
        → platform_pin key (pin_of both).platforms
          ≡ first_of (platform_pin key (pin_of ours).platforms)
              (platform_pin key (pin_of theirs).platforms))
    × ((ref version : Bytes)
        → find (is_dep_at ref version) (deps_list (deps_of both))
          ≡ first_of (find (is_dep_at ref version) (deps_list (deps_of ours)))
              (find (is_dep_at ref version) (deps_list (deps_of theirs))))

platform_pin-append :
    (key : Bytes) (a b : List (Bytes × PlatformPin))
    → platform_pin key (a ++ b) ≡ first_of (platform_pin key a) (platform_pin key b)
platform_pin-append key [] b = refl
platform_pin-append key ((k, pin) ∷ a) b = elim (Bool-cases (equal k key)) [
  | inl e ↦ rw e refl
  | inr e ↦ rw e (platform_pin-append key a b)
]

has_key-none :
    (key : Bytes) (l : List (Bytes × PlatformPin))
    → platform_pin key l ≡ none
    → any (λ (entry : Bytes × PlatformPin). equal entry.0 key) l ≡ false
has_key-none key [] h = refl
has_key-none key ((k, pin) ∷ l) h = elim (Bool-cases (equal k key)) [
  | inl e ↦ cc (rw e at h)
  | inr e ↦ rw e (has_key-none key l (rw e at h))
]

platform_pin-keep :
    (key : Bytes) (f : Bytes → Bool) (l : List (Bytes × PlatformPin))
    → f key ≡ true
    → platform_pin key (keep (λ (entry : Bytes × PlatformPin). f entry.0) l) ≡ platform_pin key l
platform_pin-keep key f [] h = refl
platform_pin-keep key f ((k, pin) ∷ l) h =
    let rest = platform_pin-keep key f l h in
    elim (Bool-cases (equal k key)) [
      | inl e ↦
          let kept : f k ≡ true = subst (λ x. f x ≡ true) (sym ((equal_iff k key).0 e)) h in
          rw (kept, e) refl
      | inr e ↦ elim (Bool-cases (f k)) [
        | inl kept ↦ rw (kept, e) rest
        | inr dropped ↦ rw (dropped, e) rest
      ]
    ]

platform_pin-copy_pins :
    (key : Bytes) (from onto : List (Bytes × PlatformPin))
    → platform_pin key (copy_pins from onto)
      ≡ first_of (platform_pin key from) (platform_pin key onto)
unfolding copy_pins
platform_pin-copy_pins key from onto =
    let keeps_it : Bytes → Bool =
      λ k. not (any (λ (entry : Bytes × PlatformPin). equal entry.0 k) from) in
    platform_pin-append key from (keep (λ (entry : Bytes × PlatformPin). keeps_it entry.0) onto)
    ∙ elim (Option-cases (platform_pin key from)) [
      | inr (pin, e) ↦ rw e refl
      | inl e ↦ rw e (platform_pin-keep key keeps_it onto (rw (has_key-none key from e) refl))
    ]

deps_list-append :
    (ds : Deps) (p : Package) → deps_list (deps_append ds p) ≡ deps_list ds ++ (p ∷ [])
deps_list-append no_deps p = refl
deps_list-append (dep q ds) p = rw (deps_list-append ds p) refl

find_append_one :
    (f : Package → Bool) (a : List Package) (p : Package)
    → find f (a ++ (p ∷ [])) ≡ first_of (find f a) (if f p then some p else none)
find_append_one f [] p = refl
find_append_one f (q ∷ a) p = elim (Bool-cases (f q)) [
  | inl e ↦ rw e refl
  | inr e ↦ rw e (find_append_one f a p)
]

first_of-none : {A : Type 0} (a : Option A) → a ≡ first_of a none
first_of-none none = refl
first_of-none (some x) = refl

first_of-one :
    (test : Bool) (p : Package) (a b : Option Package)
    → first_of (first_of a (if test then some p else none)) b
      ≡ first_of a (if test then some p else b)
first_of-one test p (some x) b = refl
first_of-one true p none b = refl
first_of-one false p none b = refl

same_dep-at :
    (ref version : Bytes) (p d : Package)
    → is_dep_at ref version p ≡ true
    → is_same_dep p d ≡ true
    → is_dep_at ref version d ≡ true
same_dep-at ref version p d h k =
    let (same_ref, same_version) =
      and_true (equal (pin_of p).ref ref) (equal (pin_of p).version version) h in
    subst (λ v. (equal (pin_of d).ref ref && equal (pin_of d).version v) ≡ true)
      ((equal_iff (pin_of p).version version).0 same_version)
      (subst (λ r. (equal (pin_of d).ref r && equal (pin_of d).version (pin_of p).version) ≡ true)
        ((equal_iff (pin_of p).ref ref).0 same_ref) k)

find-add_deps :
    (ref version : Bytes) (merged ds : Deps)
    → find (is_dep_at ref version) (deps_list (add_deps merged ds))
      ≡ first_of
          (find (is_dep_at ref version) (deps_list merged))
          (find (is_dep_at ref version) (deps_list ds))
unfolding add_deps
find-add_deps ref version merged no_deps =
    first_of-none (find (is_dep_at ref version) (deps_list merged))
find-add_deps ref version merged (dep p ds) =
    let f = is_dep_at ref version in
    elim (Bool-cases (any (is_same_dep p) (deps_list merged))) [
      | inl held ↦
          let rest = find-add_deps ref version merged ds in
          elim (Bool-cases (f p)) [
            | inr other ↦ rw (held, other) rest
            | inl here ↦
                let (d, found) = any-find f (deps_list merged) (
                  any_mono (is_same_dep p) f (deps_list merged)
                    (λ d. same_dep-at ref version p d here) held) in
                rw (held, here)
                  (rest
                    ∙ ap (λ o. first_of o (find f (deps_list ds))) found
                    ∙ sym (ap (λ o. first_of o (some p)) found))
          ]
      | inr new ↦ rw new (
          find-add_deps ref version (deps_append merged p) ds
          ∙ ap (λ l. first_of (find f l) (find f (deps_list ds))) (deps_list-append merged p)
          ∙ ap (λ o. first_of o (find f (deps_list ds))) (find_append_one f (deps_list merged) p)
          ∙ first_of-one (f p) p (find f (deps_list merged)) (find f (deps_list ds)))
    ]

pub same_pin-IsBoth : (ours theirs : Package) → IsBoth ours theirs (same_pin ours theirs)
unfolding same_pin
same_pin-IsBoth ours theirs = (
  refl,
  λ key.
      platform_pin-copy_pins key (pin_of ours).platforms (copy_pins (pin_of theirs).platforms [])
      ∙ ap (first_of (platform_pin key (pin_of ours).platforms)) (
          platform_pin-copy_pins key (pin_of theirs).platforms []
          ∙ sym (first_of-none (platform_pin key (pin_of theirs).platforms))),
  λ ref version. find-add_deps ref version (deps_of ours) (deps_of theirs),
)
