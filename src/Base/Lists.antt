-- ===== src/Base/Lists.antt =====
-- Lists measured by native numbers, and the searches of Go's `slices` package.
use Prim.Native.Nat.{ℕ, suc, ◌+◌}
use mathlib.Core.Path.{◌≡◌, refl, subst}
use mathlib.Core.Logic.{inl, inr}
use mathlib.Core.Bool.{Bool, true, false, ◌&&◌, ◌||◌}
use mathlib.Core.List.{List, [], ◌∷◌, ◌++◌}
use mathlib.Core.Option.{Option, none, some}
use native.Mathlib.Omega.{arith}
use oku.Base.Tests.{if◌then◌else◌, Bool-cases}

-- A predicate on every element; it computes to tuples.
abbrev pub All {ℓ κ} : {A : Type ℓ} → (A → Type κ) → List A → Type κ
All P [] = Unit
All P (x ∷ xs) = P x × All P xs

module _ {ℓ} {A : Type ℓ} where
  abbrev pub length : List A → ℕ
  length [] = 0
  length (x ∷ xs) = suc (length xs)

  abbrev pub is_nil : List A → Bool
  is_nil [] = true
  is_nil (x ∷ xs) = false

  -- `slices.ContainsFunc`
  abbrev pub any : (A → Bool) → List A → Bool
  any p [] = false
  any p (x ∷ xs) = p x || any p xs

  abbrev pub every : (A → Bool) → List A → Bool
  every p [] = true
  every p (x ∷ xs) = p x && every p xs

  -- the elements that pass
  abbrev pub keep : (A → Bool) → List A → List A
  keep p [] = []
  keep p (x ∷ xs) = if p x then x ∷ keep p xs else keep p xs

  -- the first element that passes, as `slices.IndexFunc` finds it
  abbrev pub find : (A → Bool) → List A → Option A
  find p [] = none
  find p (x ∷ xs) = if p x then some x else find p xs

module _ {ℓ} {A : Type ℓ} where
  pub length-append : (xs ys : List A) → length (xs ++ ys) ≡ length xs + length ys
  length-append [] ys = omega arith
  length-append (x ∷ xs) ys = omega (arith, length-append xs ys)

  pub any-append : (p : A → Bool) (xs ys : List A) → any p (xs ++ ys) ≡ (any p xs || any p ys)
  any-append p [] ys = refl
  any-append p (x ∷ xs) ys = ground (arith, any-append p xs ys)

  -- both parts of a list that is appended to
  pub All-append {κ} :
      (Good : A → Type κ) (front back : List A)
      → All Good front
      → All Good back
      → All Good (front ++ back)
  All-append Good [] back _ all_back = all_back
  All-append Good (first ∷ front) back (good, rest) all_back =
      (good, All-append Good front back rest all_back)

  -- An element of which a test holds, with the test.
  pub any-find : (p : A → Bool) (xs : List A) → any p xs ≡ true → (x : A) × (find p xs ≡ some x)
  any-find p [] h = cc
  any-find p (x ∷ xs) h = elim (Bool-cases (p x)) [
    | inl e ↦ (x, rw e)
    | inr e ↦ let (y, f) = any-find p xs (ground arith) in (y, rw e f)
  ]

  pub find-holds : (p : A → Bool) (xs : List A) {x : A} → find p xs ≡ some x → p x ≡ true
  find-holds p [] h = cc
  find-holds p (y ∷ xs) {x} h = elim (Bool-cases (p y)) [
    | inl e ↦ ground arith
    | inr e ↦ find-holds p xs (rw e at h)
  ]

  -- A test that implies another passes wherever it does.
  pub any_mono :
      (p q : A → Bool) (xs : List A)
      → ((x : A) → p x ≡ true → q x ≡ true)
      → any p xs ≡ true
      → any q xs ≡ true
  any_mono p q [] f h = h
  any_mono p q (x ∷ xs) f h = elim (Bool-cases (p x)) [
    | inl e ↦ rw (f x e)
    | inr e ↦ ground (arith, any_mono p q xs f (rw e at h))
  ]

  pub every-any :
      (p q : A → Bool) (xs : List A)
      → every p xs ≡ true
      → any q xs ≡ true
      → (x : A) × (p x ≡ true) × (q x ≡ true)
  every-any p q [] h k = cc
  every-any p q (x ∷ xs) h k = elim (Bool-cases (q x)) [
    | inl e ↦ (x, ground arith, e)
    | inr e ↦ every-any p q xs (ground arith) (rw e at k)
  ]

  pub find-every :
      (p q : A → Bool) (xs : List A) {x : A} → find p xs ≡ some x → every q xs ≡ true → q x ≡ true
  find-every p q [] h k = cc
  find-every p q (y ∷ xs) {x} h k = elim (Bool-cases (p y)) [
    | inl e ↦ ground arith
    | inr e ↦ find-every p q xs (rw e at h) (ground arith)
  ]

  pub every-append :
      (p : A → Bool) (xs ys : List A) → every p (xs ++ ys) ≡ (every p xs && every p ys)
  every-append p [] ys = refl
  every-append p (x ∷ xs) ys = ground (arith, every-append p xs ys)

  pub every_mono :
      (p q : A → Bool) (xs : List A)
      → ((x : A) → p x ≡ true → q x ≡ true)
      → every p xs ≡ true
      → every q xs ≡ true
  every_mono p q [] f h = refl
  every_mono p q (x ∷ xs) f h = ground (arith, f x, every_mono p q xs f)

-- What is found is one of which every element's property holds.
pub find-All {ℓ κ} :
    {A : Type ℓ} (P : A → Type κ) (test : A → Bool) (xs : List A) {x : A}
    → All P xs
    → find test xs ≡ some x
    → P x
find-All P test [] all h = cc
find-All P test (y ∷ xs) all h = elim (Bool-cases (test y)) [
  | inl e ↦ subst P (cc (rw e at h)) all.0
  | inr e ↦ find-All P test xs all.1 (rw e at h)
]
