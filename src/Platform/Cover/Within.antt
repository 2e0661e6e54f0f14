-- ===== src/Platform/Cover/Within.antt =====
-- Selectors within a set of platforms, and lists of platforms.
use mathlib.Core.Bool.{false≢true}
use oku.Base.{
  Bool, Bool-cases, List, [], any, ap, arith, eq_of_iff, equal, every, every-any, false, inl, inr,
  keep, not, refl, subst, sym, true, ◌&&◌, ◌||◌, ◌∙◌, ◌∷◌, ◌≡◌,
}
use oku.Platform.{
  Platform, Selector, all_platforms, holds, same_platform, selector_matches, selector_of,
}
use oku.Platform.Cover.{within}
use oku.Platform.Lists.{same_platform-eq}
use oku.Trust.Allowed.{set}

-- What holds of every platform of a list holds of each one in it.
every-holds :
    (f : Platform → Bool) (l : List Platform) (p : Platform)
    → every f l ≡ true
    → holds l p ≡ true
    → f p ≡ true
every-holds f l p h k =
    let (x, fx, same) = every-any f (λ q. same_platform q p) l h k in
    subst (λ y. f y ≡ true) (same_platform-eq x p same) fx

holds-keep_passes :
    (f : Platform → Bool) (l : List Platform) (p : Platform)
    → holds (keep f l) p ≡ true
    → f p ≡ true
holds-keep_passes f [] p h = cc
holds-keep_passes f (x ∷ l) p h = elim (Bool-cases (f x)) [
  | inr no_x ↦ holds-keep_passes f l p (rw no_x at h)
  | inl yes_x ↦ elim (Bool-cases (same_platform x p)) [
    | inl e ↦ subst (λ y. f y ≡ true) (same_platform-eq x p e) yes_x
    | inr e ↦ holds-keep_passes f l p (rw (yes_x, e) at h)
  ]
]

holds-keep_if :
    (f : Platform → Bool) (l : List Platform) (p : Platform)
    → holds l p ≡ true
    → f p ≡ true
    → holds (keep f l) p ≡ true
holds-keep_if f [] p h k = cc
holds-keep_if f (x ∷ l) p h k = elim (Bool-cases (same_platform x p)) [
  | inl e ↦ rw (subst (λ y. f y ≡ true) (sym (same_platform-eq x p e)) k) (rw e)
  | inr e ↦ let later = holds-keep_if f l p (rw e at h) k in ground arith
]

-- Of a listed platform, `keep` keeps what passes.
pub holds-keep :
    (f : Platform → Bool) (l : List Platform) (p : Platform)
    → holds l p ≡ true
    → holds (keep f l) p ≡ f p
holds-keep f l p h =
    eq_of_iff (holds (keep f l) p) (f p) (holds-keep_passes f l p) (holds-keep_if f l p h)

pub any_of_holds :
    (f : Platform → Bool) (l : List Platform) (p : Platform)
    → holds l p ≡ true
    → f p ≡ true
    → any f l ≡ true
any_of_holds f [] p h k = cc
any_of_holds f (x ∷ l) p h k = elim (Bool-cases (same_platform x p)) [
  | inl e ↦ rw (subst (λ y. f y ≡ true) (sym (same_platform-eq x p e)) k)
  | inr e ↦ let later = any_of_holds f l p (rw e at h) k in ground arith
]

-- A selector within the set matches no listed platform outside it.
pub within-holds :
    (set : List Platform) (s : Selector) (p : Platform)
    → within set s ≡ true
    → holds all_platforms p ≡ true
    → selector_matches s p ≡ true
    → holds set p ≡ true
unfolding within
within-holds set s p h k m = elim (Bool-cases (holds set p)) [
  | inl e ↦ e
  | inr e ↦
      let outside =
        any_of_holds (λ q. selector_matches s q && not (holds set q)) all_platforms p k
          (rw (m, e)) in
      absurd (false≢true (sym (ap not outside) ∙ h))
]

-- No two platforms of `All` match the selector of one.
selector_of_table :
    every
      (λ p.
        every (λ q. not (selector_matches (selector_of p) q) || same_platform p q) all_platforms)
      all_platforms
    ≡ true
unfolding selector_matches same_platform equal
selector_of_table = refl

any_outside :
    (set : List Platform) (s : Selector) (p : Platform) (l : List Platform)
    → holds set p ≡ true
    → every (λ q. not (selector_matches s q) || same_platform p q) l ≡ true
    → any (λ q. selector_matches s q && not (holds set q)) l ≡ false
any_outside set s p [] h k = refl
any_outside set s p (q ∷ l) h k =
    let rest : every (λ r. not (selector_matches s r) || same_platform p r) l ≡ true =
      ground arith in
    rw (any_outside set s p l h rest) (elim (Bool-cases (same_platform p q)) [
      | inl e ↦
          let inside : holds set q ≡ true =
            subst (λ y. holds set y ≡ true) (same_platform-eq p q e) h in
          ground arith
      | inr e ↦ ground arith
    ])

-- The narrowest candidate of a platform of the set is within the set.
pub within-selector_of :
    (set : List Platform) (p : Platform)
    → holds all_platforms p ≡ true
    → holds set p ≡ true
    → within set (selector_of p) ≡ true
unfolding within
within-selector_of set p h k = ap not (
    any_outside set (selector_of p) p all_platforms k (
      every-holds
        (λ r.
          every (λ q. not (selector_matches (selector_of r) q) || same_platform r q) all_platforms)
        all_platforms p selector_of_table h))
