-- ===== src/Platform/Cover/Loop.antt =====
-- The loop of `Cover`.
use oku.Base.{
  All, All-append, Bool, Bool-cases, List, [], any, any-append, any-find, arith, equal_refl, every,
  find, find-every, find-holds, inl, inr, keep, not, some, subst, sym, true, ◌++◌, ◌||◌, ◌∙◌, ◌∷◌,
  ◌≡◌, ◌⊎◌,
}
use oku.Platform.{Platform, Selector, When, all_platforms, holds, same_platform, selector_matches}
use oku.Platform.Cover.{Covering, candidates, cover_one, cover_step, within}
use oku.Platform.Cover.Within.{holds-keep, within-selector_of}
use oku.Trust.Allowed.{set}

abbrev pub matched : Platform → When → Bool
matched q w = any (λ s. selector_matches s q) w

-- What the loop keeps: it has found selectors within the set alone, and has marked as covered the
-- listed platforms that they match.
pub record IsCovering (set : List Platform) (c : Covering) : Type 0 where
  pub found_within : All (λ s. within set s ≡ true) c.found
  pub marks : (q : Platform) → holds all_platforms q ≡ true → holds c.covered q ≡ matched q c.found

holds-append :
    (xs ys : List Platform) (q : Platform) → holds (xs ++ ys) q ≡ (holds xs q || holds ys q)
holds-append xs ys q = any-append (λ p. same_platform p q) xs ys

extend : Selector → Covering → Covering
extend s c = record c {
  found = c.found ++ (s ∷ []);
  covered = keep (selector_matches s) all_platforms ++ c.covered;
}

extend-IsCovering :
    (set : List Platform) (s : Selector) (c : Covering)
    → within set s ≡ true
    → IsCovering set c
    → IsCovering set (extend s c)
unfolding extend
extend-IsCovering set s c h i = record {
  found_within = All-append (λ s. within set s ≡ true) c.found (s ∷ []) i.found_within (h, tt);
  marks = λ q listed. ground (
    arith,
    holds-append (keep (selector_matches s) all_platforms) c.covered q,
    any-append (λ t. selector_matches t q) c.found (s ∷ []),
    holds-keep (selector_matches s) all_platforms q listed,
    i.marks q listed,
  );
}

candidates-match : (p : Platform) → every (λ t. selector_matches t p) (candidates p) ≡ true
unfolding selector_matches
candidates-match p = ground (arith, equal_refl p.os, equal_refl p.arch, equal_refl p.libc)

-- The first candidate within the set exists, and matches the platform itself.
first_candidate :
    (set : List Platform) (p : Platform)
    → holds all_platforms p ≡ true
    → holds set p ≡ true
    → (s : Selector) × (find (within set) (candidates p) ≡ some s)
      × (within set s ≡ true)
      × (selector_matches s p ≡ true)
first_candidate set p h k =
    let (s, e) =
      any-find (within set) (candidates p) (ground (arith, within-selector_of set p h k)) in
    (
      s,
      e,
      find-holds (within set) (candidates p) e,
      find-every (within set) (λ t. selector_matches t p) (candidates p) e (candidates-match p),
    )

-- One round does nothing for a platform that is outside the set or covered, and else adds a
-- selector of the set that matches the platform.
cover_step-cases :
    (set : List Platform) (p : Platform) (c : Covering)
    → holds all_platforms p ≡ true
    → ((cover_step set p c ≡ c) × (not (holds set p) || holds c.covered p ≡ true))
      ⊎ ((s : Selector) × (within set s ≡ true)
          × (selector_matches s p ≡ true)
          × (cover_step set p c ≡ extend s c))
unfolding cover_step cover_one extend
cover_step-cases set p c h = elim (Bool-cases (not (holds set p) || holds c.covered p)) [
  | inl skip ↦ inl (rw skip, skip)
  | inr go ↦
      let (s, first, inside, match) = first_candidate set p h (ground arith) in
      inr (s, inside, match, rw (go, first, cover_one))
]

pub cover_step-IsCovering :
    (set : List Platform) (p : Platform) (c : Covering)
    → holds all_platforms p ≡ true
    → IsCovering set c
    → IsCovering set (cover_step set p c)
cover_step-IsCovering set p c h i = elim (cover_step-cases set p c h) [
  | inl (same, _) ↦ subst (IsCovering set) (sym same) i
  | inr (s, inside, match, next) ↦
      subst (IsCovering set) (sym next) (extend-IsCovering set s c inside i)
]

covers_now :
    (p : Platform) (s : Selector) (c : Covering)
    → holds all_platforms p ≡ true
    → selector_matches s p ≡ true
    → holds (extend s c).covered p ≡ true
unfolding extend
covers_now p s c h m = rw (
  holds-append (keep (selector_matches s) all_platforms) c.covered p,
  holds-keep (selector_matches s) all_platforms p h,
  m,
)

pub cover_step-covers :
    (set : List Platform) (p : Platform) (c : Covering)
    → holds all_platforms p ≡ true
    → holds set p ≡ true
    → holds (cover_step set p c).covered p ≡ true
cover_step-covers set p c h k = elim (cover_step-cases set p c h) [
  | inl (same, skip) ↦ subst (λ d. holds d.covered p ≡ true) (sym same) (ground arith)
  | inr (s, inside, match, next) ↦
      subst (λ d. holds d.covered p ≡ true) (sym next) (covers_now p s c h match)
]

covered_before :
    (q : Platform) (s : Selector) (c : Covering)
    → holds c.covered q ≡ true
    → holds (extend s c).covered q ≡ true
unfolding extend
covered_before q s c h =
    holds-append (keep (selector_matches s) all_platforms) c.covered q ∙ ground arith

pub cover_step-keeps :
    (set : List Platform) (p q : Platform) (c : Covering)
    → holds all_platforms p ≡ true
    → holds c.covered q ≡ true
    → holds (cover_step set p c).covered q ≡ true
cover_step-keeps set p q c l h = elim (cover_step-cases set p c l) [
  | inl (same, skip) ↦ subst (λ d. holds d.covered q ≡ true) (sym same) h
  | inr (s, inside, match, next) ↦
      subst (λ d. holds d.covered q ≡ true) (sym next) (covered_before q s c h)
]
