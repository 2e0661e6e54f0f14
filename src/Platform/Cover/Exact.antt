-- ===== src/Platform/Cover/Exact.antt =====
-- The `when` that `Cover` builds matches exactly the platforms that it was given.
use oku.Base.{
  All, Bool, Bool-cases, List, [], eq_of_iff, equal, false, if◌then◌else◌, inl, inr, is_nil, refl,
  subst, sym, true, ◌||◌, ◌∙◌, ◌∷◌, ◌≡◌,
}
use oku.Platform.{
  Platform, When, all_platforms, holds, same_platform, selector_matches, when_matches,
}
use oku.Platform.Cover.{Covering, cover, cover_loop, cover_step, within}
use oku.Platform.Cover.Loop.{
  IsCovering, cover_step-IsCovering, cover_step-covers, cover_step-keeps, matched,
}
use oku.Platform.Cover.Within.{within-holds}
use oku.Platform.Lists.{same_platform-eq}
use oku.Trust.Allowed.{set}

module _ (set : List Platform) where
  cover_loop-IsCovering :
      (ps : List Platform) (c : Covering)
      → All (λ p. holds all_platforms p ≡ true) ps
      → IsCovering set c
      → IsCovering set (cover_loop set ps c)
  unfolding cover_loop
  cover_loop-IsCovering [] c h i = i
  cover_loop-IsCovering (p ∷ ps) c h i =
      cover_loop-IsCovering ps (cover_step set p c) h.1 (cover_step-IsCovering set p c h.0 i)

  cover_loop-keeps :
      (ps : List Platform) (q : Platform) (c : Covering)
      → All (λ p. holds all_platforms p ≡ true) ps
      → holds c.covered q ≡ true
      → holds (cover_loop set ps c).covered q ≡ true
  unfolding cover_loop
  cover_loop-keeps [] q c h k = k
  cover_loop-keeps (p ∷ ps) q c h k =
      cover_loop-keeps ps q (cover_step set p c) h.1 (cover_step-keeps set p q c h.0 k)

  cover_loop-covers :
      (ps : List Platform) (q : Platform) (c : Covering)
      → All (λ p. holds all_platforms p ≡ true) ps
      → holds ps q ≡ true
      → holds set q ≡ true
      → holds (cover_loop set ps c).covered q ≡ true
  unfolding cover_loop
  cover_loop-covers [] q c h m k = cc
  cover_loop-covers (p ∷ ps) q c h m k = elim (Bool-cases (same_platform p q)) [
    | inl e ↦ cover_loop-keeps ps q (cover_step set p c) h.1 (
        subst (λ r. holds (cover_step set p c).covered r ≡ true) (same_platform-eq p q e)
          (cover_step-covers set p c h.0
            (subst (λ r. holds set r ≡ true) (sym (same_platform-eq p q e)) k)))
    | inr e ↦ cover_loop-covers ps q (cover_step set p c) h.1 (rw e at m) k
  ]

  matched-holds :
      (w : When) (q : Platform)
      → All (λ s. within set s ≡ true) w
      → holds all_platforms q ≡ true
      → matched q w ≡ true
      → holds set q ≡ true
  matched-holds [] q h l m = cc
  matched-holds (s ∷ w) q h l m = elim (Bool-cases (selector_matches s q)) [
    | inl e ↦ within-holds set s q h.0 l e
    | inr e ↦ matched-holds w q h.1 l (rw e at m)
  ]

All-listed : All (λ p. holds all_platforms p ≡ true) all_platforms
unfolding same_platform equal
All-listed = (refl, (refl, (refl, (refl, (refl, (refl, (refl, (refl, tt))))))))

abbrev start : Covering
start = record { found = []; covered = [] }

start-IsCovering : (set : List Platform) → IsCovering set start
start-IsCovering set = record { found_within = tt; marks = λ q h. refl }

loop-matched :
    (set : List Platform) (q : Platform)
    → holds all_platforms q ≡ true
    → matched q (cover_loop set all_platforms start).found ≡ holds set q
loop-matched set q h =
    let i = cover_loop-IsCovering set all_platforms start All-listed (start-IsCovering set) in
    eq_of_iff _ _ (matched-holds set _ q i.found_within h)
      (λ k. sym (i.marks q h) ∙ cover_loop-covers set all_platforms q start All-listed h k)

matches_everything :
    (q : Platform) → selector_matches (record { os = []; arch = []; libc = []; host = [] }) q ≡ true
unfolding selector_matches
matches_everything q = refl

-- For a platform of `All`, and a set that holds at least one of them, the result of `cover`
-- matches the platform exactly when the set holds it.
pub cover_exact :
    (set : List Platform) (p q : Platform)
    → holds all_platforms p ≡ true
    → holds set p ≡ true
    → holds all_platforms q ≡ true
    → when_matches (cover set) q ≡ holds set q
unfolding cover when_matches
cover_exact set p q lp kp lq =
    elim (Bool-cases (within set (record { os = []; arch = []; libc = []; host = [] }))) [
      | inl every_one ↦ rw every_one (
          sym (
            within-holds set (record { os = []; arch = []; libc = []; host = [] }) q every_one lq
              (matches_everything q)))
      | inr some_not ↦ rw some_not (
          not_empty (cover_loop set all_platforms start).found (loop-matched set p lp ∙ kp)
          ∙ loop-matched set q lq)
    ]
  where
    not_empty : (w : When) → matched p w ≡ true → (is_nil w || matched q w) ≡ matched q w
    not_empty [] h = cc
    not_empty (s ∷ w) h = refl

cover_loop_skips :
    (set ps : List Platform) (c : Covering)
    → All (λ p. holds set p ≡ false) ps
    → cover_loop set ps c ≡ c
unfolding cover_loop cover_step
cover_loop_skips set [] c h = refl
cover_loop_skips set (p ∷ ps) c h = rw h.0 (cover_loop_skips set ps c h.1)

-- For a set that holds no platform of `All`, the result of `cover` is the empty `when`, which
-- matches every platform.
pub cover_outside :
    (set : List Platform) (q : Platform)
    → All (λ p. holds set p ≡ false) all_platforms
    → when_matches (cover set) q ≡ true
unfolding cover when_matches
cover_outside set q h =
    rw (cover_loop_skips set all_platforms start h)
      (empty (within set (record { os = []; arch = []; libc = []; host = [] })))
  where
    empty :
        (b : Bool)
        → (is_nil (if b then [] else start.found) || matched q (if b then [] else start.found))
          ≡ true
    empty true = refl
    empty false = refl
