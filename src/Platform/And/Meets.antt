-- ===== src/Platform/And/Meets.antt =====
-- What `When.And` matches.
use oku.Base.{
  All, Bool, Bool-cases, Bytes, List, Option, [], any, any-append, arith, codes, contains, equal,
  equal_fold, equal_iff, every, every-any, false, find, if◌then◌else◌, inl, inr, is_nil, none, not,
  refl, some, subst, to_lower, true, ◌&&◌, ◌++◌, ◌||◌, ◌∙◌, ◌∷◌, ◌≡◌,
}
use oku.Platform.{
  CheckError, Platform, Selector, When, check, check_field, field_matches, known_arch, known_libc,
  known_os, likely, or_error, selector_here, selector_matches, use_name, use_one_of, when_here,
}
use oku.Platform.And.{both, merge, merge_all, merge_each, when_and}

-- A value that `check` lets through is in lower case.
lower_known :
    (known : List Bytes) (x : Bytes)
    → every (λ k. equal (to_lower k) k) known ≡ true
    → (is_nil x || contains known x) ≡ true
    → to_lower x ≡ x
lower_known known [] h k = refl
lower_known known (c ∷ x) h k =
    let (w, lowered, same) =
      every-any (λ k. equal (to_lower k) k) (λ k. equal k (c ∷ x)) known h k in
    subst (λ y. to_lower y ≡ y) ((equal_iff w (c ∷ x)).0 same)
      ((equal_iff (to_lower w) w).0 lowered)

abbrev IsLower : Bytes → Type 0
IsLower x = to_lower x ≡ x

record HasLower (s : Selector) : Type 0 where
  os : IsLower s.os
  arch : IsLower s.arch
  libc : IsLower s.libc

check_field-none :
    (key value : Bytes) (known : List Bytes)
    → check_field key value known ≡ none
    → (is_nil value || contains known value) ≡ true
unfolding check_field
check_field-none key value known h = elim (Bool-cases (is_nil value || contains known value)) [
  | inl e ↦ e
  | inr e ↦ absurd (found (find (λ entry. equal entry.0 value) likely) (rw e at h))
]
  where
    found :
        (o : Option (Bytes × Bytes))
        → (elim o [
          | some (_, name) ↦ some (use_name key value name)
          | none ↦ some (use_one_of key value known)
        ])
          ≡ none
        → ⊥
    found none = λ h. cc
    found (some x) = λ h. cc

or_error-none : (a b : Option CheckError) → or_error a b ≡ none → (a ≡ none) × (b ≡ none)
or_error-none none b h = (refl, h)
or_error-none (some e) b h = cc

check-HasLower : (s : Selector) → check s ≡ none → HasLower s
unfolding check equal
check-HasLower s h =
    let (os, later) = or_error-none (check_field (codes "os") s.os known_os) _ h in
    let (arch, libc) = or_error-none (check_field (codes "arch") s.arch known_arch) _ later in
    record {
      os = lower_known known_os s.os refl (check_field-none (codes "os") s.os known_os os);
      arch =
          lower_known known_arch s.arch refl
            (check_field-none (codes "arch") s.arch known_arch arch);
      libc =
          lower_known known_libc s.libc refl
            (check_field-none (codes "libc") s.libc known_libc libc);
    }

both-field_matches :
    (a b v : Bytes)
    → IsLower a
    → IsLower b
    → (if (both a b).1 then field_matches (both a b).0 v else false)
      ≡ (field_matches a v && field_matches b v)
unfolding both
both-field_matches [] b v ha hb = refl
both-field_matches (c ∷ a) b v ha hb =
    rw (ha, hb) (ground (arith, equal_iff (c ∷ a) b, equal_iff (c ∷ a) v, equal_iff b v))

both-equal_fold :
    (a b h : Bytes)
    → (if (both a b).1 then is_nil (both a b).0 || equal_fold (both a b).0 h else false)
      ≡ ((is_nil a || equal_fold a h) && (is_nil b || equal_fold b h))
unfolding both
both-equal_fold [] b h = refl
both-equal_fold (c ∷ a) b h = ground (
  arith,
  equal_iff (to_lower (c ∷ a)) (to_lower b),
  equal_iff (to_lower (c ∷ a)) (to_lower h),
  equal_iff (to_lower b) (to_lower h),
)

abbrev test_of : Platform → Bytes → Option Selector → Bool
test_of p h none = false
test_of p h (some s) = selector_here p h s

test_of_if :
    (p : Platform) (h : Bytes) (c : Bool) (s : Selector)
    → test_of p h (if c then some s else none) ≡ (if c then selector_here p h s else false)
test_of_if p h true s = refl
test_of_if p h false s = refl

-- Four merged fields are tested together as they are tested one by one.
if_and :
    (a b c d i j k l : Bool)
    → (if a && b && c && d then i && j && k && l else false) ≡ (
        (if a then i else false)
        && (if b then j else false)
        && (if c then k else false)
        && (if d then l else false))
if_and false b c d i j k l = refl
if_and true false c d i j k l = ground arith
if_and true true false d i j k l = ground arith
if_and true true true false i j k l = ground arith
if_and true true true true i j k l = refl

and_swap : (a b c d : Bool) → ((a && b) && (c && d)) ≡ ((a && c) && (b && d))
and_swap a b c d = ground arith

and_pairs :
    (a b c d i j k l : Bool)
    → ((a && i) && (b && j) && (c && k) && (d && l)) ≡ ((a && b && c && d) && (i && j && k && l))
and_pairs a b c d i j k l =
    cc (and_swap a i b j, and_swap (a && b) (i && j) c k, and_swap (a && b && c) (i && j && k) d l)

merge-selector_here :
    (p : Platform) (h : Bytes) (a b : Selector)
    → HasLower a
    → HasLower b
    → test_of p h (merge a b) ≡ (selector_here p h a && selector_here p h b)
unfolding merge selector_here selector_matches
merge-selector_here p h a b ha hb = rw (
  test_of_if,
  if_and,
  both-field_matches a.os b.os p.os ha.os hb.os,
  both-field_matches a.arch b.arch p.arch ha.arch hb.arch,
  both-field_matches a.libc b.libc p.libc ha.libc hb.libc,
  both-equal_fold a.host b.host h,
  and_pairs,
)

module _ (p : Platform) (h : Bytes) where
  any-snoc :
      (acc : When) (o : Option Selector)
      → any (selector_here p h) (elim o [ some s ↦ acc ++ (s ∷ []) | none ↦ acc ])
        ≡ (any (selector_here p h) acc || test_of p h o)
  any-snoc acc none = ground arith
  any-snoc acc (some s) = ground (arith, any-append (selector_here p h) acc (s ∷ []))

  any-merge_each :
      (a : Selector) (o acc : When)
      → HasLower a
      → All HasLower o
      → any (selector_here p h) (merge_each a o acc)
        ≡ (any (selector_here p h) acc || selector_here p h a && any (selector_here p h) o)
  unfolding merge_each
  any-merge_each a [] acc ha ho = ground arith
  any-merge_each a (b ∷ o) acc ha ho =
      any-merge_each a o _ ha ho.1
      ∙ ground (arith, any-snoc acc (merge a b), merge-selector_here p h a b ha ho.0)

  any-merge_all :
      (w o acc : When)
      → All HasLower w
      → All HasLower o
      → any (selector_here p h) (merge_all w o acc)
        ≡ (any (selector_here p h) acc || any (selector_here p h) w && any (selector_here p h) o)
  unfolding merge_all
  any-merge_all [] o acc hw ho = ground arith
  any-merge_all (a ∷ w) o acc hw ho =
      any-merge_all w o _ hw.1 ho ∙ ground (arith, any-merge_each a o acc hw.0 ho)

All-check : (w : When) → All (λ s. check s ≡ none) w → All HasLower w
All-check [] h = tt
All-check (s ∷ w) h = (check-HasLower s h.0, All-check w h.1)

-- Where every selector of two `when` values passes `check`, a machine matches both exactly when
-- `when_and` reports a result and the machine matches that result. So it reports none exactly
-- where no machine matches both.
pub when_and-meets :
    (p : Platform) (host : Bytes) (w o : When)
    → All (λ s. check s ≡ none) w
    → All (λ s. check s ≡ none) o
    → ((when_and w o).1 && when_here p host (when_and w o).0)
      ≡ (when_here p host w && when_here p host o)
unfolding when_and when_here
when_and-meets p host [] o hw ho = refl
when_and-meets p host (a ∷ w) [] hw ho = ground arith
when_and-meets p host (a ∷ w) (b ∷ o) hw ho = ground (
  arith,
  nonempty (merge_all (a ∷ w) (b ∷ o) []),
  any-merge_all p host (a ∷ w) (b ∷ o) [] (All-check (a ∷ w) hw) (All-check (b ∷ o) ho),
)
  where
    nonempty :
        (l : When)
        → (not (is_nil l) && (is_nil l || any (selector_here p host) l))
          ≡ any (selector_here p host) l
    nonempty [] = refl
    nonempty (s ∷ l) = refl
