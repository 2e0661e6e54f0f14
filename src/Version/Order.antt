-- ===== src/Version/Order.antt =====
-- `Compare` is antisymmetric and reflexive.
use oku.Base.{
  Bytes, List, Option, Ordering, [], compare_int-flip, compare_text-flip, eq, flip, flip-flip, none,
  refl, some, sym, then_by, then_by-flip, ℤ, ◌∷◌, ◌≡◌,
}
use oku.Version.{
  atoi, by_number, by_parts, compare_part, compare_parts, compare_pre, compare_run, compare_runs,
  compare_suffix, compare_tail, compare_version, runs, split_number, zero_part,
}

compare_run-flip : (x y : Bytes) → compare_run y x ≡ flip (compare_run x y)
unfolding compare_run
compare_run-flip x y = flipped (atoi x) (atoi y)
  where
    flipped : (m n : Option ℤ) → by_number y x n m ≡ flip (by_number x y m n)
    flipped none none = compare_text-flip x y
    flipped none (some n) = compare_text-flip x y
    flipped (some m) none = compare_text-flip x y
    flipped (some m) (some n) = compare_int-flip m n

then_by_both :
    (a a' b b' : Ordering) → a' ≡ flip a → b' ≡ flip b → then_by a' b' ≡ flip (then_by a b)
then_by_both a a' b b' p q = rw (p, q) (sym (then_by-flip a b))

compare_runs-flip : (xs ys : List Bytes) → compare_runs ys xs ≡ flip (compare_runs xs ys)
unfolding compare_runs
compare_runs-flip [] [] = refl
compare_runs-flip [] (y ∷ ys) = refl
compare_runs-flip (x ∷ xs) [] = refl
compare_runs-flip (x ∷ xs) (y ∷ ys) =
    then_by_both _ _ _ _ (compare_run-flip x y) (compare_runs-flip xs ys)

compare_suffix-flip : (a b : Bytes) → compare_suffix b a ≡ flip (compare_suffix a b)
unfolding compare_suffix
compare_suffix-flip a b = compare_runs-flip (runs a) (runs b)

compare_tail-flip : (x y : Bytes) → compare_tail y x ≡ flip (compare_tail x y)
unfolding compare_tail
compare_tail-flip [] [] = refl
compare_tail-flip [] (d ∷ y) = refl
compare_tail-flip (c ∷ x) [] = sym (flip-flip _)
compare_tail-flip (c ∷ x) (d ∷ y) = compare_suffix-flip (c ∷ x) (d ∷ y)

pub compare_part-flip : (x y : Bytes) → compare_part y x ≡ flip (compare_part x y)
unfolding compare_part
compare_part-flip x y =
    flipped (split_number x).1 (split_number y).1 (atoi (split_number x).0)
      (atoi (split_number y).0)
  where
    flipped : (s t : Bytes) (m n : Option ℤ) → by_parts y x t s n m ≡ flip (by_parts x y s t m n)
    flipped s t none none = compare_text-flip x y
    flipped s t none (some n) = compare_text-flip x y
    flipped s t (some m) none = compare_text-flip x y
    flipped s t (some m) (some n) =
        then_by_both _ _ _ _ (compare_int-flip m n) (compare_tail-flip s t)

compare_parts-flip : (xs ys : List Bytes) → compare_parts ys xs ≡ flip (compare_parts xs ys)
unfolding compare_parts
compare_parts-flip [] [] = refl
compare_parts-flip [] (y ∷ ys) =
    then_by_both _ _ _ _ (compare_part-flip zero_part y) (compare_parts-flip [] ys)
compare_parts-flip (x ∷ xs) [] =
    then_by_both _ _ _ _ (compare_part-flip x zero_part) (compare_parts-flip xs [])
compare_parts-flip (x ∷ xs) (y ∷ ys) =
    then_by_both _ _ _ _ (compare_part-flip x y) (compare_parts-flip xs ys)

compare_pre-flip : (a b : Bytes) → compare_pre b a ≡ flip (compare_pre a b)
unfolding compare_pre
compare_pre-flip [] [] = compare_suffix-flip [] []
compare_pre-flip [] (d ∷ b) = refl
compare_pre-flip (c ∷ a) [] = refl
compare_pre-flip (c ∷ a) (d ∷ b) = compare_suffix-flip (c ∷ a) (d ∷ b)

-- For any two texts, comparing them the other way round gives the opposite order.
pub compare_version-flip : (a b : Bytes) → compare_version b a ≡ flip (compare_version a b)
unfolding compare_version
compare_version-flip a b = then_by_both _ _ _ _ (compare_parts-flip _ _) (compare_pre-flip _ _)

pub self_eq : (o : Ordering) → o ≡ flip o → o ≡ eq
self_eq Ordering.lt h = cc
self_eq Ordering.eq h = refl
self_eq Ordering.gt h = cc

-- Every text compares equal to itself.
pub compare_version_refl : (a : Bytes) → compare_version a a ≡ eq
compare_version_refl a = self_eq (compare_version a a) (compare_version-flip a a)
