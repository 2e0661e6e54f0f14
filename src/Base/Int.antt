-- ===== src/Base/Int.antt =====
-- Signed integers over the native numbers, and Go's three-way comparisons: -1, 0 and 1 are `lt`,
-- `eq` and `gt`.
use Prim.Native.Nat.{ℕ, compare, ◌-◌, Ordering}
use mathlib.Core.Path.{◌≡◌, refl}
use mathlib.Core.List.{[], ◌∷◌}
use mathlib.Core.Bool.{Bool, true, false}
use native.Mathlib.Omega.{arith}
use oku.Base.Tests.{◌==◌, if◌then◌else◌}
use oku.Base.Text.{Bytes}

abbrev pub lt : Ordering
lt = Ordering.lt

abbrev pub eq : Ordering
eq = Ordering.eq

abbrev pub gt : Ordering
gt = Ordering.gt

-- the sign changed
abbrev pub flip : Ordering → Ordering
flip Ordering.lt = Ordering.gt
flip Ordering.eq = Ordering.eq
flip Ordering.gt = Ordering.lt

-- the first result, or else the next, as `if order := …; order != 0 { return order }`
abbrev pub then_by : Ordering → Ordering → Ordering
then_by Ordering.lt o = Ordering.lt
then_by Ordering.eq o = o
then_by Ordering.gt o = Ordering.gt

-- `negsuc n` is -(n + 1).
pub data ℤ : Type 0 where
  pos : ℕ → ℤ
  negsuc : ℕ → ℤ

-- -n
abbrev pub neg : ℕ → ℤ
neg n = if n == 0 then pos 0 else negsuc (n - 1)

-- `cmp.Compare` on two ints
abbrev pub compare_int : ℤ → ℤ → Ordering
compare_int (pos m) (pos n) = compare m n
compare_int (pos m) (negsuc n) = Ordering.gt
compare_int (negsuc m) (pos n) = Ordering.lt
compare_int (negsuc m) (negsuc n) = compare n m

-- `==` on two ints
abbrev pub same_int : ℤ → ℤ → Bool
same_int a b = elim (compare_int a b) [ Ordering.eq ↦ true | _ ↦ false ]

-- `strings.Compare`
unfoldable pub compare_text : Bytes → Bytes → Ordering
compare_text [] [] = Ordering.eq
compare_text [] (y ∷ ys) = Ordering.lt
compare_text (x ∷ xs) [] = Ordering.gt
compare_text (x ∷ xs) (y ∷ ys) = then_by (compare x y) (compare_text xs ys)

pub compare-flip : (m n : ℕ) → compare n m ≡ flip (compare m n)
compare-flip m n = ground arith

pub compare_int-flip : (m n : ℤ) → compare_int n m ≡ flip (compare_int m n)
compare_int-flip (pos m) (pos n) = compare-flip m n
compare_int-flip (pos m) (negsuc n) = refl
compare_int-flip (negsuc m) (pos n) = refl
compare_int-flip (negsuc m) (negsuc n) = compare-flip n m

pub then_by-flip : (a b : Ordering) → flip (then_by a b) ≡ then_by (flip a) (flip b)
then_by-flip Ordering.lt b = refl
then_by-flip Ordering.eq b = refl
then_by-flip Ordering.gt b = refl

pub flip-flip : (a : Ordering) → flip (flip a) ≡ a
flip-flip Ordering.lt = refl
flip-flip Ordering.eq = refl
flip-flip Ordering.gt = refl

pub compare_text-flip : (a b : Bytes) → compare_text b a ≡ flip (compare_text a b)
unfolding compare_text
compare_text-flip [] [] = refl
compare_text-flip [] (y ∷ ys) = refl
compare_text-flip (x ∷ xs) [] = refl
compare_text-flip (x ∷ xs) (y ∷ ys) = ground (
  arith,
  compare_text-flip xs ys,
  then_by-flip (compare x y) (compare_text xs ys),
  compare-flip x y,
)
