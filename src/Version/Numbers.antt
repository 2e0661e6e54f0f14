-- ===== src/Version/Numbers.antt =====
-- `Compare` on versions of dotted numbers.
use Prim.Native.Nat.{compare}
use mathlib.Core.Bool.{false≢true}
use oku.Base.{
  All, Bytes, List, Ordering, [], and_true, arith, cut-lacks, eq, every, every_mono, false,
  is_digit, is_nil, join, lacks, lacks-join, ltb, map, not, pos, refl, some, split-join, sym,
  then_by, true, ℕ, ◌==◌, ◌∷◌, ◌≡◌,
}
use oku.Version.{
  atoi, compare_part, compare_parts, compare_pre, compare_runs, compare_suffix, compare_tail,
  compare_version, digits_value, runs, split_number, two_63, zero_part,
}

-- decimal digits that write an int of 64 bits
pub record IsNumber (x : Bytes) : Type 0 where
  pub digits : every is_digit x ≡ true
  pub nonempty : is_nil x ≡ false
  pub small : ltb (digits_value 0 x) two_63 ≡ true

-- numbers compared one after another, where the end of a list counts as zeros
abbrev pub compare_numbers : List ℕ → List ℕ → Ordering
compare_numbers [] [] = eq
compare_numbers [] (n ∷ ns) = then_by (compare 0 n) (compare_numbers [] ns)
compare_numbers (m ∷ ms) [] = then_by (compare m 0) (compare_numbers ms [])
compare_numbers (m ∷ ms) (n ∷ ns) = then_by (compare m n) (compare_numbers ms ns)

split_number-digits : (x : Bytes) → every is_digit x ≡ true → split_number x ≡ (x, [])
unfolding split_number
split_number-digits [] h = refl
split_number-digits (c ∷ x) h = ground (arith, split_number-digits x)

pub atoi-IsNumber : (x : Bytes) → IsNumber x → atoi x ≡ some (pos (digits_value 0 x))
unfolding atoi
atoi-IsNumber [] h = absurd (false≢true (sym h.nonempty))
atoi-IsNumber (c ∷ x) h =
    let first : is_digit c ≡ true = (and_true (is_digit c) (every is_digit x) h.digits).0 in
    let not_minus : (c == b'-') ≡ false = ground arith in
    let not_plus : (c == b'+') ≡ false = ground arith in rw (not_minus, not_plus, h.digits, h.small)

pub then_by-eq : (o : Ordering) → then_by o eq ≡ o
then_by-eq Ordering.lt = refl
then_by-eq Ordering.eq = refl
then_by-eq Ordering.gt = refl

compare_part-numbers :
    (x y : Bytes)
    → IsNumber x
    → IsNumber y
    → compare_part x y ≡ compare (digits_value 0 x) (digits_value 0 y)
unfolding compare_part compare_tail
compare_part-numbers x y hx hy =
    rw
      (
        split_number-digits x hx.digits,
        split_number-digits y hy.digits,
        atoi-IsNumber x hx,
        atoi-IsNumber y hy,
      )
      (then_by-eq _)

zero_part-IsNumber : IsNumber zero_part
zero_part-IsNumber = record { digits = refl; nonempty = refl; small = refl }

abbrev pub values : List Bytes → List ℕ
values = map (digits_value 0)

compare_parts-numbers :
    (xs ys : List Bytes)
    → All IsNumber xs
    → All IsNumber ys
    → compare_parts xs ys ≡ compare_numbers (values xs) (values ys)
unfolding compare_parts
compare_parts-numbers [] [] hx hy = refl
compare_parts-numbers [] (y ∷ ys) hx hy =
    cc (
      compare_part-numbers zero_part y zero_part-IsNumber hy.0,
      compare_parts-numbers [] ys hx hy.1,
    )
compare_parts-numbers (x ∷ xs) [] hx hy =
    cc (
      compare_part-numbers x zero_part hx.0 zero_part-IsNumber,
      compare_parts-numbers xs [] hx.1 hy,
    )
compare_parts-numbers (x ∷ xs) (y ∷ ys) hx hy =
    cc (compare_part-numbers x y hx.0 hy.0, compare_parts-numbers xs ys hx.1 hy.1)

pub digit_lacks :
    (b : ℕ)
    → is_digit b ≡ false
    → (xs : List Bytes) → All IsNumber xs
    → All (λ y. lacks b y ≡ true) xs
digit_lacks b e [] h = tt
digit_lacks b e (x ∷ xs) h = (
  every_mono is_digit (λ c. not (c == b)) x (λ c d. ground arith) (h.0).digits,
  digit_lacks b e xs h.1,
)

-- Two versions of dotted numbers, each of at least one number that fits an int, are ordered as
-- their numbers are, one after another, where a number that one version lacks counts as 0.
pub compare_version-numbers :
    (x y : Bytes) (xs ys : List Bytes)
    → All IsNumber (x ∷ xs)
    → All IsNumber (y ∷ ys)
    → compare_version (join b'.' (x ∷ xs)) (join b'.' (y ∷ ys))
      ≡ compare_numbers (values (x ∷ xs)) (values (y ∷ ys))
unfolding compare_version compare_pre compare_suffix runs compare_runs
compare_version-numbers x y xs ys hx hy =
    rw
      (
        cut-lacks b'-' (join b'.' (x ∷ xs))
            (lacks-join b'-' b'.' (x ∷ xs) refl (digit_lacks b'-' refl (x ∷ xs) hx)),
        cut-lacks b'-' (join b'.' (y ∷ ys))
            (lacks-join b'-' b'.' (y ∷ ys) refl (digit_lacks b'-' refl (y ∷ ys) hy)),
        split-join b'.' x xs (digit_lacks b'.' refl (x ∷ xs) hx),
        split-join b'.' y ys (digit_lacks b'.' refl (y ∷ ys) hy),
        compare_parts-numbers (x ∷ xs) (y ∷ ys) hx hy,
      )
      (then_by-eq _)
