-- ===== src/Version/Range/Allowed.antt =====
-- What `^` and `~` of `Satisfies` in internal/resolve/resolve.go allow, on dotted numbers.
use oku.Base.{
  All, Bool, Bytes, List, Ordering, Result, [], ap, arith, cut_prefix, every, every_mono, false,
  is_nil, is_space, join, lacks, ltb, map, not, ok, pos, refl, split-join, split-lacks, suc, true,
  zero, ℕ, ◌&&◌, ◌+◌, ◌-◌, ◌==◌, ◌>>=◌, ◌∙◌, ◌∷◌, ◌≡◌,
}
use oku.Version.{compare_version, digits_value, two_63}
use oku.Version.Numbers.{
  IsNumber, atoi-IsNumber, compare_numbers, compare_version-numbers, digit_lacks, values,
}
use oku.Version.Range.{
  Op, RangeError, at_least, below, caret, ceiling, cut_op, cut_op_from, increment, itoa, meets, met,
  numbers, raise_at, raised, satisfies, satisfies_part, satisfies_parts, starts_with_digit, tilde,
}
use oku.Version.Range.Ceiling.{
  agrees, agrees-caret, agrees-tilde, raised_value, raised_value-agrees, same_to_nonzero, same_two,
}
use oku.Version.Range.Parts.{every-join, part_byte, starts-join, trim_space_clean}
use oku.Version.Range.Shown.{itoa-IsNumber, itoa-value}

-- a number whose successor fits an int
abbrev pub IsRaisable : ℕ → Type 0
IsRaisable n = ltb (n + 1) two_63 ≡ true

numbers-IsNumber :
    (op : Op) (part : Bytes) (xs : List Bytes)
    → All IsNumber xs
    → numbers op part xs ≡ ok (map pos (values xs))
unfolding numbers
numbers-IsNumber op part [] h = refl
numbers-IsNumber op part (x ∷ xs) h =
    rw (numbers, atoi-IsNumber x h.0, numbers-IsNumber op part xs h.1)

increment-pos : (n : ℕ) → IsRaisable n → increment (pos n) ≡ pos (n + 1)
unfolding increment
increment-pos n h = let other : (n == two_63 - 1) ≡ false = ground arith in rw other

abbrev shown : ℕ → Bytes
shown n = itoa (pos n)

itoa-raised :
    (k : ℕ) (ns : List ℕ)
    → All IsRaisable ns
    → map itoa (raised k (map pos ns)) ≡ map shown (raised_value k ns)
unfolding raised
itoa-raised zero [] h = refl
itoa-raised (suc k) [] h = refl
itoa-raised zero (n ∷ ns) h = rw (increment-pos n h.0)
itoa-raised (suc k) (n ∷ ns) h = rw (itoa-raised k ns h.1)

shown-IsNumber :
    (k : ℕ) (ns : List ℕ)
    → All IsRaisable ns
    → All IsNumber (map shown (raised_value k ns))
      × (values (map shown (raised_value k ns)) ≡ raised_value k ns)
shown-IsNumber k [] h = (tt, refl)
shown-IsNumber zero (n ∷ ns) h = ((itoa-IsNumber (n + 1) h.0, tt), rw (itoa-value (n + 1) h.0))
shown-IsNumber (suc k) (n ∷ ns) h =
    let here : ltb n two_63 ≡ true = ground (arith, h.0) in
    let (others, same) = shown-IsNumber k ns h.1 in
    ((itoa-IsNumber n here, others), rw (itoa-value n here, same))

compare_version-lists :
    (xs ys : List Bytes)
    → is_nil xs ≡ false
    → is_nil ys ≡ false
    → All IsNumber xs
    → All IsNumber ys
    → compare_version (join b'.' xs) (join b'.' ys) ≡ compare_numbers (values xs) (values ys)
compare_version-lists [] ys p q hx hy = cc
compare_version-lists (x ∷ xs) [] p q hx hy = cc
compare_version-lists (x ∷ xs) (y ∷ ys) p q hx hy = compare_version-numbers x y xs ys hx hy

raised_value-some : (k n : ℕ) (ns : List ℕ) → is_nil (map shown (raised_value k (n ∷ ns))) ≡ false
raised_value-some zero n ns = refl
raised_value-some (suc k) n ns = refl

-- `order < 0` and `Compare(version, below) >= 0` fail
abbrev range_passes : Bytes → Op → Bytes → Result RangeError Bool
range_passes version op part = ceiling part op >>= λ top.
    ok (met at_least (compare_version version part) && met below (compare_version version top))

-- not less
abbrev pub not_below : Ordering → Bool
not_below Ordering.lt = false
not_below o = true

-- at least the part, with its numbers up to the one that the operator raises
abbrev in_range_of : Op → List ℕ → List ℕ → Bool
in_range_of op ns vs =
    met at_least (compare_numbers vs ns) && agrees (raise_at op (map pos ns)) ns vs

range_passes-in_range_of :
    (op : Op) (v x : Bytes) (vs xs : List Bytes)
    → All IsNumber (v ∷ vs)
    → All IsNumber (x ∷ xs)
    → All IsRaisable (values (x ∷ xs))
    → range_passes (join b'.' (v ∷ vs)) op (join b'.' (x ∷ xs))
      ≡ ok (in_range_of op (values (x ∷ xs)) (values (v ∷ vs)))
unfolding ceiling
range_passes-in_range_of op v x vs xs hv hx small =
    let ns = values (x ∷ xs) in
    let k = raise_at op (map pos ns) in
    let (top_numbers, top_values) = shown-IsNumber k ns small in
    let top =
      compare_version-lists (v ∷ vs) (map shown (raised_value k ns)) refl
        (raised_value-some k (digits_value 0 x) (values xs)) hv top_numbers in
    rw
      (
        split-join b'.' x xs (digit_lacks b'.' refl (x ∷ xs) hx),
        numbers-IsNumber op (join b'.' (x ∷ xs)) (x ∷ xs) hx,
        itoa-raised k ns small,
        top,
        top_values,
        compare_version-numbers v x vs xs hv hx,
      )
      (ap ok (raised_value-agrees k ns (values (v ∷ vs))))

-- the text of the operator that raises the number of `^`, or else of `~`
abbrev pub sign_of : Bool → ℕ
sign_of true = b'^'
sign_of false = b'~'

abbrev pub op_of : Bool → Op
op_of true = caret
op_of false = tilde

-- What `^` and `~` allow: versions that are not below the part and have its numbers, for `^` up to
-- the first that is not 0, or all if all are 0, and for `~` the first two, or the only one.
abbrev pub allows : Bool → List ℕ → List ℕ → Bool
allows true ns vs = not_below (compare_numbers vs ns) && same_to_nonzero ns vs
allows false ns vs = not_below (compare_numbers vs ns) && same_two ns vs

met-not_below : (o : Ordering) → met at_least o ≡ not_below o
met-not_below Ordering.lt = refl
met-not_below Ordering.eq = refl
met-not_below Ordering.gt = refl

in_range_of-allows :
    (is_caret : Bool) (ns vs : List ℕ) → in_range_of (op_of is_caret) ns vs ≡ allows is_caret ns vs
in_range_of-allows true ns vs = rw (agrees-caret ns vs, met-not_below (compare_numbers vs ns)) refl
in_range_of-allows false ns vs = rw (agrees-tilde ns vs, met-not_below (compare_numbers vs ns)) refl

satisfies_part-range :
    (is_caret : Bool) (version part : Bytes)
    → every part_byte part ≡ true
    → starts_with_digit part ≡ true
    → satisfies_part version (sign_of is_caret ∷ part) ≡ range_passes version (op_of is_caret) part
unfolding satisfies_part cut_op cut_op_from cut_prefix meets
satisfies_part-range true version part solid starts = rw (
  trim_space_clean part
      (every_mono part_byte (λ c. not (is_space c)) part (λ c d. ground arith) solid),
  starts,
)
satisfies_part-range false version part solid starts = rw (
  trim_space_clean part
      (every_mono part_byte (λ c. not (is_space c)) part (λ c d. ground arith) solid),
  starts,
)

-- A sign is a byte that passes a test which both signs pass.
sign-every :
    (test : ℕ → Bool) (is_caret : Bool) (part : Bytes)
    → test b'^' ≡ true
    → test b'~' ≡ true
    → every test part ≡ true
    → every test (sign_of is_caret ∷ part) ≡ true
sign-every test true part hat wave h = rw hat h
sign-every test false part hat wave h = rw wave h

satisfies-part :
    (version part : Bytes) (passes : Bool)
    → lacks b',' part ≡ true
    → every (λ c. not (is_space c)) part ≡ true
    → satisfies_part version part ≡ ok passes
    → satisfies version part ≡ ok passes
unfolding satisfies satisfies_parts
satisfies-part version part true single solid e =
    rw (split-lacks b',' part single, trim_space_clean part solid, e)
satisfies-part version part false single solid e =
    rw (split-lacks b',' part single, trim_space_clean part solid, e)

-- A version of dotted numbers that fit an int satisfies `^part` or `~part`, for a part of dotted
-- numbers that are smaller than the largest int, exactly when it is not below the part and has the
-- numbers of the part: for `^` up to the first that is not 0, or all of them if all are 0, and for
-- `~` the first two, or the only one. A number that the version lacks counts as 0. The constraint
-- is never an error.
pub satisfies-allows :
    (is_caret : Bool) (v x : Bytes) (vs xs : List Bytes)
    → All IsNumber (v ∷ vs)
    → All IsNumber (x ∷ xs)
    → All IsRaisable (values (x ∷ xs))
    → satisfies (join b'.' (v ∷ vs)) (sign_of is_caret ∷ join b'.' (x ∷ xs))
      ≡ ok (allows is_caret (values (x ∷ xs)) (values (v ∷ vs)))
satisfies-allows is_caret v x vs xs hv hx small =
    let part = join b'.' (x ∷ xs) in
    let bytes = every-join (x ∷ xs) hx in
    let single : lacks b',' part ≡ true =
      every_mono part_byte (λ c. not (c == b',')) part (λ c d. ground arith) bytes in
    let solid : every (λ c. not (is_space c)) part ≡ true =
      every_mono part_byte (λ c. not (is_space c)) part (λ c d. ground arith) bytes in
    satisfies-part (join b'.' (v ∷ vs)) (sign_of is_caret ∷ part)
      (allows is_caret (values (x ∷ xs)) (values (v ∷ vs)))
      (sign-every (λ c. not (c == b',')) is_caret part refl refl single)
      (sign-every (λ c. not (is_space c)) is_caret part refl refl solid)
      (satisfies_part-range is_caret (join b'.' (v ∷ vs)) part bytes (starts-join x xs hx.0)
        ∙ range_passes-in_range_of (op_of is_caret) v x vs xs hv hx small
        ∙ ap ok (in_range_of-allows is_caret (values (x ∷ xs)) (values (v ∷ vs))))
