-- ===== src/Version/Range.antt =====
-- `Satisfies`, `ceiling`, `IsRange` and `Matches` of internal/resolve/resolve.go. An error carries
-- its reason, and not the constraint that its message quotes.
pub mod Both
pub mod Shown
pub mod Ceiling
pub mod Parts
pub mod Allowed
use Prim.Native.Nat.{min}
use oku.Base.{
  Bool, Bytes, List, Ordering, Result, [], any, codes, cut_prefix, equal, err, false, has_prefix,
  if◌then◌else◌, is_digit, is_nil, join, length, ltb, map, negsuc, none, ok, pos, some, split, suc,
  trim_space, true, zero, ℕ, ℤ, ◌%◌, ◌&&◌, ◌++◌, ◌+◌, ◌-◌, ◌/◌, ◌==◌, ◌>>=◌, ◌||◌, ◌∷◌,
}
use oku.Version.{atoi, compare_version, two_63}

pub data Op : Type 0 where
  at_least at_most above below exactly caret tilde : Op

pub data RangeError : Type 0 where
  no_version : RangeError
  not_numbers : Op → Bytes → RangeError

abbrev operators : List (Bytes × Op)
operators =
    (codes ">=", at_least)
    ∷ (codes "<=", at_most)
    ∷ (codes ">", above)
    ∷ (codes "<", below)
    ∷ (codes "=", exactly)
    ∷ (codes "^", caret)
    ∷ (codes "~", tilde)
    ∷ []

-- the loop over the candidates: the first that the part begins with
unfoldable pub cut_op_from : List (Bytes × Op) → Bytes → Op × Bytes
cut_op_from [] part = (exactly, part)
cut_op_from ((text, op) ∷ rest) part = elim (cut_prefix text part) [
  | some behind ↦ (op, trim_space behind)
  | none ↦ cut_op_from rest part
]

unfoldable pub cut_op : Bytes → Op × Bytes
unfolding cut_op_from
cut_op = cut_op_from operators

-- `strconv.Itoa` of a natural number, on fuel for its digits
unfoldable pub show_from : ℕ → ℕ → Bytes → Bytes
show_from zero n out = out
show_from (suc fuel) n out =
    let out' = (b'0' + n % 10) ∷ out in
    let rest = show_from fuel (n / 10) out' in if ltb n 10 then out' else rest

-- `strconv.Itoa`; an int has at most 19 digits
unfoldable pub itoa : ℤ → Bytes
unfolding show_from
itoa (pos n) = show_from 20 n []
itoa (negsuc n) = b'-' ∷ show_from 20 (n + 1) []

-- `n + 1` on an int of 64 bits
unfoldable pub increment : ℤ → ℤ
increment (pos n) = if n == two_63 - 1 then negsuc (two_63 - 1) else pos (n + 1)
increment (negsuc zero) = pos 0
increment (negsuc (suc n)) = negsuc n

-- the loop of `ceiling` over the fields
unfoldable pub numbers : Op → Bytes → List Bytes → Result RangeError (List ℤ)
numbers op part [] = ok []
numbers op part (field ∷ fields) = elim (atoi field) [
  | none ↦ err (not_numbers op part)
  | some n ↦ (numbers op part fields >>= λ ns. ok (n ∷ ns))
]

abbrev pub is_zero : ℤ → Bool
is_zero (pos n) = n == 0
is_zero (negsuc n) = false

-- the place of the first number that is not 0, or of the last one
unfoldable pub first_nonzero : List ℤ → ℕ
first_nonzero [] = 0
first_nonzero (n ∷ []) = 0
first_nonzero (n ∷ m ∷ ns) =
    let later = suc (first_nonzero (m ∷ ns)) in if is_zero n then later else 0

-- the value of `raise`
unfoldable pub raise_at : Op → List ℤ → ℕ
raise_at caret ns = first_nonzero ns
raise_at _ ns = min 1 (length ns - 1)

-- the numbers before the place, and the number there raised
unfoldable pub raised : ℕ → List ℤ → List ℤ
raised k [] = []
raised zero (n ∷ ns) = increment n ∷ []
raised (suc k) (n ∷ ns) = n ∷ raised k ns

-- `ceiling`
unfoldable pub ceiling : Bytes → Op → Result RangeError Bytes
ceiling part op = numbers op part (split b'.' part) >>= λ ns.
    ok (join b'.' (map itoa (raised (raise_at op ns) ns)))

-- the map `met`
abbrev pub met : Op → Ordering → Bool
met at_least Ordering.lt = false
met at_least o = true
met at_most Ordering.gt = false
met at_most o = true
met above Ordering.gt = true
met above o = false
met below Ordering.lt = true
met below o = false
met exactly Ordering.eq = true
met exactly o = false
met caret o = false
met tilde o = false

abbrev pub starts_with_digit : Bytes → Bool
starts_with_digit [] = false
starts_with_digit (c ∷ s) = is_digit c

-- a part with its operator cut off
unfoldable pub meets : Bytes → Op → Bytes → Result RangeError Bool
meets version caret part = ceiling part caret >>= λ top.
    ok (met at_least (compare_version version part) && met below (compare_version version top))
meets version tilde part = ceiling part tilde >>= λ top.
    ok (met at_least (compare_version version part) && met below (compare_version version top))
meets version op part = ok (met op (compare_version version part))

-- the loop body of `Satisfies`, on a trimmed part
unfoldable pub satisfies_part : Bytes → Bytes → Result RangeError Bool
satisfies_part version [] = ok true
satisfies_part version (c ∷ part) =
    let (op, rest) = cut_op (c ∷ part) in
    if starts_with_digit rest then meets version op rest else err no_version

unfoldable pub satisfies_parts : Bytes → List Bytes → Result RangeError Bool
satisfies_parts version [] = ok true
satisfies_parts version (part ∷ parts) = satisfies_part version (trim_space part) >>= λ passes.
    elim passes [ true ↦ satisfies_parts version parts | false ↦ ok false ]

-- `Satisfies`
unfoldable pub satisfies : Bytes → Bytes → Result RangeError Bool
satisfies version constraint = satisfies_parts version (split b',' constraint)

abbrev begins_range : Bytes → Bool
begins_range [] = false
begins_range (c ∷ s) = any (λ x. x == c) (codes "^~<>=") || any (λ x. x == b',') (c ∷ s)

-- `IsRange`
unfoldable pub is_range : Bytes → Bool
is_range want = begins_range want

-- `Matches`
unfoldable pub matches_want : Bytes → Bytes → Result RangeError Bool
matches_want version want =
    if is_nil want
    then ok true
    else if is_range want
    then satisfies version want
    else ok (equal version want || has_prefix (want ++ (b'.' ∷ [])) version)
