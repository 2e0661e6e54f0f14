-- ===== src/Version.antt =====
-- internal/resolve/resolve.go: versions, their order and the ranges that select them. Text is
-- ASCII, on which the `(?i)` of the prerelease expression folds the letters A to Z alone. An `int`
-- has 64 bits.
pub mod Order
pub mod Cycle
pub mod Numbers
pub mod Range
pub mod Pick
use oku.Base.{
  Bool, Bytes, List, Option, Ordering, [], any, codes, compare_int, compare_text, cut, cut_prefix,
  differ, eq, every, false, flip, gt, if◌then◌else◌, is_digit, is_lower_letter, leb, lt, ltb, neg,
  none, not, pos, some, split, then_by, to_lower, true, ℕ, ℤ, ◌&&◌, ◌*◌, ◌++◌, ◌+◌, ◌-◌, ◌==◌, ◌^◌,
  ◌||◌, ◌∷◌,
}
use oku.Trust.Allowed.Last.{run}

abbrev pub two_63 : ℕ
two_63 = 2 ^ 63

-- the number that decimal digits write, behind `n`
abbrev pub digits_value : ℕ → Bytes → ℕ
digits_value n [] = n
digits_value n (c ∷ s) = digits_value (n * 10 + (c - b'0')) s

abbrev pub unsigned : Bytes → Option ℕ
unsigned [] = none
unsigned (c ∷ s) = if every is_digit (c ∷ s) then some (digits_value 0 (c ∷ s)) else none

abbrev pub in_range : Bool → Option ℕ → Option ℤ
in_range minus none = none
in_range false (some n) = if ltb n two_63 then some (pos n) else none
in_range true (some n) = if leb n two_63 then some (neg n) else none

-- `strconv.Atoi`: an optional sign and digits, within 64 bits
unfoldable pub atoi : Bytes → Option ℤ
atoi [] = none
atoi (c ∷ s) =
    if c == b'-'
    then in_range true (unsigned s)
    else if c == b'+'
    then in_range false (unsigned s)
    else in_range false (unsigned (c ∷ s))

-- `splitNumber`
unfoldable pub split_number : Bytes → Bytes × Bytes
split_number [] = ([], [])
split_number (c ∷ s) =
    let (number, tail) = split_number s in if is_digit c then (c ∷ number, tail) else ([], c ∷ s)

abbrev pub prerelease_words : List Bytes
prerelease_words =
    codes "rc"
    ∷ codes "alpha"
    ∷ codes "beta"
    ∷ codes "pre"
    ∷ codes "preview"
    ∷ codes "dev"
    ∷ codes "snapshot"
    ∷ codes "next"
    ∷ codes "canary"
    ∷ codes "nightly"
    ∷ codes "insiders"
    ∷ []

-- the end of the text, or a byte that is no letter
abbrev pub ends_word : Option Bytes → Bool
ends_word none = false
ends_word (some []) = true
ends_word (some (c ∷ s)) = not (is_lower_letter c)

-- `m\d`, `a\d` or `b\d`
abbrev pub letter_digit : Bytes → Option Bytes
letter_digit (c ∷ d ∷ s) =
    if (c == b'm' || c == b'a' || c == b'b') && is_digit d then some s else none
letter_digit s = none

unfoldable pub word_here : Bytes → Bool
unfolding cut_prefix
word_here s =
    any (λ word. ends_word (cut_prefix word s)) prerelease_words || ends_word (letter_digit s)

-- whether the expression matches at some place; the flag is its `(^|[^a-z])`
unfoldable pub word_from : Bool → Bytes → Bool
unfolding word_here
word_from start [] = false
word_from start (c ∷ s) = start && word_here (c ∷ s) || word_from (not (is_lower_letter c)) s

-- `prerelease.MatchString`
unfoldable pub prerelease : Bytes → Bool
unfolding word_from
prerelease s = word_from true (to_lower s)

-- `tailRank`
unfoldable pub tail_rank : Bytes → Ordering
tail_rank tail = if prerelease tail then gt else lt

-- the loop of `runs`, with the run `s[start:i]` and the byte `s[i-1]`
unfoldable pub runs_from : Bytes → ℕ → Bytes → List Bytes
runs_from run previous [] = run ∷ []
runs_from run previous (c ∷ s) =
    let cut_here = run ∷ runs_from (c ∷ []) c s in
    let go_on = runs_from (run ++ (c ∷ [])) c s in
    if differ (is_digit c) (is_digit previous) then cut_here else go_on

-- `runs`
unfoldable pub runs : Bytes → List Bytes
unfolding runs_from
runs [] = []
runs (c ∷ s) = runs_from (c ∷ []) c s

abbrev pub by_number : Bytes → Bytes → Option ℤ → Option ℤ → Ordering
by_number x y (some m) (some n) = compare_int m n
by_number x y _ _ = compare_text x y

-- the loop body of `compareSuffix`: as numbers if both are, and else as text
unfoldable pub compare_run : Bytes → Bytes → Ordering
compare_run x y = by_number x y (atoi x) (atoi y)

unfoldable pub compare_runs : List Bytes → List Bytes → Ordering
compare_runs [] [] = eq
compare_runs [] (y ∷ ys) = lt
compare_runs (x ∷ xs) [] = gt
compare_runs (x ∷ xs) (y ∷ ys) = then_by (compare_run x y) (compare_runs xs ys)

-- `compareSuffix`
unfoldable pub compare_suffix : Bytes → Bytes → Ordering
compare_suffix a b = compare_runs (runs a) (runs b)

-- the cases of `comparePart` for equal numbers
unfoldable pub compare_tail : Bytes → Bytes → Ordering
compare_tail [] [] = eq
compare_tail [] (d ∷ y) = tail_rank (d ∷ y)
compare_tail (c ∷ x) [] = flip (tail_rank (c ∷ x))
compare_tail (c ∷ x) (d ∷ y) = compare_suffix (c ∷ x) (d ∷ y)

abbrev pub by_parts : Bytes → Bytes → Bytes → Bytes → Option ℤ → Option ℤ → Ordering
by_parts x y tail_x tail_y (some m) (some n) =
    then_by (compare_int m n) (compare_tail tail_x tail_y)
by_parts x y tail_x tail_y _ _ = compare_text x y

-- `comparePart`
unfoldable pub compare_part : Bytes → Bytes → Ordering
compare_part x y =
    let (num_x, tail_x) = split_number x in
    let (num_y, tail_y) = split_number y in by_parts x y tail_x tail_y (atoi num_x) (atoi num_y)

abbrev pub zero_part : Bytes
zero_part = codes "0"

-- the loop of `Compare`; a part that one version lacks is 0
unfoldable pub compare_parts : List Bytes → List Bytes → Ordering
compare_parts [] [] = eq
compare_parts [] (y ∷ ys) = then_by (compare_part zero_part y) (compare_parts [] ys)
compare_parts (x ∷ xs) [] = then_by (compare_part x zero_part) (compare_parts xs [])
compare_parts (x ∷ xs) (y ∷ ys) = then_by (compare_part x y) (compare_parts xs ys)

-- the switch behind the loop
unfoldable pub compare_pre : Bytes → Bytes → Ordering
compare_pre [] [] = compare_suffix [] []
compare_pre [] (d ∷ b) = gt
compare_pre (c ∷ a) [] = lt
compare_pre (c ∷ a) (d ∷ b) = compare_suffix (c ∷ a) (d ∷ b)

-- `Compare`
unfoldable pub compare_version : Bytes → Bytes → Ordering
compare_version a b =
    let core_a = cut b'-' a in
    let core_b = cut b'-' b in
    then_by (compare_parts (split b'.' core_a.before) (split b'.' core_b.before))
      (compare_pre core_a.after core_b.after)
