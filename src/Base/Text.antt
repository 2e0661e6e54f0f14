-- ===== src/Base/Text.antt =====
-- Text as the list of its bytes, and the functions of Go's `strings` package that oku calls.
use Prim.Native.Char.{code}
use Prim.Native.String.{String}
use Prim.Native.Nat.{ℕ, ◌+◌}
use mathlib.Core.Path.{◌≡◌, refl, ◌∙◌}
use mathlib.Core.Logic.{◌↔◌}
use mathlib.Core.Bool.{Bool, true, false, not, ◌&&◌, ◌||◌}
use mathlib.Core.List.{List, [], ◌∷◌, ◌++◌, map}
use mathlib.Core.Option.{Option, none, some}
use native.Mathlib.Omega.{arith}
use oku.Base.Tests.{leb, ◌==◌, if◌then◌else◌}
use oku.Base.Lists.{any, is_nil, every, every-append, All}

abbrev pub Bytes : Type 0
Bytes = List ℕ

-- the bytes of an ASCII literal
abbrev pub codes : String → Bytes
codes String.[] = []
codes (String.◌∷◌ c s) = code c ∷ codes s

-- `a == b` on strings
unfoldable pub equal : Bytes → Bytes → Bool
equal [] [] = true
equal [] (d ∷ t) = false
equal (c ∷ s) [] = false
equal (c ∷ s) (d ∷ t) = equal s t && c == d

pub equal_iff : (s t : Bytes) → (equal s t ≡ true) ↔ (s ≡ t)
unfolding equal
equal_iff [] [] = ground arith
equal_iff [] (d ∷ t) = ground arith
equal_iff (c ∷ s) [] = ground arith
equal_iff (c ∷ s) (d ∷ t) = ground (arith, equal_iff s t)

pub equal_refl : (a : Bytes) → equal a a ≡ true
equal_refl a = (equal_iff a a).1 refl

-- `slices.Contains` on strings
abbrev pub contains : List Bytes → Bytes → Bool
contains xs a = any (λ x. equal x a) xs

-- a lower-case ASCII letter for an upper-case one
abbrev pub lower_byte : ℕ → ℕ
lower_byte c = if leb b'A' c && leb c b'Z' then c + 32 else c

-- `strings.ToLower`, on ASCII
abbrev pub to_lower : Bytes → Bytes
to_lower = map lower_byte

-- `strings.EqualFold`, on ASCII
abbrev pub equal_fold : Bytes → Bytes → Bool
equal_fold a b = equal (to_lower a) (to_lower b)

-- `strings.CutPrefix`
unfoldable pub cut_prefix : Bytes → Bytes → Option Bytes
cut_prefix [] s = some s
cut_prefix (p ∷ ps) [] = none
cut_prefix (p ∷ ps) (c ∷ s) = if p == c then cut_prefix ps s else none

abbrev pub or_whole : Option Bytes → Bytes → Bytes
or_whole none s = s
or_whole (some rest) s = rest

-- `strings.TrimPrefix`
abbrev pub trim_prefix : Bytes → Bytes → Bytes
trim_prefix p s = or_whole (cut_prefix p s) s

-- `strings.HasPrefix`, with the prefix first
unfoldable pub has_prefix : Bytes → Bytes → Bool
has_prefix [] s = true
has_prefix (p ∷ ps) [] = false
has_prefix (p ∷ ps) (c ∷ s) = p == c && has_prefix ps s

-- `strings.HasSuffix`, with the suffix first
unfoldable pub has_suffix : Bytes → Bytes → Bool
has_suffix suffix [] = is_nil suffix
has_suffix suffix (c ∷ s) = equal (c ∷ s) suffix || has_suffix suffix s

-- `cmp.Or` on two strings
abbrev pub text_or : Bytes → Bytes → Bytes
text_or [] b = b
text_or (c ∷ a) b = c ∷ a

-- the results of `strings.Cut`
pub record Cut : Type 0 where
  pub before : Bytes
  pub after : Bytes
  pub found : Bool

-- `strings.Cut` at a separator of one byte
unfoldable pub cut : ℕ → Bytes → Cut
cut sep [] = record { before = []; after = []; found = false }
cut sep (c ∷ s) =
    let rest = cut sep s in
    if c == sep
    then record { before = []; after = s; found = true }
    else record rest { before = c ∷ rest.before }

-- `strings.Split` at a separator of one byte; there is at least one piece
pub record Pieces : Type 0 where
  pub first : Bytes
  pub others : List Bytes

unfoldable pub split_pieces : ℕ → Bytes → Pieces
split_pieces sep [] = record { first = []; others = [] }
split_pieces sep (c ∷ s) =
    let rest = split_pieces sep s in
    if c == sep
    then record { first = []; others = rest.first ∷ rest.others }
    else record rest { first = c ∷ rest.first }

unfoldable pub split : ℕ → Bytes → List Bytes
split sep s = let pieces = split_pieces sep s in pieces.first ∷ pieces.others

-- `strings.Join` with a separator of one byte
unfoldable pub join : ℕ → List Bytes → Bytes
join sep [] = []
join sep (x ∷ []) = x
join sep (x ∷ y ∷ rest) = x ++ (sep ∷ join sep (y ∷ rest))

-- a byte that `strings.TrimSpace` trims, on ASCII
abbrev pub is_space : ℕ → Bool
is_space c = c == 32 || leb 9 c && leb c 13

unfoldable pub trim_left : Bytes → Bytes
trim_left [] = []
trim_left (c ∷ s) = if is_space c then trim_left s else c ∷ s

unfoldable pub trim_right : Bytes → Bytes
trim_right [] = []
trim_right (c ∷ s) = let rest = trim_right s in if is_space c && is_nil rest then [] else c ∷ rest

-- `strings.TrimSpace`
abbrev pub trim_space : Bytes → Bytes
trim_space s = trim_right (trim_left s)

-- '0' to '9'
abbrev pub is_digit : ℕ → Bool
is_digit c = leb b'0' c && leb c b'9'

abbrev pub is_lower_letter : ℕ → Bool
is_lower_letter c = leb b'a' c && leb c b'z'

split_pieces-append :
    (sep : ℕ) (a b : Bytes)
    → split_pieces sep (a ++ (sep ∷ b)) ≡ record {
      first = (split_pieces sep a).first;
      others = (split_pieces sep a).others ++ split sep b;
    }
unfolding split_pieces split
split_pieces-append sep [] b = ground arith
split_pieces-append sep (c ∷ a) b = ground (arith, split_pieces-append sep a b)

-- A separator between two texts keeps their pieces apart.
pub split-append : (sep : ℕ) (a b : Bytes) → split sep (a ++ (sep ∷ b)) ≡ split sep a ++ split sep b
unfolding split
split-append sep a b = cc (split_pieces-append sep a b)

-- the byte stands nowhere in the text
abbrev pub lacks : ℕ → Bytes → Bool
lacks sep = every (λ c. not (c == sep))

split_pieces-lacks :
    (sep : ℕ) (x : Bytes)
    → lacks sep x ≡ true
    → split_pieces sep x ≡ record { first = x; others = [] }
unfolding split_pieces
split_pieces-lacks sep [] h = refl
split_pieces-lacks sep (c ∷ x) h = ground (arith, split_pieces-lacks sep x)

pub split-lacks : (sep : ℕ) (x : Bytes) → lacks sep x ≡ true → split sep x ≡ x ∷ []
unfolding split
split-lacks sep x h = cc (split_pieces-lacks sep x h)

-- Splitting undoes joining, for at least one piece and pieces without the separator.
pub split-join :
    (sep : ℕ) (x : Bytes) (xs : List Bytes)
    → All (λ y. lacks sep y ≡ true) (x ∷ xs)
    → split sep (join sep (x ∷ xs)) ≡ x ∷ xs
unfolding join
split-join sep x [] h = split-lacks sep x h.0
split-join sep x (y ∷ xs) h =
    split-append sep x (join sep (y ∷ xs)) ∙ cc (split-lacks sep x h.0, split-join sep y xs h.1)

pub cut-lacks :
    (sep : ℕ) (s : Bytes)
    → lacks sep s ≡ true
    → cut sep s ≡ record { before = s; after = []; found = false }
unfolding cut
cut-lacks sep [] h = refl
cut-lacks sep (c ∷ s) h = ground (arith, cut-lacks sep s)

pub lacks-join :
    (b sep : ℕ) (xs : List Bytes)
    → (sep == b) ≡ false
    → All (λ y. lacks b y ≡ true) xs
    → lacks b (join sep xs) ≡ true
unfolding join
lacks-join b sep [] e h = refl
lacks-join b sep (x ∷ []) e h = h.0
lacks-join b sep (x ∷ y ∷ xs) e h =
    every-append (λ c. not (c == b)) x (sep ∷ join sep (y ∷ xs))
    ∙ ground (arith, lacks-join b sep (y ∷ xs) e)
