-- ===== src/List/Dotenv/Values.antt =====
-- Values in double quotes, for `closing`, `unescape` and `expandDotenv` of internal/list/dotenv.go.
use mathlib.Core.List.{append_assoc}
use oku.Base.{
  ==_iff, Bool-cases, Bytes, Option, [], ap, arith, every, false, has_prefix, if◌then◌else◌, inl,
  inr, lacks, length, refl, some, suc, sym, true, zero, ℕ, ◌++◌, ◌==◌, ◌∙◌, ◌∷◌, ◌≡◌, ◌≤◌,
}
use oku.List.Dotenv.{
  Closed, Round, closing, closing_from, expand_dotenv, expand_from, expand_round, is_name_byte,
  push_byte, unescape, unescape_from, unescaped,
}

-- a byte as it is written
unfoldable pub escape_byte : ℕ → Bytes
escape_byte c =
    if c == b'\\'
    then b'\\' ∷ b'\\' ∷ []
    else if c == b'"'
    then b'\\' ∷ b'"' ∷ []
    else if c == b'$'
    then b'\\' ∷ b'$' ∷ []
    else if c == 10
    then b'\\' ∷ b'n' ∷ []
    else c ∷ []

unfoldable pub escape : Bytes → Bytes
escape [] = []
escape (c ∷ v) = escape_byte c ++ escape v

-- a byte as `unescape` leaves it for `expandDotenv`
abbrev dollar_byte : ℕ → Bytes
dollar_byte c = if c == b'$' then b'\\' ∷ b'$' ∷ [] else c ∷ []

dollars : Bytes → Bytes
dollars [] = []
dollars (c ∷ v) = dollar_byte c ++ dollars v

unescape-escape_byte :
    (c : ℕ) (s : Bytes)
    → unescape_from false (escape_byte c ++ s) ≡ dollar_byte c ++ unescape_from false s
unfolding unescape_from escape_byte unescaped
unescape-escape_byte c s = ground arith

unescape-escape : (v : Bytes) → unescape_from false (escape v) ≡ dollars v
unfolding escape dollars
unescape-escape [] = unfold unescape_from in refl
unescape-escape (c ∷ v) = unescape-escape_byte c (escape v) ∙ rw (unescape-escape v)

no_dollar : (v : Bytes) → has_prefix (b'$' ∷ []) (dollars v) ≡ false
unfolding dollars has_prefix
no_dollar [] = refl
no_dollar (c ∷ v) = ground arith

round_dollar :
    (look : Bytes → Option Bytes) (value : Bytes)
    → expand_round look b'\\' (b'$' ∷ value) ≡ record { out = b'$' ∷ []; rest = value }
unfolding expand_round has_prefix
round_dollar look value = refl

round_plain :
    (look : Bytes → Option Bytes) (c : ℕ) (value : Bytes)
    → (c == b'$') ≡ false
    → has_prefix (b'$' ∷ []) value ≡ false
    → expand_round look c value ≡ record { out = c ∷ []; rest = value }
unfolding expand_round has_prefix
round_plain look c value h k = ground arith

some_left : (c : ℕ) (s : Bytes) → length (dollar_byte c ++ s) ≤ 0 → ⊥
some_left c s h = ground arith

expand-dollars :
    (look : Bytes → Option Bytes) (v : Bytes) (n : ℕ)
    → length (dollars v) ≤ n
    → expand_from n look (dollars v) ≡ v
unfolding dollars expand_from
expand-dollars look [] zero h = refl
expand-dollars look [] (suc n) h = refl
expand-dollars look (c ∷ v) zero h = absurd (some_left c (dollars v) h)
expand-dollars look (c ∷ v) (suc n) h = elim (Bool-cases (c == b'$')) [
  | inl e ↦ rw e (
      ap (λ (r : Round). r.out ++ expand_from n look r.rest) (round_dollar look (dollars v))
      ∙ ap (λ s. b'$' ∷ s) (expand-dollars look v n (ground arith))
      ∙ ap (λ d. d ∷ v) (sym ((==_iff c b'$').0 e)))
  | inr e ↦ rw e (
      ap (λ (r : Round). r.out ++ expand_from n look r.rest)
        (round_plain look c (dollars v) e (no_dollar v))
      ∙ ap (λ s. c ∷ s) (expand-dollars look v n (ground arith)))
]

abbrev push_text : Bytes → Option Closed → Option Closed
push_text [] closed = closed
push_text (c ∷ s) closed = push_byte c (push_text s closed)

closing-escape_byte :
    (c : ℕ) (s : Bytes)
    → closing_from b'"' false (escape_byte c ++ s)
      ≡ push_text (escape_byte c) (closing_from b'"' false s)
unfolding closing_from escape_byte
closing-escape_byte c s = ground arith

push_text-some :
    (s : Bytes) (closed : Closed)
    → push_text s (some closed) ≡ some (record closed { body = s ++ closed.body })
push_text-some [] closed = refl
push_text-some (c ∷ s) closed = ap (push_byte c) (push_text-some s closed)

pub closing-escape :
    (v rest : Bytes)
    → closing b'"' (escape v ++ (b'"' ∷ rest)) ≡ some (record { body = escape v; behind = rest })
unfolding closing escape
closing-escape [] rest = unfold closing_from in refl
closing-escape (c ∷ v) rest =
    ap (closing_from b'"' false) (append_assoc (escape_byte c) (escape v) (b'"' ∷ rest))
    ∙ closing-escape_byte c (escape v ++ (b'"' ∷ rest))
    ∙ ap (push_text (escape_byte c)) (closing-escape v rest)
    ∙ push_text-some (escape_byte c) (record { body = escape v; behind = rest })

lacks-escape_byte : (c : ℕ) (s : Bytes) → lacks 10 (escape_byte c ++ s) ≡ lacks 10 s
unfolding escape_byte
lacks-escape_byte c s = ground arith

pub lacks-escape : (v : Bytes) → lacks 10 (escape v) ≡ true
unfolding escape
lacks-escape [] = refl
lacks-escape (c ∷ v) = lacks-escape_byte c (escape v) ∙ lacks-escape v

-- A value that is escaped is read back, whatever the variables are.
pub expand_dotenv-unescape :
    (look : Bytes → Option Bytes) (v : Bytes) → expand_dotenv look (unescape (escape v)) ≡ v
unfolding expand_dotenv unescape
expand_dotenv-unescape look v =
    rw (unescape-escape v) (expand-dollars look v (length (dollars v)) (omega arith))

unescape_plain :
    (v : Bytes) → every (λ c. is_name_byte c false) v ≡ true → unescape_from false v ≡ v
unfolding unescape_from is_name_byte
unescape_plain [] h = refl
unescape_plain (c ∷ v) h = ground (arith, unescape_plain v)

expand_plain :
    (look : Bytes → Option Bytes) (v : Bytes) (n : ℕ)
    → every (λ c. is_name_byte c false) v ≡ true
    → length v ≤ n
    → expand_from n look v ≡ v
unfolding expand_from expand_round is_name_byte has_prefix
expand_plain look [] zero h k = refl
expand_plain look [] (suc n) h k = refl
expand_plain look (c ∷ v) zero h k = absurd (omega arith)
expand_plain look (c ∷ v) (suc n) h k = ground (arith, expand_plain look v n)

unescape_dollar :
    (name : Bytes)
    → every (λ c. is_name_byte c false) name ≡ true
    → unescape (b'\\' ∷ b'\\' ∷ b'$' ∷ name) ≡ b'\\' ∷ b'$' ∷ name
unfolding unescape unescape_from unescaped
unescape_dollar name h = ap (λ s. b'\\' ∷ b'$' ∷ s) (unescape_plain name h)

expand_dollar :
    (look : Bytes → Option Bytes) (name : Bytes)
    → every (λ c. is_name_byte c false) name ≡ true
    → expand_dotenv look (b'\\' ∷ b'$' ∷ name) ≡ b'$' ∷ name
unfolding expand_dotenv expand_from
expand_dollar look name h =
    ap (λ (r : Round). r.out ++ expand_from (suc (length name)) look r.rest)
      (round_dollar look name)
    ∙ ap (λ s. b'$' ∷ s) (expand_plain look name (suc (length name)) h (omega arith))

-- In double quotes an escaped backslash before the name of a variable gives the dollar sign and the
-- name, whatever the variables are: the backslash is lost, and the variable is not expanded.
pub dotenv_backslash :
    (look : Bytes → Option Bytes) (name : Bytes)
    → every (λ c. is_name_byte c false) name ≡ true
    → expand_dotenv look (unescape (b'\\' ∷ b'\\' ∷ b'$' ∷ name)) ≡ b'$' ∷ name
dotenv_backslash look name h =
    ap (expand_dotenv look) (unescape_dollar name h) ∙ expand_dollar look name h
