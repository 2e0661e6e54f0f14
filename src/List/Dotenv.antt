-- ===== src/List/Dotenv.antt =====
-- internal/list/dotenv.go: the reader of .env files. `ValidEnvName` is of
-- internal/manifest/manifest.go.
pub mod Lines
pub mod Values
use oku.Base.{
  Bool, Bytes, Cut, Option, [], cut, every, false, has_prefix, if◌then◌else◌, is_nil, leb, length,
  none, not, some, suc, true, zero, ℕ, ◌&&◌, ◌++◌, ◌==◌, ◌||◌, ◌∷◌,
}

-- `DotenvVar`
pub record DotenvVar : Type 0 where
  pub name : Bytes
  pub value : Bytes

-- the text without its first byte
abbrev pub drop_byte : Bytes → Bytes
drop_byte [] = []
drop_byte (c ∷ s) = s

-- `isNameByte`
unfoldable pub is_name_byte : ℕ → Bool → Bool
is_name_byte c is_first =
    c == b'_'
    || leb b'A' c && leb c b'Z'
    || leb b'a' c && leb c b'z'
    || not is_first && leb b'0' c && leb c b'9'

-- `ValidEnvName`, the expression ^[A-Za-z_][A-Za-z0-9_]*$
unfoldable pub valid_env_name : Bytes → Bool
valid_env_name [] = false
valid_env_name (c ∷ name) = is_name_byte c true && every (λ d. is_name_byte d false) name

-- the index that `closing` returns, as the text before it and the text behind it
pub record Closed : Type 0 where
  pub body : Bytes
  pub behind : Bytes

abbrev pub push_byte : ℕ → Option Closed → Option Closed
push_byte c none = none
push_byte c (some closed) = some (record closed { body = c ∷ closed.body })

-- the loop of `closing`; `skips` says that the `i++` behind a backslash skips the next byte
unfoldable pub closing_from : ℕ → Bool → Bytes → Option Closed
closing_from quote skips [] = none
closing_from quote skips (c ∷ body) =
    let escapes = not skips && quote == b'"' && c == b'\\' in
    let next = push_byte c (closing_from quote escapes body) in
    if not skips && not escapes && c == quote
    then some (record { body = []; behind = body })
    else next

-- `closing`
unfoldable pub closing : ℕ → Bytes → Option Closed
closing quote body = closing_from quote false body

-- what `unescape` writes for the byte behind a backslash
unfoldable pub unescaped : ℕ → Bytes
unescaped c =
    if c == b'n'
    then 10 ∷ []
    else if c == b't'
    then 9 ∷ []
    else if c == b'$'
    then b'\\' ∷ b'$' ∷ []
    else c ∷ []

-- the loop of `unescape`; `behind` says that a backslash stands before
unfoldable pub unescape_from : Bool → Bytes → Bytes
unescape_from behind [] = if behind then b'\\' ∷ [] else []
unescape_from behind (c ∷ value) =
    let escapes = not behind && c == b'\\' in
    let rest = unescape_from escapes value in
    if behind then unescaped c ++ rest else if escapes then rest else c ∷ rest

-- `unescape`
unfoldable pub unescape : Bytes → Bytes
unescape value = unescape_from false value

-- `strings.Cut` at two bytes
unfoldable pub cut_two : ℕ → ℕ → Bytes → Cut
cut_two a b [] = record { before = []; after = []; found = false }
cut_two a b (c ∷ s) =
    let rest = cut_two a b s in
    if has_prefix (a ∷ b ∷ []) (c ∷ s)
    then record { before = []; after = drop_byte s; found = true }
    else record rest { before = c ∷ rest.before }

-- one round of `expandDotenv`: what it writes and what is left of the value
pub record Round : Type 0 where
  pub out : Bytes
  pub rest : Bytes

-- the bytes of a name, and what follows
unfoldable pub name_span : Bool → Bytes → Round
name_span is_first [] = record { out = []; rest = [] }
name_span is_first (c ∷ value) =
    let span = name_span false value in
    if is_name_byte c is_first
    then record span { out = c ∷ span.out }
    else record { out = []; rest = c ∷ value }

abbrev pub got : Option Bytes → Bytes
got none = []
got (some value) = value

-- the round at "${", with the text behind the dollar sign
unfoldable pub expand_brace : (Bytes → Option Bytes) → Bytes → Round
expand_brace read value =
    let braces = cut b'}' value in
    let parts = cut_two b':' b'-' (drop_byte braces.before) in
    let text = got (read parts.before) in
    if not braces.found then record { out = b'$' ∷ value; rest = [] } else record {
      out = if is_nil text && parts.found then parts.after else text;
      rest = braces.after;
    }

-- the round at a dollar sign before anything else
unfoldable pub expand_name : (Bytes → Option Bytes) → Bytes → Round
expand_name read value =
    let span = name_span true value in
    if is_nil span.out
    then record { out = b'$' ∷ []; rest = value }
    else record { out = got (read span.out); rest = span.rest }

unfoldable pub expand_round : (Bytes → Option Bytes) → ℕ → Bytes → Round
expand_round read c value =
    if has_prefix (b'\\' ∷ b'$' ∷ []) (c ∷ value)
    then record { out = b'$' ∷ []; rest = drop_byte value }
    else if not (c == b'$')
    then record { out = c ∷ []; rest = value }
    else if has_prefix (b'{' ∷ []) value
    then expand_brace read value
    else expand_name read value

-- the loop of `expandDotenv`, on fuel
unfoldable pub expand_from : ℕ → (Bytes → Option Bytes) → Bytes → Bytes
expand_from zero read value = []
expand_from (suc n) read [] = []
expand_from (suc n) read (c ∷ value) =
    let round = expand_round read c value in round.out ++ expand_from n read round.rest

-- `expandDotenv`; every round takes a byte
unfoldable pub expand_dotenv : (Bytes → Option Bytes) → Bytes → Bytes
expand_dotenv read value = expand_from (length value) read value
