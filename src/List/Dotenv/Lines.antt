-- ===== src/List/Dotenv/Lines.antt =====
-- `ParseDotenv` of internal/list/dotenv.go. The text that is left to read is the list of its lines,
-- which `strings.Cut` at a newline takes one by one; it is empty when no line is left.
pub mod Ends
pub mod Printed
use oku.Base.{
  Bytes, List, Option, Result, [], codes, cut, equal, err, has_prefix, if◌then◌else◌, is_nil,
  length, none, not, ok, some, split, suc, trim_prefix, trim_space, zero, ℕ, ◌&&◌, ◌++◌, ◌+◌, ◌==◌,
  ◌>>=◌, ◌||◌, ◌∷◌,
}
use oku.List.Dotenv.{Closed, DotenvVar, closing, cut_two, expand_dotenv, unescape, valid_env_name}

-- `strings.ReplaceAll(text, "\r\n", "\n")`
unfoldable pub unix_lines : Bytes → Bytes
unix_lines [] = []
unix_lines (c ∷ text) =
    let rest = unix_lines text in if has_prefix (13 ∷ 10 ∷ []) (c ∷ text) then rest else c ∷ rest

abbrev pub drop_empty_end : List Bytes → List Bytes
drop_empty_end [] = []
drop_empty_end (x ∷ []) = if is_nil x then [] else x ∷ []
drop_empty_end (x ∷ y ∷ l) = x ∷ drop_empty_end (y ∷ l)

-- the lines of a text, without an empty one at its end
unfoldable pub dotenv_lines : Bytes → List Bytes
dotenv_lines text = drop_empty_end (split 10 (unix_lines text))

-- The errors of `ParseDotenv`, each at a line. The last one is the model's, for too little fuel.
pub data DotenvError : Type 0 where
  no_assignment : ℕ → DotenvError
  bad_name : ℕ → Bytes → DotenvError
  quote_open : ℕ → ℕ → DotenvError
  after_quote : ℕ → Bytes → DotenvError
  out_of_fuel : DotenvError

-- a value with the lines that are left and the number of the next line
pub record Taken (V : Type 0) : Type 0 where
  pub item : V
  pub left : List Bytes
  pub line : ℕ

abbrev pub drop_spaces : Bytes → Bytes
drop_spaces [] = []
drop_spaces (c ∷ s) = let rest = drop_spaces s in if c == 32 || c == 9 then rest else c ∷ s

abbrev pub taken_or : Option Closed → List Bytes → ℕ → Taken (Option Closed) → Taken (Option Closed)
taken_or none left line later = later
taken_or (some closed) left line later = record { item = some closed; left = left; line = line }

-- the loop that joins lines until the quote closes
unfoldable pub gather : ℕ → Bytes → List Bytes → ℕ → Taken (Option Closed)
gather quote body [] line = record { item = closing quote body; left = []; line = line }
gather quote body (next ∷ left) line =
    taken_or (closing quote body) (next ∷ left) line
      (gather quote (body ++ (10 ∷ next)) left (line + 1))

abbrev pub with_name : Bytes → Taken Bytes → Taken (Option DotenvVar)
with_name name taken = record {
  item = some (record { name = name; value = taken.item });
  left = taken.left;
  line = taken.line;
}

module _ (look : Bytes → Option Bytes) where
  -- the value between quotes, with the lines behind it
  unfoldable pub quoted_value :
      ℕ → ℕ → Option Closed → List Bytes → ℕ → Result DotenvError (Taken Bytes)
  quoted_value quote at none left line = err (quote_open at quote)
  quoted_value quote at (some closed) left line =
      let rest = trim_space closed.behind in
      if not (is_nil rest) && not (has_prefix (b'#' ∷ []) rest)
      then err (after_quote at rest)
      else ok (record {
        item = if quote == b'"' then expand_dotenv look (unescape closed.body) else closed.body;
        left = left;
        line = line;
      })

  -- the value without quotes
  unfoldable pub bare_value : Bytes → Bytes
  bare_value value =
      let parts = cut_two b' ' b'#' value in
      expand_dotenv look (trim_space (if parts.found then parts.before else value))

  unfoldable pub read_value : ℕ → Bytes → List Bytes → ℕ → Result DotenvError (Taken Bytes)
  read_value at [] left line = ok (record { item = bare_value []; left = left; line = line })
  read_value at (c ∷ body) left line =
      if c == b'\'' || c == b'"'
      then (let taken = gather c body left line in
          quoted_value c at taken.item taken.left taken.line)
      else ok (record { item = bare_value (c ∷ body); left = left; line = line })

  -- the body of the loop of `ParseDotenv`, which `at` numbers
  unfoldable pub read_assignment :
      Bytes → List Bytes → ℕ → Result DotenvError (Taken (Option DotenvVar))
  read_assignment line left at =
      let entry = trim_space line in
      let parts = cut b'=' (trim_prefix (codes "export ") entry) in
      let name = trim_space parts.before in
      if is_nil entry || has_prefix (b'#' ∷ []) entry
      then ok (record { item = none; left = left; line = at + 1 })
      else if not parts.found
      then err (no_assignment at)
      else if not (valid_env_name name)
      then err (bad_name at name)
      else read_value at (drop_spaces parts.after) left (at + 1) >>= λ taken.
          ok (with_name name taken)

-- `read` in `ParseDotenv`: the file's own variables first
abbrev pub own_first : DotenvVar → (Bytes → Option Bytes) → Bytes → Option Bytes
own_first var look name = if equal var.name name then some var.value else look name

abbrev pub with_var :
    Option DotenvVar
    → (Bytes → Option Bytes)
    → ((Bytes → Option Bytes) → Result DotenvError (List DotenvVar))
    → Result DotenvError (List DotenvVar)
with_var none look go_on = go_on look
with_var (some var) look go_on = go_on (own_first var look) >>= λ vars. ok (var ∷ vars)

-- the loop of `ParseDotenv`, on fuel
unfoldable pub read_assignments :
    ℕ → (Bytes → Option Bytes) → List Bytes → ℕ → Result DotenvError (List DotenvVar)
read_assignments fuel look [] at = ok []
read_assignments zero look (line ∷ left) at = err out_of_fuel
read_assignments (suc fuel) look (line ∷ left) at = read_assignment look line left at >>= λ taken.
    with_var taken.item look (λ known. read_assignments fuel known taken.left taken.line)

-- `ParseDotenv`; a round takes a line at least
unfoldable pub parse_dotenv : Bytes → (Bytes → Option Bytes) → Result DotenvError (List DotenvVar)
parse_dotenv text look =
    let lines = dotenv_lines text in read_assignments (length lines) look lines 1
