-- ===== src/List/Dotenv/Lines/Printed.antt =====
-- `ParseDotenv` of internal/list/dotenv.go on variables printed in double quotes.
use mathlib.Core.List.{append_assoc}
use oku.Base.{
  ==_iff, All, Bytes, List, Option, [], ap, arith, codes, cut, cut_prefix, every, every-append,
  false, has_prefix, is_nil, is_space, lacks, length, map, none, not, ok, or_whole, refl, some,
  split, split-append, split-lacks, split_pieces, suc, trim_left, trim_prefix, trim_right,
  trim_space, true, zero, ℕ, ◌++◌, ◌+◌, ◌==◌, ◌||◌, ◌∙◌, ◌∷◌, ◌≡◌, ◌≤◌,
}
use oku.List.Dotenv.{Closed, DotenvVar, closing, is_name_byte, valid_env_name}
use oku.List.Dotenv.Lines.{
  dotenv_lines, drop_empty_end, gather, own_first, parse_dotenv, quoted_value, read_assignments,
  read_assignment, read_value, unix_lines,
}
use oku.List.Dotenv.Values.{closing-escape, escape, expand_dotenv-unescape, lacks-escape}

-- `NAME="value"` but for the last quote
abbrev line_start : DotenvVar → Bytes
line_start var = var.name ++ (b'=' ∷ b'"' ∷ escape var.value)

abbrev pub print_var : DotenvVar → Bytes
print_var var = line_start var ++ (b'"' ∷ [])

-- the text of a .env file, one line for each variable
unfoldable pub print_vars : List DotenvVar → Bytes
print_vars [] = []
print_vars (var ∷ vars) = print_var var ++ (10 ∷ print_vars vars)

abbrev pub AreNamed : List DotenvVar → Type 0
AreNamed = All (λ (var : DotenvVar). valid_env_name var.name ≡ true)

unix_lines-line :
    (s rest : Bytes)
    → lacks 10 s ≡ true
    → unix_lines ((s ++ (b'"' ∷ [])) ++ (10 ∷ rest)) ≡ (s ++ (b'"' ∷ [])) ++ (10 ∷ unix_lines rest)
unfolding unix_lines has_prefix
unix_lines-line [] rest h = refl
unix_lines-line (c ∷ []) rest h = ground arith
unix_lines-line (c ∷ d ∷ s) rest h = ground (arith, unix_lines-line (d ∷ s) rest)

lacks-name :
    (name : Bytes) (b : ℕ)
    → is_name_byte b false ≡ false
    → every (λ c. is_name_byte c false) name ≡ true
    → lacks b name ≡ true
lacks-name [] b h k = refl
lacks-name (c ∷ name) b h k = ground (arith, lacks-name name b h, ==_iff c b)

name_bytes :
    (name : Bytes) → valid_env_name name ≡ true → every (λ c. is_name_byte c false) name ≡ true
unfolding valid_env_name is_name_byte
name_bytes [] h = cc
name_bytes (c ∷ name) h = ground arith

lacks-line_start :
    (var : DotenvVar) → valid_env_name var.name ≡ true → lacks 10 (line_start var) ≡ true
unfolding is_name_byte
lacks-line_start var h =
    every-append (λ c. not (c == 10)) var.name (b'=' ∷ b'"' ∷ escape var.value)
    ∙ ground (arith, lacks-name var.name 10 refl (name_bytes var.name h), lacks-escape var.value)

lacks-print_var :
    (var : DotenvVar) → valid_env_name var.name ≡ true → lacks 10 (print_var var) ≡ true
lacks-print_var var h =
    every-append (λ c. not (c == 10)) (line_start var) (b'"' ∷ [])
    ∙ ground (arith, lacks-line_start var h)

not_nil : (s : Bytes) (c : ℕ) → is_nil (s ++ (c ∷ [])) ≡ false
not_nil [] c = refl
not_nil (d ∷ s) c = refl

trim_left-name :
    (name s rest : Bytes)
    → valid_env_name name ≡ true
    → trim_left ((name ++ s) ++ rest) ≡ (name ++ s) ++ rest
unfolding trim_left valid_env_name is_name_byte
trim_left-name [] s rest h = cc
trim_left-name (c ∷ name) s rest h = ground arith

trim_right-last :
    (s : Bytes) (c : ℕ) → is_space c ≡ false → trim_right (s ++ (c ∷ [])) ≡ s ++ (c ∷ [])
unfolding trim_right
trim_right-last [] c h = ground arith
trim_right-last (d ∷ s) c h = rw (trim_right-last s c h) (ground (arith, not_nil s c))

trim_space-print_var :
    (var : DotenvVar) → valid_env_name var.name ≡ true → trim_space (print_var var) ≡ print_var var
trim_space-print_var var h =
    ap trim_right (trim_left-name var.name (b'=' ∷ b'"' ∷ escape var.value) (b'"' ∷ []) h)
    ∙ trim_right-last (line_start var) b'"' refl

cut_prefix-none :
    (p name rest : Bytes)
    → lacks b'=' p ≡ true
    → every (λ c. is_name_byte c false) name ≡ true
    → cut_prefix (p ++ (b' ' ∷ [])) (name ++ (b'=' ∷ rest)) ≡ none
unfolding cut_prefix is_name_byte
cut_prefix-none [] [] rest h k = refl
cut_prefix-none [] (c ∷ name) rest h k = ground arith
cut_prefix-none (d ∷ p) [] rest h k = ground arith
cut_prefix-none (d ∷ p) (c ∷ name) rest h k = ground (arith, cut_prefix-none p name rest)

cut_here :
    (sep : ℕ) (s rest : Bytes)
    → lacks sep s ≡ true
    → cut sep (s ++ (sep ∷ rest)) ≡ record { before = s; after = rest; found = true }
unfolding cut
cut_here sep [] rest h = ground arith
cut_here sep (c ∷ s) rest h = ground (arith, cut_here sep s rest)

trim_left_plain :
    (name : Bytes) → every (λ c. is_name_byte c false) name ≡ true → trim_left name ≡ name
unfolding trim_left is_name_byte
trim_left_plain [] h = refl
trim_left_plain (c ∷ name) h = ground arith

trim_right_plain :
    (name : Bytes) → every (λ c. is_name_byte c false) name ≡ true → trim_right name ≡ name
unfolding trim_right is_name_byte
trim_right_plain [] h = refl
trim_right_plain (c ∷ name) h = ground (arith, trim_right_plain name)

trim_name : (name : Bytes) → every (λ c. is_name_byte c false) name ≡ true → trim_space name ≡ name
trim_name name h = ap trim_right (trim_left_plain name h) ∙ trim_right_plain name h

gather-closed :
    (quote : ℕ) (body : Bytes) (left : List Bytes) (line : ℕ) (closed : Closed)
    → closing quote body ≡ some closed
    → gather quote body left line ≡ record { item = some closed; left = left; line = line }
unfolding gather
gather-closed quote body [] line closed h = rw h
gather-closed quote body (next ∷ left) line closed h = rw h

quoted_value-escape :
    (look : Bytes → Option Bytes) (at : ℕ) (v : Bytes) (left : List Bytes) (line : ℕ)
    → quoted_value look b'"' at (some (record { body = escape v; behind = [] })) left line
      ≡ ok (record { item = v; left = left; line = line })
unfolding quoted_value trim_left trim_right
quoted_value-escape look at v left line = rw (expand_dotenv-unescape look v)

read_value-escape :
    (look : Bytes → Option Bytes) (at : ℕ) (v : Bytes) (left : List Bytes) (line : ℕ)
    → read_value look at (b'"' ∷ (escape v ++ (b'"' ∷ []))) left line
      ≡ ok (record { item = v; left = left; line = line })
unfolding read_value
read_value-escape look at v left line =
    rw
      (gather-closed b'"' (escape v ++ (b'"' ∷ [])) left line
        (record { body = escape v; behind = [] }) (closing-escape v []))
      (quoted_value-escape look at v left line)

print_var-append :
    (var : DotenvVar)
    → print_var var ≡ var.name ++ (b'=' ∷ (b'"' ∷ (escape var.value ++ (b'"' ∷ []))))
print_var-append var = append_assoc var.name (b'=' ∷ b'"' ∷ escape var.value) (b'"' ∷ [])

trim_prefix-print_var :
    (var : DotenvVar)
    → valid_env_name var.name ≡ true
    → trim_prefix (codes "export ") (print_var var) ≡ print_var var
trim_prefix-print_var var h =
    ap (λ x. or_whole x (print_var var))
      (ap (cut_prefix (codes "export ")) (print_var-append var)
        ∙ cut_prefix-none (codes "export") var.name (b'"' ∷ (escape var.value ++ (b'"' ∷ []))) refl
            (name_bytes var.name h))

cut-print_var :
    (var : DotenvVar)
    → valid_env_name var.name ≡ true
    → cut b'=' (print_var var)
      ≡ record { before = var.name; after = b'"' ∷ (escape var.value ++ (b'"' ∷ [])); found = true }
unfolding is_name_byte
cut-print_var var h =
    ap (cut b'=') (print_var-append var)
    ∙ cut_here b'=' var.name (b'"' ∷ (escape var.value ++ (b'"' ∷ [])))
        (lacks-name var.name b'=' refl (name_bytes var.name h))

first_byte :
    (name s rest : Bytes)
    → valid_env_name name ≡ true
    → (is_nil ((name ++ s) ++ rest) || has_prefix (b'#' ∷ []) ((name ++ s) ++ rest)) ≡ false
unfolding valid_env_name is_name_byte has_prefix
first_byte [] s rest h = cc
first_byte (c ∷ name) s rest h = ground arith

read_assignment-print_var :
    (look : Bytes → Option Bytes) (var : DotenvVar) (left : List Bytes) (at : ℕ)
    → valid_env_name var.name ≡ true
    → read_assignment look (print_var var) left at
      ≡ ok (record { item = some var; left = left; line = at + 1 })
unfolding read_assignment
read_assignment-print_var look var left at h = rw (
  trim_space-print_var var h,
  first_byte var.name (b'=' ∷ b'"' ∷ escape var.value) (b'"' ∷ []) h,
  trim_prefix-print_var var h,
  cut-print_var var h,
  trim_name var.name (name_bytes var.name h),
  h,
  read_value-escape look at var.value left (at + 1),
)

read_assignments-print_var :
    (look : Bytes → Option Bytes) (vars : List DotenvVar) (n at : ℕ)
    → AreNamed vars
    → length (map print_var vars) ≤ n
    → read_assignments n look (map print_var vars) at ≡ ok vars
unfolding read_assignments
read_assignments-print_var look [] n at h k = refl
read_assignments-print_var look (var ∷ vars) zero at h k = absurd (omega arith)
read_assignments-print_var look (var ∷ vars) (suc n) at h k = rw (
  read_assignment-print_var look var (map print_var vars) at h.0,
  read_assignments-print_var (own_first var look) vars n (at + 1) h.1 (omega (arith, k)),
)

unix_lines-print_vars :
    (vars : List DotenvVar) → AreNamed vars → unix_lines (print_vars vars) ≡ print_vars vars
unfolding print_vars
unix_lines-print_vars [] h = unfold unix_lines in refl
unix_lines-print_vars (var ∷ vars) h =
    unix_lines-line (line_start var) (print_vars vars) (lacks-line_start var h.0)
    ∙ rw (unix_lines-print_vars vars h.1)

split-print_vars :
    (vars : List DotenvVar)
    → AreNamed vars
    → split 10 (print_vars vars) ≡ map print_var vars ++ ([] ∷ [])
unfolding print_vars
split-print_vars [] h = unfold split split_pieces in refl
split-print_vars (var ∷ vars) h =
    split-append 10 (print_var var) (print_vars vars)
    ∙ rw (split-lacks 10 (print_var var) (lacks-print_var var h.0), split-print_vars vars h.1)

drop_empty_end-more :
    (x y : Bytes) (l : List Bytes)
    → drop_empty_end (x ∷ (l ++ (y ∷ []))) ≡ x ∷ drop_empty_end (l ++ (y ∷ []))
drop_empty_end-more x y [] = refl
drop_empty_end-more x y (z ∷ l) = refl

drop_empty_end-lines :
    (vars : List DotenvVar) → drop_empty_end (map print_var vars ++ ([] ∷ [])) ≡ map print_var vars
drop_empty_end-lines [] = refl
drop_empty_end-lines (var ∷ vars) =
    drop_empty_end-more (print_var var) [] (map print_var vars)
    ∙ ap (λ l. print_var var ∷ l) (drop_empty_end-lines vars)

-- A file with one line for each variable, its name, an equals sign and the escaped value in double
-- quotes, is read back as these variables, whatever the environment is, if each name is a name of a
-- variable. A value may hold any bytes.
pub parse_dotenv-print_vars :
    (look : Bytes → Option Bytes) (vars : List DotenvVar)
    → AreNamed vars
    → parse_dotenv (print_vars vars) look ≡ ok vars
unfolding parse_dotenv dotenv_lines
parse_dotenv-print_vars look vars h =
    let lines =
      ap (λ s. drop_empty_end (split 10 s)) (unix_lines-print_vars vars h)
      ∙ ap drop_empty_end (split-print_vars vars h)
      ∙ drop_empty_end-lines vars in
    rw lines (read_assignments-print_var look vars (length (map print_var vars)) 1 h (omega arith))
