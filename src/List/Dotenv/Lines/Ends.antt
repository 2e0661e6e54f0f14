-- ===== src/List/Dotenv/Lines/Ends.antt =====
-- Termination of `ParseDotenv`, internal/list/dotenv.go.
use oku.Base.{
  Bool, Bytes, List, Option, Result, [], arith, codes, cut, err, false, has_prefix, if◌then◌else◌,
  is_nil, length, none, not, ok, some, suc, trim_prefix, trim_space, true, zero, ℕ, ◌&&◌, ◌++◌, ◌+◌,
  ◌==◌, ◌>>=◌, ◌||◌, ◌∷◌, ◌≢◌, ◌≤◌,
}
use oku.List.Dotenv.{Closed, DotenvVar, closing, valid_env_name}
use oku.List.Dotenv.Lines.{
  DotenvError, Taken, dotenv_lines, drop_spaces, gather, out_of_fuel, own_first, parse_dotenv,
  quoted_value, read_assignments, read_assignment, read_value, taken_or, with_name, with_var,
}

left-gather :
    (quote : ℕ) (body : Bytes) (left : List Bytes) (line : ℕ)
    → length (gather quote body left line).left ≤ length left
unfolding gather
left-gather quote body [] line = omega arith
left-gather quote body (next ∷ left) line =
    one (closing quote body) (gather quote (body ++ (10 ∷ next)) left (line + 1))
      (left-gather quote (body ++ (10 ∷ next)) left (line + 1))
  where
    one :
        (x : Option Closed) (later : Taken (Option Closed))
        → length later.left ≤ length left
        → length (taken_or x (next ∷ left) line later).left ≤ suc (length left)
    one none later h = omega arith
    one (some closed) later h = omega arith

-- a round takes no line back, and does not run out of fuel
abbrev Goes : (V : Type 0) → List Bytes → Result DotenvError (Taken V) → Type 0
Goes V left (err e) = e ≢ out_of_fuel
Goes V left (ok taken) = length taken.left ≤ length left

if-Goes :
    (V : Type 0) (left : List Bytes) (b : Bool) (x y : Result DotenvError (Taken V))
    → Goes V left x
    → Goes V left y
    → Goes V left (if b then x else y)
if-Goes V left true x y h k = h
if-Goes V left false x y h k = k

with_name-Goes :
    (left : List Bytes) (name : Bytes) (x : Result DotenvError (Taken Bytes))
    → Goes Bytes left x
    → Goes (Option DotenvVar) left (x >>= λ taken. ok (with_name name taken))
with_name-Goes left name (err e) h = h
with_name-Goes left name (ok taken) h = h

module _ (look : Bytes → Option Bytes) where
  quoted_value-Goes :
      (quote at : ℕ) (x : Option Closed) (taken_left left : List Bytes) (line : ℕ)
      → length taken_left ≤ length left
      → Goes Bytes left (quoted_value look quote at x taken_left line)
  unfolding quoted_value
  quoted_value-Goes quote at none taken_left left line h = λ e. cc
  quoted_value-Goes quote at (some closed) taken_left left line h =
      if-Goes Bytes left
        (not (is_nil (trim_space closed.behind))
          && not (has_prefix (b'#' ∷ []) (trim_space closed.behind)))
        _ _ (λ e. cc) h

  read_value-Goes :
      (at : ℕ) (value : Bytes) (left : List Bytes) (line : ℕ)
      → Goes Bytes left (read_value look at value left line)
  unfolding read_value
  read_value-Goes at [] left line = omega arith
  read_value-Goes at (c ∷ body) left line =
      let taken = gather c body left line in
      if-Goes Bytes left (c == b'\'' || c == b'"') _ _
        (quoted_value-Goes c at taken.item taken.left left taken.line
          (left-gather c body left line))
        (omega arith)

  read_assignment-Goes :
      (line : Bytes) (left : List Bytes) (at : ℕ)
      → Goes (Option DotenvVar) left (read_assignment look line left at)
  unfolding read_assignment
  read_assignment-Goes line left at =
      let entry = trim_space line in
      let parts = cut b'=' (trim_prefix (codes "export ") entry) in
      let name = trim_space parts.before in
      if-Goes (Option DotenvVar) left (is_nil entry || has_prefix (b'#' ∷ []) entry) _ _
        (omega arith)
        (if-Goes (Option DotenvVar) left (not parts.found) _ _ (λ e. cc)
          (if-Goes (Option DotenvVar) left (not (valid_env_name name)) _ _ (λ e. cc)
            (with_name-Goes left name (read_value look at (drop_spaces parts.after) left (at + 1))
              (read_value-Goes at (drop_spaces parts.after) left (at + 1)))))

var-ends :
    (var : DotenvVar) (x : Result DotenvError (List DotenvVar))
    → x ≢ err out_of_fuel
    → (x >>= λ vars. ok (var ∷ vars)) ≢ err out_of_fuel
var-ends var (err e) h = λ k. h k
var-ends var (ok vars) h = λ k. cc

read_assignments-ends :
    (fuel : ℕ) (look : Bytes → Option Bytes) (lines : List Bytes) (at : ℕ)
    → length lines ≤ fuel
    → read_assignments fuel look lines at ≢ err out_of_fuel
unfolding read_assignments
read_assignments-ends fuel look [] at h = λ e. cc
read_assignments-ends zero look (line ∷ left) at h = absurd (omega arith)
read_assignments-ends (suc fuel) look (line ∷ left) at h =
    entry (read_assignment look line left at) (read_assignment-Goes look line left at)
      (λ known rest next k. read_assignments-ends fuel known rest next (omega (arith, h, k)))
  where
    entry :
        (x : Result DotenvError (Taken (Option DotenvVar)))
        → Goes (Option DotenvVar) left x
        → ((known : Bytes → Option Bytes) (rest : List Bytes) (next : ℕ)
            → length rest ≤ length left
            → read_assignments fuel known rest next ≢ err out_of_fuel)
        → (x >>= λ taken.
            with_var taken.item look (λ known. read_assignments fuel known taken.left taken.line))
          ≢ err out_of_fuel
    entry (err e) g ends = λ k. g (cc)
    entry (ok taken) g ends = var taken.item
      where
        var :
            (x : Option DotenvVar)
            → with_var x look (λ known. read_assignments fuel known taken.left taken.line)
              ≢ err out_of_fuel
        var none = ends look taken.left taken.line g
        var (some v) =
            var-ends v (read_assignments fuel (own_first v look) taken.left taken.line)
              (ends (own_first v look) taken.left taken.line g)

-- The fuel of `parse_dotenv` is enough for every text.
pub parse_dotenv-ends :
    (text : Bytes) (look : Bytes → Option Bytes) → parse_dotenv text look ≢ err out_of_fuel
unfolding parse_dotenv
parse_dotenv-ends text look =
    read_assignments-ends (length (dotenv_lines text)) look (dotenv_lines text) 1 (omega arith)
