-- ===== src/Ref.antt =====
-- internal/ref/ref.go: the refs that point at manifests. A text is ASCII. Its children have the
-- names that the regular expressions accept, and ParseIn.
pub mod Shapes
pub mod Urls
pub mod Parse
pub mod Absent
pub mod Split
pub mod Round
pub mod Valid
pub mod Accepted
pub mod Reparse
use oku.Base.{
  Bool, Bytes, List, Option, [], any, codes, has_prefix, has_suffix, if◌then◌else◌, is_nil, none,
  not, some, ℕ, ◌&&◌, ◌++◌, ◌==◌, ◌||◌, ◌∷◌,
}
use oku.Expose.{after}

-- `Kind`
pub data Kind : Type 0 where
  file_kind http_kind forge_kind git_kind npm_kind pypi_kind go_kind cargo_kind cask_kind scoop_kind
        aqua_kind winget_kind :
      Kind

-- `Ref`
pub record Ref : Type 0 where
  pub kind : Kind
  pub location : Bytes
  pub scheme : Bytes
  pub fragment : Bytes
  pub version : Bytes

-- the errors of `ParseIn`, by what they say
pub data RefError : Type 0 where
  empty_ref no_fragment bad_location outside bad_name bad_schema bad_url not_encrypted
        unsupported_scheme unknown_scheme no_absolute_path :
      RefError

-- `hasAnyPrefix`
abbrev pub has_any_prefix : Bytes → List Bytes → Bool
has_any_prefix s prefixes = any (λ p. has_prefix p s) prefixes

-- `strings.ContainsAny` and `strings.Contains` of one byte
abbrev pub has_any_byte : List ℕ → Bytes → Bool
has_any_byte bytes = any (λ c. any (λ b. c == b) bytes)

-- the text before the last '@' and the one behind it
unfoldable pub cut_last : Bytes → Option (Bytes × Bytes)
cut_last [] = none
cut_last (c ∷ s) = elim (cut_last s) [
  | some (before, after) ↦ some (c ∷ before, after)
  | none ↦ if c == b'@' then some ([], s) else none
]

-- a version that `splitVersion` takes off a text
abbrev pub is_version : Bytes → Bool
is_version v = not (is_nil v) && not (has_any_byte (b'/' ∷ b':' ∷ b'#' ∷ []) v)

abbrev pub split_at : Bytes → Option (Bytes × Bytes) → Bytes × Bytes
split_at s none = (s, [])
split_at s (some (before, after)) =
    if not (is_nil before) && is_version after then (before, after) else (s, [])

-- `splitVersion`
unfoldable pub split_version : Bytes → Bytes × Bytes
split_version s = split_at s (cut_last s)

-- `isPath`
unfoldable pub is_path : Bytes → Bool
is_path fragment = has_any_byte (b'/' ∷ []) fragment || has_suffix (codes ".toml") fragment

-- the text before the location
unfoldable pub kind_prefix : Ref → Bytes
kind_prefix r = elim r.kind [
  | forge_kind ↦ r.scheme ++ codes ":"
  | git_kind ↦ codes "git+"
  | npm_kind ↦ codes "npm:"
  | pypi_kind ↦ codes "pypi:"
  | go_kind ↦ codes "go:"
  | cargo_kind ↦ codes "cargo:"
  | cask_kind ↦ codes "cask:"
  | scoop_kind ↦ codes "scoop:"
  | aqua_kind ↦ codes "aqua:"
  | winget_kind ↦ codes "winget:"
  | file_kind ↦ []
  | http_kind ↦ []
]

abbrev pub with_fragment : Bytes → Bytes
with_fragment [] = []
with_fragment (c ∷ fragment) = b'#' ∷ c ∷ fragment

-- `Ref.String`
unfoldable pub to_string : Ref → Bytes
to_string r = kind_prefix r ++ (r.location ++ with_fragment r.fragment)
