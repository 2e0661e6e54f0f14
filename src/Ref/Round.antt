-- ===== src/Ref/Round.antt =====
-- What ParseIn of internal/ref/ref.go reads from the text that Ref.String writes for a forge's ref,
-- with its version behind '@' as internal/cli/generations.go puts it.
use mathlib.Core.List.{append-nil}
use oku.Base.{
  Bytes, [], arith, contains, cut, cut-lacks, false, has_prefix, is_nil, lacks, none, not, ok, refl,
  true, ◌++◌, ◌∷◌, ◌≡◌,
}
use oku.Ref.{Kind, Ref, split_version, to_string, with_fragment}
use oku.Ref.Absent.{IsForeign, fits_scheme-lacks, scheme-induction}
use oku.Ref.Parse.{
  first_body, fits_scheme, forge_schemes, fragment_error, in_dir, parse_body, parse_forge, parse_in,
}
use oku.Ref.Split.{cut-append}
use oku.Ref.Urls.{System, repo_url}

abbrev pub with_version : Bytes → Bytes → Bytes
with_version s [] = s
with_version s (c ∷ version) = s ++ (b'@' ∷ c ∷ version)

-- the argument of the `oku add` that generations.go prints
abbrev pub spelled : Ref → Bytes
spelled r = with_version (to_string r) r.version

abbrev pub forge_ref : Bytes → Bytes → Bytes → Bytes → Ref
forge_ref scheme location fragment version = record {
  kind = Kind.forge_kind;
  location = location;
  scheme = scheme;
  fragment = fragment;
  version = version;
}

hash-IsForeign : IsForeign b'#'
hash-IsForeign = record {
  no_word = refl;
  no_owner = refl;
  no_repo = refl;
  no_slash = refl;
  no_dot = refl;
  no_below = refl;
}

pub at-IsForeign : IsForeign b'@'
at-IsForeign = record {
  no_word = refl;
  no_owner = refl;
  no_repo = refl;
  no_slash = refl;
  no_dot = refl;
  no_below = refl;
}

cut-with_fragment :
    (location fragment : Bytes)
    → lacks b'#' location ≡ true
    → cut b'#' (location ++ with_fragment fragment)
      ≡ record { before = location; after = fragment; found = not (is_nil fragment) }
cut-with_fragment location [] h = rw (append-nil location) (cut-lacks b'#' location h)
cut-with_fragment location (c ∷ fragment) h = cut-append b'#' location (c ∷ fragment) h

pub parse_forge-print :
    (system : System) (scheme location fragment version : Bytes)
    → contains forge_schemes scheme ≡ true
    → fits_scheme scheme location ≡ true
    → fragment_error system fragment ≡ none
    → parse_forge system (scheme ++ (b':' ∷ (location ++ with_fragment fragment))) version
      ≡ ok (forge_ref scheme location fragment version)
unfolding parse_forge
parse_forge-print system scheme location fragment version known fit inside =
    let no_colon = scheme-induction (λ s. lacks b':' s ≡ true) refl refl refl refl scheme known in
    let no_hash = fits_scheme-lacks b'#' hash-IsForeign scheme location known fit in
    rw
      (
        cut-append b':' scheme (location ++ with_fragment fragment) no_colon,
        cut-with_fragment location fragment no_hash,
        fit,
        inside,
      )
      ground arith

-- A text that starts with a forge's scheme is read as that forge's.
pub parse_in-forge :
    (system : System) (dir scheme tail rest version : Bytes)
    → contains forge_schemes scheme ≡ true
    → system.exists (in_dir system dir (scheme ++ (b':' ∷ tail))) ≡ false
    → split_version (scheme ++ (b':' ∷ tail)) ≡ (scheme ++ (b':' ∷ rest), version)
    → parse_in system dir (scheme ++ (b':' ∷ tail))
      ≡ parse_forge system (scheme ++ (b':' ∷ rest)) version
unfolding parse_in first_body parse_body repo_url has_prefix
parse_in-forge system dir scheme tail rest version known =
    scheme-induction
      (λ s.
        system.exists (in_dir system dir (s ++ (b':' ∷ tail))) ≡ false
        → split_version (s ++ (b':' ∷ tail)) ≡ (s ++ (b':' ∷ rest), version)
        → parse_in system dir (s ++ (b':' ∷ tail))
          ≡ parse_forge system (s ++ (b':' ∷ rest)) version)
      (λ no_file split. rw (no_file, split)) (λ no_file split. rw (no_file, split))
      (λ no_file split. rw (no_file, split)) (λ no_file split. rw (no_file, split)) scheme known
