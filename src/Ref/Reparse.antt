-- ===== src/Ref/Reparse.antt =====
-- Ref.String of internal/ref/ref.go and ParseIn undo one another on the refs of a forge.
use mathlib.Core.List.{append_assoc}
use oku.Base.{
  Bytes, [], and_true, ap, arith, codes, contains, every-append, false, is_nil, lacks, none, not,
  ok, refl, subst, sym, true, ℕ, ◌++◌, ◌==◌, ◌∙◌, ◌∷◌, ◌≡◌,
}
use oku.Ref.{Kind, Ref, is_version, kind_prefix, split_version, to_string, with_fragment}
use oku.Ref.Absent.{fits_scheme-lacks, scheme-induction}
use oku.Ref.Accepted.{parse_in-IsValid}
use oku.Ref.Parse.{fits_scheme, forge_schemes, fragment_error, in_dir, parse_forge, parse_in}
use oku.Ref.Round.{
  at-IsForeign, forge_ref, parse_forge-print, parse_in-forge, spelled, with_version,
}
use oku.Ref.Split.{split_version-append, split_version-lacks}
use oku.Ref.Urls.{System}
use oku.Ref.Valid.{IsPlaced, fragment_error-fits, version_ok}

is_nil-append : (s : Bytes) (c : ℕ) (tail : Bytes) → is_nil (s ++ (c ∷ tail)) ≡ false
is_nil-append [] c tail = refl
is_nil-append (d ∷ s) c tail = refl

lacks-with_fragment :
    (b : ℕ) (location fragment : Bytes)
    → (b'#' == b) ≡ false
    → lacks b location ≡ true
    → lacks b fragment ≡ true
    → lacks b (location ++ with_fragment fragment) ≡ true
lacks-with_fragment b location [] hash h k =
    every-append (λ c. not (c == b)) location [] ∙ ground arith
lacks-with_fragment b location (c ∷ fragment) hash h k =
    every-append (λ d. not (d == b)) location (b'#' ∷ c ∷ fragment) ∙ ground arith

-- A version behind a text that starts with a forge's scheme is taken off it.
parse_in-versioned :
    (system : System) (dir scheme tail version : Bytes)
    → contains forge_schemes scheme ≡ true
    → lacks b'@' tail ≡ true
    → version_ok version ≡ true
    → system.exists (in_dir system dir (with_version (scheme ++ (b':' ∷ tail)) version)) ≡ false
    → parse_in system dir (with_version (scheme ++ (b':' ∷ tail)) version)
      ≡ parse_forge system (scheme ++ (b':' ∷ tail)) version
parse_in-versioned system dir scheme tail [] known no_at fit no_file =
    parse_in-forge system dir scheme tail tail [] known no_file (
      split_version-lacks (scheme ++ (b':' ∷ tail)) (
        scheme-induction (λ s. lacks b'@' (s ++ (b':' ∷ tail)) ≡ true) no_at no_at no_at no_at
          scheme known))
parse_in-versioned system dir scheme tail (c ∷ version) known no_at fit no_file =
    let (right, at_free) = and_true (is_version (c ∷ version)) (lacks b'@' (c ∷ version)) fit in
    let shifted : (scheme ++ (b':' ∷ tail)) ++ (b'@' ∷ c ∷ version)
        ≡ scheme ++ (b':' ∷ (tail ++ (b'@' ∷ c ∷ version))) =
      append_assoc scheme (b':' ∷ tail) (b'@' ∷ c ∷ version) in
    subst
      (λ s.
        system.exists (in_dir system dir s) ≡ false
        → split_version s ≡ (scheme ++ (b':' ∷ tail), c ∷ version)
        → parse_in system dir s ≡ parse_forge system (scheme ++ (b':' ∷ tail)) (c ∷ version))
      (sym shifted)
      (parse_in-forge system dir scheme (tail ++ (b'@' ∷ c ∷ version)) tail (c ∷ version) known)
      no_file
      (split_version-append (scheme ++ (b':' ∷ tail)) (c ∷ version) (is_nil-append scheme b':' tail)
        right at_free)

-- Parsing the text of a forge's ref gives the ref.
pub parse_in-spelled_forge :
    (system : System) (dir scheme location fragment version : Bytes)
    → contains forge_schemes scheme ≡ true
    → fits_scheme scheme location ≡ true
    → fragment_error system fragment ≡ none
    → version_ok version ≡ true
    → lacks b'@' fragment ≡ true
    → system.exists (in_dir system dir (spelled (forge_ref scheme location fragment version)))
      ≡ false
    → parse_in system dir (spelled (forge_ref scheme location fragment version))
      ≡ ok (forge_ref scheme location fragment version)
unfolding to_string kind_prefix
parse_in-spelled_forge system dir scheme location fragment version known fit inside right at_free =
    let tail = location ++ with_fragment fragment in
    let no_at =
      lacks-with_fragment b'@' location fragment refl
        (fits_scheme-lacks b'@' at-IsForeign scheme location known fit) at_free in
    subst
      (λ s.
        system.exists (in_dir system dir (with_version s version)) ≡ false
        → parse_in system dir (with_version s version)
          ≡ ok (forge_ref scheme location fragment version))
      (sym (append_assoc scheme (codes ":") tail))
      (λ no_file.
        parse_in-versioned system dir scheme tail version known no_at right no_file
        ∙ parse_forge-print system scheme location fragment version known fit inside)

-- A ref of a forge that parsing a text gave comes back when the text that it is printed as, with its
-- version behind '@', is parsed again, if its fragment has no '@' and no file has that name.
pub parse_in-spelled :
    (system : System) (dir s : Bytes) (r : Ref)
    → parse_in system dir s ≡ ok r
    → r.kind ≡ Kind.forge_kind
    → lacks b'@' r.fragment ≡ true
    → system.exists (in_dir system dir (spelled r)) ≡ false
    → parse_in system dir (spelled r) ≡ ok r
parse_in-spelled system dir s r parsed of_forge at_free =
    let (placed, right) = parse_in-IsValid system dir s r parsed in
    let (known, fit, inside) = subst (λ k. IsPlaced system k r) of_forge placed in
    let same : forge_ref r.scheme r.location r.fragment r.version ≡ r =
      ap (λ k. record r { kind = k }) (sym of_forge) in
    subst
      (λ q.
        system.exists (in_dir system dir (spelled q)) ≡ false
        → parse_in system dir (spelled q) ≡ ok q)
      same
      (parse_in-spelled_forge system dir r.scheme r.location r.fragment r.version known fit
        ((fragment_error-fits system r.fragment).1 inside) right at_free)
