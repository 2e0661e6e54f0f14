-- ===== src/Version/Range/Both.antt =====
-- A range of several parts asks for all of them.
use oku.Base.{
  Bool, Bytes, List, Result, [], err, false, ok, refl, split, split-append, trim_space, true, ◌++◌,
  ◌>>=◌, ◌∷◌, ◌≡◌,
}
use oku.Version.Range.{RangeError, satisfies, satisfies_part, satisfies_parts}

satisfies_parts-append :
    (version : Bytes) (xs ys : List Bytes)
    → satisfies_parts version (xs ++ ys) ≡ (
        satisfies_parts version xs >>= λ passes. elim passes [
          | true ↦ satisfies_parts version ys
          | false ↦ ok false
        ])
unfolding satisfies_parts
satisfies_parts-append version [] ys = refl
satisfies_parts-append version (x ∷ xs) ys =
    go (satisfies_part version (trim_space x)) (satisfies_parts-append version xs ys)
  where
    go :
        (r : Result RangeError Bool)
        → satisfies_parts version (xs ++ ys) ≡ (
            satisfies_parts version xs >>= λ passes. elim passes [
              | true ↦ satisfies_parts version ys
              | false ↦ ok false
            ])
        → (r >>= λ passes. elim passes [
          | true ↦ satisfies_parts version (xs ++ ys)
          | false ↦ ok false
        ])
          ≡ ((r >>= λ passes. elim passes [ true ↦ satisfies_parts version xs | false ↦ ok false ])
              >>= λ passes. elim passes [ true ↦ satisfies_parts version ys | false ↦ ok false ])
    go (ok true) ih = ih
    go (ok false) ih = refl
    go (err e) ih = refl

-- A version satisfies two constraints with a comma between them exactly when it satisfies the first
-- and then the second. The first error is the error, and the second constraint is not read once
-- the first one fails.
pub satisfies-append :
    (version a b : Bytes)
    → satisfies version (a ++ (b',' ∷ b)) ≡ (
        satisfies version a >>= λ passes. elim passes [
          | true ↦ satisfies version b
          | false ↦ ok false
        ])
unfolding satisfies
satisfies-append version a b =
    rw (split-append b',' a b) (satisfies_parts-append version (split b',' a) (split b',' b))
