-- ===== src/Version/Range/Ceiling.antt =====
-- The versions below the `ceiling` of internal/resolve/resolve.go, as numbers.
use Prim.Native.Nat.{min}
use oku.Base.{
  Bool, Bool-cases, List, [], arith, false, inl, inr, length, map, not, pos, refl, suc, zero, ℕ,
  ◌&&◌, ◌+◌, ◌-◌, ◌==◌, ◌||◌, ◌∷◌, ◌≡◌,
}
use oku.Version.Numbers.{compare_numbers}
use oku.Version.Range.{at_least, below, caret, first_nonzero, met, raise_at, tilde}

-- the numbers before the place, and the number there raised
abbrev pub raised_value : ℕ → List ℕ → List ℕ
raised_value k [] = []
raised_value zero (n ∷ ns) = (n + 1) ∷ []
raised_value (suc k) (n ∷ ns) = n ∷ raised_value k ns

-- the second list has the numbers of the first up to the place, and a missing number counts as 0
abbrev pub agrees : ℕ → List ℕ → List ℕ → Bool
agrees k [] vs = false
agrees zero (n ∷ ns) [] = 0 == n
agrees zero (n ∷ ns) (v ∷ vs) = v == n
agrees (suc k) (n ∷ ns) [] = 0 == n && agrees k ns []
agrees (suc k) (n ∷ ns) (v ∷ vs) = v == n && agrees k ns vs

-- a missing number counts as 0
abbrev pub first_or_zero : List ℕ → ℕ
first_or_zero [] = 0
first_or_zero (v ∷ vs) = v

abbrev pub behind_first : List ℕ → List ℕ
behind_first [] = []
behind_first (v ∷ vs) = vs

none_below : (vs : List ℕ) → met below (compare_numbers vs []) ≡ false
none_below [] = refl
none_below (v ∷ vs) = ground (arith, none_below vs)

-- Numbers that are not below a list are below its ceiling when they agree up to the place.
pub raised_value-agrees :
    (k : ℕ) (ns vs : List ℕ)
    → (met at_least (compare_numbers vs ns) && met below (compare_numbers vs (raised_value k ns)))
      ≡ (met at_least (compare_numbers vs ns) && agrees k ns vs)
raised_value-agrees k [] vs = rw (none_below vs) refl
raised_value-agrees zero (n ∷ ns) [] = ground arith
raised_value-agrees zero (n ∷ ns) (v ∷ vs) = ground (arith, none_below vs)
raised_value-agrees (suc k) (n ∷ ns) [] = ground (arith, raised_value-agrees k ns [])
raised_value-agrees (suc k) (n ∷ ns) (v ∷ vs) = ground (arith, raised_value-agrees k ns vs)

-- the numbers of a version up to the first number of the part that is not 0, or its last one
abbrev pub same_to_nonzero : List ℕ → List ℕ → Bool
same_to_nonzero [] vs = false
same_to_nonzero (n ∷ []) vs = first_or_zero vs == n
same_to_nonzero (n ∷ m ∷ ns) vs =
    first_or_zero vs == n && (not (n == 0) || same_to_nonzero (m ∷ ns) (behind_first vs))

-- the first two numbers, or the only one of the part
abbrev pub same_two : List ℕ → List ℕ → Bool
same_two [] vs = false
same_two (n ∷ []) vs = first_or_zero vs == n
same_two (n ∷ m ∷ ns) vs = first_or_zero vs == n && first_or_zero (behind_first vs) == m

pub agrees-caret :
    (ns vs : List ℕ) → agrees (raise_at caret (map pos ns)) ns vs ≡ same_to_nonzero ns vs
unfolding raise_at first_nonzero
agrees-caret [] vs = refl
agrees-caret (n ∷ []) [] = refl
agrees-caret (n ∷ []) (v ∷ vs) = refl
agrees-caret (n ∷ m ∷ ns) [] = elim (Bool-cases (n == 0)) [
  | inl e ↦ rw e (rw (agrees-caret (m ∷ ns) []) refl)
  | inr e ↦ rw e (ground arith)
]
agrees-caret (n ∷ m ∷ ns) (v ∷ vs) = elim (Bool-cases (n == 0)) [
  | inl e ↦ rw e (rw (agrees-caret (m ∷ ns) vs) refl)
  | inr e ↦ rw e (ground arith)
]

place_two : (l : ℕ) → min 1 (suc (suc l) - 1) ≡ 1
place_two l = omega arith

pub agrees-tilde : (ns vs : List ℕ) → agrees (raise_at tilde (map pos ns)) ns vs ≡ same_two ns vs
unfolding raise_at
agrees-tilde [] vs = refl
agrees-tilde (n ∷ []) [] = refl
agrees-tilde (n ∷ []) (v ∷ vs) = refl
agrees-tilde (n ∷ m ∷ ns) [] = rw (place_two (length (map pos ns))) refl
agrees-tilde (n ∷ m ∷ ns) (v ∷ []) = rw (place_two (length (map pos ns))) refl
agrees-tilde (n ∷ m ∷ ns) (v ∷ w ∷ vs) = rw (place_two (length (map pos ns))) refl
