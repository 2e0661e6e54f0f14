-- ===== src/Version/Range/Parts.antt =====
-- The bytes of dotted numbers, which `TrimSpace` keeps.
use oku.Base.{
  All, Bool, Bytes, List, [], and_true, ap, arith, every, every-append, every_mono, false, is_digit,
  is_space, join, not, refl, trim_left, trim_right, trim_space, true, ℕ, ◌==◌, ◌||◌, ◌∙◌, ◌∷◌, ◌≡◌,
}
use oku.Version.Numbers.{IsNumber}
use oku.Version.Range.{starts_with_digit}

trim_left_clean : (s : Bytes) → every (λ c. not (is_space c)) s ≡ true → trim_left s ≡ s
unfolding trim_left
trim_left_clean [] h = refl
trim_left_clean (c ∷ s) h = ground arith

trim_right_clean : (s : Bytes) → every (λ c. not (is_space c)) s ≡ true → trim_right s ≡ s
unfolding trim_right
trim_right_clean [] h = refl
trim_right_clean (c ∷ s) h =
    let (solid, others) = and_true (not (is_space c)) (every (λ d. not (is_space d)) s) h in
    let here : is_space c ≡ false = ground arith in rw (trim_right_clean s others, here) refl

pub trim_space_clean : (s : Bytes) → every (λ c. not (is_space c)) s ≡ true → trim_space s ≡ s
trim_space_clean s h = ap trim_right (trim_left_clean s h) ∙ trim_right_clean s h

abbrev pub part_byte : ℕ → Bool
part_byte c = is_digit c || c == b'.'

pub every-join : (xs : List Bytes) → All IsNumber xs → every part_byte (join b'.' xs) ≡ true
unfolding join
every-join [] h = refl
every-join (x ∷ []) h = every_mono is_digit part_byte x (λ c d. ground arith) (h.0).digits
every-join (x ∷ y ∷ xs) h =
    every-append part_byte x (b'.' ∷ join b'.' (y ∷ xs))
    ∙ rw
        (
          every_mono is_digit part_byte x (λ c d. ground arith) (h.0).digits,
          every-join (y ∷ xs) h.1,
        )
        refl

pub starts-join :
    (x : Bytes) (xs : List Bytes) → IsNumber x → starts_with_digit (join b'.' (x ∷ xs)) ≡ true
unfolding join
starts-join [] xs h = cc (h.nonempty)
starts-join (c ∷ x) [] h = (and_true (is_digit c) (every is_digit x) h.digits).0
starts-join (c ∷ x) (y ∷ xs) h = (and_true (is_digit c) (every is_digit x) h.digits).0
