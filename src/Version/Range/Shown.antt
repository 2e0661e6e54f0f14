-- ===== src/Version/Range/Shown.antt =====
-- `Atoi` on what `Itoa` writes, for an int that is not negative.
use native.Mathlib.Omega.{pow_step}
use oku.Base.{
  Bool-cases, Bytes, [], ap, arith, every, false, inl, inr, is_digit, is_nil, ltb, pos, refl, some,
  suc, true, zero, ℕ, ◌%◌, ◌&&◌, ◌*◌, ◌+◌, ◌-◌, ◌/◌, ◌<◌, ◌==◌, ◌^◌, ◌∙◌, ◌∷◌, ◌≡◌,
}
use oku.Version.{atoi, digits_value, two_63}
use oku.Version.Numbers.{IsNumber, atoi-IsNumber}
use oku.Version.Range.{itoa, show_from}

show_from-digits :
    (fuel n : ℕ) (out : Bytes)
    → every is_digit out ≡ true
    → every is_digit (show_from fuel n out) ≡ true
unfolding show_from
show_from-digits zero n out k = k
show_from-digits (suc fuel) n out k =
    let here : every is_digit ((b'0' + n % 10) ∷ out) ≡ true = ground arith in
    elim (Bool-cases (ltb n 10)) [
      | inl small ↦ rw small here
      | inr big ↦ rw big (show_from-digits fuel (n / 10) ((b'0' + n % 10) ∷ out) here)
    ]

show_from-some :
    (fuel n : ℕ) (out : Bytes)
    → (is_nil out && fuel == 0) ≡ false
    → is_nil (show_from fuel n out) ≡ false
unfolding show_from
show_from-some zero n out k = ground arith
show_from-some (suc fuel) n out k = elim (Bool-cases (ltb n 10)) [
  | inl small ↦ rw small refl
  | inr big ↦ rw big (show_from-some fuel (n / 10) ((b'0' + n % 10) ∷ out) refl)
]

show_from-value :
    (fuel n : ℕ) (out : Bytes)
    → n < 10 ^ suc fuel
    → digits_value 0 (show_from (suc fuel) n out) ≡ digits_value n out
unfolding show_from
show_from-value zero n out h =
    let small : ltb n 10 ≡ true = ground arith in
    let digit : 0 + (b'0' + n % 10 - b'0') ≡ n = ground arith in
    rw small (ap (λ m. digits_value m out) digit)
show_from-value (suc fuel) n out h = elim (Bool-cases (ltb n 10)) [
  | inl small ↦
      let digit : 0 + (b'0' + n % 10 - b'0') ≡ n = ground arith in
      rw small (ap (λ m. digits_value m out) digit)
  | inr big ↦
      let law = pow_step 10 (suc fuel) in
      let fits : n / 10 < 10 ^ suc fuel = omega (arith, law) in
      let whole : n / 10 * 10 + (b'0' + n % 10 - b'0') ≡ n = omega arith in
      rw big (
        show_from-value fuel (n / 10) ((b'0' + n % 10) ∷ out) fits
        ∙ ap (λ m. digits_value m out) whole)
]

pub itoa-value : (n : ℕ) → ltb n two_63 ≡ true → digits_value 0 (itoa (pos n)) ≡ n
unfolding itoa
itoa-value n h = let fits : n < 10 ^ suc 19 = ground arith in show_from-value 19 n [] fits

pub itoa-IsNumber : (n : ℕ) → ltb n two_63 ≡ true → IsNumber (itoa (pos n))
unfolding itoa
itoa-IsNumber n h = record {
  digits = show_from-digits 20 n [] refl;
  nonempty = show_from-some 20 n [] refl;
  small = rw (itoa-value n h) h;
}

-- `Atoi` reads back what `Itoa` writes, for an int that is not negative.
pub atoi-itoa : (n : ℕ) → ltb n two_63 ≡ true → atoi (itoa (pos n)) ≡ some (pos n)
atoi-itoa n h =
    atoi-IsNumber (itoa (pos n)) (itoa-IsNumber n h) ∙ ap (λ m. some (pos m)) (itoa-value n h)
