-- ===== src/Base/Results.antt =====
-- A value or an error, as Go's pair of a value and an `error`.
use mathlib.Core.Path.{◌≡◌, refl}
use mathlib.Core.Logic.{◌⊎◌, inl, inr}

pub data Result {ℓ κ} (Failure : Type κ) (Value : Type ℓ) : Type (ℓ ⊔ κ) where
  err : Failure → Result Failure Value
  ok : Value → Result Failure Value

module _ {ℓ κ μ} {Failure : Type κ} {V : Type ℓ} {W : Type μ} where
  -- the early return on an error
  infixl 5 ◌>>=◌
  abbrev pub ◌>>=◌ : Result Failure V → (V → Result Failure W) → Result Failure W
  ◌>>=◌ (err failure) next = err failure
  ◌>>=◌ (ok v) next = next v

  -- a chain that succeeds went through a first step that did
  pub >>=-eq-ok :
      (first : Result Failure V) (next : V → Result Failure W) {w : W}
      → (first >>= next) ≡ ok w
      → (v : V) × (first ≡ ok v) × (next v ≡ ok w)
  >>=-eq-ok (err failure) next done = cc
  >>=-eq-ok (ok v) next done = (v, refl, done)

pub Result-cases {ℓ κ} :
    {E : Type κ} {A : Type ℓ} (r : Result E A) → ((a : A) × (r ≡ ok a)) ⊎ ((e : E) × (r ≡ err e))
Result-cases (ok a) = inl (a, refl)
Result-cases (err e) = inr (e, refl)
