-- ===== src/Platform/Names.antt =====
-- `Platform.String` and `Parse` of internal/platform/platform.go, against one another.
use oku.Base.{
  Bool, Bool-cases, Bytes, List, Option, Result, [], and_true, ap, arith, equal, equal_iff, err,
  every, false, find, find-holds, inl, inr, none, ok, refl, some, subst, true, ◌↔◌, ◌∷◌, ◌≡◌,
}
use oku.Platform.{Platform, all_platforms, holds, parse, same_platform, to_string}
use oku.Platform.Lists.{same_platform-eq, same_platform_refl}

is_ok_of : Platform → Result Bytes Platform → Bool
is_ok_of p (ok q) = same_platform q p
is_ok_of p (err e) = false

is_ok_of-eq : (p : Platform) (r : Result Bytes Platform) → is_ok_of p r ≡ true → r ≡ ok p
unfolding is_ok_of
is_ok_of-eq p (ok q) h = ap ok (same_platform-eq q p h)
is_ok_of-eq p (err e) h = cc

listed-parse :
    (p : Platform) (l : List Platform)
    → every (λ q. is_ok_of q (parse (to_string q))) l ≡ true
    → holds l p ≡ true
    → parse (to_string p) ≡ ok p
listed-parse p [] h k = cc
listed-parse p (q ∷ l) h k = elim (Bool-cases (same_platform q p)) [
  | inl e ↦
      subst (λ r. parse (to_string r) ≡ ok r) (same_platform-eq q p e)
        (is_ok_of-eq q _ (and_true _ _ h).0)
  | inr e ↦ listed-parse p l (and_true _ _ h).1 (rw e at k)
]

parse_table : every (λ q. is_ok_of q (parse (to_string q))) all_platforms ≡ true
unfolding parse to_string is_ok_of same_platform equal
parse_table = refl

find-listed :
    (f : Platform → Bool) (l : List Platform) {p : Platform} → find f l ≡ some p → holds l p ≡ true
find-listed f [] h = cc
find-listed f (q ∷ l) {p} h = elim (Bool-cases (f q)) [
  | inl e ↦
      let same : q ≡ p = ground arith in
      subst (λ x. holds (q ∷ l) x ≡ true) same (rw (same_platform_refl q))
  | inr e ↦ let later : holds l p ≡ true = find-listed f l (rw e at h) in ground arith
]

opened :
    {p : Platform} (s : Bytes) (o : Option Platform)
    → (elim o [ some q ↦ ok q | none ↦ err s ]) ≡ ok p
    → o ≡ some p
opened s none h = cc
opened s (some q) h = cc

parse_sound :
    (s : Bytes) (p : Platform) → parse s ≡ ok p → (holds all_platforms p ≡ true) × (to_string p ≡ s)
unfolding parse
parse_sound s p h =
    let found : find (λ q. equal (to_string q) s) all_platforms ≡ some p = opened s _ h in
    (
      find-listed (λ q. equal (to_string q) s) all_platforms found,
      (equal_iff (to_string p) s).0 (find-holds (λ q. equal (to_string q) s) all_platforms found),
    )

-- `parse` succeeds with a platform exactly when the platform is one of `All` and the text is its
-- rendering, so on the platforms of `All` it undoes `to_string`.
pub parse-to_string :
    (s : Bytes) (p : Platform)
    → (parse s ≡ ok p) ↔ ((holds all_platforms p ≡ true) × (to_string p ≡ s))
parse-to_string s p = (
  parse_sound s p,
  λ h. subst (λ t. parse t ≡ ok p) h.1 (listed-parse p all_platforms parse_table h.0),
)
