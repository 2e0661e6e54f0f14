-- ===== src/Lock/Checks/Rank.antt =====
-- `Weaker` orders the checks.
use oku.Base.{Bytes, Option, arith, false, none, some, true, ℕ, ◌&&◌, ◌||◌, ◌≡◌, ◌≢◌}
use oku.Lock.Checks.{verified_rank, weaker, weaker_rank}

-- `weaker` is a strict order of the checks that are known: it never holds of a check and itself, a
-- check weaker than a weaker one is weaker, and where a known check lies between two that compare,
-- it compares with one of them.
pub weaker_order :
    (a b c : Bytes)
    → (weaker a a ≡ false)
      × ((weaker a b && weaker b c) ≡ true → weaker a c ≡ true)
      × (weaker a c ≡ true → verified_rank b ≢ none → (weaker a b || weaker b c) ≡ true)
unfolding weaker
weaker_order a b c = ordered (verified_rank a) (verified_rank b) (verified_rank c)
  where
    ordered :
        (x y z : Option ℕ)
        → (weaker_rank x x ≡ false)
          × ((weaker_rank x y && weaker_rank y z) ≡ true → weaker_rank x z ≡ true)
          × (weaker_rank x z ≡ true → y ≢ none → (weaker_rank x y || weaker_rank y z) ≡ true)
    ordered none none none = ground arith
    ordered none none (some z) = ground arith
    ordered none (some y) none = ground arith
    ordered none (some y) (some z) = ground arith
    ordered (some x) none none = ground arith
    ordered (some x) none (some z) = ground arith
    ordered (some x) (some y) none = ground arith
    ordered (some x) (some y) (some z) = ground arith
