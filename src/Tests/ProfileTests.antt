-- ===== src/Tests/ProfileTests.antt =====
-- Tests of the profile's modules.
use oku.Base.{Bool, List, [], false, none, pos, refl, some, true, ℕ, ◌==◌, ◌∷◌, ◌≡◌}
use oku.Profile.{Generation, Retention}
use oku.Profile.Prune.{delete, generation_stays, prune, prune_from, then_from}
use oku.Profile.Prune.Pruned.{prune-generation_stays}
use oku.Profile.Prune.Spec.{keeps, not_kept, without_dirs}

abbrev generation : ℕ → ℕ → Bool → Generation
generation number created is_current = record {
  number = number;
  created = created;
  packages = [];
  files = [];
  settings = [];
  from_number = 0;
  is_current = is_current;
}

-- five generations, the second of which is active
abbrev generations : List Generation
generations =
    generation 1 10 false
    ∷ generation 2 20 true
    ∷ generation 3 30 false
    ∷ generation 4 40 false
    ∷ generation 5 50 false
    ∷ []

abbrev all_numbers : List ℕ
all_numbers = 1 ∷ 2 ∷ 3 ∷ 4 ∷ 5 ∷ []

-- the newest, and those since 45, with the one that was active then
abbrev newest_one : Retention
newest_one = record { keep_newest = pos 1; since = 0 }

abbrev since_45 : Retention
since_45 = record { keep_newest = pos 0; since = 45 }

abbrev is_four : ℕ → Bool
is_four n = n == 4

prune_test :
    (prune (λ n. false) false false newest_one generations all_numbers
      ≡ record { dirs = 2 ∷ 5 ∷ []; removed = 1 ∷ 3 ∷ 4 ∷ []; error = none })
    × (prune (λ n. false) false false since_45 generations all_numbers
        ≡ record { dirs = 2 ∷ 4 ∷ 5 ∷ []; removed = 1 ∷ 3 ∷ []; error = none })
unfolding prune prune_from then_from delete
prune_test = (refl, refl)

prune-generation_stays_example :
    prune is_four false true newest_one generations all_numbers ≡ record {
      dirs = without_dirs (1 ∷ 3 ∷ []) all_numbers;
      removed = 1 ∷ 3 ∷ [];
      error = some (generation_stays 4);
    }
unfolding not_kept keeps
prune-generation_stays_example =
    prune-generation_stays is_four true newest_one generations all_numbers (1 ∷ 3 ∷ []) 4 [] refl
      refl refl
