-- ===== src/Tests/VersionTests.antt =====
-- Tests of the version modules.
use Prim.Native.String.{String}
use oku.Base.{
  Bytes, List, [], codes, compare_text, cut, cut_prefix, eq, equal, err, every, false, flip, gt,
  has_prefix, is_digit, is_nil, join, lt, ltb, ok, refl, split, split_pieces, trim_left, trim_right,
  true, ℕ, ◌++◌, ◌∷◌, ◌≡◌,
}
use oku.Version.{
  atoi, compare_part, compare_parts, compare_pre, compare_run, compare_runs, compare_suffix,
  compare_tail, compare_version, digits_value, prerelease, runs, split_number, tail_rank, two_63,
}
use oku.Version.Cycle.{IsTail, compare_version_cycle, with_last}
use oku.Version.Numbers.{IsNumber, compare_numbers, compare_version-numbers, values}
use oku.Version.Order.{compare_version-flip}
use oku.Version.Pick.{
  Release, Resolver, VersionSource, fits, newest, newest_from, no_release, pick_from, picked,
  too_new,
}
use oku.Version.Range.{
  caret, ceiling, cut_op, first_nonzero, increment, is_range, itoa, meets, no_version, not_numbers,
  numbers, raise_at, raised, satisfies, satisfies_part, satisfies_parts,
}
use oku.Version.Range.Allowed.{satisfies-allows}

compare_tests :
    (compare_version (codes "1.10.0") (codes "1.9.0") ≡ gt)
    × (compare_version (codes "2.0.0-rc1") (codes "2.0.0") ≡ lt)
    × (compare_version (codes "7.1.2-31") (codes "7.1.2-9") ≡ gt)
    × (compare_version (codes "1.9rc2") (codes "1.26") ≡ lt)
    × (compare_version (codes "1.26rc1") (codes "1.26") ≡ lt)
    × (compare_version (codes "1.1.1w") (codes "1.1.1") ≡ gt)
    × (compare_version (codes "1.2") (codes "1.2.0") ≡ eq)
unfolding compare_version compare_parts compare_part compare_tail tail_rank prerelease compare_pre
    compare_suffix compare_runs compare_run compare_text runs split_number atoi cut split
    split_pieces
compare_tests = (refl, refl, refl, refl, refl, refl, refl)

compare_version-flip_example :
    compare_version (codes "1.26") (codes "1.26rc1")
    ≡ flip (compare_version (codes "1.26rc1") (codes "1.26"))
compare_version-flip_example = compare_version-flip (codes "1.26rc1") (codes "1.26")

abbrev number :
    (x : Bytes)
    → every is_digit x ≡ true
    → is_nil x ≡ false
    → ltb (digits_value 0 x) two_63 ≡ true
    → IsNumber x
number x a b c = record { digits = a; nonempty = b; small = c }

compare_version-numbers_example :
    compare_version
      (join b'.' (codes "1" ∷ codes "10" ∷ []))
      (join b'.' (codes "1" ∷ codes "9" ∷ codes "3" ∷ []))
    ≡ compare_numbers
        (values (codes "1" ∷ codes "10" ∷ []))
        (values (codes "1" ∷ codes "9" ∷ codes "3" ∷ []))
compare_version-numbers_example =
    compare_version-numbers (codes "1") (codes "1") (codes "10" ∷ []) (codes "9" ∷ codes "3" ∷ [])
      (number (codes "1") refl refl refl, (number (codes "10") refl refl refl, tt))
      (
        number (codes "1") refl refl refl,
        (number (codes "9") refl refl refl, (number (codes "3") refl refl refl, tt)),
      )

satisfies-allows_example :
    satisfies
      (join b'.' (codes "1" ∷ codes "9" ∷ []))
      (b'^' ∷ join b'.' (codes "1" ∷ codes "4" ∷ codes "2" ∷ []))
    ≡ ok true
satisfies-allows_example =
    satisfies-allows true (codes "1") (codes "1") (codes "9" ∷ []) (codes "4" ∷ codes "2" ∷ [])
      (number (codes "1") refl refl refl, (number (codes "9") refl refl refl, tt))
      (
        number (codes "1") refl refl refl,
        (number (codes "4") refl refl refl, (number (codes "2") refl refl refl, tt)),
      )
      (refl, (refl, (refl, tt)))

rc1-IsTail : IsTail (codes "rc1")
rc1-IsTail = record { begins = refl; nonempty = refl; no_dot = refl; no_dash = refl }

a-IsTail : IsTail (codes "a")
a-IsTail = record { begins = refl; nonempty = refl; no_dot = refl; no_dash = refl }

compare_version_cycle_example :
    (compare_version
        (with_last (codes "1" ∷ []) (codes "1" ++ codes "rc1"))
        (with_last (codes "1" ∷ []) (codes "1"))
      ≡ lt)
    × (compare_version
          (with_last (codes "1" ∷ []) (codes "1"))
          (with_last (codes "1" ∷ []) (codes "1" ++ codes "a"))
        ≡ lt)
    × (compare_version
          (with_last (codes "1" ∷ []) (codes "1" ++ codes "a"))
          (with_last (codes "1" ∷ []) (codes "1" ++ codes "rc1"))
        ≡ lt)
unfolding prerelease compare_suffix compare_runs compare_run compare_text runs atoi
compare_version_cycle_example =
    compare_version_cycle (codes "1" ∷ []) (codes "1") (codes "rc1") (codes "a")
      (number (codes "1") refl refl refl, tt) (number (codes "1") refl refl refl) rc1-IsTail
      a-IsTail refl refl refl

satisfies_tests :
    (satisfies (codes "1.4.2") (codes "^1.4") ≡ ok true)
    × (satisfies (codes "2.0.0") (codes "^1.4") ≡ ok false)
    × (satisfies (codes "0.5.0") (codes "^0.4") ≡ ok false)
    × (satisfies (codes "1.5.0") (codes "~1.4") ≡ ok false)
    × (satisfies (codes "1.4.9") (codes ">= 1.2, <1.5") ≡ ok true)
    × (satisfies (codes "1.0") (codes ">=x") ≡ err no_version)
    × (satisfies (codes "1.0") (codes "^1.x") ≡ err (not_numbers caret (codes "1.x")))
unfolding satisfies satisfies_parts satisfies_part cut_op meets ceiling numbers raised raise_at
    first_nonzero increment itoa join trim_left trim_right cut_prefix compare_version compare_parts
    compare_part compare_tail tail_rank prerelease compare_pre compare_suffix compare_runs
    compare_run compare_text runs split_number atoi cut split split_pieces
satisfies_tests = (refl, refl, refl, refl, refl, refl, refl)

abbrev release : String → ℕ → Release
release version published = record {
  version = codes version;
  tag = codes version;
  commit = [];
  published = published;
}

abbrev week_old : Resolver
week_old = record { min_age = 100; now = 1000 }

abbrev tags : VersionSource
tags = record { from = codes "git-tags"; moving_tag = [] }

abbrev releases : List Release
releases = release "2.1" 990 ∷ release "2.0" 950 ∷ release "1.9" 700 ∷ []

newest_test :
    newest week_old tags (fits []) releases ≡ picked (release "1.9" 700) (release "2.1" 990)
unfolding newest newest_from fits too_new is_range has_prefix equal
newest_test = refl

exact_test : pick_from week_old tags releases (codes "2.1") ≡ picked (release "2.1" 990) no_release
unfolding pick_from newest newest_from fits too_new is_range has_prefix equal
exact_test = refl
