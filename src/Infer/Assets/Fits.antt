-- ===== src/Infer/Assets/Fits.antt =====
-- fitsPlatform and pick of internal/infer/infer.go: the assets that pick goes on to sort.
use oku.Base.{
  Bool, Bool-cases, Bytes, List, [], and_true, any, arith, codes, equal, every, false,
  if◌then◌else◌, inl, inr, keep, not, refl, sym, to_lower, true, ◌&&◌, ◌||◌, ◌∷◌, ◌≡◌,
}
use oku.Deltas.Rows.{named}
use oku.Infer.{has_word}
use oku.Infer.Assets.{
  Target, fat, fits_platform, fits_target, fitting, format_os, has_any_suffix, names_arch,
}
use oku.Infer.Tables.{arch_words, other_arches, skipped_endings}
use oku.Infer.Words.{has_word-occurs, is_word, occurs_in}
use oku.Version.Pick.{fits}

-- no word of an arch stands in the name
abbrev pub names_no_arch : Bytes → Bool
names_no_arch lower =
    not (any (occurs_in lower) other_arches)
    && not (any (λ (entry : Bytes × List Bytes). any (occurs_in lower) entry.1) arch_words)

-- The name is no file beside an asset and for no Android. A word or its format names the OS. A word
-- names the arch or a build for every arch, or no word names an arch.
abbrev pub is_for : Target → Bytes → Bool
is_for t lower =
    not (has_any_suffix lower skipped_endings)
    && not (any (occurs_in lower) (codes "android" ∷ codes "androideabi" ∷ []))
    && (any (occurs_in lower) t.os_names || equal (format_os lower) t.os)
    && (any (occurs_in lower) t.arch_names
        || any (occurs_in lower) t.fat_names
        || names_no_arch lower)

-- the words of the target begin with no space
abbrev pub have_words : Target → Bool
have_words t = every is_word t.os_names && every is_word t.arch_names && every is_word t.fat_names

any-has_word :
    (lower : Bytes) (l : List (Bytes × List Bytes))
    → every (λ (entry : Bytes × List Bytes). every is_word entry.1) l ≡ true
    → any (λ (entry : Bytes × List Bytes). has_word lower entry.1) l
      ≡ any (λ (entry : Bytes × List Bytes). any (occurs_in lower) entry.1) l
any-has_word lower [] h = refl
any-has_word lower (entry ∷ l) h =
    let (here, rest) = and_true (every is_word entry.1) _ h in
    rw (has_word-occurs lower entry.1 here, any-has_word lower l rest) refl

names_arch-occurs : (lower : Bytes) → names_no_arch lower ≡ not (names_arch lower)
unfolding names_arch
names_arch-occurs lower =
    rw (has_word-occurs lower other_arches refl, any-has_word lower arch_words refl) (ground arith)

-- the tests of `fitsPlatform` in their order
fits_tests :
    (skip android os format arch fat named rest : Bool)
    → (if skip || android
        then false
        else if not os && not format
        then false
        else if arch || fat
        then true
        else if named
        then false
        else rest)
      ≡ true
    → (not skip && not android && (os || format) && (arch || fat || not named)) ≡ true
fits_tests true android os format arch fat named rest h = cc
fits_tests false true os format arch fat named rest h = cc
fits_tests false false true format true fat named rest h = refl
fits_tests false false true format false true named rest h = refl
fits_tests false false true format false false true rest h = cc
fits_tests false false true format false false false rest h = refl
fits_tests false false false true true fat named rest h = refl
fits_tests false false false true false true named rest h = refl
fits_tests false false false true false false true rest h = cc
fits_tests false false false true false false false rest h = refl
fits_tests false false false false arch fat named rest h = cc

fits_platform-is_for :
    (lower : Bytes) (t : Target)
    → have_words t ≡ true
    → fits_platform lower t ≡ true
    → is_for t lower ≡ true
unfolding fits_platform
fits_platform-is_for lower t words h =
    let first_two = every is_word t.os_names && every is_word t.arch_names in
    let (both_too, fat_too) = and_true first_two (every is_word t.fat_names) words in
    let (os_too, arch_too) =
      and_true (every is_word t.os_names) (every is_word t.arch_names) both_too in
    let os = has_word-occurs lower t.os_names os_too in
    let arch = has_word-occurs lower t.arch_names arch_too in
    let fat = has_word-occurs lower t.fat_names fat_too in
    let android = has_word-occurs lower (codes "android" ∷ codes "androideabi" ∷ []) refl in
    let arches = names_arch-occurs lower in
    rw (sym os, sym arch, sym fat, sym android, arches)
      (fits_tests (has_any_suffix lower skipped_endings)
        (has_word lower (codes "android" ∷ codes "androideabi" ∷ [])) (has_word lower t.os_names)
        (equal (format_os lower) t.os) (has_word lower t.arch_names) (has_word lower t.fat_names)
        (names_arch lower) _ h)

kept-is_for :
    (t : Target) (musl : Bool) (names : List Bytes)
    → have_words t ≡ true
    → every (λ name. is_for t (to_lower name)) (keep (fits_target t musl) names) ≡ true
kept-is_for t musl [] words = refl
kept-is_for t musl (name ∷ names) words =
    let rest = kept-is_for t musl names words in
    elim (Bool-cases (fits_target t musl name)) [
      | inr out ↦ rw out rest
      | inl fits ↦
          let (platform_too, libc_too) = and_true (fits_platform (to_lower name) t) _ fits in
          let here = fits_platform-is_for (to_lower name) t words platform_too in
          rw fits (rw here rest)
    ]

-- Each asset that pick goes on to sort for a target is no checksum or signature, is for no Android,
-- names the OS of the target by a whole word or its format, and names the arch by a whole word or
-- names no arch. The words of the target begin with no space.
pub fitting-is_for :
    (names : List Bytes) (t : Target)
    → have_words t ≡ true
    → every (λ name. is_for t (to_lower name)) (fitting names t) ≡ true
unfolding fitting
fitting-is_for names t words = kept-is_for t _ names words
