-- ===== src/Infer/Assets.antt =====
-- internal/infer/infer.go: fitsPlatform, and the ranks that pick sorts by. An OS
-- and an arch are their Go names.
pub mod Fits
use Prim.Native.Nat.{compare}
use oku.Base.{
  Bool, Bytes, List, Ordering, [], any, codes, eq, equal, false, find, has_prefix, has_suffix,
  if◌then◌else◌, is_nil, keep, none, not, some, to_lower, true, ℕ, ◌&&◌, ◌++◌, ◌==◌, ◌||◌, ◌∷◌,
}
use oku.Infer.{has_word}
use oku.Infer.Tables.{
  arch_words, desktop_words, fat_words, installers, libc_words, os_words, other_arches,
  skipped_endings, unpackable, words_at,
}

-- `target`
pub record Target : Type 0 where
  pub os : Bytes
  pub arch : Bytes
  pub libc : Bytes
  pub os_names : List Bytes
  pub arch_names : List Bytes
  pub fat_names : List Bytes
  pub libc_names : List Bytes

-- `add` of `targets`
abbrev pub target_of : Bytes → Bytes → Bytes → Bytes → Target
target_of os arch libc match_libc = record {
  os = os;
  arch = arch;
  libc = match_libc;
  os_names = words_at os os_words;
  arch_names = words_at arch arch_words;
  fat_names =
      if equal arch (codes "amd64") || equal arch (codes "arm64")
      then words_at os fat_words
      else [];
  libc_names = words_at libc libc_words;
}

abbrev targets_of : Bytes → List Target
targets_of arch =
    target_of (codes "linux") arch (codes "glibc") (codes "glibc")
    ∷ target_of (codes "linux") arch (codes "musl") []
    ∷ target_of (codes "linux") arch [] []
    ∷ target_of (codes "darwin") arch [] []
    ∷ target_of (codes "windows") arch [] []
    ∷ []

-- `targets`
abbrev pub targets : List Target
targets =
    targets_of (codes "amd64")
    ++ targets_of (codes "arm64")
    ++ targets_of (codes "386")
    ++ targets_of (codes "arm")
    ++ targets_of (codes "riscv64")

-- `hasAnySuffix`
abbrev pub has_any_suffix : Bytes → List Bytes → Bool
has_any_suffix s suffixes = any (λ suffix. has_suffix suffix s) suffixes

-- `strings.Contains`
abbrev pub has_part : Bytes → Bytes → Bool
has_part part [] = is_nil part
has_part part (c ∷ rest) = has_prefix part (c ∷ rest) || has_part part rest

-- `installerOS`
unfoldable pub installer_os : Bytes → Bytes
installer_os name =
    if has_any_suffix name (codes ".dmg" ∷ codes ".pkg" ∷ [])
    then codes "darwin"
    else if has_suffix (codes ".msi") name
    then codes "windows"
    else if has_any_suffix name (codes ".deb" ∷ codes ".rpm" ∷ codes ".appimage" ∷ [])
    then codes "linux"
    else []

-- `namesArch`
unfoldable pub names_arch : Bytes → Bool
names_arch name =
    has_word name other_arches
    || any (λ (entry : Bytes × List Bytes). has_word name entry.1) arch_words

-- `exeByFormat`
unfoldable pub exe_by_format : Bytes → Bool
exe_by_format name =
    let lower = to_lower name in
    has_suffix (codes ".exe") lower && not (has_word lower (words_at (codes "windows") os_words))

-- `desktop`
unfoldable pub desktop : Bytes → ℕ
desktop name =
    let lower = to_lower name in
    if has_part (codes ".app.") lower || has_word lower desktop_words then 1 else 0

-- the OS that the format names
unfoldable pub format_os : Bytes → Bytes
format_os lower =
    let installer = installer_os lower in
    if is_nil installer && exe_by_format lower && desktop lower == 0
    then codes "windows"
    else installer

-- `fitsPlatform`
unfoldable pub fits_platform : Bytes → Target → Bool
fits_platform lower t =
    let names_os = has_word lower t.os_names in
    if has_any_suffix lower skipped_endings
      || has_word lower (codes "android" ∷ codes "androideabi" ∷ [])
    then false
    else if not names_os && not (equal (format_os lower) t.os)
    then false
    else if has_word lower t.arch_names || has_word lower t.fat_names
    then true
    else if names_arch lower
    then false
    else equal t.arch (codes "amd64")
      || (not (is_nil (installer_os lower)) || (equal t.os (codes "darwin") && names_os))
        && equal t.arch (codes "arm64")

-- `ending`
unfoldable pub ending : Bytes → Bytes
ending name = elim (find (λ suffix. has_suffix suffix (to_lower name)) unpackable) [
  | none ↦ []
  | some suffix ↦ suffix
]

-- `isArchive`
abbrev pub is_archive : Bytes → Bool
is_archive name = not (is_nil (ending name))

-- `rank`
unfoldable pub rank_of : Bytes → ℕ
rank_of name =
    let lower = to_lower name in
    if has_suffix (codes ".pkg") lower
    then 4
    else if has_any_suffix lower installers
    then 3
    else if has_suffix (codes ".zip") lower || has_suffix (codes ".7z") lower
    then 1
    else if is_archive lower
    then 0
    else 2

-- `smaller`
unfoldable pub smaller : ℕ → ℕ → Ordering
smaller a b = if a == 0 || b == 0 then eq else compare a b

-- `gnu`
unfoldable pub gnu : Target → Bytes → ℕ
gnu t name =
    if equal t.os (codes "windows") && has_word (to_lower name) (codes "gnu" ∷ []) then 1 else 0

-- `fat`
unfoldable pub fat : Target → Bytes → ℕ
fat t name = if has_word (to_lower name) t.arch_names then 0 else 1

-- the loop of `pick` leaves the name out for its libc
abbrev pub is_other_libc : Target → Bool → Bytes → Bool
is_other_libc t musl lower =
    let names_libc =
      has_word lower (words_at (codes "glibc") libc_words)
      || has_word lower (words_at (codes "musl") libc_words) in
    let glibc = not names_libc && musl && is_nil (installer_os lower) in
    let named_libc = has_word lower t.libc_names in
    (equal t.libc (codes "glibc") && not named_libc && not glibc)
    || (is_nil t.libc && not (is_nil t.libc_names) && not named_libc)
    || (is_nil t.libc_names && names_libc && equal t.os (codes "linux"))

abbrev pub fits_target : Target → Bool → Bytes → Bool
fits_target t musl name =
    fits_platform (to_lower name) t && not (is_other_libc t musl (to_lower name))

-- the names that `pick` goes on to sort
unfoldable pub fitting : List Bytes → Target → List Bytes
fitting names t =
    let musl =
      any
        (λ name.
          fits_platform (to_lower name) t
          && has_word (to_lower name) (words_at (codes "musl") libc_words))
        names in
    keep (fits_target t musl) names
