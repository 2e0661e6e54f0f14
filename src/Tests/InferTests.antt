-- ===== src/Tests/InferTests.antt =====
-- Tests of the words and the platforms in the names of assets.
use oku.Base.{
  has_suffix, Bytes, List, [], any, codes, cut_prefix, eq, equal, every, false, has_prefix, lt,
  refl, to_lower, true, ◌∷◌, ◌≡◌,
}
use oku.Infer.{blank, blank_from, has_word, is_whole}
use oku.Infer.Assets.{
  Target, desktop, ending, exe_by_format, fat, fits_platform, fitting, format_os, gnu, installer_os,
  names_arch, rank_of, smaller, target_of,
}
use oku.Infer.Assets.Fits.{fitting-is_for, have_words, is_for}
use oku.Infer.Tables.{os_words, words_at}
use oku.Infer.Words.{has_word-occurs, occurs_in}

abbrev mac_arm : Target
mac_arm = target_of (codes "darwin") (codes "arm64") [] []

abbrev musl_intel : Target
musl_intel = target_of (codes "linux") (codes "amd64") (codes "musl") []

abbrev asset_names : List Bytes
asset_names =
    codes "tool-Darwin-all.zip"
    ∷ codes "tool-x86_64-linux-musl.tar.gz"
    ∷ codes "tool-x86_64-linux.tar.gz"
    ∷ codes "tool.dmg.sha256"
    ∷ codes "tool-win-arm64.exe"
    ∷ []

fitting-mac : fitting asset_names mac_arm ≡ codes "tool-Darwin-all.zip" ∷ []
unfolding fitting fits_platform has_word blank blank_from is_whole cut_prefix equal has_prefix
    format_os installer_os exe_by_format desktop names_arch has_suffix
fitting-mac = refl

fitting-musl : fitting asset_names musl_intel ≡ codes "tool-x86_64-linux-musl.tar.gz" ∷ []
unfolding fitting fits_platform has_word blank blank_from is_whole cut_prefix equal has_prefix
    format_os installer_os exe_by_format desktop names_arch has_suffix
fitting-musl = refl

-- "win" does not stand in "darwin" as a word
has_word-darwin : has_word (codes "tool-darwin") (words_at (codes "windows") os_words) ≡ false
unfolding has_word blank blank_from is_whole cut_prefix equal
has_word-darwin = refl

ranks :
    (rank_of (codes "tool.tar.gz") ≡ 0)
    × (rank_of (codes "tool.ZIP") ≡ 1)
    × (rank_of (codes "tool.exe") ≡ 2)
    × (rank_of (codes "tool.deb") ≡ 3)
    × (rank_of (codes "tool.pkg") ≡ 4)
unfolding rank_of ending equal has_suffix
ranks = (refl, refl, refl, refl, refl)

-- sizes in a circle: an unknown one is like any other
smaller-circle : (smaller 5 10 ≡ lt) × (smaller 10 0 ≡ eq) × (smaller 0 5 ≡ eq)
unfolding smaller
smaller-circle = (refl, refl, refl)

gnu-windows :
    gnu (target_of (codes "windows") (codes "amd64") [] []) (codes "x86_64-pc-windows-gnu") ≡ 1
unfolding gnu has_word blank blank_from is_whole cut_prefix equal
gnu-windows = refl

fat-mac : fat mac_arm (codes "tool-darwin-universal") ≡ 1
unfolding fat has_word blank blank_from is_whole cut_prefix equal
fat-mac = refl

has_word-occurs_example :
    has_word (codes "tool-win32-x64") (words_at (codes "windows") os_words)
    ≡ any (occurs_in (codes "tool-win32-x64")) (words_at (codes "windows") os_words)
unfolding equal
has_word-occurs_example =
    has_word-occurs (codes "tool-win32-x64") (words_at (codes "windows") os_words) refl

mac-have_words : have_words mac_arm ≡ true
unfolding equal
mac-have_words = refl

fitting-is_for_example :
    every (λ name. is_for mac_arm (to_lower name)) (fitting asset_names mac_arm) ≡ true
fitting-is_for_example = fitting-is_for asset_names mac_arm mac-have_words
