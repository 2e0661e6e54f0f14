-- ===== src/Tests/PlatformTests.antt =====
-- Tests of the platform modules.
use Prim.Native.String.{String}
use oku.Base.{
  All, Bytes, List, [], codes, equal, err, false, is_nil, ok, refl, true, ◌&&◌, ◌↔◌, ◌∷◌, ◌≡◌,
}
use oku.Platform.{
  Platform, Selector, When, all_platforms, check, holds, parse, same_platform, selector_matches,
  to_string, use_name, when_here, when_matches,
}
use oku.Platform.And.{both, merge, merge_all, merge_each, when_and}
use oku.Platform.And.Meets.{when_and-meets}
use oku.Platform.Cover.{cover, cover_loop, cover_one, cover_step, within}
use oku.Platform.Cover.Exact.{cover_exact}
use oku.Platform.Names.{parse-to_string}
use oku.Platform.Value.{
  Field, host_in_manifest, missing, no_such, one, parse_when, read_entries, read_entry, read_item,
  read_items, set_field, text_field,
}
use oku.Platform.Value.Valid.{IsValid, parse_when-IsValid}

abbrev on : String → String → String → String → Selector
on os arch libc host = record {
  os = codes os;
  arch = codes arch;
  libc = codes libc;
  host = codes host;
}

abbrev linux_musl : Platform
linux_musl = record { os = codes "linux"; arch = codes "arm64"; libc = codes "musl" }

abbrev mac : Platform
mac = record { os = codes "darwin"; arch = codes "arm64"; libc = [] }

abbrev intel_mac : Platform
intel_mac = record { os = codes "darwin"; arch = codes "amd64"; libc = [] }

abbrev unix : When
unix = on "darwin" "" "" "" ∷ on "linux" "" "" "box" ∷ []

abbrev arm : When
arm = on "" "arm64" "" "" ∷ on "windows" "" "" "" ∷ []

when_and-meets_example :
    ((when_and unix arm).1 && when_here linux_musl (codes "Box") (when_and unix arm).0)
    ≡ (when_here linux_musl (codes "Box") unix && when_here linux_musl (codes "Box") arm)
unfolding check equal
when_and-meets_example =
    when_and-meets linux_musl (codes "Box") unix arm (refl, (refl, tt)) (refl, (refl, tt))

and_unix-arm :
    when_and unix arm ≡ (on "darwin" "arm64" "" "" ∷ on "linux" "arm64" "" "box" ∷ [], true)
unfolding when_and merge_all merge_each merge both equal
and_unix-arm = refl

and_none : (when_and (on "darwin" "" "" "" ∷ []) (on "linux" "" "" "" ∷ [])).1 ≡ false
unfolding when_and merge_all merge_each merge both equal
and_none = refl

cover_macs :
    cover (mac ∷ intel_mac ∷ linux_musl ∷ [])
    ≡ on "darwin" "" "" "" ∷ on "linux" "arm64" "musl" "" ∷ []
unfolding cover cover_loop cover_step cover_one within selector_matches same_platform equal
cover_macs = refl

cover_exact_example :
    when_matches (cover (mac ∷ linux_musl ∷ [])) intel_mac ≡ holds (mac ∷ linux_musl ∷ []) intel_mac
unfolding same_platform equal
cover_exact_example = cover_exact (mac ∷ linux_musl ∷ []) mac intel_mac refl refl refl

parse-to_string_example :
    (parse (codes "linux-arm64-musl") ≡ ok linux_musl)
    ↔ ((holds all_platforms linux_musl ≡ true) × (to_string linux_musl ≡ codes "linux-arm64-musl"))
parse-to_string_example = parse-to_string (codes "linux-arm64-musl") linux_musl

abbrev entries : List (Bytes × Field)
entries = (codes "os", text_field (codes "linux")) ∷ (codes "arch", text_field (codes "arm64")) ∷ []

read_entries_test : parse_when false (one entries) ≡ ok (on "linux" "arm64" "" "" ∷ [])
unfolding parse_when read_items read_item read_entries read_entry set_field check equal
read_entries_test = refl

host_refused :
    parse_when false (one ((codes "host", text_field (codes "box")) ∷ [])) ≡ err host_in_manifest
unfolding parse_when read_items read_item read_entries read_entry set_field check equal
host_refused = refl

macos_refused :
    parse_when true (one ((codes "os", text_field (codes "macos")) ∷ []))
    ≡ err (no_such (use_name (codes "os") (codes "macos") (codes "darwin")))
unfolding parse_when read_items read_item read_entries read_entry set_field check equal
macos_refused = refl

parse_when-IsValid_example :
    All (IsValid false) (on "linux" "arm64" "" "" ∷ [])
    × (is_nil (on "linux" "arm64" "" "" ∷ []) ≡ true → one entries ≡ missing)
parse_when-IsValid_example =
    parse_when-IsValid false (one entries) (on "linux" "arm64" "" "" ∷ []) read_entries_test
