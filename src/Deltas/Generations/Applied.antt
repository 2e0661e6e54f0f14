-- ===== src/Deltas/Generations/Applied.antt =====
-- The rows of `generationDeltas` of internal/cli/changes.go, as edits of what a generation holds.
use mathlib.Core.List.{append_assoc}
use oku.Base.{
  All, All-append, Bytes, List, Option, [], ap, arith, equal_iff, false, none, refl, some, ◌++◌,
  ◌∙◌, ◌≡◌,
}
use oku.Deltas.{
  Delta, Kind, changed_rows, kind_file, kind_package, kind_setting, removed_rows, with_row,
}
use oku.Deltas.Generations.{
  file_gone, file_row, generation_deltas, package_gone, package_row, same_file, same_package,
  same_setting, setting_gone, setting_row,
}
use oku.Deltas.Rows.{
  AreDistinct, IsGone, IsRow, after_row, after_rows, after_rows-append, after_rows-other, rows-All,
  rows-applied, same_kind, value_of,
}
use oku.Profile.{Generation, ProfileFile, ProfilePackage, Setting}

package_gone-IsGone : IsGone kind_package ProfilePackage.name ProfilePackage.version package_gone
unfolding after_row
package_gone-IsGone n a known = ground arith

package_row-IsRow : IsRow kind_package ProfilePackage.name ProfilePackage.version package_row
unfolding after_rows after_row package_row
package_row-IsRow n none b known h = ground arith
package_row-IsRow n (some was) b known h = ground (arith, equal_iff was.version b.version)

file_gone-IsGone : IsGone kind_file ProfileFile.target ProfileFile.link file_gone
unfolding after_row
file_gone-IsGone n a known = ground arith

file_row-IsRow : IsRow kind_file ProfileFile.target ProfileFile.link file_row
unfolding after_rows after_row file_row
file_row-IsRow n none b known h = ground arith
file_row-IsRow n (some was) b known h = ground (arith, equal_iff was.link b.link)

abbrev IsOther : Kind → Delta → Type 0
IsOther k d = same_kind d.kind k ≡ false

abbrev pub package_rows : Generation → Generation → List Delta
package_rows old new =
    removed_rows same_package package_gone old.packages new.packages
    ++ changed_rows same_package package_row old.packages new.packages

abbrev pub file_rows : Generation → Generation → List Delta
file_rows old new =
    removed_rows same_file file_gone old.files new.files
    ++ changed_rows same_file file_row old.files new.files

abbrev pub setting_rows : Generation → Generation → List Delta
setting_rows old new =
    removed_rows same_setting setting_gone old.settings new.settings
    ++ changed_rows same_setting setting_row old.settings new.settings

package_row-kind :
    (k : Kind) (was : Option ProfilePackage) (b : ProfilePackage)
    → same_kind kind_package k ≡ false
    → All (IsOther k) (with_row (package_row was b) [])
unfolding package_row
package_row-kind k none b h = (h, tt)
package_row-kind k (some was) b h = ground arith

package_rows-IsOther :
    (k : Kind) (old new : Generation)
    → same_kind kind_package k ≡ false
    → All (IsOther k) (package_rows old new)
package_rows-IsOther k old new h =
    rows-All (IsOther k) same_package package_gone package_row old.packages new.packages (λ a. h)
      (λ was b. package_row-kind k was b h)

file_row-kind :
    (k : Kind) (was : Option ProfileFile) (b : ProfileFile)
    → same_kind kind_file k ≡ false
    → All (IsOther k) (with_row (file_row was b) [])
unfolding file_row
file_row-kind k none b h = (h, tt)
file_row-kind k (some was) b h = ground arith

file_rows-IsOther :
    (k : Kind) (old new : Generation)
    → same_kind kind_file k ≡ false
    → All (IsOther k) (file_rows old new)
file_rows-IsOther k old new h =
    rows-All (IsOther k) same_file file_gone file_row old.files new.files (λ a. h)
      (λ was b. file_row-kind k was b h)

setting_row-kind :
    (k : Kind) (was : Option Setting) (b : Setting)
    → same_kind kind_setting k ≡ false
    → All (IsOther k) (with_row (setting_row was b) [])
unfolding setting_row
setting_row-kind k none b h = (h, tt)
setting_row-kind k (some was) b h = ground arith

setting_rows-IsOther :
    (k : Kind) (old new : Generation)
    → same_kind kind_setting k ≡ false
    → All (IsOther k) (setting_rows old new)
setting_rows-IsOther k old new h =
    rows-All (IsOther k) same_setting setting_gone setting_row old.settings new.settings (λ a. h)
      (λ was b. setting_row-kind k was b h)

-- the version of the package of a name, and what the file of a target links to
abbrev pub versions : Bytes → List ProfilePackage → Option Bytes
versions = value_of kind_package ProfilePackage.name ProfilePackage.version

abbrev pub links : Bytes → List ProfileFile → Option Bytes
links = value_of kind_file ProfileFile.target ProfileFile.link

pub in_parts :
    (old new : Generation)
    → generation_deltas old new
      ≡ package_rows old new ++ (file_rows old new ++ setting_rows old new)
unfolding generation_deltas
in_parts old new = simp append_assoc

-- For two generations of which the newer holds no package and no file target twice, the rows of
-- packages applied to the versions of the older one give the versions of the newer one, and the rows
-- of files applied to the links of the older one give the links of the newer one.
pub generation_deltas-applied :
    (old new : Generation) (n : Bytes)
    → AreDistinct kind_package ProfilePackage.name ProfilePackage.version new.packages
    → AreDistinct kind_file ProfileFile.target ProfileFile.link new.files
    → (after_rows kind_package n (generation_deltas old new) (versions n old.packages)
        ≡ versions n new.packages)
      × (after_rows kind_file n (generation_deltas old new) (links n old.files) ≡ links n new.files)
generation_deltas-applied old new n h k = (
  ap (λ rows. after_rows kind_package n rows (versions n old.packages)) (in_parts old new)
      ∙ after_rows-append kind_package n (package_rows old new)
          (file_rows old new ++ setting_rows old new) (versions n old.packages)
      ∙ after_rows-other kind_package n (file_rows old new ++ setting_rows old new)
          (after_rows kind_package n (package_rows old new) (versions n old.packages))
          (All-append (IsOther kind_package) (file_rows old new) (setting_rows old new)
            (file_rows-IsOther kind_package old new refl)
            (setting_rows-IsOther kind_package old new refl))
      ∙ rows-applied kind_package ProfilePackage.name ProfilePackage.version package_gone
          package_row package_gone-IsGone package_row-IsRow n old.packages new.packages h,
  ap (λ rows. after_rows kind_file n rows (links n old.files)) (in_parts old new)
      ∙ after_rows-append kind_file n (package_rows old new)
          (file_rows old new ++ setting_rows old new) (links n old.files)
      ∙ ap (after_rows kind_file n (file_rows old new ++ setting_rows old new)) (
          after_rows-other kind_file n (package_rows old new) (links n old.files)
            (package_rows-IsOther kind_file old new refl))
      ∙ after_rows-append kind_file n (file_rows old new) (setting_rows old new) (links n old.files)
      ∙ after_rows-other kind_file n (setting_rows old new)
          (after_rows kind_file n (file_rows old new) (links n old.files))
          (setting_rows-IsOther kind_file old new refl)
      ∙ rows-applied kind_file ProfileFile.target ProfileFile.link file_gone file_row
          file_gone-IsGone file_row-IsRow n old.files new.files k,
)
