-- ===== src/Deltas/Generations.antt =====
-- `generationDeltas` of internal/cli/changes.go.
pub mod Applied
pub mod Silent
use oku.Base.{
  Bool, Bytes, List, Option, codes, equal, if◌then◌else◌, none, not, some, ◌&&◌, ◌++◌, ◌==◌, ◌∷◌,
}
use oku.Deltas.{
  Delta, changed_rows, delta_of, kind_file, kind_package, kind_setting, removed_rows, was_added,
  was_changed, was_removed,
}
use oku.Profile.{Generation, ProfileFile, ProfilePackage, Setting}

abbrev pub same_package : ProfilePackage → ProfilePackage → Bool
same_package a b = equal b.name a.name

abbrev pub package_gone : ProfilePackage → Delta
package_gone p = record (delta_of kind_package p.name was_removed) { before = p.version }

-- the body of the loop over `to.Packages`
unfoldable pub package_row : Option ProfilePackage → ProfilePackage → Option Delta
package_row none p = some (record (delta_of kind_package p.name was_added) { after = p.version })
package_row (some was) p =
    let d = record (delta_of kind_package p.name was_changed) { after = p.version } in
    if not (equal was.version p.version)
    then some (record d { before = was.version })
    else if not (equal was.store_path p.store_path)
    then some (record d { before = p.version; note = codes "rebuilt" })
    else none

abbrev pub same_file : ProfileFile → ProfileFile → Bool
same_file a b = equal b.target a.target

abbrev pub file_gone : ProfileFile → Delta
file_gone f = record (delta_of kind_file f.target was_removed) { before = f.link }

-- the body of the loop over `to.Files`
unfoldable pub file_row : Option ProfileFile → ProfileFile → Option Delta
file_row none f = some (record (delta_of kind_file f.target was_added) { after = f.link })
file_row (some was) f =
    let d = record (delta_of kind_file f.target was_changed) { after = f.link } in
    if not (equal was.link f.link)
    then some (record d { before = was.link })
    else if not (equal was.hash f.hash)
    then some (record d { before = f.link; note = codes "content" })
    else if not (was.mode == f.mode)
    then some (record d { before = f.link; note = codes "mode" })
    else none

abbrev pub same_setting : Setting → Setting → Bool
same_setting a b = equal b.domain a.domain && equal b.key a.key

abbrev pub setting_name : Setting → Bytes
setting_name s = s.domain ++ (b' ' ∷ s.key)

abbrev pub setting_gone : Setting → Delta
setting_gone s = record (delta_of kind_setting (setting_name s) was_removed) { before = s.value }

-- the body of the loop over `to.Settings`
unfoldable pub setting_row : Option Setting → Setting → Option Delta
setting_row none s =
    some (record (delta_of kind_setting (setting_name s) was_added) { after = s.value })
setting_row (some was) s =
    if not (equal was.value s.value)
    then some (record (delta_of kind_setting (setting_name s) was_changed) {
      before = was.value;
      after = s.value;
    })
    else none

-- `generationDeltas`
unfoldable pub generation_deltas : Generation → Generation → List Delta
generation_deltas old new =
    removed_rows same_package package_gone old.packages new.packages
    ++ (changed_rows same_package package_row old.packages new.packages
        ++ (removed_rows same_file file_gone old.files new.files
            ++ (changed_rows same_file file_row old.files new.files
                ++ (removed_rows same_setting setting_gone old.settings new.settings
                    ++ changed_rows same_setting setting_row old.settings new.settings))))
