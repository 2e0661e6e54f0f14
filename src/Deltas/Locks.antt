-- ===== src/Deltas/Locks.antt =====
-- `lockDeltas`, `packageDeltas` and `depDeltas` of internal/cli/changes.go. A map is the list of its
-- entries, and the lock's maps have no key twice.
pub mod Commas
pub mod Quiet
pub mod Versions
pub mod Pins
pub mod Silent
use Prim.Native.Nat.{Ordering}
use oku.Base.{
  Bool, Bytes, List, Option, [], codes, contains, differ, equal, every, false, if◌then◌else◌,
  length, map, none, not, same_int, some, sorted, suc, zero, ℕ, ◌&&◌, ◌++◌, ◌==◌, ◌||◌, ◌∷◌,
}
use oku.Change.Apply.{commit}
use oku.Deltas.{
  Delta, changed_rows, delta_of, kind_dep, kind_list, kind_package, removed_rows, was_added,
  was_changed, was_removed, with_row,
}
use oku.Expose.{after}
use oku.List.Pieces.{plain}
use oku.Lock.{Include, Lock, Package, Pin, PlatformPin, deps_list, deps_of, pin_of}
use oku.Lock.Packages.{find_package, is_named, platform_pin, version_on}
use oku.Version.Pick.{note}

-- `short`: the first bytes of a commit
abbrev pub first_bytes : ℕ → Bytes → Bytes
first_bytes zero s = []
first_bytes (suc n) [] = []
first_bytes (suc n) (c ∷ s) = c ∷ first_bytes n s

unfoldable pub short : Bytes → Bytes
short commit = first_bytes 12 commit

abbrev pub same_include : Include → Include → Bool
same_include a b = equal b.ref a.ref

abbrev pub include_gone : Include → Delta
include_gone inc = record (delta_of kind_list inc.ref was_removed) { before = short inc.commit }

-- the body of the loop over `to.Includes`
unfoldable pub include_row : Option Include → Include → Option Delta
include_row none inc =
    some (record (delta_of kind_list inc.ref was_added) { after = short inc.commit })
include_row (some was) inc =
    if not (equal was.commit inc.commit)
    then some (record (delta_of kind_list inc.ref was_changed) {
      before = short was.commit;
      after = short inc.commit;
    })
    else if not (equal was.sha256 inc.sha256)
    then some (record (delta_of kind_list inc.ref was_changed) { note = codes "content" })
    else none

-- `reflect.DeepEqual` on the pins of two platforms
unfoldable pub same_pin : PlatformPin → PlatformPin → Bool
same_pin a b =
    equal a.strategy b.strategy
    && equal a.url b.url
    && equal a.sha256 b.sha256
    && equal a.verified b.verified
    && not (differ a.impure b.impure)
    && not (differ a.commands b.commands)
    && equal a.vendor_sha256 b.vendor_sha256
    && equal a.version b.version
    && equal a.tag b.tag
    && same_int a.signed_at b.signed_at

abbrev pub has_pin : PlatformPin → Option PlatformPin → Bool
has_pin p none = false
has_pin p (some q) = same_pin p q

-- `reflect.DeepEqual` on two maps of pins, where no map and an empty one are the same
unfoldable pub same_platforms : List (Bytes × PlatformPin) → List (Bytes × PlatformPin) → Bool
same_platforms a b =
    length a == length b && every (λ entry. has_pin (entry.1) (platform_pin (entry.0) b)) a

abbrev pub keys {ℓ} : {V : Type ℓ} → List (Bytes × V) → List Bytes
keys l = map (λ entry. entry.0) l

-- the body of the loop over the platforms that both locks pin
unfoldable pub platform_row : Package → Package → Bytes → Option Delta
platform_row was now key = elim (platform_pin key (pin_of was).platforms) [
  | none ↦ none
  | some pin ↦
      if equal (version_on was key) (version_on now key)
      then none
      else some (record (delta_of kind_package (pin_of now).name was_changed) {
        before = version_on was key;
        after = version_on now key;
        note = codes "on " ++ key;
      })
]

unfoldable pub platform_rows : Package → Package → List Bytes → List Delta
platform_rows was now [] = []
platform_rows was now (key ∷ ks) = with_row (platform_row was now key) (platform_rows was now ks)

-- whether the pins agree but for what `row` shows
unfoldable pub repinned : Pin → Pin → Bool
repinned was now =
    not (equal was.manifest_sha256 now.manifest_sha256)
    || not (equal was.commit now.commit)
    || not (equal was.tag_commit now.tag_commit)
    || not (same_platforms was.platforms now.platforms)

abbrev pub or_repinned : Bool → Delta → List Delta → List Delta
or_repinned again row [] = if again then record row { note = codes "repinned" } ∷ [] else []
or_repinned again row (d ∷ rows) = d ∷ rows

-- `packageDeltas`
unfoldable pub package_deltas : Package → Package → List Delta
package_deltas was now =
    let old = pin_of was in
    let new = pin_of now in
    let plain = record (delta_of kind_package new.name was_changed) {
      before = old.version;
      after = new.version;
    } in
    let row =
      if equal old.ref new.ref
      then plain
      else record plain { note = codes "ref " ++ (old.ref ++ (codes " -> " ++ new.ref)) } in
    if not (equal old.version new.version) || not (equal old.ref new.ref)
    then row ∷ []
    else or_repinned (repinned old new) row (platform_rows was now (sorted (keys new.platforms)))

-- the lists of `byRef`
unfoldable pub add_version : Bytes → Bytes → List (Bytes × List Bytes) → List (Bytes × List Bytes)
add_version ref version [] = (ref, version ∷ []) ∷ []
add_version ref version ((r, vs) ∷ by_ref) =
    if equal r ref
    then (r, (if contains vs version then vs else vs ++ (version ∷ []))) ∷ by_ref
    else (r, vs) ∷ add_version ref version by_ref

unfoldable pub by_ref_from : List Package → List (Bytes × List Bytes) → List (Bytes × List Bytes)
by_ref_from [] by_ref = by_ref
by_ref_from (d ∷ ds) by_ref = by_ref_from ds (add_version (pin_of d).ref (pin_of d).version by_ref)

-- `strings.Join(list, ", ")`
unfoldable pub with_commas : List Bytes → Bytes
with_commas [] = []
with_commas (x ∷ []) = x
with_commas (x ∷ y ∷ rest) = x ++ (codes ", " ++ with_commas (y ∷ rest))

-- `versions` in `depDeltas`
unfoldable pub dep_versions : List Package → List (Bytes × Bytes)
dep_versions ds = map (λ entry. (entry.0, with_commas (sorted (entry.1)))) (by_ref_from ds [])

unfoldable pub text_at : Bytes → List (Bytes × Bytes) → Option Bytes
text_at key [] = none
text_at key ((k, v) ∷ l) = if equal k key then some v else text_at key l

abbrev pub dep_name : Bytes → Bytes → Bytes
dep_name name ref = name ++ (b' ' ∷ ref)

unfoldable pub dep_gone : Bytes → Bytes → Option Bytes → Option Bytes → Option Delta
dep_gone name ref (some was) none =
    some (record (delta_of kind_dep (dep_name name ref) was_removed) { before = was })
dep_gone name ref _ _ = none

unfoldable pub dep_row : Bytes → Bytes → Option Bytes → Option Bytes → Option Delta
dep_row name ref was none = none
dep_row name ref none (some now) =
    some (record (delta_of kind_dep (dep_name name ref) was_added) { after = now })
dep_row name ref (some was) (some now) =
    if equal was now
    then none
    else some
        (record (delta_of kind_dep (dep_name name ref) was_changed) { before = was; after = now })

-- a loop over sorted keys, with what each key stands for before and after
unfoldable pub dep_rows :
    (Bytes → Option Bytes → Option Bytes → Option Delta)
    → List (Bytes × Bytes)
    → List (Bytes × Bytes)
    → List Bytes
    → List Delta
dep_rows row before after [] = []
dep_rows row before after (ref ∷ refs) =
    with_row (row ref (text_at ref before) (text_at ref after)) (dep_rows row before after refs)

-- `depDeltas`
unfoldable pub dep_deltas : Bytes → List Package → List Package → List Delta
dep_deltas name old new =
    let before = dep_versions old in
    let after = dep_versions new in
    dep_rows (dep_gone name) before after (sorted (keys before))
    ++ dep_rows (dep_row name) before after (sorted (keys after))

abbrev pub same_name : Package → Package → Bool
same_name a b = is_named (pin_of a).name b

abbrev pub pin_gone : Package → Delta
pin_gone p = record (delta_of kind_package (pin_of p).name was_removed) {
  before = (pin_of p).version;
}

-- the body of the loop over `to.Packages`
unfoldable pub pin_rows : Option Package → Package → List Delta
pin_rows none p =
    record (delta_of kind_package (pin_of p).name was_added) { after = (pin_of p).version } ∷ []
pin_rows (some was) p =
    package_deltas was p
    ++ dep_deltas (pin_of p).name (deps_list (deps_of was)) (deps_list (deps_of p))

unfoldable pub all_pin_rows : Lock → List Package → List Delta
all_pin_rows old [] = []
all_pin_rows old (p ∷ ps) = pin_rows (find_package old (pin_of p).name) p ++ all_pin_rows old ps

-- `lockDeltas`
unfoldable pub lock_deltas : Lock → Lock → List Delta
lock_deltas old new =
    removed_rows same_include include_gone old.includes new.includes
    ++ (changed_rows same_include include_row old.includes new.includes
        ++ (removed_rows same_name pin_gone old.packages new.packages
            ++ all_pin_rows old new.packages))
