-- ===== src/Lock/Packages.antt =====
-- `Find`, `Set`, `Delete`, `FindInclude`, `FindDep`, `FindDepFor` and `VersionOn` of
-- internal/lock/lock.go.
pub mod Found
use oku.Base.{
  Bool, Bytes, List, Option, [], any, equal, false, find, if◌then◌else◌, keep, none, not, some,
  text_or, true, ◌&&◌, ◌++◌, ◌∷◌,
}
use oku.Lock.{Include, Lock, Package, PlatformPin, deps_list, deps_of, pin_of}

abbrev pub is_named : Bytes → Package → Bool
is_named name p = equal (pin_of p).name name

-- `Lock.Find`
unfoldable pub find_package : Lock → Bytes → Option Package
find_package l name = find (is_named name) l.packages

-- `Lock.Delete`
unfoldable pub delete_package : Lock → Bytes → Lock
delete_package l name = record l { packages = keep (λ p. not (is_named name p)) l.packages }

-- `Lock.Set`
unfoldable pub set_package : Lock → Package → Lock
set_package l p =
    let rest = delete_package l (pin_of p).name in
    record rest { packages = rest.packages ++ (p ∷ []) }

-- `Lock.FindInclude`
unfoldable pub find_include : Lock → Bytes → Option Include
find_include l ref = find (λ inc. equal inc.ref ref) l.includes

-- the pin of a platform in the map
abbrev pub platform_pin : Bytes → List (Bytes × PlatformPin) → Option PlatformPin
platform_pin key [] = none
platform_pin key ((k, pin) ∷ rest) = if equal k key then some pin else platform_pin key rest

abbrev or_version : Option PlatformPin → Bytes → Bytes
or_version none version = version
or_version (some pin) version = text_or pin.version version

-- `Package.VersionOn`
unfoldable pub version_on : Package → Bytes → Bytes
version_on p key = or_version (platform_pin key (pin_of p).platforms) (pin_of p).version

-- the loops of `FindDep` and `FindDepFor` over the deps
abbrev pub is_from : Bytes → Package → Bool
is_from ref p = equal (pin_of p).ref ref

abbrev is_pin : Option PlatformPin → Bool
is_pin none = false
is_pin (some pin) = true

-- whether the package pins one of the platform keys
abbrev pub pins_one : List Bytes → Package → Bool
pins_one keys p = any (λ key. is_pin (platform_pin key (pin_of p).platforms)) keys

-- `Package.FindDep`; nothing is the zero `Package`
unfoldable pub find_dep : Package → Bytes → Option Package
find_dep p ref = find (is_from ref) (deps_list (deps_of p))

-- `Package.FindDepFor`
unfoldable pub find_dep_for : Package → Bytes → List Bytes → Option Package
find_dep_for p ref keys =
    elim (find (λ d. is_from ref d && pins_one keys d) (deps_list (deps_of p))) [
      | some d ↦ some d
      | none ↦ find_dep p ref
    ]
