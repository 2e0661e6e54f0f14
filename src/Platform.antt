-- ===== src/Platform.antt =====
-- internal/platform/platform.go: platforms, the selectors of a manifest or a list, and `when`
-- values. What the machine says (`runtime.GOOS`, the libc, the host name) is an argument. Text is
-- ASCII, on which `strings.EqualFold` folds the letters A to Z alone.
pub mod And
pub mod Cover
pub mod Names
pub mod Value
pub mod Lists
use oku.Base.{
  Bool, Bytes, List, Option, Result, [], any, codes, contains, cut, equal, equal_fold, err, find,
  if◌then◌else◌, is_nil, none, ok, some, ◌&&◌, ◌++◌, ◌||◌, ◌∷◌,
}
use oku.Trust.Allowed.{set}

pub record Platform : Type 0 where
  pub os : Bytes
  pub arch : Bytes
  pub libc : Bytes

-- An empty field matches anything.
pub record Selector : Type 0 where
  pub os : Bytes
  pub arch : Bytes
  pub libc : Bytes
  pub host : Bytes

abbrev pub When : Type 0
When = List Selector

abbrev pub known_os : List Bytes
known_os =
    codes "aix"
    ∷ codes "android"
    ∷ codes "darwin"
    ∷ codes "dragonfly"
    ∷ codes "freebsd"
    ∷ codes "illumos"
    ∷ codes "ios"
    ∷ codes "js"
    ∷ codes "linux"
    ∷ codes "netbsd"
    ∷ codes "openbsd"
    ∷ codes "plan9"
    ∷ codes "solaris"
    ∷ codes "wasip1"
    ∷ codes "windows"
    ∷ []

abbrev pub known_arch : List Bytes
known_arch =
    codes "386"
    ∷ codes "amd64"
    ∷ codes "arm"
    ∷ codes "arm64"
    ∷ codes "loong64"
    ∷ codes "mips"
    ∷ codes "mips64"
    ∷ codes "mips64le"
    ∷ codes "mipsle"
    ∷ codes "ppc64"
    ∷ codes "ppc64le"
    ∷ codes "riscv64"
    ∷ codes "s390x"
    ∷ codes "wasm"
    ∷ []

abbrev pub libc_glibc : Bytes
libc_glibc = codes "glibc"

abbrev pub libc_musl : Bytes
libc_musl = codes "musl"

abbrev pub known_libc : List Bytes
known_libc = libc_glibc ∷ libc_musl ∷ []

-- the map from a name people write for a platform to Go's
abbrev pub likely : List (Bytes × Bytes)
likely =
    (codes "macos", codes "darwin")
    ∷ (codes "mac", codes "darwin")
    ∷ (codes "osx", codes "darwin")
    ∷ (codes "win", codes "windows")
    ∷ (codes "x86_64", codes "amd64")
    ∷ (codes "x64", codes "amd64")
    ∷ (codes "aarch64", codes "arm64")
    ∷ (codes "gnu", codes "glibc")
    ∷ []

-- The parts of the message: the key, its value, and the name to use or the names known.
pub data CheckError : Type 0 where
  use_name : Bytes → Bytes → Bytes → CheckError
  use_one_of : Bytes → Bytes → List Bytes → CheckError

pub check_field : Bytes → Bytes → List Bytes → Option CheckError
check_field key value known =
    if is_nil value || contains known value
    then none
    else elim (find (λ entry. equal entry.0 value) likely) [
      | some (_, name) ↦ some (use_name key value name)
      | none ↦ some (use_one_of key value known)
    ]

abbrev pub or_error : Option CheckError → Option CheckError → Option CheckError
or_error none later = later
or_error (some e) later = some e

-- `Selector.Check`: the first field, in this order, whose value no platform has
unfoldable pub check : Selector → Option CheckError
unfolding check_field
check s = or_error (check_field (codes "os") s.os known_os) (
    or_error (check_field (codes "arch") s.arch known_arch)
      (check_field (codes "libc") s.libc known_libc))

-- `Platform.String`
unfoldable pub to_string : Platform → Bytes
to_string p = let s = p.os ++ (b'-' ∷ p.arch) in if is_nil p.libc then s else s ++ (b'-' ∷ p.libc)

abbrev platform : Bytes → Bytes → Bytes → Platform
platform os arch libc = record { os = os; arch = arch; libc = libc }

-- `All`
abbrev pub all_platforms : List Platform
all_platforms =
    platform (codes "darwin") (codes "amd64") []
    ∷ platform (codes "darwin") (codes "arm64") []
    ∷ platform (codes "linux") (codes "amd64") libc_glibc
    ∷ platform (codes "linux") (codes "amd64") libc_musl
    ∷ platform (codes "linux") (codes "arm64") libc_glibc
    ∷ platform (codes "linux") (codes "arm64") libc_musl
    ∷ platform (codes "windows") (codes "amd64") []
    ∷ platform (codes "windows") (codes "arm64") []
    ∷ []

-- `Parse`; the error lists the names of all platforms
unfoldable pub parse : Bytes → Result Bytes Platform
parse s = elim (find (λ p. equal (to_string p) s) all_platforms) [ some p ↦ ok p | none ↦ err s ]

-- `Platform.Selector`
abbrev pub selector_of : Platform → Selector
selector_of p = record { os = p.os; arch = p.arch; libc = p.libc; host = [] }

-- an empty field matches anything
abbrev pub field_matches : Bytes → Bytes → Bool
field_matches want value = is_nil want || equal want value

-- `Selector.Matches`
unfoldable pub selector_matches : Selector → Platform → Bool
selector_matches s p =
    field_matches s.os p.os && field_matches s.arch p.arch && field_matches s.libc p.libc

-- `When.Matches`
unfoldable pub when_matches : When → Platform → Bool
when_matches w p = is_nil w || any (λ s. selector_matches s p) w

-- the test of `When.Here` on one selector
unfoldable pub selector_here : Platform → Bytes → Selector → Bool
selector_here p host s = selector_matches s p && (is_nil s.host || equal_fold s.host host)

-- `When.Here`, on the platform `Host()` and the name `hostName()`
unfoldable pub when_here : Platform → Bytes → When → Bool
when_here p host w = is_nil w || any (selector_here p host) w

-- `hostName`: the variable OKU_HOST, else the machine's name up to its first dot
unfoldable pub host_name : Bytes → Bytes → Bytes
host_name variable machine = if is_nil variable then (cut b'.' machine).before else variable

unfoldable pub same_platform : Platform → Platform → Bool
same_platform p q = equal p.os q.os && equal p.arch q.arch && equal p.libc q.libc

-- `slices.Contains` on platforms
abbrev pub holds : List Platform → Platform → Bool
holds set p = any (λ q. same_platform q p) set
