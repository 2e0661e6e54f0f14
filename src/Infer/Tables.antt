-- ===== src/Infer/Tables.antt =====
-- internal/infer/infer.go: the tables of words and of endings.
use oku.Base.{Bytes, List, [], codes, equal, if◌then◌else◌, ◌∷◌}

-- `osWords`
abbrev pub os_words : List (Bytes × List Bytes)
os_words =
    (codes "linux", codes "linux" ∷ [])
    ∷ (
      codes "darwin",
      codes "darwin"
          ∷ codes "macos"
          ∷ codes "macosx"
          ∷ codes "apple"
          ∷ codes "osx"
          ∷ codes "mac"
          ∷ [],
    )
    ∷ (codes "windows", codes "windows" ∷ codes "win64" ∷ codes "win32" ∷ codes "win" ∷ [])
    ∷ []

-- `archWords`
abbrev pub arch_words : List (Bytes × List Bytes)
arch_words =
    (
      codes "amd64",
      codes "x86_64"
          ∷ codes "x86-64"
          ∷ codes "amd64"
          ∷ codes "x64"
          ∷ codes "64bit"
          ∷ codes "64-bit"
          ∷ [],
    )
    ∷ (codes "arm64", codes "aarch64" ∷ codes "arm64" ∷ [])
    ∷ (
      codes "386",
      codes "i386"
          ∷ codes "i686"
          ∷ codes "386"
          ∷ codes "ia32"
          ∷ codes "32bit"
          ∷ codes "32-bit"
          ∷ [],
    )
    ∷ (codes "arm", codes "armv7" ∷ codes "armv7l" ∷ codes "armhf" ∷ codes "arm" ∷ [])
    ∷ (codes "riscv64", codes "riscv64" ∷ [])
    ∷ []

-- `fatWords`
abbrev pub fat_words : List (Bytes × List Bytes)
fat_words = (codes "darwin", codes "universal" ∷ codes "universal2" ∷ codes "all" ∷ []) ∷ []

-- `libcWords`
abbrev pub libc_words : List (Bytes × List Bytes)
libc_words =
    (codes "glibc", codes "gnu" ∷ codes "glibc" ∷ codes "gnueabi" ∷ codes "gnueabihf" ∷ [])
    ∷ (codes "musl", codes "musl" ∷ codes "musleabi" ∷ codes "musleabihf" ∷ [])
    ∷ []

-- a map of Go; a missing key has no words
abbrev pub words_at : Bytes → List (Bytes × List Bytes) → List Bytes
words_at key [] = []
words_at key ((k, words) ∷ rest) = if equal k key then words else words_at key rest

-- `otherArches`
abbrev pub other_arches : List Bytes
other_arches =
    codes "ppc64le"
    ∷ codes "ppc64"
    ∷ codes "powerpc64le"
    ∷ codes "powerpc64"
    ∷ codes "powerpc"
    ∷ codes "s390x"
    ∷ codes "loong64"
    ∷ codes "loongarch64"
    ∷ codes "mips"
    ∷ codes "mipsel"
    ∷ codes "mipsle"
    ∷ codes "mips64"
    ∷ codes "mips64el"
    ∷ codes "mips64le"
    ∷ codes "sparc64"
    ∷ codes "m68k"
    ∷ codes "i586"
    ∷ codes "armv5"
    ∷ codes "armv5te"
    ∷ codes "armv6"
    ∷ codes "armv6l"
    ∷ codes "armel"
    ∷ []

-- `unpackable`
abbrev pub unpackable : List Bytes
unpackable =
    codes ".tar.gz"
    ∷ codes ".tgz"
    ∷ codes ".tar.bz2"
    ∷ codes ".tbz2"
    ∷ codes ".tar.xz"
    ∷ codes ".txz"
    ∷ codes ".tar.zst"
    ∷ codes ".zip"
    ∷ codes ".7z"
    ∷ codes ".tar"
    ∷ codes ".deb"
    ∷ codes ".rpm"
    ∷ codes ".msi"
    ∷ codes ".dmg"
    ∷ codes ".pkg"
    ∷ []

-- `installers`
abbrev pub installers : List Bytes
installers = codes ".deb" ∷ codes ".rpm" ∷ codes ".msi" ∷ codes ".dmg" ∷ []

-- `skipped`
abbrev pub skipped_endings : List Bytes
skipped_endings =
    codes ".sha256"
    ∷ codes ".sha256sum"
    ∷ codes ".sha256sums"
    ∷ codes ".sha512"
    ∷ codes ".sha512sum"
    ∷ codes ".sha1"
    ∷ codes ".shasum"
    ∷ codes ".md5"
    ∷ codes ".md5sum"
    ∷ codes ".sig"
    ∷ codes ".asc"
    ∷ codes ".pem"
    ∷ codes ".sbom"
    ∷ codes ".json"
    ∷ codes ".txt"
    ∷ codes ".apk"
    ∷ codes ".minisig"
    ∷ codes ".crt"
    ∷ codes ".cert"
    ∷ codes ".bundle"
    ∷ codes ".intoto.jsonl"
    ∷ codes ".vsix"
    ∷ codes ".delta"
    ∷ []

-- `desktopWords`
abbrev pub desktop_words : List Bytes
desktop_words = codes "desktop" ∷ codes "app" ∷ codes "gui" ∷ codes "installer" ∷ codes "setup" ∷ []
