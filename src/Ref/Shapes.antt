-- ===== src/Ref/Shapes.antt =====
-- The regular expressions of internal/ref/ref.go, and ValidName, ValidPath, ValidCask, ValidScoop and
-- ValidWinget of internal/pypi, internal/crates, internal/goproxy and internal/infer. A separator
-- of an expression stands in no class beside it, so a text is split at it.
use oku.Base.{
  Bool, Bytes, List, [], any, codes, contains, every, false, has_prefix, if◌then◌else◌, is_digit,
  is_lower_letter, is_nil, leb, length, map, not, split, true, ℕ, ◌&&◌, ◌==◌, ◌||◌, ◌∷◌,
}

-- letters and digits
abbrev pub is_letter : ℕ → Bool
is_letter c = is_lower_letter c || (leb b'A' c && leb c b'Z')

abbrev pub is_word_byte : ℕ → Bool
is_word_byte c = is_letter c || is_digit c

abbrev pub is_lower_byte : ℕ → Bool
is_lower_byte c = is_lower_letter c || is_digit c

-- a class of letters and digits with other bytes
abbrev pub or_in : (ℕ → Bool) → List ℕ → ℕ → Bool
or_in class others c = class c || any (λ b. c == b) others

-- one or more bytes of a class
abbrev pub some_of : (ℕ → Bool) → Bytes → Bool
some_of class s = not (is_nil s) && every class s

-- a byte of a class, and any number of another
abbrev pub begins_with : (ℕ → Bool) → (ℕ → Bool) → Bytes → Bool
begins_with first class [] = false
begins_with first class (c ∷ s) = first c && every class s

abbrev pub owner_byte : ℕ → Bool
owner_byte = or_in is_word_byte (b'-' ∷ [])

abbrev pub repo_byte : ℕ → Bool
repo_byte = or_in is_word_byte (b'.' ∷ b'_' ∷ b'-' ∷ [])

-- a first part, a dot at least and parts of a class between the dots
abbrev pub has_dots : (Bytes → Bool) → (ℕ → Bool) → List Bytes → Bool
has_dots first class [] = false
has_dots first class (part ∷ parts) =
    first part && not (is_nil parts) && every (some_of class) parts

abbrev pub is_host : Bytes → Bool
is_host s = has_dots (begins_with is_word_byte owner_byte) owner_byte (split b'.' s)

-- `githubRe`, on the parts between slashes
abbrev pub is_github : List Bytes → Bool
is_github (owner ∷ repo ∷ []) = begins_with is_word_byte owner_byte owner && some_of repo_byte repo
is_github (host ∷ owner ∷ repo ∷ []) =
    is_host host && begins_with is_word_byte owner_byte owner && some_of repo_byte repo
is_github _ = false

-- `giteaRe`
abbrev pub is_gitea : List Bytes → Bool
is_gitea (host ∷ owner ∷ repo ∷ []) =
    is_host host && begins_with is_word_byte repo_byte owner && some_of repo_byte repo
is_gitea _ = false

-- `gitlabRe`
abbrev pub is_gitlab : List Bytes → Bool
is_gitlab (group ∷ part ∷ parts) =
    begins_with is_word_byte repo_byte group
    && every (begins_with (or_in is_word_byte (b'_' ∷ [])) repo_byte) (part ∷ parts)
is_gitlab _ = false

-- `codebergRe`
abbrev pub is_codeberg : List Bytes → Bool
is_codeberg (owner ∷ repo ∷ []) = begins_with is_word_byte repo_byte owner && some_of repo_byte repo
is_codeberg _ = false

abbrev npm_byte : ℕ → Bool
npm_byte = or_in is_lower_byte (b'.' ∷ b'_' ∷ b'~' ∷ b'-' ∷ [])

abbrev is_npm_part : Bytes → Bool
is_npm_part = begins_with is_lower_byte npm_byte

-- `npmRe`
abbrev pub is_npm : List Bytes → Bool
is_npm (name ∷ []) = is_npm_part name
is_npm ((c ∷ scope) ∷ name ∷ []) = c == b'@' && is_npm_part scope && is_npm_part name
is_npm _ = false

-- `nameRe`
abbrev pub is_name : Bytes → Bool
is_name = begins_with is_lower_byte (or_in is_lower_byte (b'.' ∷ b'_' ∷ b'-' ∷ []))

-- `pypi.ValidName`: the last byte is a letter or a digit too
abbrev ends_in : (ℕ → Bool) → Bytes → Bool
ends_in class [] = false
ends_in class (c ∷ []) = class c
ends_in class (c ∷ d ∷ s) = ends_in class (d ∷ s)

unfoldable pub is_pypi : Bytes → Bool
is_pypi s = begins_with is_word_byte repo_byte s && ends_in is_word_byte s

-- `crates.ValidName`
unfoldable pub is_crate : Bytes → Bool
is_crate s = begins_with is_letter (or_in is_word_byte (b'_' ∷ b'-' ∷ [])) s && leb (length s) 64

-- the first part of `pathRe`: a last label of two letters at least behind a dot and another byte
abbrev ends_label : List Bytes → Bool
ends_label [] = false
ends_label (label ∷ []) = every is_lower_letter label && leb 2 (length label)
ends_label (label ∷ other ∷ labels) = ends_label (other ∷ labels)

abbrev is_domain : Bytes → Bool
is_domain s =
    every (or_in is_lower_byte (b'.' ∷ b'-' ∷ [])) s
    && (let labels = split b'.' s in
        ends_label labels
        && leb 2 (length labels)
        && not (has_prefix (codes ".") s && leb (length labels) 2))

abbrev has_double_dot : Bytes → Bool
has_double_dot [] = false
has_double_dot (c ∷ s) = has_prefix (codes "..") (c ∷ s) || has_double_dot s

abbrev is_go_path : List Bytes → Bool
is_go_path (domain ∷ part ∷ parts) =
    is_domain domain
    && every (some_of (or_in is_word_byte (b'.' ∷ b'_' ∷ b'~' ∷ b'+' ∷ b'-' ∷ []))) (part ∷ parts)
is_go_path _ = false

-- `goproxy.ValidPath`
unfoldable pub is_go : Bytes → Bool
is_go s = is_go_path (split b'/' s) && not (has_double_dot s)

abbrev winget_byte : ℕ → Bool
winget_byte = or_in is_word_byte (b'_' ∷ b'+' ∷ b'-' ∷ [])

-- `ValidWinget`
unfoldable pub is_winget : Bytes → Bool
is_winget s = has_dots (begins_with is_word_byte winget_byte) winget_byte (split b'.' s)

abbrev is_token : Bytes → Bool
is_token = begins_with is_lower_byte (or_in is_lower_byte (b'@' ∷ b'.' ∷ b'_' ∷ b'+' ∷ b'-' ∷ []))

-- `ValidCask`: `caskTokenRe`, or `caskTapRe`
abbrev pub is_cask : List Bytes → Bool
is_cask (token ∷ []) = is_token token
is_cask (owner ∷ tap ∷ token ∷ []) =
    some_of owner_byte owner && some_of repo_byte tap && is_token token
is_cask _ = false

-- the keys of `scoopBuckets`
abbrev pub scoop_buckets : List Bytes
scoop_buckets = map codes (
    "main" ∷ "extras" ∷ "versions" ∷ "nirsoft" ∷ "sysinternals" ∷ "php" ∷ "nerd-fonts" ∷ "java"
    ∷ "games" ∷ [])

abbrev is_scoop_name : Bytes → Bool
is_scoop_name = begins_with is_word_byte (or_in is_word_byte (b'.' ∷ b'_' ∷ b'+' ∷ b'-' ∷ []))

-- `ValidScoop`: `scoopNameRe` with a bucket that Scoop knows, or `scoopRepoRe`
abbrev pub is_scoop : List Bytes → Bool
is_scoop (name ∷ []) = is_scoop_name name
is_scoop (bucket ∷ name ∷ []) =
    some_of (or_in is_lower_letter (b'-' ∷ [])) bucket
    && is_scoop_name name
    && contains scoop_buckets bucket
is_scoop (owner ∷ repo ∷ name ∷ []) =
    some_of owner_byte owner && some_of repo_byte repo && is_scoop_name name
is_scoop _ = false

-- the part of `schemeRe` behind the first letter, with the bytes before a colon counted
abbrev is_scheme_rest : Bool → Bytes → Bool
is_scheme_rest seen [] = false
is_scheme_rest seen (c ∷ s) =
    let rest = is_scheme_rest true s in
    if c == b':' then seen else or_in is_word_byte (b'+' ∷ b'.' ∷ b'-' ∷ []) c && rest

-- `schemeRe`
unfoldable pub has_scheme : Bytes → Bool
has_scheme [] = false
has_scheme (c ∷ s) = is_letter c && is_scheme_rest false s
