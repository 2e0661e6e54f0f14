-- ===== src/Ref/Parse.antt =====
-- ParseIn of internal/ref/ref.go. An error keeps its reason and drops the text it quotes.
use oku.Base.{
  Bool, Bytes, List, Option, Result, [], codes, cut, equal, err, false, find, has_prefix,
  if◌then◌else◌, is_nil, none, not, ok, some, split, trim_prefix, true, ◌&&◌, ◌||◌, ◌∷◌,
}
use oku.Ref.{Kind, Ref, RefError, has_any_byte, has_any_prefix, is_path, split_version}
use oku.Ref.Shapes.{
  has_scheme, is_cask, is_codeberg, is_crate, is_gitea, is_github, is_gitlab, is_go, is_name,
  is_npm, is_pypi, is_scoop, is_winget,
}
use oku.Ref.Urls.{System, encrypted, repo_url}

-- the prefix of a registry's refs, their kind and the names it takes
pub record Registry : Type 0 where
  pub prefix : Bytes
  pub of_kind : Kind
  pub takes : Bytes → Bool

-- the cases of the switch that read a registry's name
abbrev pub registries : List Registry
registries =
    record { prefix = codes "npm:"; of_kind = Kind.npm_kind; takes = λ s. is_npm (split b'/' s) }
    ∷ record { prefix = codes "pypi:"; of_kind = Kind.pypi_kind; takes = is_pypi }
    ∷ record { prefix = codes "go:"; of_kind = Kind.go_kind; takes = is_go }
    ∷ record { prefix = codes "cargo:"; of_kind = Kind.cargo_kind; takes = is_crate }
    ∷ record {
      prefix = codes "cask:";
      of_kind = Kind.cask_kind;
      takes = λ s. is_cask (split b'/' s);
    }
    ∷ record {
      prefix = codes "scoop:";
      of_kind = Kind.scoop_kind;
      takes = λ s. is_scoop (split b'/' s);
    }
    ∷ record {
      prefix = codes "aqua:";
      of_kind = Kind.aqua_kind;
      takes = λ s. is_codeberg (split b'/' s);
    }
    ∷ record { prefix = codes "winget:"; of_kind = Kind.winget_kind; takes = is_winget }
    ∷ []

abbrev pub forge_prefixes : List Bytes
forge_prefixes = codes "github:" ∷ codes "gitea:" ∷ codes "codeberg:" ∷ codes "gitlab:" ∷ []

-- the schemes of those prefixes, as a ref keeps them
abbrev pub forge_schemes : List Bytes
forge_schemes = codes "github" ∷ codes "gitea" ∷ codes "codeberg" ∷ codes "gitlab" ∷ []

-- the location that a forge's scheme wants
unfoldable pub fits_scheme : Bytes → Bytes → Bool
fits_scheme scheme location =
    let parts = split b'/' location in
    if equal scheme (codes "github")
    then is_github parts
    else if equal scheme (codes "gitea")
    then is_gitea parts
    else if equal scheme (codes "gitlab")
    then is_gitlab parts
    else if equal scheme (codes "codeberg")
    then is_codeberg parts
    else true

-- `gitSchema`
abbrev pub git_schema : List Bytes
git_schema = codes "https://" ∷ codes "http://" ∷ codes "ssh://" ∷ codes "file://" ∷ []

abbrev pub plain_ref : Kind → Bytes → Bytes → Ref
plain_ref kind location version = record {
  kind = kind;
  location = location;
  scheme = [];
  fragment = [];
  version = version;
}

-- the fragment of a forge's ref: none, a path in the repository or a manifest's name
unfoldable pub fragment_error : System → Bytes → Option RefError
fragment_error system fragment =
    if is_path fragment && not (system.is_local fragment)
    then some RefError.outside
    else if not (is_nil fragment) && not (is_path fragment) && not (is_name fragment)
    then some RefError.bad_name
    else none

abbrev pub unless_refused : Option RefError → Ref → Result RefError Ref
unless_refused none r = ok r
unless_refused (some e) r = err e

-- the case of a forge
unfoldable pub parse_forge : System → Bytes → Bytes → Result RefError Ref
parse_forge system body version =
    let schemed = cut b':' body in
    let place = cut b'#' schemed.after in
    if place.found && is_nil place.after
    then err RefError.no_fragment
    else if not (fits_scheme schemed.before place.before)
    then err RefError.bad_location
    else unless_refused (fragment_error system place.after) record {
      kind = Kind.forge_kind;
      location = place.before;
      scheme = schemed.before;
      fragment = place.after;
      version = version;
    }

-- the case of a registry
unfoldable pub parse_registry : Registry → Bytes → Bytes → Result RefError Ref
parse_registry registry body version =
    let name = trim_prefix registry.prefix body in
    if registry.takes name
    then ok (plain_ref registry.of_kind name version)
    else err RefError.bad_location

abbrev pub outside_error : System → Bytes → Option RefError
outside_error system fragment =
    if not (is_nil fragment) && not (system.is_local fragment) then some RefError.outside else none

-- the case of a Git repository
unfoldable pub parse_git : System → Bytes → Bytes → Result RefError Ref
parse_git system body version =
    let place = cut b'#' (trim_prefix (codes "git+") body) in
    if place.found && is_nil place.after
    then err RefError.no_fragment
    else if not (has_any_prefix place.before git_schema)
    then err RefError.bad_schema
    else elim (encrypted system place.before) [
      | some e ↦ err e
      | none ↦ unless_refused (outside_error system place.after) record {
        kind = Kind.git_kind;
        location = place.before;
        scheme = [];
        fragment = place.after;
        version = version;
      }
    ]

-- `inDir`
abbrev pub in_dir : System → Bytes → Bytes → Bytes
in_dir system dir path =
    if is_nil dir || system.is_absolute path || system.has_volume path
    then path
    else system.join_path dir path

-- the case of a file
abbrev pub parse_file : System → Bytes → Bytes → Result RefError Ref
parse_file system path version = elim (system.absolute path) [
  | none ↦ err RefError.no_absolute_path
  | some location ↦ ok (plain_ref Kind.file_kind location version)
]

-- `strings.Contains` of "://"
abbrev pub has_authority : Bytes → Bool
has_authority [] = false
has_authority (c ∷ s) = has_prefix (codes "://") (c ∷ s) || has_authority s

-- the cases behind the registries'
unfoldable pub parse_place : System → Bytes → Bytes → Bytes → Result RefError Ref
parse_place system dir body version =
    if has_prefix (codes "git+") body
    then parse_git system body version
    else if has_any_prefix body (codes "https://" ∷ codes "http://" ∷ [])
    then unless_refused (encrypted system body) (plain_ref Kind.http_kind body version)
    else if has_authority body
    then err RefError.unsupported_scheme
    else if has_scheme body && not (system.exists (in_dir system dir body))
    then err RefError.unknown_scheme
    else parse_file system (in_dir system dir body) version

-- the switch over the start of the body
unfoldable pub parse_body : System → Bytes → Bytes × Bytes → Result RefError Ref
parse_body system dir (body, version) =
    if has_any_prefix body forge_prefixes
    then parse_forge system body version
    else elim (find (λ registry. has_prefix registry.prefix body) registries) [
      | some registry ↦ parse_registry registry body version
      | none ↦ parse_place system dir body version
    ]

-- the body and the version, before a URL is looked at
unfoldable pub first_body : System → Bytes → Bytes → Bytes × Bytes
first_body system dir s =
    if system.exists (in_dir system dir s) || has_prefix (codes "cask:") s
    then (s, [])
    else split_version s

abbrev pub url_body : System → Bytes → Bytes × Bytes → Bytes × Bytes
url_body system s (body, version) = elim (repo_url system body) [
  | some forge ↦ (forge, version)
  | none ↦
      if has_any_prefix s (codes "https://" ∷ codes "http://" ∷ [])
        && not (has_any_byte (b'.' ∷ []) (system.base body))
      then (s, [])
      else (body, version)
]

-- `ParseIn`
unfoldable pub parse_in : System → Bytes → Bytes → Result RefError Ref
parse_in system dir s =
    if is_nil s
    then err RefError.empty_ref
    else parse_body system dir (url_body system s (first_body system dir s))
