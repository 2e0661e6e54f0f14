-- ===== src/Ref/Urls.antt =====
-- The URLs of internal/ref/ref.go: repoURL and encrypted, and what the operating system and the
-- packages net, net/url, path, path/filepath and os say, which is a parameter.
use oku.Base.{
  Bool, Bytes, List, Option, [], any, codes, contains, cut, equal, false, find, has_prefix,
  if◌then◌else◌, is_nil, none, not, some, split, to_lower, trim_prefix, ℕ, ◌&&◌, ◌++◌, ◌==◌, ◌||◌,
  ◌∷◌,
}
use oku.Ref.{RefError, has_any_byte, has_any_prefix}

-- the fields of `url.URL` that are read, with `User.String()` and `Hostname()`
pub record Url : Type 0 where
  pub url_scheme : Bytes
  pub host : Bytes
  pub hostname : Bytes
  pub port : Bytes
  pub path : Bytes
  pub raw_query : Bytes
  pub url_fragment : Bytes
  pub user : Option Bytes

pub record System : Type 0 where
  -- `os.Stat` finds a file
  pub exists : Bytes → Bool
  -- `filepath.Abs`, which may fail
  pub absolute : Bytes → Option Bytes
  pub is_absolute : Bytes → Bool
  -- `filepath.VolumeName` is not empty
  pub has_volume : Bytes → Bool
  pub join_path : Bytes → Bytes → Bytes
  -- `filepath.IsLocal` of `filepath.FromSlash`
  pub is_local : Bytes → Bool
  -- `path.Base`
  pub base : Bytes → Bytes
  pub parse_url : Bytes → Option Url
  -- `net.ParseIP` gives a loopback address
  pub is_loopback : Bytes → Bool

abbrev pub trim_start_byte : ℕ → Bytes → Bytes
trim_start_byte b [] = []
trim_start_byte b (c ∷ s) = if c == b then trim_start_byte b s else c ∷ s

abbrev pub trim_end_byte : ℕ → Bytes → Bytes
trim_end_byte b [] = []
trim_end_byte b (c ∷ s) =
    let rest = trim_end_byte b s in if c == b && is_nil rest then [] else c ∷ rest

-- `strings.Trim` of one byte
unfoldable pub trim_byte : ℕ → Bytes → Bytes
trim_byte b s = trim_end_byte b (trim_start_byte b s)

-- `strings.TrimSuffix`
abbrev pub trim_suffix : Bytes → Bytes → Bytes
trim_suffix suffix [] = []
trim_suffix suffix (c ∷ s) =
    let rest = trim_suffix suffix s in if equal (c ∷ s) suffix then [] else c ∷ rest

-- `forgeHosts`
abbrev pub forge_hosts : List (Bytes × Bytes)
forge_hosts =
    (codes "github.com", codes "github")
    ∷ (codes "gitlab.com", codes "gitlab")
    ∷ (codes "codeberg.org", codes "codeberg")
    ∷ []

-- `gitlabRoutes`
abbrev pub gitlab_routes : List Bytes
gitlab_routes = codes "-" ∷ codes "raw" ∷ codes "blob" ∷ codes "tree" ∷ []

abbrev pub user_unfit : Bytes → Option Bytes → Bool
user_unfit scheme none = false
user_unfit scheme (some user) = equal scheme (codes "https") || not (equal user (codes "git"))

-- a URL with nothing that a repo's page lacks
abbrev pub is_plain : Url → Bool
is_plain u =
    is_nil u.raw_query
    && is_nil u.url_fragment
    && is_nil u.port
    && not (user_unfit u.url_scheme u.user)

-- the ref for the parts of a path at a known host
abbrev pub repo_ref : Bytes → Bytes → List Bytes → Option Bytes
repo_ref scheme repo (first ∷ second ∷ others) =
    let gitlab = equal scheme (codes "gitlab") in
    if not gitlab && not (is_nil others)
    then none
    else if gitlab && any (contains gitlab_routes) (second ∷ others)
    then none
    else if gitlab && has_any_byte (b'.' ∷ []) first
    then some (scheme ++ codes ":" ++ (codes "gitlab.com/" ++ repo))
    else some (scheme ++ codes ":" ++ repo)
repo_ref scheme repo _ = none

abbrev pub repo_at : Bytes → Bytes → Option Bytes
repo_at host path = elim (find (λ known. equal known.0 (to_lower host)) forge_hosts) [
  | none ↦ none
  | some known ↦
      let repo = trim_suffix (codes ".git") (trim_byte b'/' path) in
      repo_ref known.1 repo (split b'/' repo)
]

-- `repoURL`
unfoldable pub repo_url : System → Bytes → Option Bytes
repo_url system s =
    if has_any_prefix s (codes "https://" ∷ codes "ssh://" ∷ [])
    then elim (system.parse_url s) [
      | none ↦ none
      | some u ↦ if is_plain u then repo_at u.host u.path else none
    ]
    else if has_prefix (codes "git@") s
    then (let address = cut b':' (trim_prefix (codes "git@") s) in
        repo_at address.before address.after)
    else none

-- `encrypted`, with the error it returns
unfoldable pub encrypted : System → Bytes → Option RefError
encrypted system location =
    if not (has_prefix (codes "http://") location) then none else elim (system.parse_url location) [
      | none ↦ some RefError.bad_url
      | some u ↦
          if equal u.hostname (codes "localhost") || system.is_loopback u.hostname
          then none
          else some RefError.not_encrypted
    ]
