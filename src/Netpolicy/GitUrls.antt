-- ===== src/Netpolicy/GitUrls.antt =====
-- `gitHost` and `CheckURL` of internal/netpolicy/netpolicy.go: the URLs that git connects to.
pub mod Public
use oku.Base.{
  Bool, Bytes, Option, [], any, codes, cut, equal, if◌then◌else◌, is_nil, length, ltb, none, not,
  some, ℕ, ◌&&◌, ◌==◌, ◌||◌, ◌∷◌,
}
use oku.Netpolicy.{Policy}
use oku.Netpolicy.Addresses.{Lookup, NetAddresses, UrlError, check_reach}
use oku.Netpolicy.Guard.{Urls}

abbrev pub is_bracket : ℕ → Bool
is_bracket c = c == b'[' || c == b']'

unfoldable pub trim_start : Bytes → Bytes
trim_start [] = []
trim_start (c ∷ s) = if is_bracket c then trim_start s else c ∷ s

unfoldable pub trim_end : Bytes → Bytes
trim_end [] = []
trim_end (c ∷ s) = let rest = trim_end s in if is_bracket c && is_nil rest then [] else c ∷ rest

-- the host of `user@host:path`, behind the call of `url.Parse`
unfoldable pub ssh_host : Bytes → Bytes
ssh_host raw =
    let parts = cut b':' raw in
    let user = cut b'@' parts.before in
    if not parts.found || any (λ c. c == b'/') parts.before || ltb (length parts.before) 2
    then []
    else trim_end (trim_start (if user.found then user.after else parts.before))

module _ (net : NetAddresses) (urls : Urls) where
  open urls use {Url}

  unfoldable pub git_host_from : Bytes → Option Url → Bytes
  git_host_from raw none = ssh_host raw
  git_host_from raw (some u) =
      if ltb 1 (length (urls.scheme u))
      then if equal (urls.scheme u) (codes "file") then [] else urls.hostname u
      else ssh_host raw

  -- `gitHost`
  unfoldable pub git_host : Bytes → Bytes
  git_host raw = git_host_from raw (urls.parse raw)

  -- `Policy.CheckURL`
  unfoldable pub check_url : Policy → Bytes → Lookup net → Option (UrlError net)
  check_url p raw lookup = check_reach net p (git_host raw) lookup
