-- ===== src/Netpolicy/GitUrls/Public.antt =====
-- What `CheckURL` lets through.
use oku.Base.{Bytes, [], any, false, is_nil, none, not, true, ◌≡◌}
use oku.Netpolicy.{Policy, allowed}
use oku.Netpolicy.Addresses.{Lookup, NetAddresses, is_local, private}
use oku.Netpolicy.Addresses.Public.{addresses, check_reach-is_public}
use oku.Netpolicy.GitUrls.{check_url, git_host}
use oku.Netpolicy.Guard.{Urls}

module _ (net : NetAddresses) (urls : Urls) where
  -- A policy that allows no private address and names no private host lets a URL that names a host,
  -- and one that is not this machine (localhost, or a loopback address), through only if the host is
  -- allowed and one of its addresses is public: the one that it names, or one that the lookup found.
  pub check_url-is_public :
      (p : Policy) (raw : Bytes) (lookup : Lookup net)
      → p.allow_private ≡ false
      → p.private_hosts ≡ []
      → is_nil (git_host net urls raw) ≡ false
      → is_local net (git_host net urls raw) ≡ false
      → check_url net urls p raw lookup ≡ none
      → (allowed p (git_host net urls raw) ≡ true)
        × (any (λ addr. not (private net addr)) (addresses net (git_host net urls raw) lookup)
            ≡ true)
  unfolding check_url
  check_url-is_public p raw lookup = check_reach-is_public net p (git_host net urls raw) lookup
