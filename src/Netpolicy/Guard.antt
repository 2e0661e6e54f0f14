-- ===== src/Netpolicy/Guard.antt =====
-- `guard.RoundTrip` of internal/netpolicy/netpolicy.go: which requests of a redirect are sent.
pub mod Redirects
use oku.Base.{
  Bool, Bytes, List, Option, [], codes, equal, false, if◌then◌else◌, is_nil, none, not, some, true,
  ◌&&◌, ◌∷◌, ◌≡◌,
}
use oku.Netpolicy.{Policy, allowed}
use oku.Netpolicy.Addresses.{NetAddresses, is_local}

-- net/url: a URL with its scheme and host, its text and how text parses. The text of a URL parses
-- to one of the same host.
pub record Urls : Type 1 where
  pub Url : Type 0
  pub scheme : Url → Bytes
  pub hostname : Url → Bytes
  pub text : Url → Bytes
  pub parse : Bytes → Option Url
  pub parse-text : (u : Url) → (v : Url) × (parse (text u) ≡ some v) × (hostname v ≡ hostname u)

module _ (net : NetAddresses) (urls : Urls) where
  open urls use {Url}

  abbrev pub is_elsewhere : Option Url → Bool
  is_elsewhere none = false
  is_elsewhere (some u) = not (is_local net (urls.hostname u))

  -- whether the chain's first URL names another machine
  abbrev pub from_elsewhere : List Url → Bool
  from_elsewhere [] = false
  from_elsewhere (first ∷ others) = is_elsewhere (urls.parse (urls.text first))

  -- Whether `RoundTrip` refuses a request, which the chain of requests led to, the first one first.
  unfoldable pub refuses : Policy → List Url → Url → Bool
  refuses p chain request =
      let host = urls.hostname request in
      if equal (urls.scheme request) (codes "file")
      then false
      else if not (is_local net host) && not (allowed p host)
      then true
      else is_local net host && not (is_nil chain) && not p.allow_private && from_elsewhere chain
