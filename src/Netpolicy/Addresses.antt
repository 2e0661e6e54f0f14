-- ===== src/Netpolicy/Addresses.antt =====
-- `Local`, `private`, `checkHost`, `checkAddr`, `resolves` and `CheckURL` of
-- internal/netpolicy/netpolicy.go.
pub mod Public
use oku.Base.{
  Bool, Bytes, List, Option, any, codes, equal_fold, false, if◌then◌else◌, is_nil, none, not, some,
  true, ◌||◌, ◌∷◌,
}
use oku.Netpolicy.{Policy, allowed, private_ok}

-- net/netip: `ParseAddr`, `Unmap` and the tests that `private` makes, the prefix `cgnat` included
pub record NetAddresses : Type 1 where
  pub Addr : Type 0
  pub parse_addr : Bytes → Option Addr
  pub unmap : Addr → Addr
  pub is_loopback : Addr → Bool
  pub is_private : Addr → Bool
  pub is_link_local_unicast : Addr → Bool
  pub is_link_local_multicast : Addr → Bool
  pub is_interface_local_multicast : Addr → Bool
  pub is_multicast : Addr → Bool
  pub is_unspecified : Addr → Bool
  pub in_cgnat : Addr → Bool

module _ (net : NetAddresses) where
  open net use {Addr}

  abbrev pub names_loopback : Bytes → Bool
  names_loopback host = elim (net.parse_addr host) [
    | some addr ↦ net.is_loopback (net.unmap addr)
    | none ↦ false
  ]

  -- `Local`
  unfoldable pub is_local : Bytes → Bool
  is_local host = equal_fold host (codes "localhost") || names_loopback host

  -- `private`
  unfoldable pub private : Addr → Bool
  private given =
      let addr = net.unmap given in
      net.is_loopback addr
      || net.is_private addr
      || net.is_link_local_unicast addr
      || net.is_link_local_multicast addr
      || net.is_interface_local_multicast addr
      || net.is_multicast addr
      || net.is_unspecified addr
      || net.in_cgnat addr

  -- `Refused`, without the chain: a host, and the address if that is the reason
  pub data Refused : Type 0 where
    refused_host : Bytes → Refused
    refused_addr : Bytes → Addr → Refused

  -- `Policy.checkHost`
  unfoldable pub check_host : Policy → Bytes → Option Refused
  check_host p host = if is_local host || allowed p host then none else some (refused_host host)

  -- `Policy.checkAddr`
  unfoldable pub check_addr : Policy → Bytes → Addr → Option Refused
  check_addr p host addr =
      if not (private addr) || private_ok p host || equal_fold host (codes "localhost")
      then none
      else if names_loopback host
      then none
      else some (refused_addr host addr)

  -- What a lookup answers: an error, or at least one address.
  pub data Lookup : Type 0 where
    lookup_failed : Lookup
    found : Addr → List Addr → Lookup

  pub data UrlError : Type 0 where
    refused : Refused → UrlError
    no_lookup : UrlError

  abbrev pub is_none : Option Refused → Bool
  is_none none = true
  is_none (some r) = false

  abbrev pub refuse : Option Refused → Option UrlError
  refuse none = none
  refuse (some r) = some (refused r)

  unfoldable pub resolves_to : Policy → Bytes → Lookup → Option UrlError
  resolves_to p host lookup_failed = some no_lookup
  resolves_to p host (found first others) =
      if any (λ addr. is_none (check_addr p host addr)) (first ∷ others)
      then none
      else some (refused (refused_addr host first))

  unfoldable pub resolves_from : Policy → Bytes → Lookup → Option Addr → Option UrlError
  resolves_from p host lookup (some addr) = refuse (check_addr p host addr)
  resolves_from p host lookup none = resolves_to p host lookup

  -- `Policy.resolves`
  unfoldable pub resolves : Policy → Bytes → Lookup → Option UrlError
  resolves p host lookup = resolves_from p host lookup (net.parse_addr host)

  abbrev pub refused_or : Option Refused → Option UrlError → Option UrlError
  refused_or (some r) other = some (refused r)
  refused_or none other = other

  -- `Policy.CheckURL` behind its call of `gitHost`
  unfoldable pub check_reach : Policy → Bytes → Lookup → Option UrlError
  check_reach p host lookup =
      if is_nil host then none else refused_or (check_host p host) (resolves p host lookup)
