-- ===== src/Netpolicy/Addresses/Public.antt =====
-- What `CheckURL` lets through.
use oku.Base.{
  Bytes, List, Option, [], any, any_mono, arith, false, is_nil, none, not, refl, some, true, ◌∷◌,
  ◌≡◌,
}
use oku.Netpolicy.{Policy, allowed, matches, private_ok}
use oku.Netpolicy.Addresses.{
  Lookup, NetAddresses, Refused, UrlError, check_addr, check_host, check_reach, found, is_local,
  is_none, lookup_failed, private, refuse, refused_or, resolves, resolves_from, resolves_to,
}

module _ (net : NetAddresses) where
  open net use {Addr}

  abbrev pub found_addrs : Lookup net → List Addr
  found_addrs lookup_failed = []
  found_addrs (found first others) = first ∷ others

  abbrev pub addresses_from : Option Addr → Lookup net → List Addr
  addresses_from (some addr) lookup = addr ∷ []
  addresses_from none lookup = found_addrs lookup

  -- the addresses of a host: the one that it names, or those of the lookup
  abbrev pub addresses : Bytes → Lookup net → List Addr
  addresses host lookup = addresses_from (net.parse_addr host) lookup

  private_ok-false :
      (p : Policy) (host : Bytes)
      → p.allow_private ≡ false
      → p.private_hosts ≡ []
      → private_ok p host ≡ false
  unfolding private_ok matches
  private_ok-false p host h k = rw (h, k)

  check_addr-private :
      (p : Policy) (host : Bytes) (addr : Addr)
      → private_ok p host ≡ false
      → is_local net host ≡ false
      → check_addr net p host addr ≡ none
      → not (private net addr) ≡ true
  unfolding check_addr is_local
  check_addr-private p host addr h k e = ground arith

  check_host-allowed :
      (p : Policy) (host : Bytes)
      → is_local net host ≡ false
      → check_host net p host ≡ none
      → allowed p host ≡ true
  unfolding check_host
  check_host-allowed p host h e = ground arith

  any-private :
      (p : Policy) (host : Bytes) (addrs : List Addr)
      → private_ok p host ≡ false
      → is_local net host ≡ false
      → any (λ addr. is_none net (check_addr net p host addr)) addrs ≡ true
      → any (λ addr. not (private net addr)) addrs ≡ true
  any-private p host addrs h k =
      any_mono (λ addr. is_none net (check_addr net p host addr)) (λ addr. not (private net addr))
        addrs
        (λ addr e. check_addr-private p host addr h k (is_none-none (check_addr net p host addr) e))
    where
      is_none-none : (x : Option (Refused net)) → is_none net x ≡ true → x ≡ none
      is_none-none none e = refl
      is_none-none (some r) e = cc

  resolves-is_public :
      (p : Policy) (host : Bytes) (lookup : Lookup net)
      → private_ok p host ≡ false
      → is_local net host ≡ false
      → resolves net p host lookup ≡ none
      → any (λ addr. not (private net addr)) (addresses host lookup) ≡ true
  unfolding resolves resolves_from resolves_to
  resolves-is_public p host lookup h k = resolved (net.parse_addr host) lookup
    where
      refuse-none : (x : Option (Refused net)) → refuse net x ≡ none → x ≡ none
      refuse-none none e = refl
      refuse-none (some r) e = cc

      resolved :
          (x : Option Addr) (answer : Lookup net)
          → resolves_from net p host answer x ≡ none
          → any (λ addr. not (private net addr)) (addresses_from x answer) ≡ true
      resolved (some addr) answer e =
          rw (check_addr-private p host addr h k (refuse-none (check_addr net p host addr) e))
      resolved none lookup_failed e = cc
      resolved none (found first others) e = any-private p host (first ∷ others) h k (ground arith)

  pub check_reach-is_public :
      (p : Policy) (host : Bytes) (lookup : Lookup net)
      → p.allow_private ≡ false
      → p.private_hosts ≡ []
      → is_nil host ≡ false
      → is_local net host ≡ false
      → check_reach net p host lookup ≡ none
      → (allowed p host ≡ true)
        × (any (λ addr. not (private net addr)) (addresses host lookup) ≡ true)
  unfolding check_reach
  check_reach-is_public p host lookup h k m n e =
      let (passes, goes_on) =
        both_none (check_host net p host) (resolves net p host lookup) (rw m at e) in
      (
        check_host-allowed p host n passes,
        resolves-is_public p host lookup (private_ok-false p host h k) n goes_on,
      )
    where
      both_none :
          (x : Option (Refused net)) (y : Option (UrlError net))
          → refused_or net x y ≡ none
          → (x ≡ none) × (y ≡ none)
      both_none none y e = (refl, e)
      both_none (some r) y e = cc
