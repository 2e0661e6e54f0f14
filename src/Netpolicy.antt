-- ===== src/Netpolicy.antt =====
-- internal/netpolicy/netpolicy.go: where oku may connect. The packages net/netip and net/url are
-- parameters, and so are the addresses that a lookup finds.
pub mod Addresses
pub mod Guard
pub mod GitUrls
use oku.Base.{
  Bool, Bytes, List, [], any, codes, cut_prefix, equal, has_suffix, if◌then◌else◌, is_nil, none,
  some, to_lower, ◌==◌, ◌||◌, ◌∷◌,
}

-- `Policy`
pub record Policy : Type 0 where
  pub allow_private : Bool
  pub allow : List Bytes
  pub private_hosts : List Bytes

-- `strings.TrimSuffix(host, ".")`
unfoldable pub trim_dot : Bytes → Bytes
trim_dot [] = []
trim_dot (c ∷ []) = if c == b'.' then [] else c ∷ []
trim_dot (c ∷ d ∷ host) = c ∷ trim_dot (d ∷ host)

-- the body of the loop of `matches`, with the host's lower-case form
unfoldable pub names_host : Bytes → Bytes → Bool
names_host host entry = elim (cut_prefix (codes "*.") (to_lower entry)) [
  | some suffix ↦ has_suffix (b'.' ∷ suffix) host
  | none ↦ equal host (to_lower entry)
]

-- `matches`
unfoldable pub matches : List Bytes → Bytes → Bool
matches patterns host = any (names_host (to_lower (trim_dot host))) patterns

-- `Policy.allowed`
unfoldable pub allowed : Policy → Bytes → Bool
allowed p host = is_nil p.allow || matches p.allow host

-- `Policy.privateOK`
unfoldable pub private_ok : Policy → Bytes → Bool
private_ok p host = p.allow_private || matches p.private_hosts host
