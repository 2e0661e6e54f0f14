-- ===== src/Tests/NetpolicyTests.antt =====
-- Tests of the network policy, with addresses and URLs that are text.
use oku.Base.{
  Bytes, Option, [], any, codes, cut_prefix, equal, every, false, has_prefix, has_suffix,
  if◌then◌else◌, is_digit, none, not, refl, some, true, ◌==◌, ◌||◌, ◌∷◌, ◌≡◌,
}
use oku.Netpolicy.{Policy, allowed, matches, names_host, private_ok, trim_dot}
use oku.Netpolicy.Addresses.{
  NetAddresses, check_addr, check_host, check_reach, found, is_local, private, resolves,
  resolves_from, resolves_to,
}
use oku.Netpolicy.GitUrls.{check_url, git_host, git_host_from}
use oku.Netpolicy.GitUrls.Public.{check_url-is_public}
use oku.Netpolicy.Guard.{Urls, refuses}
use oku.Netpolicy.Guard.Redirects.{all_sent-is_local, is_safe}

-- an address is a text of digits and dots; one that begins with 127 is loopback, and with 10. private
abbrev addr_of : Bytes → Option Bytes
addr_of s = if every (λ c. is_digit c || c == b'.') s then some s else none

abbrev net : NetAddresses
net = record {
  Addr = Bytes;
  parse_addr = addr_of;
  unmap = λ a. a;
  is_loopback = has_prefix (codes "127");
  is_private = has_prefix (codes "10.");
  is_link_local_unicast = λ a. false;
  is_link_local_multicast = λ a. false;
  is_interface_local_multicast = λ a. false;
  is_multicast = λ a. false;
  is_unspecified = λ a. false;
  in_cgnat = λ a. false;
}

-- a URL is its host, and its scheme is https
abbrev urls : Urls
urls = record {
  Url = Bytes;
  scheme = λ u. codes "https";
  hostname = λ u. u;
  text = λ u. u;
  parse = λ s. some s;
  parse-text = λ u. (u, refl, refl);
}

abbrev policy : Policy
policy = record {
  allow_private = false;
  allow = codes "*.Example.com" ∷ codes "b.org" ∷ [];
  private_hosts = [];
}

abbrev host : Bytes
host = codes "a.example.com"

matches_test :
    (allowed policy (codes "A.example.com.") ≡ true)
    × (allowed policy (codes "example.com") ≡ false)
unfolding allowed matches names_host trim_dot has_suffix cut_prefix equal
matches_test = (refl, refl)

check_url-is_public_example :
    (allowed policy host ≡ true)
    × (any (λ addr. not (private net addr)) (codes "10.0.0.1" ∷ codes "8.8.8.8" ∷ []) ≡ true)
unfolding check_url git_host git_host_from check_reach check_host resolves resolves_from resolves_to
    check_addr is_local private private_ok allowed matches names_host trim_dot has_suffix cut_prefix
    has_prefix equal
check_url-is_public_example =
    check_url-is_public net urls policy host (found (codes "10.0.0.1") (codes "8.8.8.8" ∷ [])) refl
      refl refl refl refl

abbrev other : Bytes
other = codes "b.org"

all_sent-is_local_example : every (is_safe net urls policy) (host ∷ other ∷ []) ≡ true
unfolding refuses is_local allowed matches names_host trim_dot has_suffix cut_prefix has_prefix
    equal
all_sent-is_local_example = all_sent-is_local net urls policy host (other ∷ []) refl refl refl
