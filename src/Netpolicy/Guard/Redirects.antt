-- ===== src/Netpolicy/Guard/Redirects.antt =====
-- A redirect does not lead to this machine.
use oku.Base.{
  Bool, List, [], ap, arith, codes, equal, every, false, not, refl, true, ◌&&◌, ◌++◌, ◌||◌, ◌∙◌,
  ◌∷◌, ◌≡◌,
}
use oku.Netpolicy.{Policy, allowed}
use oku.Netpolicy.Addresses.{NetAddresses, is_local}
use oku.Netpolicy.Guard.{Urls, from_elsewhere, is_elsewhere, refuses}

module _ (net : NetAddresses) (urls : Urls) where
  open urls use {Url}

  -- whether the requests of a redirect are all sent, behind the chain before them
  abbrev pub all_sent : Policy → List Url → List Url → Bool
  all_sent p chain [] = true
  all_sent p chain (request ∷ rest) =
      not (refuses net urls p chain request) && all_sent p (chain ++ (request ∷ [])) rest

  abbrev pub is_file : Url → Bool
  is_file u = equal (urls.scheme u) (codes "file")

  -- what is said of each request
  abbrev pub is_safe : Policy → Url → Bool
  is_safe p u = is_file u || not (is_local net (urls.hostname u)) && allowed p (urls.hostname u)

  from_first :
      (first : Url) (others : List Url)
      → is_local net (urls.hostname first) ≡ false
      → from_elsewhere net urls (first ∷ others) ≡ true
  from_first first others h =
      let (u, parsed, same_host) = urls.parse-text first in
      ap (is_elsewhere net urls) parsed ∙ rw (same_host, h)

  request_sent :
      (p : Policy) (first : Url) (others : List Url) (u : Url)
      → p.allow_private ≡ false
      → from_elsewhere net urls (first ∷ others) ≡ true
      → refuses net urls p (first ∷ others) u ≡ false
      → is_safe p u ≡ true
  unfolding refuses
  request_sent p first others u h k m = ground arith

  first_sent :
      (p : Policy) (first : Url)
      → is_local net (urls.hostname first) ≡ false
      → refuses net urls p [] first ≡ false
      → is_safe p first ≡ true
  unfolding refuses
  first_sent p first k m = ground arith

  rest_sent :
      (p : Policy) (first : Url) (others rest : List Url)
      → p.allow_private ≡ false
      → is_local net (urls.hostname first) ≡ false
      → all_sent p (first ∷ others) rest ≡ true
      → every (is_safe p) rest ≡ true
  rest_sent p first others [] h k m = refl
  rest_sent p first others (u ∷ rest) h k m = ground (
    arith,
    request_sent p first others u h (from_first first others k),
    rest_sent p first (others ++ (u ∷ [])) rest h k,
  )

  -- Where a policy allows no private address and a redirect begins at another machine, every request
  -- of it that is sent is for a file, or for an allowed host that is not this machine.
  pub all_sent-is_local :
      (p : Policy) (first : Url) (rest : List Url)
      → p.allow_private ≡ false
      → is_local net (urls.hostname first) ≡ false
      → all_sent p [] (first ∷ rest) ≡ true
      → every
          (λ u. is_file u || not (is_local net (urls.hostname u)) && allowed p (urls.hostname u))
          (first ∷ rest)
        ≡ true
  all_sent-is_local p first rest h k m =
      ground (arith, first_sent p first k, rest_sent p first [] rest h k)
