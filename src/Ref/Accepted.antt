-- ===== src/Ref/Accepted.antt =====
-- Every ref that ParseIn of internal/ref/ref.go returns is valid, through the cases of its switch.
use oku.Base.{
  All, Bool-cases, Bytes, List, Option-cases, [], and_true, any, arith, codes, contains, cut,
  equal_refl, every, find, find-All, has_prefix, inl, inr, is_nil, lacks, map, not, ok, refl, subst,
  trim_prefix, true, ◌&&◌, ◌++◌, ◌||◌, ◌∷◌, ◌≡◌,
}
use oku.Ref.{Ref, cut_last, has_any_byte, has_any_prefix, is_version, split_version}
use oku.Ref.Parse.{
  Registry, first_body, forge_prefixes, forge_schemes, in_dir, parse_body, parse_in, parse_registry,
  plain_ref, registries, url_body,
}
use oku.Ref.Split.{cut_last-after}
use oku.Ref.Urls.{System, repo_url}
use oku.Ref.Valid.{IsPlaced, IsValid, parse_forge-IsPlaced, parse_place-IsPlaced, version_ok}

scheme-has_prefix :
    (scheme s : Bytes)
    → lacks b':' scheme ≡ true
    → has_prefix (scheme ++ codes ":") s ≡ true
    → (cut b':' s).before ≡ scheme
unfolding has_prefix cut
scheme-has_prefix [] [] h k = cc
scheme-has_prefix [] (c ∷ s) h k = ground arith
scheme-has_prefix (d ∷ scheme) [] h k = cc
scheme-has_prefix (d ∷ scheme) (c ∷ s) h k = ground (arith, scheme-has_prefix scheme s)

scheme-known :
    (schemes : List Bytes) (s : Bytes)
    → every (lacks b':') schemes ≡ true
    → any (λ p. has_prefix p s) (map (λ scheme. scheme ++ codes ":") schemes) ≡ true
    → contains schemes (cut b':' s).before ≡ true
scheme-known [] s h k = cc
scheme-known (scheme ∷ schemes) s h k =
    let (first, others) = and_true (lacks b':' scheme) (every (lacks b':') schemes) h in
    elim (Bool-cases (has_prefix (scheme ++ codes ":") s)) [
      | inl e ↦ rw (scheme-has_prefix scheme s first e, equal_refl scheme)
      | inr e ↦ ground (arith, scheme-known schemes s others (rw e at k))
    ]

module _ (system : System) where
  TakesItsNames : Registry → Type 0
  TakesItsNames registry =
      (name version : Bytes)
      → registry.takes name ≡ true
      → IsPlaced system registry.of_kind (plain_ref registry.of_kind name version)

  registries-take : All TakesItsNames registries
  unfolding TakesItsNames
  registries-take = (
    (λ name version h. (h, refl)),
    (
      (λ name version h. (h, refl)),
      (
        (λ name version h. (h, refl)),
        (
          (λ name version h. (h, refl)),
          (
            (λ name version h. (h, refl)),
            (
              (λ name version h. (h, refl)),
              ((λ name version h. (h, refl)), ((λ name version h. (h, refl)), tt)),
            ),
          ),
        ),
      ),
    ),
  )

  parse_registry-IsPlaced :
      (registry : Registry) (body version : Bytes) {r : Ref}
      → TakesItsNames registry
      → parse_registry registry body version ≡ ok r
      → IsPlaced system r.kind r × (r.version ≡ version)
  unfolding parse_registry TakesItsNames
  parse_registry-IsPlaced registry body version {r} takes h =
      elim (Bool-cases (registry.takes (trim_prefix registry.prefix body))) [
        | inl e ↦
            let same : plain_ref registry.of_kind (trim_prefix registry.prefix body) version ≡ r =
              cc (rw e at h) in
            subst (λ q. IsPlaced system q.kind q × (q.version ≡ version)) same
              (takes (trim_prefix registry.prefix body) version e, refl)
        | inr e ↦ cc (rw e at h)
      ]

  parse_body-IsPlaced :
      (dir body version : Bytes) {r : Ref}
      → parse_body system dir (body, version) ≡ ok r
      → IsPlaced system r.kind r × (r.version ≡ version)
  unfolding parse_body
  parse_body-IsPlaced dir body version {r} h =
      elim (Bool-cases (has_any_prefix body forge_prefixes)) [
        | inl e ↦
            parse_forge-IsPlaced system body version (scheme-known forge_schemes body refl e)
              (rw e at h)
        | inr other ↦
            elim (Option-cases (find (λ registry. has_prefix registry.prefix body) registries)) [
              | inl e ↦ parse_place-IsPlaced system dir body version (rw e at rw other at h)
              | inr (registry, e) ↦
                  parse_registry-IsPlaced registry body version
                    (find-All TakesItsNames (λ registry. has_prefix registry.prefix body) registries
                      registries-take e)
                    (rw e at rw other at h)
            ]
      ]

split_version-ok : (s : Bytes) → version_ok (split_version s).1 ≡ true
unfolding split_version
split_version-ok s = elim (Option-cases (cut_last s)) [
  | inl e ↦ rw e
  | inr ((front, back), e) ↦ elim (Bool-cases (not (is_nil front) && is_version back)) [
    | inl taken ↦ rw (e, taken) (ground (arith, cut_last-after s e))
    | inr left ↦ rw (e, left)
  ]
]

first_body-ok : (system : System) (dir s : Bytes) → version_ok (first_body system dir s).1 ≡ true
unfolding first_body
first_body-ok system dir s =
    elim (Bool-cases (system.exists (in_dir system dir s) || has_prefix (codes "cask:") s)) [
      | inl e ↦ rw e
      | inr e ↦ rw e (split_version-ok s)
    ]

url_body-ok :
    (system : System) (s : Bytes) (parts : Bytes × Bytes)
    → version_ok parts.1 ≡ true
    → version_ok (url_body system s parts).1 ≡ true
unfolding repo_url has_prefix
url_body-ok system s (body, version) h = elim (Option-cases (repo_url system body)) [
  | inr (forge, e) ↦ rw e h
  | inl e ↦
      elim (Bool-cases (
        has_any_prefix s (codes "https://" ∷ codes "http://" ∷ [])
        && not (has_any_byte (b'.' ∷ []) (system.base body)))) [
          | inl whole ↦ rw (e, whole)
          | inr kept ↦ rw (e, kept) h
        ]
]

-- The ref that parsing a text gives is one its kind takes: a forge's location fits its scheme, its
-- fragment is empty, a path inside the repository or a manifest's name, a registry's name fits the
-- registry, an address over http:// is a server's on this machine, a Git fragment stays in the
-- repository, and the version is empty or has none of '/', ':', '#' and '@'.
pub parse_in-IsValid :
    (system : System) (dir s : Bytes) (r : Ref) → parse_in system dir s ≡ ok r → IsValid system r
unfolding parse_in
parse_in-IsValid system dir [] r h = cc
parse_in-IsValid system dir (c ∷ s) r h =
    let parts = url_body system (c ∷ s) (first_body system dir (c ∷ s)) in
    let (placed, same) = parse_body-IsPlaced system dir parts.0 parts.1 h in
    (
      placed,
      rw same (
          url_body-ok system (c ∷ s) (first_body system dir (c ∷ s))
            (first_body-ok system dir (c ∷ s))),
    )
