-- ===== src/Ref/Valid.antt =====
-- What a ref that ParseIn of internal/ref/ref.go accepts looks like, kind by kind.
use oku.Base.{
  Bool, Bool-cases, Bytes, Option, Option-cases, Result, [], arith, codes, contains, cut, equal,
  err, false, has_prefix, has_suffix, if◌then◌else◌, inl, inr, is_nil, lacks, none, not, ok, refl,
  some, split, subst, trim_prefix, true, ◌&&◌, ◌||◌, ◌↔◌, ◌∷◌, ◌≡◌,
}
use oku.Ref.{Kind, Ref, RefError, has_any_prefix, is_path, is_version}
use oku.Ref.Parse.{
  fits_scheme, forge_schemes, fragment_error, git_schema, has_authority, in_dir, outside_error,
  parse_file, parse_forge, parse_git, parse_place, plain_ref, unless_refused,
}
use oku.Ref.Shapes.{
  has_scheme, is_cask, is_codeberg, is_crate, is_go, is_name, is_npm, is_pypi, is_scoop, is_winget,
}
use oku.Ref.Urls.{System, encrypted}

-- the version is empty or one that `splitVersion` cuts off
abbrev pub version_ok : Bytes → Bool
version_ok v = is_nil v || (is_version v && lacks b'@' v)

abbrev IsRegistryRef : (Bytes → Bool) → Ref → Type 0
IsRegistryRef takes r = (takes r.location ≡ true) × (r.fragment ≡ [])

-- no fragment, a path inside the repository, or a manifest's name
abbrev pub fragment_fits : System → Bytes → Bool
fragment_fits system fragment =
    is_nil fragment || (if is_path fragment then system.is_local fragment else is_name fragment)

-- not over http://, or from a server on this machine
abbrev pub is_safe : System → Bytes → Bool
is_safe system location =
    not (has_prefix (codes "http://") location) || elim (system.parse_url location) [
      | none ↦ false
      | some u ↦ equal u.hostname (codes "localhost") || system.is_loopback u.hostname
    ]

-- the location and the fragment are ones that the kind takes
abbrev pub IsPlaced : System → Kind → Ref → Type 0
IsPlaced system Kind.forge_kind r =
    (contains forge_schemes r.scheme ≡ true)
    × (fits_scheme r.scheme r.location ≡ true)
    × (fragment_fits system r.fragment ≡ true)
IsPlaced system Kind.git_kind r =
    (has_any_prefix r.location git_schema ≡ true)
    × (is_safe system r.location ≡ true)
    × ((is_nil r.fragment || system.is_local r.fragment) ≡ true)
IsPlaced system Kind.http_kind r =
    (has_any_prefix r.location (codes "https://" ∷ codes "http://" ∷ []) ≡ true)
    × (is_safe system r.location ≡ true)
    × (r.fragment ≡ [])
IsPlaced system Kind.file_kind r = r.fragment ≡ []
IsPlaced system Kind.npm_kind r = IsRegistryRef (λ s. is_npm (split b'/' s)) r
IsPlaced system Kind.pypi_kind r = IsRegistryRef is_pypi r
IsPlaced system Kind.go_kind r = IsRegistryRef is_go r
IsPlaced system Kind.cargo_kind r = IsRegistryRef is_crate r
IsPlaced system Kind.cask_kind r = IsRegistryRef (λ s. is_cask (split b'/' s)) r
IsPlaced system Kind.scoop_kind r = IsRegistryRef (λ s. is_scoop (split b'/' s)) r
IsPlaced system Kind.aqua_kind r = IsRegistryRef (λ s. is_codeberg (split b'/' s)) r
IsPlaced system Kind.winget_kind r = IsRegistryRef is_winget r

abbrev pub IsValid : System → Ref → Type 0
IsValid system r = IsPlaced system r.kind r × (version_ok r.version ≡ true)

pub fragment_error-fits :
    (system : System) (fragment : Bytes)
    → (fragment_error system fragment ≡ none) ↔ (fragment_fits system fragment ≡ true)
unfolding fragment_error is_path has_suffix
fragment_error-fits system [] = ground arith
fragment_error-fits system (c ∷ fragment) = ground arith

encrypted-is_safe :
    (system : System) (location : Bytes)
    → encrypted system location ≡ none
    → is_safe system location ≡ true
unfolding encrypted
encrypted-is_safe system location h = ground arith

outside_error-fits :
    (system : System) (fragment : Bytes)
    → outside_error system fragment ≡ none
    → (is_nil fragment || system.is_local fragment) ≡ true
outside_error-fits system fragment h = ground arith

guard-eq-ok :
    (refuses : Bool) (e : RefError) {next : Result RefError Ref} {r : Ref}
    → (if refuses then err e else next) ≡ ok r
    → (refuses ≡ false) × (next ≡ ok r)
guard-eq-ok true e h = cc
guard-eq-ok false e h = (refl, h)

unless_refused-eq-ok :
    (e : Option RefError) {q r : Ref} → unless_refused e q ≡ ok r → (e ≡ none) × (q ≡ r)
unless_refused-eq-ok none h = (refl, cc)
unless_refused-eq-ok (some e) h = cc

not-false : (b : Bool) → not b ≡ false → b ≡ true
not-false b h = ground arith

module _ (system : System) where
  pub parse_forge-IsPlaced :
      (body version : Bytes) {r : Ref}
      → contains forge_schemes (cut b':' body).before ≡ true
      → parse_forge system body version ≡ ok r
      → IsPlaced system r.kind r × (r.version ≡ version)
  unfolding parse_forge
  parse_forge-IsPlaced body version {r} known h =
      let schemed = cut b':' body in
      let place = cut b'#' schemed.after in
      let (_, after_hash) = guard-eq-ok (place.found && is_nil place.after) _ h in
      let (fit, after_fit) =
        guard-eq-ok (not (fits_scheme schemed.before place.before)) _ after_hash in
      let (inside, same) = unless_refused-eq-ok (fragment_error system place.after) after_fit in
      subst (λ q. IsPlaced system q.kind q × (q.version ≡ version)) same
        (
          (
            known,
            not-false (fits_scheme schemed.before place.before) fit,
            (fragment_error-fits system place.after).0 inside,
          ),
          refl,
        )

  parse_git-IsPlaced :
      (body version : Bytes) {r : Ref}
      → parse_git system body version ≡ ok r
      → IsPlaced system r.kind r × (r.version ≡ version)
  unfolding parse_git
  parse_git-IsPlaced body version {r} h =
      let place = cut b'#' (trim_prefix (codes "git+") body) in
      let (_, after_hash) = guard-eq-ok (place.found && is_nil place.after) _ h in
      let (schema, after_schema) =
        guard-eq-ok (not (has_any_prefix place.before git_schema)) _ after_hash in
      elim (Option-cases (encrypted system place.before)) [
        | inl safe ↦
            let (inside, same) =
              unless_refused-eq-ok (outside_error system place.after) (rw safe at after_schema) in
            subst (λ q. IsPlaced system q.kind q × (q.version ≡ version)) same
              (
                (
                  not-false (has_any_prefix place.before git_schema) schema,
                  encrypted-is_safe system place.before safe,
                  outside_error-fits system place.after inside,
                ),
                refl,
              )
        | inr (e, unsafe) ↦ cc (rw unsafe at after_schema)
      ]

  parse_file-IsPlaced :
      (path version : Bytes) {r : Ref}
      → parse_file system path version ≡ ok r
      → IsPlaced system r.kind r × (r.version ≡ version)
  parse_file-IsPlaced path version {r} h = elim (Option-cases (system.absolute path)) [
    | inl e ↦ cc (rw (parse_file, e) at h)
    | inr (location, e) ↦
        let same : plain_ref Kind.file_kind location version ≡ r = cc (rw (parse_file, e) at h) in
        subst (λ q. IsPlaced system q.kind q × (q.version ≡ version)) same (refl, refl)
  ]

  pub parse_place-IsPlaced :
      (dir body version : Bytes) {r : Ref}
      → parse_place system dir body version ≡ ok r
      → IsPlaced system r.kind r × (r.version ≡ version)
  unfolding parse_place
  parse_place-IsPlaced dir body version {r} h = elim (Bool-cases (has_prefix (codes "git+") body)) [
    | inl e ↦ parse_git-IsPlaced body version (rw e at h)
    | inr no_git ↦
        elim (Bool-cases (has_any_prefix body (codes "https://" ∷ codes "http://" ∷ []))) [
          | inl e ↦
              let (safe, same) =
                unless_refused-eq-ok (encrypted system body) (rw e at rw no_git at h) in
              subst (λ q. IsPlaced system q.kind q × (q.version ≡ version)) same
                ((e, encrypted-is_safe system body safe, refl), refl)
          | inr no_http ↦
              let (_, after_scheme) =
                guard-eq-ok (has_authority body) _ (rw no_http at rw no_git at h) in
              let (_, found_file) =
                guard-eq-ok (has_scheme body && not (system.exists (in_dir system dir body))) _
                  after_scheme in
              parse_file-IsPlaced (in_dir system dir body) version found_file
        ]
  ]
