-- ===== src/Ref/Absent.antt =====
-- A byte outside the classes of a location's regular expression stands nowhere in the location.
use oku.Base.{
  ==_iff, Bool, Bool-cases, Bytes, List, [], and_true, ap, arith, codes, contains, equal, equal_iff,
  every, every_mono, false, inl, inr, is_nil, lacks, not, refl, split, split_pieces, subst, true, ℕ,
  ◌&&◌, ◌==◌, ◌∷◌, ◌≡◌,
}
use oku.Ref.Parse.{fits_scheme, forge_schemes}
use oku.Ref.Shapes.{
  begins_with, has_dots, is_codeberg, is_gitea, is_github, is_gitlab, is_host, is_word_byte, or_in,
  owner_byte, repo_byte, some_of,
}

other_byte : (b c : ℕ) (class : ℕ → Bool) → class b ≡ false → class c ≡ true → (c == b) ≡ false
other_byte b c class out h = elim (Bool-cases (c == b)) [
  | inl e ↦ cc (ap class ((==_iff c b).0 e), out, h)
  | inr e ↦ e
]

every-lacks :
    (b : ℕ) (class : ℕ → Bool) (s : Bytes)
    → class b ≡ false
    → every class s ≡ true
    → lacks b s ≡ true
every-lacks b class s out h =
    every_mono class (λ c. not (c == b)) s (λ c holds. rw (other_byte b c class out holds)) h

some_of-lacks :
    (b : ℕ) (class : ℕ → Bool) (s : Bytes)
    → class b ≡ false
    → some_of class s ≡ true
    → lacks b s ≡ true
some_of-lacks b class s out h =
    every-lacks b class s out ((and_true (not (is_nil s)) (every class s) h).1)

begins_with-lacks :
    (b : ℕ) (first class : ℕ → Bool) (s : Bytes)
    → first b ≡ false
    → class b ≡ false
    → begins_with first class s ≡ true
    → lacks b s ≡ true
begins_with-lacks b first class [] _ out h = refl
begins_with-lacks b first class (c ∷ s) out_first out h =
    let (at_first, behind) = and_true (first c) (every class s) h in
    rw (other_byte b c first out_first at_first) (every-lacks b class s out behind)

-- A text lacks what its pieces lack, but for the separator.
lacks-split :
    (b sep : ℕ) (s : Bytes)
    → (sep == b) ≡ false
    → every (lacks b) (split sep s) ≡ true
    → lacks b s ≡ true
unfolding split split_pieces
lacks-split b sep [] other h = refl
lacks-split b sep (c ∷ s) other h = elim (Bool-cases (c == sep)) [
  | inl e ↦ ground (arith, lacks-split b sep s other, rw e at h)
  | inr e ↦ ground (arith, lacks-split b sep s other, rw e at h)
]

-- a byte that no class of the forges' expressions has
pub record IsForeign (b : ℕ) : Type 0 where
  pub no_word : is_word_byte b ≡ false
  pub no_owner : owner_byte b ≡ false
  pub no_repo : repo_byte b ≡ false
  pub no_slash : (b'/' == b) ≡ false
  pub no_dot : (b'.' == b) ≡ false
  pub no_below : or_in is_word_byte (b'_' ∷ []) b ≡ false

module _ (b : ℕ) (foreign : IsForeign b) where
  owner-lacks : (s : Bytes) → begins_with is_word_byte owner_byte s ≡ true → lacks b s ≡ true
  owner-lacks s = begins_with-lacks b is_word_byte owner_byte s foreign.no_word foreign.no_owner

  group-lacks : (s : Bytes) → begins_with is_word_byte repo_byte s ≡ true → lacks b s ≡ true
  group-lacks s = begins_with-lacks b is_word_byte repo_byte s foreign.no_word foreign.no_repo

  repo-lacks : (s : Bytes) → some_of repo_byte s ≡ true → lacks b s ≡ true
  repo-lacks s = some_of-lacks b repo_byte s foreign.no_repo

  labels-lack :
      (parts : List Bytes)
      → has_dots (begins_with is_word_byte owner_byte) owner_byte parts ≡ true
      → every (lacks b) parts ≡ true
  labels-lack [] h = refl
  labels-lack (part ∷ parts) h =
      let first = begins_with is_word_byte owner_byte part in
      let (front, others) =
        and_true (first && not (is_nil parts)) (every (some_of owner_byte) parts) h in
      rw (owner-lacks part ((and_true first (not (is_nil parts)) front).0)) (
        every_mono (some_of owner_byte) (lacks b) parts
          (λ s. some_of-lacks b owner_byte s foreign.no_owner) others)

  host-lacks : (s : Bytes) → is_host s ≡ true → lacks b s ≡ true
  host-lacks s h = lacks-split b b'.' s foreign.no_dot (labels-lack (split b'.' s) h)

  is_github-lacks : (parts : List Bytes) → is_github parts ≡ true → every (lacks b) parts ≡ true
  is_github-lacks [] h = refl
  is_github-lacks (owner ∷ []) h = cc
  is_github-lacks (owner ∷ repo ∷ []) h = ground (arith, owner-lacks owner, repo-lacks repo)
  is_github-lacks (host ∷ owner ∷ repo ∷ []) h =
      ground (arith, host-lacks host, owner-lacks owner, repo-lacks repo)
  is_github-lacks (host ∷ owner ∷ repo ∷ part ∷ parts) h = cc

  is_gitea-lacks : (parts : List Bytes) → is_gitea parts ≡ true → every (lacks b) parts ≡ true
  is_gitea-lacks [] h = refl
  is_gitea-lacks (owner ∷ []) h = cc
  is_gitea-lacks (owner ∷ repo ∷ []) h = cc
  is_gitea-lacks (host ∷ owner ∷ repo ∷ []) h =
      ground (arith, host-lacks host, group-lacks owner, repo-lacks repo)
  is_gitea-lacks (host ∷ owner ∷ repo ∷ part ∷ parts) h = cc

  is_codeberg-lacks : (parts : List Bytes) → is_codeberg parts ≡ true → every (lacks b) parts ≡ true
  is_codeberg-lacks [] h = refl
  is_codeberg-lacks (owner ∷ []) h = cc
  is_codeberg-lacks (owner ∷ repo ∷ []) h = ground (arith, group-lacks owner, repo-lacks repo)
  is_codeberg-lacks (host ∷ owner ∷ repo ∷ parts) h = cc

  is_gitlab-lacks : (parts : List Bytes) → is_gitlab parts ≡ true → every (lacks b) parts ≡ true
  is_gitlab-lacks [] h = refl
  is_gitlab-lacks (owner ∷ []) h = cc
  is_gitlab-lacks (group ∷ part ∷ parts) h =
      let path_part = begins_with (or_in is_word_byte (b'_' ∷ [])) repo_byte in
      let (first, others) =
        and_true (begins_with is_word_byte repo_byte group) (every path_part (part ∷ parts)) h in
      rw (group-lacks group first) (
        every_mono path_part (lacks b) (part ∷ parts)
          (λ s.
            begins_with-lacks b (or_in is_word_byte (b'_' ∷ [])) repo_byte s foreign.no_below
              foreign.no_repo)
          others)

-- The four schemes of a forge.
pub scheme-induction {ℓ} :
    (P : Bytes → Type ℓ)
    → P (codes "github")
    → P (codes "gitea")
    → P (codes "codeberg")
    → P (codes "gitlab")
    → (scheme : Bytes) → contains forge_schemes scheme ≡ true
    → P scheme
scheme-induction P github gitea codeberg gitlab scheme h =
    elim (Bool-cases (equal (codes "github") scheme)) [
      | inl e ↦ subst P ((equal_iff (codes "github") scheme).0 e) github
      | inr not_github ↦ elim (Bool-cases (equal (codes "gitea") scheme)) [
        | inl e ↦ subst P ((equal_iff (codes "gitea") scheme).0 e) gitea
        | inr not_gitea ↦ elim (Bool-cases (equal (codes "codeberg") scheme)) [
          | inl e ↦ subst P ((equal_iff (codes "codeberg") scheme).0 e) codeberg
          | inr not_codeberg ↦ subst P ((equal_iff (codes "gitlab") scheme).0 (ground arith)) gitlab
        ]
      ]
    ]

-- A location that a forge takes lacks the byte.
pub fits_scheme-lacks :
    (b : ℕ)
    → IsForeign b
    → (scheme location : Bytes) → contains forge_schemes scheme ≡ true
    → fits_scheme scheme location ≡ true
    → lacks b location ≡ true
unfolding fits_scheme equal
fits_scheme-lacks b foreign scheme location known ok_location =
    lacks-split b b'/' location foreign.no_slash (
      scheme-induction
        (λ s. fits_scheme s location ≡ true → every (lacks b) (split b'/' location) ≡ true)
        (is_github-lacks b foreign (split b'/' location))
        (is_gitea-lacks b foreign (split b'/' location))
        (is_codeberg-lacks b foreign (split b'/' location))
        (is_gitlab-lacks b foreign (split b'/' location)) scheme known ok_location)
