-- ===== src/Ref/Split.antt =====
-- What strings.Cut and splitVersion of internal/ref/ref.go give on a text that was put together.
use oku.Base.{
  Bool-cases, Bytes, Option-cases, [], and_true, arith, cut, false, inl, inr, is_nil, lacks, none,
  not, refl, some, subst, true, ℕ, ◌++◌, ◌==◌, ◌∷◌, ◌≡◌,
}
use oku.Ref.{cut_last, is_version, split_version}

pub cut-append :
    (sep : ℕ) (a b : Bytes)
    → lacks sep a ≡ true
    → cut sep (a ++ (sep ∷ b)) ≡ record { before = a; after = b; found = true }
unfolding cut
cut-append sep [] b h = ground arith
cut-append sep (c ∷ a) b h = ground (arith, cut-append sep a b)

cut_last-lacks : (s : Bytes) → lacks b'@' s ≡ true → cut_last s ≡ none
unfolding cut_last
cut_last-lacks [] h = refl
cut_last-lacks (c ∷ s) h =
    let (_, rest) = and_true (not (c == b'@')) (lacks b'@' s) h in
    rw (cut_last-lacks s rest) (ground arith)

cut_last-append : (s v : Bytes) → lacks b'@' v ≡ true → cut_last (s ++ (b'@' ∷ v)) ≡ some (s, v)
unfolding cut_last
cut_last-append [] v h = rw (cut_last-lacks v h)
cut_last-append (c ∷ s) v h = rw (cut_last-append s v h)

pub split_version-lacks : (s : Bytes) → lacks b'@' s ≡ true → split_version s ≡ (s, [])
unfolding split_version
split_version-lacks s h = rw (cut_last-lacks s h)

pub split_version-append :
    (s v : Bytes)
    → is_nil s ≡ false
    → is_version v ≡ true
    → lacks b'@' v ≡ true
    → split_version (s ++ (b'@' ∷ v)) ≡ (s, v)
unfolding split_version
split_version-append s v some_text version h = rw (cut_last-append s v h, some_text, version)

cut_last-none : (s : Bytes) → cut_last s ≡ none → lacks b'@' s ≡ true
unfolding cut_last
cut_last-none [] h = refl
cut_last-none (c ∷ s) h = elim (Option-cases (cut_last s)) [
  | inl e ↦ elim (Bool-cases (c == b'@')) [
    | inl found_at ↦ cc (rw found_at at rw e at h)
    | inr other ↦ rw other (cut_last-none s e)
  ]
  | inr (pair, e) ↦ cc (rw e at h)
]

-- What stands behind the last '@' has none.
pub cut_last-after :
    (s : Bytes) {before after : Bytes} → cut_last s ≡ some (before, after) → lacks b'@' after ≡ true
unfolding cut_last
cut_last-after [] h = cc
cut_last-after (c ∷ s) {before} {after} h = elim (Option-cases (cut_last s)) [
  | inr ((front, back), e) ↦
      let same : back ≡ after = cc (rw e at h) in
      subst (λ v. lacks b'@' v ≡ true) same (cut_last-after s e)
  | inl e ↦ elim (Bool-cases (c == b'@')) [
    | inl found_at ↦
        let same : s ≡ after = cc (rw found_at at rw e at h) in
        subst (λ v. lacks b'@' v ≡ true) same (cut_last-none s e)
    | inr other ↦ cc (rw e at h, other)
  ]
]
