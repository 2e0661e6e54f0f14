-- ===== src/Version/Cycle.antt =====
-- Three versions that `Compare` orders in a circle.
use Prim.Native.Nat.{compare}
use mathlib.Core.List.{append-nil}
-- letters behind a number, such as the rc1 of 1.26rc1 or the a of 1.1.1a
use oku.Base.{
  All, All-append, Bytes, List, Ordering, [], arith, cut-lacks, every, every-append, false, flip,
  is_digit, is_nil, join, lacks, lacks-join, lt, not, refl, split, split-join, subst, then_by, true,
  ℕ, ◌++◌, ◌==◌, ◌∙◌, ◌∷◌, ◌≡◌,
}
use oku.Version.{
  compare_part, compare_parts, compare_pre, compare_runs, compare_suffix, compare_tail,
  compare_version, digits_value, prerelease, runs, split_number, tail_rank,
}
use oku.Version.Numbers.{IsNumber, atoi-IsNumber, digit_lacks, then_by-eq}
use oku.Version.Order.{compare_part-flip, self_eq}
use oku.Version.Range.{starts_with_digit}

pub record IsTail (t : Bytes) : Type 0 where
  pub begins : starts_with_digit t ≡ false
  pub nonempty : is_nil t ≡ false
  pub no_dot : lacks b'.' t ≡ true
  pub no_dash : lacks b'-' t ≡ true

split_number-tail :
    (n t : Bytes)
    → every is_digit n ≡ true
    → starts_with_digit t ≡ false
    → split_number (n ++ t) ≡ (n, t)
unfolding split_number
split_number-tail [] [] h k = refl
split_number-tail [] (c ∷ t) h k = ground arith
split_number-tail (c ∷ n) t h k = ground (arith, split_number-tail n t)

-- the number is the same, so the tails decide
compare_part-tails :
    (n s t : Bytes)
    → IsNumber n
    → starts_with_digit s ≡ false
    → starts_with_digit t ≡ false
    → compare_part (n ++ s) (n ++ t) ≡ compare_tail s t
unfolding compare_part
compare_part-tails n s t h hs ht =
    rw (split_number-tail n s h.digits hs, split_number-tail n t h.digits ht, atoi-IsNumber n h)
      (same_first (digits_value 0 n) (compare_tail s t))
  where
    same_first : (m : ℕ) (o : Ordering) → then_by (compare m m) o ≡ o
    same_first m o = ground arith

compare_parts-last :
    (xs : List Bytes) (a b : Bytes)
    → compare_parts (xs ++ (a ∷ [])) (xs ++ (b ∷ [])) ≡ compare_part a b
unfolding compare_parts
compare_parts-last [] a b = then_by-eq _
compare_parts-last (x ∷ xs) a b =
    rw (self_eq (compare_part x x) (compare_part-flip x x)) (compare_parts-last xs a b)

split-join_last :
    (xs : List Bytes) (a : Bytes)
    → All (λ y. lacks b'.' y ≡ true) (xs ++ (a ∷ []))
    → split b'.' (join b'.' (xs ++ (a ∷ []))) ≡ xs ++ (a ∷ [])
split-join_last [] a h = split-join b'.' a [] h
split-join_last (x ∷ xs) a h = split-join b'.' x (xs ++ (a ∷ [])) h

-- the version whose last part is `a`, behind the numbers `xs`
abbrev pub with_last : List Bytes → Bytes → Bytes
with_last xs a = join b'.' (xs ++ (a ∷ []))

compare_version-last :
    (xs : List Bytes) (a b : Bytes)
    → All IsNumber xs
    → (lacks b'.' a ≡ true) × (lacks b'-' a ≡ true)
    → (lacks b'.' b ≡ true) × (lacks b'-' b ≡ true)
    → compare_version (with_last xs a) (with_last xs b) ≡ compare_part a b
unfolding compare_version compare_pre compare_suffix runs compare_runs
compare_version-last xs a b h ha hb =
    rw
      (
        cut-lacks b'-' (with_last xs a)
            (lacks-join b'-' b'.' (xs ++ (a ∷ [])) refl (lack b'-' refl a ha.1)),
        cut-lacks b'-' (with_last xs b)
            (lacks-join b'-' b'.' (xs ++ (b ∷ [])) refl (lack b'-' refl b hb.1)),
        split-join_last xs a (lack b'.' refl a ha.0),
        split-join_last xs b (lack b'.' refl b hb.0),
        compare_parts-last xs a b,
      )
      (then_by-eq _)
  where
    lack :
        (c : ℕ)
        → is_digit c ≡ false
        → (x : Bytes) → lacks c x ≡ true
        → All (λ y. lacks c y ≡ true) (xs ++ (x ∷ []))
    lack c e x k = All-append (λ y. lacks c y ≡ true) xs (x ∷ []) (digit_lacks c e xs h) (k, tt)

compare_tail-nil : (t : Bytes) → is_nil t ≡ false → compare_tail [] t ≡ tail_rank t
unfolding compare_tail
compare_tail-nil [] h = cc
compare_tail-nil (c ∷ t) h = refl

compare_tail_nil : (t : Bytes) → is_nil t ≡ false → compare_tail t [] ≡ flip (tail_rank t)
unfolding compare_tail
compare_tail_nil [] h = cc
compare_tail_nil (c ∷ t) h = refl

compare_tail-suffix :
    (s t : Bytes) → is_nil s ≡ false → is_nil t ≡ false → compare_tail s t ≡ compare_suffix s t
unfolding compare_tail
compare_tail-suffix [] t h k = cc
compare_tail-suffix (c ∷ s) [] h k = cc
compare_tail-suffix (c ∷ s) (d ∷ t) h k = refl

number_lacks : (n : Bytes) → IsNumber n → (lacks b'.' n ≡ true) × (lacks b'-' n ≡ true)
number_lacks n h =
    ((digit_lacks b'.' refl (n ∷ []) (h, tt)).0, (digit_lacks b'-' refl (n ∷ []) (h, tt)).0)

tail_lacks :
    (n t : Bytes)
    → IsNumber n
    → IsTail t
    → (lacks b'.' (n ++ t) ≡ true) × (lacks b'-' (n ++ t) ≡ true)
tail_lacks n t h k = (
  every-append (λ c. not (c == b'.')) n t ∙ rw ((number_lacks n h).0, k.no_dot),
  every-append (λ c. not (c == b'-')) n t ∙ rw ((number_lacks n h).1, k.no_dash),
)

-- A version whose last number has a prerelease word `p` behind it is below the same version with
-- neither, which is below the one with other letters `t` behind it. Where `t` is below `p` as a
-- suffix, that one is below the first again, so `compare_version` is not transitive.
pub compare_version_cycle :
    (xs : List Bytes) (n p t : Bytes)
    → All IsNumber xs
    → IsNumber n
    → IsTail p
    → IsTail t
    → prerelease p ≡ true
    → prerelease t ≡ false
    → compare_suffix t p ≡ lt
    → (compare_version (with_last xs (n ++ p)) (with_last xs n) ≡ lt)
      × (compare_version (with_last xs n) (with_last xs (n ++ t)) ≡ lt)
      × (compare_version (with_last xs (n ++ t)) (with_last xs (n ++ p)) ≡ lt)
unfolding tail_rank
compare_version_cycle xs n p t hx hn hp ht pre_p pre_t order = (
  compare_version-last xs (n ++ p) n hx (tail_lacks n p hn hp) (number_lacks n hn)
      ∙ subst (λ m. compare_part (n ++ p) m ≡ lt) (append-nil n)
          (compare_part-tails n p [] hn hp.begins refl ∙ compare_tail_nil p hp.nonempty ∙ rw pre_p),
  compare_version-last xs n (n ++ t) hx (number_lacks n hn) (tail_lacks n t hn ht)
      ∙ subst (λ m. compare_part m (n ++ t) ≡ lt) (append-nil n)
          (compare_part-tails n [] t hn refl ht.begins ∙ compare_tail-nil t ht.nonempty ∙ rw pre_t),
  compare_version-last xs (n ++ t) (n ++ p) hx (tail_lacks n t hn ht) (tail_lacks n p hn hp)
      ∙ compare_part-tails n t p hn ht.begins hp.begins
      ∙ compare_tail-suffix t p ht.nonempty hp.nonempty
      ∙ order,
)
