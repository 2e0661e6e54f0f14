-- ===== src/Deltas/Locks/Versions.antt =====
-- `versions` of depDeltas in internal/cli/changes.go writes the versions of a ref as one text, which
-- tells them apart where no version has a comma.
use oku.Base.{
  All, Bool, Bool-cases, Bytes, List, Option, [], any, any-append, any-sorted, ap, arith, contains,
  equal, equal_iff, equal_refl, false, if◌then◌else◌, inl, inr, lacks, map, none, refl, some,
  sorted, split, subst, sym, true, ◌&&◌, ◌++◌, ◌||◌, ◌∙◌, ◌∷◌, ◌≡◌,
}
use oku.Deltas.Locks.{add_version, by_ref_from, dep_versions, text_at, with_commas}
use oku.Deltas.Locks.Commas.{IsGood, has_comma, unspaced_list, unspaced_list-split}
use oku.Lock.{Package, pin_of}

-- one of the deps has the ref at the version
abbrev pub has_dep : Bytes → Bytes → List Package → Bool
has_dep ref version = any (λ d. equal (pin_of d).ref ref && equal (pin_of d).version version)

-- no version of the deps has a comma
abbrev pub HavePlainVersions : List Package → Type 0
HavePlainVersions = All (λ d. lacks b',' (pin_of d).version ≡ true)

list_at : Bytes → List (Bytes × List Bytes) → Option (List Bytes)
list_at ref [] = none
list_at ref ((r, vs) ∷ l) = if equal r ref then some vs else list_at ref l

abbrev has_version : Bytes → Option (List Bytes) → Bool
has_version v none = false
has_version v (some vs) = contains vs v

abbrev AreGood : List (Bytes × List Bytes) → Type 0
AreGood = All (λ (entry : Bytes × List Bytes). IsGood entry.1)

-- the list of a ref with a version more
abbrev with_version_of : List Bytes → Bytes → List Bytes
with_version_of vs version = if contains vs version then vs else vs ++ (version ∷ [])

contains-with_version_of :
    (vs : List Bytes) (version v : Bytes)
    → contains (with_version_of vs version) v ≡ (contains vs v || equal version v)
contains-with_version_of vs version v = elim (Bool-cases (contains vs version)) [
  | inr new ↦ rw new (any-append (λ x. equal x v) vs (version ∷ []) ∙ ground arith)
  | inl held ↦ elim (Bool-cases (equal version v)) [
    | inr other ↦ rw (held, other) (ground arith)
    | inl same ↦
        let here : contains vs v ≡ true =
          subst (λ x. contains vs x ≡ true) ((equal_iff version v).0 same) held in
        rw (held, here) refl
  ]
]

IsGood-with_version_of :
    (vs : List Bytes) (version : Bytes)
    → lacks b',' version ≡ true
    → IsGood vs
    → IsGood (with_version_of vs version)
IsGood-with_version_of vs version commaless (some_version, no_comma) =
    elim (Bool-cases (contains vs version)) [
      | inl held ↦ rw held (some_version, no_comma)
      | inr new ↦ rw new (
        any-append (λ v. true) vs (version ∷ []) ∙ rw some_version refl,
        any-append has_comma vs (version ∷ []) ∙ rw (no_comma, commaless) refl,
      )
    ]

other_ref : (k r ref : Bytes) → equal k r ≡ false → equal k ref ≡ true → equal r ref ≡ false
other_ref k r ref other same = elim (Bool-cases (equal r ref)) [
  | inr e ↦ e
  | inl e ↦
      let both : k ≡ r = (equal_iff k ref).0 same ∙ sym ((equal_iff r ref).0 e) in
      cc ((equal_iff k r).1 both, other)
]

has_version-add_version :
    (ref v r version : Bytes) (l : List (Bytes × List Bytes))
    → has_version v (list_at ref (add_version r version l))
      ≡ (has_version v (list_at ref l) || (equal r ref && equal version v))
unfolding add_version list_at
has_version-add_version ref v r version [] = ground arith
has_version-add_version ref v r version ((k, vs) ∷ l) = elim (Bool-cases (equal k r)) [
  | inl same ↦
      subst
        (λ x.
          has_version v (list_at ref (add_version x version ((k, vs) ∷ l)))
          ≡ (has_version v (list_at ref ((k, vs) ∷ l)) || (equal x ref && equal version v)))
        ((equal_iff k r).0 same)
        (elim (Bool-cases (equal k ref)) [
          | inl e ↦ rw (equal_refl k, e) (contains-with_version_of vs version v)
          | inr e ↦ rw (equal_refl k, e) (ground arith)
        ])
  | inr other ↦ elim (Bool-cases (equal k ref)) [
    | inl e ↦ rw (other, e, other_ref k r ref other e) (ground arith)
    | inr e ↦ rw (other, e) (has_version-add_version ref v r version l)
  ]
]

AreGood-add_version :
    (r version : Bytes) (l : List (Bytes × List Bytes))
    → lacks b',' version ≡ true
    → AreGood l
    → AreGood (add_version r version l)
unfolding add_version
AreGood-add_version r version [] commaless h = ((refl, rw commaless refl), tt)
AreGood-add_version r version ((k, vs) ∷ l) commaless h = elim (Bool-cases (equal k r)) [
  | inl e ↦ rw e (IsGood-with_version_of vs version commaless h.0, h.1)
  | inr e ↦ rw e (h.0, AreGood-add_version r version l commaless h.1)
]

has_version-by_ref_from :
    (ref v : Bytes) (ds : List Package) (l : List (Bytes × List Bytes))
    → has_version v (list_at ref (by_ref_from ds l))
      ≡ (has_version v (list_at ref l) || has_dep ref v ds)
unfolding by_ref_from
has_version-by_ref_from ref v [] l = ground arith
has_version-by_ref_from ref v (d ∷ ds) l =
    has_version-by_ref_from ref v ds (add_version (pin_of d).ref (pin_of d).version l)
    ∙ rw (has_version-add_version ref v (pin_of d).ref (pin_of d).version l) (ground arith)

AreGood-by_ref_from :
    (ds : List Package) (l : List (Bytes × List Bytes))
    → HavePlainVersions ds
    → AreGood l
    → AreGood (by_ref_from ds l)
unfolding by_ref_from
AreGood-by_ref_from [] l commaless h = h
AreGood-by_ref_from (d ∷ ds) l commaless h =
    AreGood-by_ref_from ds (add_version (pin_of d).ref (pin_of d).version l) commaless.1
      (AreGood-add_version (pin_of d).ref (pin_of d).version l commaless.0 h)

AreGood-list_at :
    (ref : Bytes) (l : List (Bytes × List Bytes)) {vs : List Bytes}
    → AreGood l
    → list_at ref l ≡ some vs
    → IsGood vs
unfolding list_at
AreGood-list_at ref [] h e = cc
AreGood-list_at ref ((k, ws) ∷ l) h e = elim (Bool-cases (equal k ref)) [
  | inl here ↦ subst IsGood (cc (rw here at e)) (h.0)
  | inr other ↦ AreGood-list_at ref l h.1 (rw other at e)
]

-- the text of a list of versions
abbrev text_of_list : Option (List Bytes) → Option Bytes
text_of_list none = none
text_of_list (some vs) = some (with_commas (sorted vs))

text_at-list_at :
    (ref : Bytes) (l : List (Bytes × List Bytes))
    → text_at ref
        (map (λ (entry : Bytes × List Bytes). (entry.0, with_commas (sorted (entry.1)))) l)
      ≡ text_of_list (list_at ref l)
unfolding text_at list_at
text_at-list_at ref [] = refl
text_at-list_at ref ((k, vs) ∷ l) = elim (Bool-cases (equal k ref)) [
  | inl e ↦ rw e refl
  | inr e ↦ rw e (text_at-list_at ref l)
]

sorted-IsGood : (vs : List Bytes) → IsGood vs → IsGood (sorted vs)
sorted-IsGood vs h = (any-sorted (λ v. true) vs ∙ h.0, any-sorted has_comma vs ∙ h.1)

same_versions :
    (v : Bytes) (a b : Option (List Bytes))
    → ((vs : List Bytes) → a ≡ some vs → IsGood vs)
    → ((vs : List Bytes) → b ≡ some vs → IsGood vs)
    → text_of_list a ≡ text_of_list b
    → has_version v a ≡ has_version v b
same_versions v none none f g h = refl
same_versions v none (some ws) f g h = cc
same_versions v (some vs) none f g h = cc
same_versions v (some vs) (some ws) f g h =
    let text : with_commas (sorted vs) ≡ with_commas (sorted ws) = cc in
    let lists : sorted vs ≡ sorted ws =
      sym (unspaced_list-split (sorted vs) (sorted-IsGood vs (f vs refl)))
      ∙ ap (λ t. unspaced_list (split b',' t)) text
      ∙ unspaced_list-split (sorted ws) (sorted-IsGood ws (g ws refl)) in
    sym (any-sorted (λ x. equal x v) vs)
    ∙ ap (λ l. contains l v) lists
    ∙ any-sorted (λ x. equal x v) ws

-- Deps whose texts agree have each ref at the same versions, where no version has a comma.
pub dep_versions-has_dep :
    (old new : List Package) (ref version : Bytes)
    → HavePlainVersions old
    → HavePlainVersions new
    → text_at ref (dep_versions old) ≡ text_at ref (dep_versions new)
    → has_dep ref version old ≡ has_dep ref version new
unfolding dep_versions list_at
dep_versions-has_dep old new ref version plain_old plain_new h =
    let a = by_ref_from old [] in
    let b = by_ref_from new [] in
    sym (has_version-by_ref_from ref version old [])
    ∙ same_versions version (list_at ref a) (list_at ref b)
        (λ vs. AreGood-list_at ref a (AreGood-by_ref_from old [] plain_old tt))
        (λ vs. AreGood-list_at ref b (AreGood-by_ref_from new [] plain_new tt))
        (sym (text_at-list_at ref a) ∙ h ∙ text_at-list_at ref b)
    ∙ has_version-by_ref_from ref version new []
