-- ===== src/Deltas/Rows.antt =====
-- What the rows of one kind do to the names they are about.
use oku.Base.{
  All, All-append, Bool, Bool-cases, Bytes, List, Option, Option-cases, [], any, ap, arith, equal,
  equal_iff, false, find, if◌then◌else◌, inl, inr, none, refl, some, sym, true, ◌&&◌, ◌++◌, ◌∙◌,
  ◌∷◌, ◌≡◌,
}
use oku.Deltas.{
  Delta, Kind, changed_rows, kind_dep, kind_file, kind_list, kind_package, kind_setting,
  removed_rows, row_if_gone, was_removed, with_row,
}

abbrev pub same_kind : Kind → Kind → Bool
same_kind kind_package kind_package = true
same_kind kind_dep kind_dep = true
same_kind kind_file kind_file = true
same_kind kind_setting kind_setting = true
same_kind kind_list kind_list = true
same_kind _ _ = false

abbrev pub outcome : Delta → Option Bytes
outcome d = elim d.change [ was_removed ↦ none | _ ↦ some d.after ]

-- what a name of a kind stands for after a row
unfoldable pub after_row : Kind → Bytes → Delta → Option Bytes → Option Bytes
after_row k n d known = if same_kind d.kind k && equal d.name n then outcome d else known

-- and after rows
unfoldable pub after_rows : Kind → Bytes → List Delta → Option Bytes → Option Bytes
after_rows k n [] known = known
after_rows k n (d ∷ rows) known = after_rows k n rows (after_row k n d known)

pub after_rows-append :
    (k : Kind) (n : Bytes) (xs ys : List Delta) (known : Option Bytes)
    → after_rows k n (xs ++ ys) known ≡ after_rows k n ys (after_rows k n xs known)
unfolding after_rows
after_rows-append k n [] ys known = refl
after_rows-append k n (d ∷ xs) ys known = after_rows-append k n xs ys (after_row k n d known)

-- rows of another kind change nothing
pub after_rows-other :
    (k : Kind) (n : Bytes) (rows : List Delta) (known : Option Bytes)
    → All (λ (d : Delta). same_kind d.kind k ≡ false) rows
    → after_rows k n rows known ≡ known
unfolding after_rows after_row
after_rows-other k n [] known h = refl
after_rows-other k n (d ∷ rows) known h = rw (h.0) (after_rows-other k n rows known h.1)

-- what the loops of one kind report
module _ {A : Type 0} (k : Kind) (name view : A → Bytes) where
  abbrev pub by_name : A → A → Bool
  by_name a b = equal (name b) (name a)

  abbrev pub named : Bytes → A → Bool
  named n a = equal (name a) n

  -- no two items have one name
  abbrev pub AreDistinct : List A → Type 0
  AreDistinct [] = Unit
  AreDistinct (a ∷ l) = (any (by_name a) l ≡ false) × AreDistinct l

  abbrev pub viewed : Option A → Option Bytes
  viewed none = none
  viewed (some a) = some (view a)

  -- what a name stands for in a list: what is seen of the first item of that name
  abbrev pub value_of : Bytes → List A → Option Bytes
  value_of n l = viewed (find (named n) l)

  abbrev pub IsGone : (A → Delta) → Type 0
  IsGone gone =
      (n : Bytes) (a : A) (known : Option Bytes)
      → after_row k n (gone a) known ≡ (if equal (name a) n then none else known)

  abbrev pub IsRow : (Option A → A → Option Delta) → Type 0
  IsRow row =
      (n : Bytes) (was : Option A) (b : A) (known : Option Bytes)
      → (equal (name b) n ≡ true → known ≡ viewed was)
      → after_rows k n (with_row (row was b) []) known
        ≡ (if equal (name b) n then some (view b) else known)

  equal-name :
      (n : Bytes) (a : A) (l : List A)
      → equal (name a) n ≡ true
      → find (by_name a) l ≡ find (named n) l
  equal-name n a l h = ap (λ m. find (λ b. equal (name b) m) l) ((equal_iff (name a) n).0 h)

  any-name :
      (n : Bytes) (a : A) (l : List A)
      → equal (name a) n ≡ true
      → any (by_name a) l ≡ any (named n) l
  any-name n a l h = ap (λ m. any (λ b. equal (name b) m) l) ((equal_iff (name a) n).0 h)

  with_row-after :
      (n : Bytes) (x : Option Delta) (rows : List Delta) (known : Option Bytes)
      → after_rows k n (with_row x rows) known
        ≡ after_rows k n rows (after_rows k n (with_row x []) known)
  unfolding after_rows
  with_row-after n none rows known = refl
  with_row-after n (some d) rows known = refl

  none-any : (f : A → Bool) (l : List A) → find f l ≡ none → any f l ≡ false
  none-any f [] h = refl
  none-any f (a ∷ l) h = ground (arith, none-any f l)

  any-none : (f : A → Bool) (l : List A) → any f l ≡ false → find f l ≡ none
  any-none f [] h = refl
  any-none f (a ∷ l) h = ground (arith, any-none f l)

  module _ (gone : A → Delta) (is_gone : IsGone gone) where
    gone-after :
        (n : Bytes) (a : A) (rows : List Delta) (known : Option Bytes)
        → after_rows k n (gone a ∷ rows) known
          ≡ after_rows k n rows (if equal (name a) n then none else known)
    unfolding after_rows
    gone-after n a rows known = ap (after_rows k n rows) (is_gone n a known)

    removed-kept :
        (n : Bytes) (old new : List A) (known : Option Bytes) {q : A}
        → find (named n) new ≡ some q
        → after_rows k n (removed_rows by_name gone old new) known ≡ known
    unfolding removed_rows after_rows
    removed-kept n [] new known h = refl
    removed-kept n (a ∷ old) new known {q} h = elim (Option-cases (find (by_name a) new)) [
      | inl e ↦
          let other : equal (name a) n ≡ false = ground (arith, equal-name n a new) in
          rw e (
            gone-after n a (removed_rows by_name gone old new) known
            ∙ rw other (removed-kept n old new known h))
      | inr (b, e) ↦ rw e (removed-kept n old new known h)
    ]

    removed-lost :
        (n : Bytes) (old new : List A) (known : Option Bytes)
        → find (named n) new ≡ none
        → after_rows k n (removed_rows by_name gone old new) known
          ≡ (if any (named n) old then none else known)
    unfolding removed_rows after_rows
    removed-lost n [] new known h = refl
    removed-lost n (a ∷ old) new known h = elim (Bool-cases (equal (name a) n)) [
      | inl e ↦
          rw (equal-name n a new e, h)
            (gone-after n a (removed_rows by_name gone old new) known
              ∙ rw e (removed-lost n old new none h ∙ ground arith))
      | inr e ↦ elim (Option-cases (find (by_name a) new)) [
        | inl g ↦ rw g (
            gone-after n a (removed_rows by_name gone old new) known
            ∙ rw e (removed-lost n old new known h))
        | inr (b, g) ↦ rw (g, e) (removed-lost n old new known h)
      ]
    ]

  module _ (row : Option A → A → Option Delta) (is_row : IsRow row) where
    changed-other :
        (n : Bytes) (old new : List A) (known : Option Bytes)
        → any (named n) new ≡ false
        → after_rows k n (changed_rows by_name row old new) known ≡ known
    unfolding changed_rows after_rows
    changed-other n old [] known h = refl
    changed-other n old (b ∷ new) known h =
        let other : equal (name b) n ≡ false = ground arith in
        with_row-after n (row (find (by_name b) old) b) (changed_rows by_name row old new) known
        ∙ rw (is_row n (find (by_name b) old) b known (λ e. cc), other)
            (changed-other n old new known (ground arith))

    changed-found :
        (n : Bytes) (old new : List A) {q : A}
        → AreDistinct new
        → find (named n) new ≡ some q
        → after_rows k n (changed_rows by_name row old new) (value_of n old) ≡ some (view q)
    unfolding changed_rows
    changed-found n old [] {q} d h = cc
    changed-found n old (b ∷ new) {q} (fresh, d) h =
        with_row-after n (row (find (by_name b) old) b) (changed_rows by_name row old new)
          (value_of n old)
        ∙ elim (Bool-cases (equal (name b) n)) [
          | inl e ↦
              let same : some b ≡ some q = rw e at h in
              rw
                (
                  is_row n (find (by_name b) old) b (value_of n old)
                      (λ g. ap viewed (sym (equal-name n b old g))),
                  e,
                )
                (changed-other n old new (some (view b)) (sym (any-name n b new e) ∙ fresh)
                  ∙ ap viewed same)
          | inr e ↦
              rw (is_row n (find (by_name b) old) b (value_of n old) (λ g. cc), e)
                (changed-found n old new d (rw e at h))
        ]

  known-lost :
      (n : Bytes) (old : List A) → (if any (named n) old then none else value_of n old) ≡ none
  known-lost n old = elim (Bool-cases (any (named n) old)) [
    | inl e ↦ rw e
    | inr e ↦ rw (e, any-none (named n) old e)
  ]

  -- the rows of one kind, applied
  pub rows-applied :
      (gone : A → Delta) (row : Option A → A → Option Delta)
      → IsGone gone
      → IsRow row
      → (n : Bytes) (old new : List A) → AreDistinct new
      → after_rows k n
          (removed_rows by_name gone old new ++ changed_rows by_name row old new)
          (value_of n old)
        ≡ value_of n new
  rows-applied gone row is_gone is_row n old new d =
      after_rows-append k n (removed_rows by_name gone old new) (changed_rows by_name row old new)
        (value_of n old)
      ∙ elim (Option-cases (find (named n) new)) [
        | inl e ↦
            rw (removed-lost gone is_gone n old new (value_of n old) e, known-lost n old)
              (changed-other row is_row n old new none (none-any (named n) new e)
                ∙ sym (ap viewed e))
        | inr (q, e) ↦
            rw (removed-kept gone is_gone n old new (value_of n old) e)
              (changed-found row is_row n old new d e ∙ sym (ap viewed e))
      ]

module _ {A : Type 0} (Good : Delta → Type 0) (same : A → A → Bool) where
  pub removed_rows-All :
      (gone : A → Delta) (old new : List A)
      → ((a : A) → Good (gone a))
      → All Good (removed_rows same gone old new)
  unfolding removed_rows
  removed_rows-All gone [] new h = tt
  removed_rows-All gone (a ∷ old) new h =
      one (removed_rows same gone old new) (find (same a) new) (removed_rows-All gone old new h)
    where
      one :
          (rows : List Delta) (b : Option A)
          → All Good rows
          → All Good (row_if_gone same (gone a) b rows)
      one rows none rest = (h a, rest)
      one rows (some b) rest = rest

  pub changed_rows-All :
      (row : Option A → A → Option Delta) (old new : List A)
      → ((was : Option A) (b : A) → All Good (with_row (row was b) []))
      → All Good (changed_rows same row old new)
  unfolding changed_rows
  changed_rows-All row old [] h = tt
  changed_rows-All row old (b ∷ new) h =
      one (changed_rows same row old new) (row (find (same b) old) b) (h (find (same b) old) b)
        (changed_rows-All row old new h)
    where
      one :
          (rows : List Delta) (x : Option Delta)
          → All Good (with_row x [])
          → All Good rows
          → All Good (with_row x rows)
      one rows none _ rest = rest
      one rows (some d) here rest = (here.0, rest)

  pub rows-All :
      (gone : A → Delta) (row : Option A → A → Option Delta) (old new : List A)
      → ((a : A) → Good (gone a))
      → ((was : Option A) (b : A) → All Good (with_row (row was b) []))
      → All Good (removed_rows same gone old new ++ changed_rows same row old new)
  rows-All gone row old new h g =
      All-append Good (removed_rows same gone old new) (changed_rows same row old new)
        (removed_rows-All gone old new h) (changed_rows-All row old new g)
