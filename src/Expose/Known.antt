-- ===== src/Expose/Known.antt =====
-- `Ledger.Sync` of internal/expose/expose.go, and the targets that the saved ledger knows.
pub mod Crash
use oku.Base.{
  Throughout, Throughout-append, run, run-append, Bool, Bool-cases, Bytes, List, Option-cases, [],
  and_true, any, any-append, arith, contains, differ, equal, equal_iff, equal_refl, every,
  every_mono, inl, inr, keep, not, refl, subst, true, ◌++◌, ◌||◌, ◌∷◌, ◌≡◌,
}
use oku.Expose.{
  Action, Calls, removal, Item, Machine, Synced, act, after, and_then, owns, same_item, without,
}

-- the target is the user's own, or an item has it
abbrev pub knows : List Bytes → List Item → Bytes → Bool
knows foreign items target = contains foreign target || owns items target

-- every target that is there is the user's own or in the items
unfoldable pub all_known : List Bytes → List Item → List Bytes → Bool
all_known foreign items there = every (knows foreign items) there

-- every target that is there is the user's own or in the saved ledger
abbrev pub IsKnown : List Bytes → Machine → Type 0
IsKnown foreign m = all_known foreign m.saved m.there ≡ true

module _ (foreign : List Bytes) where
  -- the saved ledger and the one in memory both know what is there
  abbrev pub BothKnow : Machine → List Item → Type 0
  BothKnow m items = IsKnown foreign m × (all_known foreign items m.there ≡ true)

  -- what a part of a sync keeps, from a machine on
  abbrev pub Keeps : Machine → Synced → Type 0
  Keeps m s = Throughout act (IsKnown foreign) m s.actions × BothKnow (run act s.actions m) s.items

  owns-more :
      (items : List Item) (want : Item) (t : Bytes)
      → owns items t ≡ true
      → owns (items ++ (want ∷ [])) t ≡ true
  unfolding owns
  owns-more items want t h =
      rw (any-append (λ (have : Item). equal have.target t) items (want ∷ [])) (ground (arith, h))

  pub owns-last : (items : List Item) (want : Item) → owns (items ++ (want ∷ [])) want.target ≡ true
  unfolding owns
  owns-last items want =
      rw (any-append (λ (have : Item). equal have.target want.target) items (want ∷ []))
        (let same = equal_refl want.target in ground (arith, same))

  pub all_known-more :
      (items : List Item) (want : Item) (there : List Bytes)
      → all_known foreign items there ≡ true
      → all_known foreign (items ++ (want ∷ [])) there ≡ true
  unfolding all_known
  all_known-more items want there h =
      every_mono (knows foreign items) (knows foreign (items ++ (want ∷ []))) there
        (λ t k. elim (Bool-cases (owns items t)) [
          | inl own ↦ let more = owns-more items want t own in ground arith
          | inr not_own ↦ ground arith
        ])
        h

  pub Keeps-after :
      (m : Machine) (front : List Action) (rest : Synced)
      → Throughout act (IsKnown foreign) m front
      → Keeps (run act front m) rest
      → Keeps m (after front rest)
  Keeps-after m front rest h k = (
    Throughout-append act (IsKnown foreign) m front rest.actions h k.0,
    rw (run-append act front rest.actions m) k.1,
  )

  pub Keeps-and_then :
      (m : Machine) (first : Synced) (next : List Item → Synced)
      → Keeps m first
      → ((m2 : Machine) (items : List Item) → BothKnow m2 items → Keeps m2 (next items))
      → Keeps m (and_then first next)
  Keeps-and_then m first next h k = elim (Option-cases first.error) [
    | inr (e, bad) ↦ rw bad h
    | inl fine ↦ rw fine (
        Keeps-after m first.actions (next first.items) h.0
          (k (run act first.actions m) first.items h.1))
  ]

  pub every-keep :
      {A : Type 0}
      → (p q r : A → Bool) (l : List A) → ((x : A) → q x ≡ true → r x ≡ true → p x ≡ true)
      → every r l ≡ true
      → every p (keep q l) ≡ true
  every-keep p q r [] h k = refl
  every-keep p q r (x ∷ l) h k =
      let (here, rest) = and_true (r x) (every r l) k in
      elim (Bool-cases (q x)) [
        | inl kept ↦ rw (kept, h x kept here) (every-keep p q r l h rest)
        | inr dropped ↦ rw dropped (every-keep p q r l h rest)
      ]

  pub any-keep :
      {A : Type 0}
      → (p q : A → Bool) (l : List A) → ((x : A) → p x ≡ true → q x ≡ true)
      → any p (keep q l) ≡ any p l
  any-keep p q [] h = refl
  any-keep p q (x ∷ l) h = elim (Bool-cases (q x)) [
    | inl kept ↦ rw (kept, any-keep p q l h) refl
    | inr dropped ↦ elim (Bool-cases (p x)) [
      | inl true_p ↦ let bad = h x true_p in cc
      | inr false_p ↦ rw (dropped, any-keep p q l h, false_p) refl
    ]
  ]

  pub same_item-target : (a b : Item) → same_item a b ≡ true → a.target ≡ b.target
  unfolding same_item
  same_item-target a b h =
      let same : equal a.target b.target ≡ true = ground arith in
      (equal_iff a.target b.target).0 same

  owns-left :
      (items : List Item) (have : Item) (t : Bytes)
      → not (equal have.target t) ≡ true
      → owns (keep (λ item. not (same_item item have)) items) t ≡ owns items t
  unfolding owns
  owns-left items have t other =
      any-keep (λ (item : Item). equal item.target t) (λ item. not (same_item item have)) items
        (λ item h. elim (Bool-cases (same_item item have)) [
          | inr differ ↦ rw differ refl
          | inl same ↦
              let target = same_item-target item have same in
              let at = subst (λ x. equal x t ≡ true) target h in absurd (ground (arith, at, other))
        ])

  all_known-without :
      (items : List Item) (target : Bytes) (there : List Bytes)
      → all_known foreign items there ≡ true
      → all_known foreign items (without target there) ≡ true
  unfolding all_known
  all_known-without items target there h =
      every-keep (knows foreign items) (λ t. not (equal target t)) (knows foreign items) there
        (λ t q r. r) h

  all_known-left :
      (items : List Item) (have : Item) (there : List Bytes)
      → all_known foreign items there ≡ true
      → all_known foreign
          (keep (λ item. not (same_item item have)) items)
          (without have.target there)
        ≡ true
  unfolding all_known
  all_known-left items have there h =
      every-keep (knows foreign (keep (λ item. not (same_item item have)) items))
        (λ t. not (equal have.target t)) (knows foreign items) there
        (λ t q r. rw (owns-left items have t q) r) h

  -- what the user replaced is the user's own
  abbrev pub AreReplaced : Calls → Type 0
  AreReplaced calls =
      (item : Item) → calls.is_replaced item ≡ true → contains foreign item.target ≡ true

  replaced-left :
      (items : List Item) (have : Item) (there : List Bytes)
      → contains foreign have.target ≡ true
      → all_known foreign items there ≡ true
      → all_known foreign (keep (λ item. not (same_item item have)) items) there ≡ true
  unfolding all_known
  replaced-left items have there replaced h =
      let left = keep (λ item. not (same_item item have)) items in
      every_mono (knows foreign items) (knows foreign left) there
        (λ t k. elim (Bool-cases (equal have.target t)) [
          | inl same ↦
              let own =
                subst (λ x. contains foreign x ≡ true) ((equal_iff have.target t).0 same)
                  replaced in
              rw own refl
          | inr other ↦ rw (owns-left items have t (rw other refl)) k
        ])
        h

  -- the machine behind the removal of an item knows the items that are left
  pub removal-BothKnow :
      (calls : Calls) (m : Machine) (items : List Item) (have : Item)
      → AreReplaced calls
      → BothKnow m items
      → BothKnow (act (removal calls have) m) (keep (λ item. not (same_item item have)) items)
  unfolding act
  removal-BothKnow calls m items have replaced h = elim (Bool-cases (calls.is_replaced have)) [
    | inl kept ↦
        let left = replaced-left items have m.there (replaced have kept) h.1 in rw kept (h.0, left)
    | inr ours ↦
        let old = all_known-without m.saved have.target m.there h.0 in
        let new = all_known-left items have m.there h.1 in rw ours (old, new)
  ]
