-- ===== src/Expose/Known/Crash.antt =====
-- `Ledger.Sync` of internal/expose/expose.go, stopped at any point.
use oku.Base.{
  Throughout, Throughout-append, run, Bool, Bool-cases, Bytes, List, Option, [], and_true, arith,
  contains, equal, equal_iff, equal_refl, every, inl, inr, keep, none, not, refl, some, subst, sym,
  true, ◌&&◌, ◌++◌, ◌∷◌, ◌≡◌,
}
use oku.Expose.{
  Calls, Item, Machine, act, and_then, check_items, copies_dropped, is_gone, is_missing, is_secret,
  owns, place_item, place_items, read_before, remove_items, removal, same_item, saves, sync,
  unless_in_the_way, wants,
}
use oku.Expose.Known.{
  BothKnow, IsKnown, Keeps, Keeps-after, Keeps-and_then, all_known, all_known-more, AreReplaced,
  removal-BothKnow, any-keep, knows, owns-last,
}

module _ (foreign : List Bytes) (calls : Calls) where
  remove_items-Keeps :
      (wanted l : List Item) (m : Machine) (items : List Item)
      → AreReplaced foreign calls
      → BothKnow foreign m items
      → Keeps foreign m (remove_items calls wanted l items)
  unfolding remove_items act
  remove_items-Keeps wanted [] m items replaced h = (h.0, h)
  remove_items-Keeps wanted (have ∷ l) m items replaced h =
      let left = keep (λ item. not (same_item item have)) items in
      let both = removal-BothKnow foreign calls m items have replaced h in
      elim (Bool-cases (wants wanted have)) [
        | inl stays ↦ rw stays (remove_items-Keeps wanted l m items replaced h)
        | inr goes ↦ elim (Bool-cases (calls.remove_fails have)) [
          | inl stuck ↦ rw (goes, stuck) (h.0, h)
          | inr removed ↦ elim (Bool-cases (calls.write_fails left)) [
            | inl unwritten ↦ rw (goes, removed, unwritten) ((h.0, both.0), both)
            | inr written ↦
                rw (goes, removed, written)
                  (Keeps-after foreign m (removal calls have ∷ saves left ∷ [])
                    (remove_items calls wanted l left) (h.0, (both.0, both.1))
                    (remove_items-Keeps wanted l
                      (record { saved = left; there = (act (removal calls have) m).there }) left
                      replaced (both.1, both.1)))
          ]
        ]
      ]

  placed-Keeps :
      (want : Item) (m : Machine) (items : List Item)
      → BothKnow foreign m items
      → Keeps foreign m (place_item calls want items)
  unfolding place_item act all_known
  placed-Keeps want m items h =
      let more = items ++ (want ∷ []) in
      let known = all_known-more foreign items want m.there h.1 in
      let now : knows foreign more want.target ≡ true =
        ground (arith, owns-last foreign items want) in
      let all_here : (knows foreign more want.target && every (knows foreign more) m.there) ≡ true =
        rw now known in
      elim (Bool-cases (calls.write_fails more)) [
        | inl unwritten ↦ rw unwritten (h.0, (h.0, known))
        | inr written ↦ elim (Bool-cases (calls.place_fails want)) [
          | inr placed ↦ rw (written, placed) ((h.0, (known, all_here)), (all_here, all_here))
          | inl failed ↦ elim (Bool-cases (calls.leaves_part want)) [
            | inl part ↦ rw (written, failed, part) ((h.0, (known, all_here)), (all_here, all_here))
            | inr nothing ↦ rw (written, failed, nothing) ((h.0, known), (known, known))
          ]
        ]
      ]

  read_before-Keeps :
      (want : Item) (found : Option Item) (m : Machine) (items : List Item)
      → BothKnow foreign m items
      → Keeps foreign m (read_before calls want items found)
  read_before-Keeps want none m items h = (h.0, h)
  read_before-Keeps want (some found) m items h = placed-Keeps found m items h

  place_items-Keeps :
      (wanted : List Item) (m : Machine) (items : List Item)
      → BothKnow foreign m items
      → Keeps foreign m (place_items calls wanted items)
  unfolding place_items
  place_items-Keeps [] m items h = (h.0, h)
  place_items-Keeps (want ∷ l) m items h = elim (Bool-cases (wants items want)) [
    | inl there ↦ rw there (place_items-Keeps l m items h)
    | inr new ↦ rw new (
        Keeps-and_then foreign m (read_before calls want items (calls.before want))
          (place_items calls l) (read_before-Keeps want (calls.before want) m items h)
          (λ m2 more k. place_items-Keeps l m2 more k))
  ]

  copies-Keeps :
      (there : List Bytes) (l : List Item) (m : Machine)
      → IsKnown foreign m
      → Throughout act (IsKnown foreign) m (copies_dropped calls there l)
        × (run act (copies_dropped calls there l) m ≡ m)
  unfolding copies_dropped act
  copies-Keeps there [] m h = (h, refl)
  copies-Keeps there (item ∷ l) m h =
      elim (Bool-cases (is_gone calls there item && is_secret item.kind)) [
        | inl gone ↦ let (all, same) = copies-Keeps there l m h in rw gone ((h, all), same)
        | inr stays ↦ rw stays (copies-Keeps there l m h)
      ]

  owns-not_gone :
      (there : List Bytes) (items : List Item) (t : Bytes)
      → contains there t ≡ true
      → owns (keep (λ item. not (is_gone calls there item)) items) t ≡ owns items t
  unfolding owns is_gone is_missing
  owns-not_gone there items t here =
      any-keep foreign (λ (item : Item). equal item.target t)
        (λ item. not (is_gone calls there item)) items
        (λ item h.
          let seen =
            subst (λ x. contains there x ≡ true) (sym ((equal_iff item.target t).0 h)) here in
          ground (arith, seen))

every_held :
    (p q : Bytes → Bool) (l : List Bytes)
    → ((t : Bytes) → contains l t ≡ true → p t ≡ true → q t ≡ true)
    → every p l ≡ true
    → every q l ≡ true
every_held p q [] h k = refl
every_held p q (x ∷ l) h k =
    let (here, rest) = and_true (p x) (every p l) k in
    let first = h x (rw (equal_refl x) refl) here in
    rw first (every_held p q l (λ t c. h t (ground arith)) rest)

-- At every point of a sync, so after any crash, each target that is there is the user's own or in
-- the ledger that is saved, if that is so before the sync and what the user replaced counts as the user's own.
-- This holds whatever calls fail.
pub sync-IsKnown :
    (foreign : List Bytes) (calls : Calls) (wanted : List Item) (m : Machine)
    → AreReplaced foreign calls
    → IsKnown foreign m
    → Throughout act (IsKnown foreign) m (sync calls wanted m.there m.saved).actions
unfolding sync
sync-IsKnown foreign calls wanted m replaced h =
    let items = keep (λ item. not (is_gone calls m.there item)) m.saved in
    let (dropped, same) = copies-Keeps foreign calls m.there m.saved m h in
    Throughout-append act (IsKnown foreign) m (copies_dropped calls m.there m.saved) _ dropped
      (rw same (go (check_items calls m.there items wanted)))
  where
    known :
        all_known foreign (keep (λ item. not (is_gone calls m.there item)) m.saved) m.there ≡ true
    known =
        unfold all_known in
        every_held (knows foreign m.saved)
          (knows foreign (keep (λ item. not (is_gone calls m.there item)) m.saved)) m.there
          (λ t here k. rw (owns-not_gone foreign calls m.there m.saved t here) k) h

    go :
        (found : Option Item)
        → Throughout act
            (IsKnown foreign)
            m
            (unless_in_the_way found (keep (λ item. not (is_gone calls m.there item)) m.saved) (
              and_then
                (remove_items calls wanted
                  (keep (λ item. not (is_gone calls m.there item)) m.saved)
                  (keep (λ item. not (is_gone calls m.there item)) m.saved))
                (place_items calls wanted))).actions
    go (some want) = h
    go none =
        let items = keep (λ item. not (is_gone calls m.there item)) m.saved in
        (Keeps-and_then foreign m (remove_items calls wanted items items) (place_items calls wanted)
          (remove_items-Keeps foreign calls wanted items m items replaced (h, known))
          (λ m2 more k. place_items-Keeps foreign calls wanted m2 more k)).0
