-- ===== src/Profile/Stages/Edits/Finished.antt =====
-- What `DropUnfinished` of internal/profile/profile.go leaves.
use oku.Base.{
  Bool, Bool-cases, Bytes, List, [], ap, every, inl, inr, keep, none, not, refl, true, ◌∷◌, ◌≡◌,
}
use oku.Profile.Stages.{Entry}
use oku.Profile.Stages.Edits.{drop_unfinished, is_unfinished}

drop_unfinished-both :
    (stays : Bytes → Bool) (l : List Entry)
    → (keep (λ e. not (is_unfinished e)) (drop_unfinished stays l).0
        ≡ keep (λ e. not (is_unfinished e)) l)
      × ((drop_unfinished stays l).1 ≡ none
          → every (λ e. not (is_unfinished e)) (drop_unfinished stays l).0 ≡ true)
unfolding drop_unfinished
drop_unfinished-both stays [] = (refl, λ h. refl)
drop_unfinished-both stays (e ∷ l) =
    let (same, clean) = drop_unfinished-both stays l in
    elim (Bool-cases (is_unfinished e)) [
      | inr finished ↦ rw finished (rw finished (ap (λ x. e ∷ x) same), λ h. rw finished (clean h))
      | inl left ↦ elim (Bool-cases (stays e.name)) [
        | inl stuck ↦ rw (left, stuck) (rw left refl, λ h. cc)
        | inr free ↦ rw (left, free) (same, clean)
      ]
    ]

-- Whether or not an entry cannot be deleted, the finished entries that `drop_unfinished` leaves are
-- all that were there, with what they hold and in order.
pub drop_unfinished-keep :
    (stays : Bytes → Bool) (l : List Entry)
    → keep (λ e. not (is_unfinished e)) (drop_unfinished stays l).0
      ≡ keep (λ e. not (is_unfinished e)) l
drop_unfinished-keep stays l = (drop_unfinished-both stays l).0

-- If `drop_unfinished` reports no error, then no unfinished entry is left.
pub drop_unfinished-every :
    (stays : Bytes → Bool) (l : List Entry)
    → (drop_unfinished stays l).1 ≡ none
    → every (λ e. not (is_unfinished e)) (drop_unfinished stays l).0 ≡ true
drop_unfinished-every stays l = (drop_unfinished-both stays l).1
