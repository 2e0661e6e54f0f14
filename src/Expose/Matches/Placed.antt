-- ===== src/Expose/Matches/Placed.antt =====
-- `Ledger.Sync` of internal/expose/expose.go, and the loop that adds what is wanted.
use mathlib.Core.Path.{sym}
use oku.Base.{
  Bool-cases, Bytes, List, Option, Option-cases, [], and_true, any, any-append, arith, every,
  every-append, if◌then◌else◌, inl, inr, keep, none, not, refl, some, subst, true, ◌++◌, ◌∷◌, ◌≡◌,
}
use oku.Expose.{
  Calls, Item, Synced, and_then, bare, check_items, is_gone, place_item, place_items, read_before,
  remove_items, same_item, sync, wants,
}
use oku.Expose.Matches.{
  AreWanted, AreWantedOr, remove_items-AreWanted, same_item-equal, same_item_refl, wants-same,
}
use oku.Expose.Owned.{IsFaithful}

module _ (calls : Calls) where
  place_item-items :
      (want : Item) (items : List Item) → (place_item calls want items).items ≡ items ++ (want ∷ [])
  unfolding place_item
  place_item-items want items = ground arith

  -- what a look at one wanted item leaves
  abbrev placed : Item → List Item → Synced
  placed want items =
      if wants items want
      then record { actions = []; items = items; error = none }
      else read_before calls want items (calls.before want)

  read_before-AreWanted :
      (wanted : List Item) (want : Item) (items : List Item) (found : Option Item)
      → AreWanted wanted items
      → ((f : Item) → found ≡ some f → wants wanted f ≡ true)
      → AreWanted wanted (read_before calls want items found).items
  read_before-AreWanted wanted want items none h k = h
  read_before-AreWanted wanted want items (some f) h k =
      rw (place_item-items f items, every-append (wants wanted) items (f ∷ []), h, k f refl) refl

  placed-AreWanted :
      (wanted : List Item) (want : Item) (items : List Item)
      → IsFaithful calls
      → wants wanted want ≡ true
      → AreWanted wanted items
      → AreWanted wanted (placed want items).items
  placed-AreWanted wanted want items faithful listed h = elim (Bool-cases (wants items want)) [
    | inl held ↦ rw held h
    | inr new ↦ rw new (
        read_before-AreWanted wanted want items (calls.before want) h
          (λ f e. rw (wants-same wanted f want (faithful want f e)) listed))
  ]

  read_before-more :
      (want t : Item) (items : List Item) (found : Option Item)
      → wants items t ≡ true
      → wants (read_before calls want items found).items t ≡ true
  unfolding wants
  read_before-more want t items none h = h
  read_before-more want t items (some f) h =
      rw (place_item-items f items, any-append (λ x. same_item (bare x) (bare t)) items (f ∷ []), h)
        refl

  placed-more :
      (want t : Item) (items : List Item)
      → wants items t ≡ true
      → wants (placed want items).items t ≡ true
  placed-more want t items h = elim (Bool-cases (wants items want)) [
    | inl held ↦ rw held h
    | inr new ↦ rw new (read_before-more want t items (calls.before want) h)
  ]

  read_before-wants :
      (want : Item) (items : List Item) (found : Option Item)
      → ((f : Item) → found ≡ some f → bare f ≡ bare want)
      → (read_before calls want items found).error ≡ none
      → wants (read_before calls want items found).items want ≡ true
  unfolding wants
  read_before-wants want items none h fine = cc
  read_before-wants want items (some f) h fine =
      let same = same_item_refl (bare want) in
      rw
        (
          place_item-items f items,
          any-append (λ x. same_item (bare x) (bare want)) items (f ∷ []),
          h f refl,
          same,
        )
        (ground arith)

  placed-wants :
      (want : Item) (items : List Item)
      → IsFaithful calls
      → (placed want items).error ≡ none
      → wants (placed want items).items want ≡ true
  placed-wants want items faithful fine = elim (Bool-cases (wants items want)) [
    | inl held ↦ rw held held
    | inr new ↦
        rw new (read_before-wants want items (calls.before want) (faithful want) (rw new at fine))
  ]

  -- the parts of a run that ends without an error
  and_then-fine :
      (first : Synced) (next : List Item → Synced)
      → (and_then first next).error ≡ none
      → (first.error ≡ none)
        × ((next first.items).error ≡ none)
        × ((and_then first next).items ≡ (next first.items).items)
  and_then-fine first next fine = elim (Option-cases first.error) [
    | inr (e, bad) ↦ let wrong = rw bad at fine in cc
    | inl clear ↦ (clear, (rw clear at fine), rw clear refl)
  ]

  place_items-AreWanted :
      (wanted l items : List Item)
      → IsFaithful calls
      → every (wants wanted) l ≡ true
      → AreWanted wanted items
      → (place_items calls l items).error ≡ none
      → AreWanted wanted (place_items calls l items).items
  unfolding place_items
  place_items-AreWanted wanted [] items faithful listed h fine = h
  place_items-AreWanted wanted (want ∷ l) items faithful listed h fine =
      let (here, rest) = and_true (wants wanted want) _ listed in
      let (first, next, same) = and_then-fine (placed want items) (place_items calls l) fine in
      rw same (
        place_items-AreWanted wanted l (placed want items).items faithful rest
          (placed-AreWanted wanted want items faithful here h) next)

  place_items-more :
      (t : Item) (l items : List Item)
      → wants items t ≡ true
      → (place_items calls l items).error ≡ none
      → wants (place_items calls l items).items t ≡ true
  unfolding place_items
  place_items-more t [] items h fine = h
  place_items-more t (want ∷ l) items h fine =
      let (first, next, same) = and_then-fine (placed want items) (place_items calls l) fine in
      rw same (place_items-more t l (placed want items).items (placed-more want t items h) next)

  place_items-wants :
      (l items : List Item)
      → IsFaithful calls
      → (place_items calls l items).error ≡ none
      → every (wants (place_items calls l items).items) l ≡ true
  unfolding place_items
  place_items-wants [] items faithful fine = refl
  place_items-wants (want ∷ l) items faithful fine =
      let (first, next, same) = and_then-fine (placed want items) (place_items calls l) fine in
      let more = placed want items in
      let here = place_items-more want l more.items (placed-wants want items faithful first) next in
      let rest = place_items-wants l more.items faithful next in
      subst (λ left. every (wants left) (want ∷ l) ≡ true) (sym same) (rw here rest)

every_self :
    (wanted l : List Item)
    → ((x : Item) → any (same_item x) l ≡ true → wants wanted x ≡ true)
    → every (wants wanted) l ≡ true
every_self wanted [] h = refl
every_self wanted (x ∷ l) h =
    let own = same_item_refl x in
    rw (h x (ground (arith, own)), every_self wanted l (λ y k. h y (ground (arith, k)))) refl

any-wants : (x : Item) (l : List Item) → any (same_item x) l ≡ true → wants l x ≡ true
unfolding wants
any-wants x [] h = h
any-wants x (y ∷ l) h = elim (Bool-cases (same_item x y)) [
  | inl same ↦
      let own = same_item_refl (bare x) in
      let at = subst (λ z. same_item (bare z) (bare x) ≡ true) (same_item-equal x y same) own in
      ground (arith, at)
  | inr other ↦ let rest = any-wants x l (rw other at h) in ground (arith, rest)
]

every-wants : (wanted : List Item) → every (wants wanted) wanted ≡ true
every-wants wanted = every_self wanted wanted (λ x h. any-wants x wanted h)

AreWantedOr-self : (wanted items : List Item) → AreWantedOr wanted items items
AreWantedOr-self wanted items = go items items (λ x h. h)
  where
    go :
        (l part : List Item)
        → ((x : Item) → any (same_item x) part ≡ true → any (same_item x) l ≡ true)
        → AreWantedOr wanted l part
    go l [] h = refl
    go l (x ∷ part) h =
        let own = same_item_refl x in
        let here = h x (ground (arith, own)) in
        let rest = go l part (λ y k. h y (ground (arith, k))) in ground (arith, here, rest)

-- A sync that ends without an error leaves the items of the list in the ledger and no other, each
-- without what `Before` added to it, if `Before` changes only what it adds.
pub sync-matches :
    (calls : Calls) (wanted : List Item) (there : List Bytes) (held : List Item)
    → IsFaithful calls
    → (sync calls wanted there held).error ≡ none
    → (every (wants wanted) (sync calls wanted there held).items ≡ true)
      × (every (wants (sync calls wanted there held).items) wanted ≡ true)
unfolding sync
sync-matches calls wanted there held faithful fine =
    let items = keep (λ item. not (is_gone calls there item)) held in
    elim (Option-cases (check_items calls there items wanted)) [
      | inr (want, bad) ↦ let wrong = rw bad at fine in cc
      | inl clear ↦
          let (removed, placed, same) =
            and_then-fine calls (remove_items calls wanted items items) (place_items calls wanted)
              (rw clear at fine) in
          let kept =
            remove_items-AreWanted calls wanted items items (AreWantedOr-self wanted items)
              removed in
          rw (clear, same)
            (
              place_items-AreWanted calls wanted wanted
                  (remove_items calls wanted items items).items faithful (every-wants wanted) kept
                  placed,
              place_items-wants calls wanted (remove_items calls wanted items items).items faithful
                  placed,
            )
    ]
