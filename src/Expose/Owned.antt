-- ===== src/Expose/Owned.antt =====
-- `Ledger.Sync` of internal/expose/expose.go, and what is not oku's.
use oku.Base.{
  Bool, Bool-cases, Bytes, List, Option, Option-cases, [], and_true, any, ap, arith, equal,
  equal_iff, equal_refl, every, every-append, inl, inr, is_nil, keep, none, not, refl, some, true,
  ◌&&◌, ◌||◌, ◌∷◌, ◌≡◌,
}
use oku.Expose.{
  Action, Calls, Item, Synced, after, and_then, bare, check_items, copies_dropped, drops_copy,
  lets_be, removal, is_gone, is_secret, is_seen, is_setting, owns, place_item, place_items, places,
  read_before, remove_items, removes, same_item, saves, sync, unless_in_the_way, wants,
}
use oku.Expose.Known.{same_item-target}
use oku.Profile.Prune.Spec.{keeps}

-- `Before` changes only what it adds
abbrev pub IsFaithful : Calls → Type 0
IsFaithful calls = (want found : Item) → calls.before want ≡ some found → bare found ≡ bare want

any-kept : {A : Type 0} → (p q : A → Bool) (l : List A) → any p (keep q l) ≡ true → any p l ≡ true
any-kept p q [] h = h
any-kept p q (x ∷ l) h = elim (Bool-cases (q x)) [
  | inl kept ↦ elim (Bool-cases (p x)) [
    | inl here ↦ rw here refl
    | inr there ↦ rw there (any-kept p q l (rw (kept, there) at h))
  ]
  | inr dropped ↦ let rest = any-kept p q l (rw dropped at h) in ground (arith, rest)
]

owns-kept :
    (q : Item → Bool) (l : List Item) (t : Bytes) → owns (keep q l) t ≡ true → owns l t ≡ true
unfolding owns
owns-kept q l t h = any-kept (λ (i : Item). equal i.target t) q l h

wants-owns :
    (items : List Item) (want : Item) → wants items want ≡ true → owns items want.target ≡ true
unfolding wants owns bare
wants-owns [] want h = cc
wants-owns (have ∷ l) want h = elim (Bool-cases (same_item (bare have) (bare want))) [
  | inl same ↦
      let target = same_item-target [] (bare have) (bare want) same in
      rw ((equal_iff have.target want.target).1 target) refl
  | inr other ↦ let rest = wants-owns l want (rw other at h) in ground (arith, rest)
]

module _ (calls : Calls) (there : List Bytes) (held : List Item) where
  -- the item's target is oku's, is no path, or is not seen
  unfoldable pub is_free : Item → Bool
  is_free item =
      owns held item.target
      || is_nil item.target
      || is_setting item.kind
      || not (is_seen calls there item.target)

  -- an action leaves alone what the ledger does not hold and what is seen
  unfoldable pub is_allowed : Action → Bool
  is_allowed (saves items) = true
  is_allowed (places item) = is_free item
  is_allowed (removes item) = owns held item.target
  is_allowed (lets_be item) = true
  is_allowed (drops_copy item) = owns held item.target

  abbrev IsAllowed : Synced → Type 0
  IsAllowed s = every is_allowed s.actions ≡ true

  after-IsAllowed :
      (front : List Action) (rest : Synced)
      → every is_allowed front ≡ true
      → IsAllowed rest
      → IsAllowed (after front rest)
  after-IsAllowed front rest h k = rw (every-append is_allowed front rest.actions, h, k) refl

  and_then-IsAllowed :
      (first : Synced) (next : List Item → Synced)
      → IsAllowed first
      → ((items : List Item) → IsAllowed (next items))
      → IsAllowed (and_then first next)
  and_then-IsAllowed first next h k = elim (Option-cases first.error) [
    | inr (e, bad) ↦ rw bad h
    | inl fine ↦ rw fine (after-IsAllowed first.actions (next first.items) h (k first.items))
  ]

  -- a part of the items that the ledger holds
  abbrev IsHeld : List Item → Type 0
  IsHeld items = every (λ (item : Item). owns held item.target) items ≡ true

  removal-is_allowed :
      (have : Item) → owns held have.target ≡ true → is_allowed (removal calls have) ≡ true
  unfolding is_allowed
  removal-is_allowed have own = elim (Bool-cases (calls.is_replaced have)) [
    | inl replaced ↦ rw replaced refl
    | inr ours ↦ rw ours own
  ]

  remove_items-IsAllowed :
      (wanted l items : List Item) → IsHeld l → IsAllowed (remove_items calls wanted l items)
  unfolding remove_items is_allowed
  remove_items-IsAllowed wanted [] items h = refl
  remove_items-IsAllowed wanted (have ∷ l) items h =
      let left = keep (λ item. not (same_item item have)) items in
      let (own, rest) = and_true (owns held have.target) _ h in
      let allowed = removal-is_allowed have own in
      elim (Bool-cases (wants wanted have)) [
        | inl stays ↦ rw stays (remove_items-IsAllowed wanted l items rest)
        | inr goes ↦ elim (Bool-cases (calls.remove_fails have)) [
          | inl stuck ↦ rw (goes, stuck) refl
          | inr removed ↦ elim (Bool-cases (calls.write_fails left)) [
            | inl unwritten ↦ rw (goes, removed, unwritten) (rw allowed refl)
            | inr written ↦
                rw (goes, removed, written) (rw allowed (remove_items-IsAllowed wanted l left rest))
          ]
        ]
      ]

  place_item-IsAllowed :
      (want : Item) (items : List Item)
      → is_free want ≡ true
      → IsAllowed (place_item calls want items)
  unfolding place_item is_allowed
  place_item-IsAllowed want items h = ground (arith, h)

  read_before-IsAllowed :
      (want : Item) (items : List Item) (found : Option Item)
      → ((f : Item) → found ≡ some f → is_free f ≡ true)
      → IsAllowed (read_before calls want items found)
  read_before-IsAllowed want items none h = refl
  read_before-IsAllowed want items (some found) h = place_item-IsAllowed found items (h found refl)

  is_free-bare : (a b : Item) → bare a ≡ bare b → is_free b ≡ true → is_free a ≡ true
  unfolding is_free bare
  is_free-bare a b same h =
      let target : a.target ≡ b.target = ap (λ (i : Item). i.target) same in
      let kind : a.kind ≡ b.kind = ap (λ (i : Item). i.kind) same in rw (target, kind) h

  place_items-IsAllowed :
      (wanted items : List Item)
      → IsFaithful calls
      → every is_free wanted ≡ true
      → IsAllowed (place_items calls wanted items)
  unfolding place_items
  place_items-IsAllowed [] items faithful h = refl
  place_items-IsAllowed (want ∷ l) items faithful h =
      let (free, rest) = and_true (is_free want) (every is_free l) h in
      elim (Bool-cases (wants items want)) [
        | inl there_already ↦ rw there_already (place_items-IsAllowed l items faithful rest)
        | inr new ↦ rw new (
            and_then-IsAllowed (read_before calls want items (calls.before want))
              (place_items calls l)
              (read_before-IsAllowed want items (calls.before want)
                (λ f e. is_free-bare f want (faithful want f e) free))
              (λ more. place_items-IsAllowed l more faithful rest))
      ]

  checked-is_free :
      (q : Item → Bool) (wanted : List Item)
      → check_items calls there (keep q held) wanted ≡ none
      → every is_free wanted ≡ true
  unfolding check_items is_free
  checked-is_free q [] h = refl
  checked-is_free q (want ∷ l) h =
      let items = keep q held in
      elim (Bool-cases (wants items want || is_nil want.target || is_setting want.kind)) [
        | inl skipped ↦
            let rest = checked-is_free q l (rw skipped at h) in
            elim (Bool-cases (wants items want)) [
              | inr not_wanted ↦ ground (arith, rest)
              | inl wanted ↦
                  let own = owns-kept q held want.target (wants-owns items want wanted) in
                  ground (arith, rest, own)
            ]
        | inr looks ↦ elim (Bool-cases (owns items want.target)) [
          | inl own ↦
              let rest = checked-is_free q l (rw (looks, own) at h) in
              let held_own = owns-kept q held want.target own in ground (arith, rest, held_own)
          | inr not_own ↦ elim (Bool-cases (is_seen calls there want.target)) [
            | inl seen ↦ let bad = rw (looks, not_own, seen) at h in cc
            | inr unseen ↦
                let rest = checked-is_free q l (rw (looks, not_own, unseen) at h) in
                ground (arith, rest)
          ]
        ]
      ]

IsHeld-kept :
    (calls : Calls) (there : List Bytes) (held part : List Item) (q : Item → Bool)
    → IsHeld calls there held part
    → IsHeld calls there held (keep q part)
IsHeld-kept calls there held [] q h = h
IsHeld-kept calls there held (x ∷ part) q h =
    let (own, rest) = and_true (owns held x.target) _ h in
    let kept = IsHeld-kept calls there held part q rest in
    elim (Bool-cases (q x)) [ inl keeps ↦ rw (keeps, own) kept | inr drops ↦ rw drops kept ]

IsHeld-grown :
    (calls : Calls) (there : List Bytes) (held part : List Item) (x : Item)
    → IsHeld calls there held part
    → IsHeld calls there (x ∷ held) part
unfolding owns
IsHeld-grown calls there held [] x h = h
IsHeld-grown calls there held (y ∷ part) x h =
    let rest = IsHeld-grown calls there held part x (and_true (owns held y.target) _ h).1 in
    ground (arith, h, rest)

IsHeld-self : (calls : Calls) (there : List Bytes) (held : List Item) → IsHeld calls there held held
unfolding owns
IsHeld-self calls there [] = refl
IsHeld-self calls there (x ∷ l) =
    let rest = IsHeld-grown calls there l l x (IsHeld-self calls there l) in
    rw (equal_refl x.target) rest

copies-IsAllowed :
    (calls : Calls) (there : List Bytes) (held l : List Item)
    → IsHeld calls there held l
    → every (is_allowed calls there held) (copies_dropped calls there l) ≡ true
unfolding copies_dropped is_allowed
copies-IsAllowed calls there held [] h = refl
copies-IsAllowed calls there held (x ∷ l) h =
    let (own, rest) = and_true (owns held x.target) _ h in
    let dropped = copies-IsAllowed calls there held l rest in
    elim (Bool-cases (is_gone calls there x && is_secret x.kind)) [
      | inl gone ↦ rw (gone, own) dropped
      | inr stays ↦ rw stays dropped
    ]

-- A sync removes only what the ledger holds. It places an item only where the ledger has the target,
-- where no other thing is seen there, or where the item has no path. This holds whatever calls
-- fail, if `Before` changes only what it adds.
pub sync-is_allowed :
    (calls : Calls) (wanted : List Item) (there : List Bytes) (held : List Item)
    → IsFaithful calls
    → every (is_allowed calls there held) (sync calls wanted there held).actions ≡ true
unfolding sync
sync-is_allowed calls wanted there held faithful =
    let q = λ (item : Item). not (is_gone calls there item) in
    let items = keep q held in
    let part = IsHeld-kept calls there held held q (IsHeld-self calls there held) in
    after-IsAllowed calls there held (copies_dropped calls there held)
      (unless_in_the_way (check_items calls there items wanted) items
        (and_then (remove_items calls wanted items items) (place_items calls wanted)))
      (copies-IsAllowed calls there held held (IsHeld-self calls there held))
      (elim (Option-cases (check_items calls there items wanted)) [
        | inr (want, bad) ↦ rw bad refl
        | inl clear ↦ rw clear (
            and_then-IsAllowed calls there held (remove_items calls wanted items items)
              (place_items calls wanted)
              (remove_items-IsAllowed calls there held wanted items items part)
              (λ more.
                place_items-IsAllowed calls there held wanted more faithful
                  (checked-is_free calls there held q wanted clear)))
      ])
