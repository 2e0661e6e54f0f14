-- ===== src/Expose/Matches.antt =====
-- `Ledger.Sync` of internal/expose/expose.go, and the items that the list wants.
pub mod Placed
use mathlib.Core.Path.{sym}
use oku.Base.{
  Bool, Bool-cases, Bytes, List, [], any, ap, arith, differ, equal, equal_iff, equal_refl, every,
  every_mono, false, if◌then◌else◌, inl, inr, keep, none, not, refl, subst, true, ℕ, ◌==◌, ◌||◌,
  ◌∷◌, ◌≡◌,
}
use oku.Deltas.Rows.{named}
use oku.Expose.{
  Calls, Item, ItemKind, app_item, bare, file_item, font_item, kind_number, remove_items, same_item,
  secret_item, service_item, setting_item, wants,
}
use oku.Expose.Known.{every-keep}

kind_of : ℕ → ItemKind
kind_of n =
    if n == 0
    then app_item
    else if n == 1
    then font_item
    else if n == 2
    then service_item
    else if n == 3
    then file_item
    else if n == 4
    then secret_item
    else setting_item

kind_of-kind_number : (k : ItemKind) → kind_of (kind_number k) ≡ k
unfolding kind_of
kind_of-kind_number app_item = refl
kind_of-kind_number font_item = refl
kind_of-kind_number service_item = refl
kind_of-kind_number file_item = refl
kind_of-kind_number secret_item = refl
kind_of-kind_number setting_item = refl

same_flag : (a b : Bool) → not (differ a b) ≡ true → a ≡ b
same_flag a b h = ground (arith, h)

pub same_item-equal : (a b : Item) → same_item a b ≡ true → a ≡ b
unfolding same_item
same_item-equal a b h =
    let number : kind_number a.kind ≡ kind_number b.kind = ground arith in
    let kind : a.kind ≡ b.kind =
      rw (kind_of-kind_number a.kind, kind_of-kind_number b.kind) at (ap kind_of number) in
    let text = λ (x y : Bytes) (e : equal x y ≡ true). (equal_iff x y).0 e in
    let owner = text a.of_package b.of_package (ground arith) in
    let source = text a.source b.source (ground arith) in
    let target = text a.target b.target (ground arith) in
    let named = text a.name b.name (ground arith) in
    let user = text a.user b.user (ground arith) in
    let hash = text a.hash b.hash (ground arith) in
    let domain = text a.domain b.domain (ground arith) in
    let key = text a.key b.key (ground arith) in
    let prior = text a.prior b.prior (ground arith) in
    let enabled = same_flag a.enabled b.enabled (ground arith) in
    let system = same_flag a.system b.system (ground arith) in
    let had_prior = same_flag a.had_prior b.had_prior (ground arith) in
    let dir : a.dir ≡ b.dir = ground arith in
    λ i. record {
      kind = kind i;
      of_package = owner i;
      source = source i;
      target = target i;
      name = named i;
      enabled = enabled i;
      system = system i;
      user = user i;
      hash = hash i;
      domain = domain i;
      key = key i;
      prior = prior i;
      had_prior = had_prior i;
      dir = dir i;
    }

pub same_item_refl : (a : Item) → same_item a a ≡ true
unfolding same_item
same_item_refl a =
    let text = equal_refl in
    rw
      (
        text a.of_package,
        text a.source,
        text a.target,
        text a.name,
        text a.user,
        text a.hash,
        text a.domain,
        text a.key,
        text a.prior,
      )
      (ground arith)

pub wants-same : (items : List Item) (a b : Item) → bare a ≡ bare b → wants items a ≡ wants items b
unfolding wants
wants-same items a b h = rw h refl

-- each of the items is in the list, or it is one that the loop has yet to look at
abbrev pub AreWantedOr : List Item → List Item → List Item → Type 0
AreWantedOr wanted l items =
    every (λ item. wants wanted item || any (same_item item) l) items ≡ true

AreWantedOr-skipped :
    (wanted l items : List Item) (have : Item)
    → wants wanted have ≡ true
    → AreWantedOr wanted (have ∷ l) items
    → AreWantedOr wanted l items
AreWantedOr-skipped wanted l items have stays h =
    every_mono (λ item. wants wanted item || any (same_item item) (have ∷ l))
      (λ item. wants wanted item || any (same_item item) l) items
      (λ item k. elim (Bool-cases (same_item item have)) [
        | inl same ↦
            let here =
              subst (λ x. wants wanted x ≡ true) (sym (same_item-equal item have same)) stays in
            ground (arith, here)
        | inr other ↦ ground (arith, k, other)
      ])
      h

AreWantedOr-left :
    (wanted l items : List Item) (have : Item)
    → AreWantedOr wanted (have ∷ l) items
    → AreWantedOr wanted l (keep (λ item. not (same_item item have)) items)
AreWantedOr-left wanted l items have h =
    every-keep [] (λ item. wants wanted item || any (same_item item) l)
      (λ item. not (same_item item have))
      (λ item. wants wanted item || any (same_item item) (have ∷ l)) items
      (λ item q r. ground (arith, q, r)) h

-- the items that the loops leave are in the list
abbrev pub AreWanted : List Item → List Item → Type 0
AreWanted wanted items = every (wants wanted) items ≡ true

module _ (calls : Calls) where
  pub remove_items-AreWanted :
      (wanted l items : List Item)
      → AreWantedOr wanted l items
      → (remove_items calls wanted l items).error ≡ none
      → AreWanted wanted (remove_items calls wanted l items).items
  unfolding remove_items
  remove_items-AreWanted wanted [] items h fine =
      every_mono (λ item. wants wanted item || false) (wants wanted) items
        (λ item k. ground (arith, k)) h
  remove_items-AreWanted wanted (have ∷ l) items h fine =
      let left = keep (λ item. not (same_item item have)) items in
      elim (Bool-cases (wants wanted have)) [
        | inl stays ↦ rw stays (
            remove_items-AreWanted wanted l items (AreWantedOr-skipped wanted l items have stays h)
              (rw stays at fine))
        | inr goes ↦ elim (Bool-cases (calls.remove_fails have)) [
          | inl stuck ↦ let bad = rw (goes, stuck) at fine in cc
          | inr removed ↦ elim (Bool-cases (calls.write_fails left)) [
            | inl unwritten ↦ let bad = rw (goes, removed, unwritten) at fine in cc
            | inr written ↦
                rw (goes, removed, written)
                  (remove_items-AreWanted wanted l left (AreWantedOr-left wanted l items have h)
                    (rw (goes, removed, written) at fine))
          ]
        ]
      ]
