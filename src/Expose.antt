-- ===== src/Expose.antt =====
-- internal/expose/expose.go: the ledger of what oku placed outside its own directories, and Check,
-- Leaving, Sync and RemoveAll. The handlers of each OS are parameters.
pub mod Known
pub mod Owned
pub mod Matches
use oku.Base.{
  Bool, Bytes, List, Option, [], any, contains, differ, equal, false, if◌then◌else◌, is_nil, keep,
  none, not, some, true, ℕ, ◌&&◌, ◌++◌, ◌==◌, ◌||◌, ◌∷◌,
}

-- the kinds that `Item.Kind` names
pub data ItemKind : Type 0 where
  app_item font_item service_item file_item secret_item setting_item : ItemKind

-- `Item`
pub record Item : Type 0 where
  pub kind : ItemKind
  pub of_package : Bytes
  pub source : Bytes
  pub target : Bytes
  pub name : Bytes
  pub enabled : Bool
  pub system : Bool
  pub user : Bytes
  pub hash : Bytes
  pub domain : Bytes
  pub key : Bytes
  pub prior : Bytes
  pub had_prior : Bool
  pub dir : ℕ

abbrev pub kind_number : ItemKind → ℕ
kind_number app_item = 0
kind_number font_item = 1
kind_number service_item = 2
kind_number file_item = 3
kind_number secret_item = 4
kind_number setting_item = 5

-- `have == item` on two items
unfoldable pub same_item : Item → Item → Bool
same_item a b =
    kind_number a.kind == kind_number b.kind
    && equal a.of_package b.of_package
    && equal a.source b.source
    && equal a.target b.target
    && equal a.name b.name
    && not (differ a.enabled b.enabled)
    && not (differ a.system b.system)
    && equal a.user b.user
    && equal a.hash b.hash
    && equal a.domain b.domain
    && equal a.key b.key
    && equal a.prior b.prior
    && not (differ a.had_prior b.had_prior)
    && a.dir == b.dir

-- an item without what a handler's `Before` added and without the mode of a directory
unfoldable pub bare : Item → Item
bare item = record item { prior = []; had_prior = false; dir = 0 }

-- `wants`
unfoldable pub wants : List Item → Item → Bool
wants items item = any (λ have. same_item (bare have) (bare item)) items

abbrev pub is_placed_file : ItemKind → Bool
is_placed_file file_item = true
is_placed_file secret_item = true
is_placed_file app_item = false
is_placed_file font_item = false
is_placed_file service_item = false
is_placed_file setting_item = false

abbrev pub is_setting : ItemKind → Bool
is_setting setting_item = true
is_setting file_item = false
is_setting secret_item = false
is_setting app_item = false
is_setting font_item = false
is_setting service_item = false

abbrev pub is_secret : ItemKind → Bool
is_secret secret_item = true
is_secret file_item = false
is_secret setting_item = false
is_secret app_item = false
is_secret font_item = false
is_secret service_item = false

-- the answers of the machine: which targets `Lstat` cannot look at, which calls fail, which
-- targets the user replaced so that `RemoveFile` lets them be, what a failed `Place` leaves there, and
-- what `Before` returns
pub record Calls : Type 0 where
  pub hidden : Bytes → Bool
  pub write_fails : List Item → Bool
  pub remove_fails : Item → Bool
  pub is_replaced : Item → Bool
  pub place_fails : Item → Bool
  pub leaves_part : Item → Bool
  pub before : Item → Option Item

-- the ledger's file and the targets that exist
pub record Machine : Type 0 where
  pub saved : List Item
  pub there : List Bytes

-- what a sync does to the machine, one call after another
pub data Action : Type 0 where
  saves : List Item → Action
  places : Item → Action
  removes : Item → Action
  lets_be : Item → Action
  drops_copy : Item → Action

abbrev pub without : Bytes → List Bytes → List Bytes
without target = keep (λ t. not (equal target t))

unfoldable pub act : Action → Machine → Machine
act (saves items) m = record m { saved = items }
act (places item) m = record m { there = item.target ∷ m.there }
act (removes item) m = record m { there = without item.target m.there }
act (lets_be item) m = m
act (drops_copy item) m = m

pub data SyncError : Type 0 where
  in_the_way : Item → SyncError
  cannot_write : SyncError
  cannot_remove : Item → SyncError
  cannot_read : Item → SyncError
  cannot_place : Item → SyncError

-- what a part of `Sync` did, the ledger's items behind it, and the error that ends it
pub record Synced : Type 0 where
  pub actions : List Action
  pub items : List Item
  pub error : Option SyncError

abbrev pub stops : List Action → List Item → SyncError → Synced
stops actions items e = record { actions = actions; items = items; error = some e }

abbrev pub after : List Action → Synced → Synced
after actions rest = record rest { actions = actions ++ rest.actions }

abbrev pub and_then : Synced → (List Item → Synced) → Synced
and_then first next = elim first.error [
  | some e ↦ first
  | none ↦ after first.actions (next first.items)
]

-- the early return at the error of `Check`
abbrev pub unless_in_the_way : Option Item → List Item → Synced → Synced
unless_in_the_way none items rest = rest
unless_in_the_way (some want) items rest = stops [] items (in_the_way want)

-- another item of the ledger has the target
unfoldable pub owns : List Item → Bytes → Bool
owns items target = any (λ (have : Item). equal have.target target) items

-- `Ledger.Leaving`
unfoldable pub leaving : List Item → List Item → List Item
leaving items wanted = keep (λ (have : Item). not (owns wanted have.target)) items

module _ (calls : Calls) where
  -- `Lstat` finds the target
  unfoldable pub is_seen : List Bytes → Bytes → Bool
  is_seen there target = not (calls.hidden target) && contains there target

  -- `Lstat` says that the target does not exist
  unfoldable pub is_missing : List Bytes → Bytes → Bool
  is_missing there target = not (calls.hidden target) && not (contains there target)

  -- the file or secret of the list that someone deleted
  unfoldable pub is_gone : List Bytes → Item → Bool
  is_gone there item = is_placed_file item.kind && is_missing there item.target

  unfoldable pub copies_dropped : List Bytes → List Item → List Action
  copies_dropped there [] = []
  copies_dropped there (item ∷ l) =
      let rest = copies_dropped there l in
      if is_gone there item && is_secret item.kind then drops_copy item ∷ rest else rest

  -- the loop of `Ledger.Check`: the first wanted target that is there and not oku's
  unfoldable pub check_items : List Bytes → List Item → List Item → Option Item
  check_items there items [] = none
  check_items there items (want ∷ l) =
      let rest = check_items there items l in
      if wants items want || is_nil want.target || is_setting want.kind
      then rest
      else if owns items want.target
      then rest
      else if is_seen there want.target
      then some want
      else rest

  -- the handler's `Remove`
  abbrev pub removal : Item → Action
  removal have = if calls.is_replaced have then lets_be have else removes have

  -- the loop that removes what is no longer wanted, with `Ledger.remove`
  unfoldable pub remove_items : List Item → List Item → List Item → Synced
  remove_items wanted [] items = record { actions = []; items = items; error = none }
  remove_items wanted (have ∷ l) items =
      let left = keep (λ item. not (same_item item have)) items in
      let skipped = remove_items wanted l items in
      let rest = remove_items wanted l left in
      if wants wanted have
      then skipped
      else if calls.remove_fails have
      then stops [] items (cannot_remove have)
      else if calls.write_fails left
      then stops (removal have ∷ []) left cannot_write
      else after (removal have ∷ saves left ∷ []) rest

  -- recording an item and placing it
  unfoldable pub place_item : Item → List Item → Synced
  place_item want items =
      let more = items ++ (want ∷ []) in
      if calls.write_fails more
      then stops [] more cannot_write
      else if calls.place_fails want
      then stops (saves more ∷ (if calls.leaves_part want then places want ∷ [] else [])) more
          (cannot_place want)
      else record { actions = saves more ∷ places want ∷ []; items = more; error = none }

  abbrev pub read_before : Item → List Item → Option Item → Synced
  read_before want items none = stops [] items (cannot_read want)
  read_before want items (some found) = place_item found items

  -- the loop that adds what is wanted
  unfoldable pub place_items : List Item → List Item → Synced
  place_items [] items = record { actions = []; items = items; error = none }
  place_items (want ∷ l) items =
      and_then
        (if wants items want
          then record { actions = []; items = items; error = none }
          else read_before want items (calls.before want))
        (place_items l)

  -- `Ledger.Sync`, with the items that the ledger holds and the targets that exist
  unfoldable pub sync : List Item → List Bytes → List Item → Synced
  sync wanted there held =
      let items = keep (λ item. not (is_gone there item)) held in
      after (copies_dropped there held) (
        unless_in_the_way (check_items there items wanted) items
          (and_then (remove_items wanted items items) (place_items wanted)))

  -- `Ledger.RemoveAll`
  unfoldable pub remove_all : List Bytes → List Item → Synced
  remove_all there held = sync [] there held

-- `keepSystem` of internal/cli/expose.go
unfoldable pub keep_system : List Item → List Item → List Item
keep_system have wanted =
    keep (λ (item : Item). not item.system) wanted ++ keep (λ (item : Item). item.system) have
