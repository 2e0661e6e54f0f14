-- ===== src/Deltas.antt =====
-- internal/cli/changes.go: what differs between two generations and between two locks.
pub mod Rows
pub mod Generations
pub mod Locks
use oku.Base.{Bool, Bytes, List, Option, [], find, none, some, ◌∷◌}

-- the kinds of a `delta`; for JSON they are the words "package", "dep", "file", "setting" and "list"
pub data Kind : Type 0 where
  kind_package kind_dep kind_file kind_setting kind_list : Kind

-- `wasAdded`, `wasRemoved` and `wasChanged`
pub data Change : Type 0 where
  was_added was_removed was_changed : Change

-- `delta`
pub record Delta : Type 0 where
  pub kind : Kind
  pub name : Bytes
  pub change : Change
  pub before : Bytes
  pub after : Bytes
  pub note : Bytes

-- a delta with the fields that its literal names
abbrev pub delta_of : Kind → Bytes → Change → Delta
delta_of kind name change = record {
  kind = kind;
  name = name;
  change = change;
  before = [];
  after = [];
  note = [];
}

abbrev pub with_row : Option Delta → List Delta → List Delta
with_row none rows = rows
with_row (some d) rows = d ∷ rows

module _ {A : Type 0} (same : A → A → Bool) where
  abbrev pub row_if_gone : Delta → Option A → List Delta → List Delta
  row_if_gone gone none rows = gone ∷ rows
  row_if_gone gone (some b) rows = rows

  -- the loop over the items of `from`, which reports those that `to` lacks
  unfoldable pub removed_rows : (A → Delta) → List A → List A → List Delta
  removed_rows gone [] new = []
  removed_rows gone (a ∷ old) new =
      row_if_gone (gone a) (find (same a) new) (removed_rows gone old new)

  -- the loop over the items of `to`, with the item of `from` that is found for each
  unfoldable pub changed_rows : (Option A → A → Option Delta) → List A → List A → List Delta
  changed_rows row old [] = []
  changed_rows row old (b ∷ new) = with_row (row (find (same b) old) b) (changed_rows row old new)
