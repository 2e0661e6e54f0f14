-- ===== src/Tests/ChangeTests.antt =====
-- Tests of a change that stops, and of the recovery behind it.
use Prim.Native.String.{String}
use oku.Base.{
  List, Option, [], codes, equal, false, none, pos, refl, run, some, stopped, true, zero, suc, ℤ, ℕ,
  ◌∷◌, ◌≡◌,
}
use oku.Change.{
  Answers, Change, Lists, Pending, World, activates, enact, exposes, forgets, is_kept, kept_lists,
  list_file, lock_file, not_committed, notes, recover_from, recover_pending, restore_list,
  restore_lists, revert, writes,
}
use oku.Change.Apply.{
  apply, carry_out, commit, finish, leave_out, pending_system, plan_change, plan_exposed, planned,
  place_exposed, switch, takes_system, undo,
}
use oku.Change.Ends.{AreWorking, recover_pending-ends, settled}
use oku.Change.Apply.Recovered.{attempt, recover_pending-IsSettled, IsSettled}
use oku.Expose.{
  act, Calls, Item, bare, check_items, copies_dropped, file_item, is_gone, is_missing, is_seen,
  keep_system, owns, place_item, place_items, places, remove_items, same_item, saves, sync, wants,
}

abbrev calm_calls : Calls
calm_calls = record {
  hidden = λ t. false;
  write_fails = λ items. false;
  remove_fails = λ item. false;
  is_replaced = λ item. false;
  place_fails = λ item. false;
  leaves_part = λ item. false;
  before = λ item. some item;
}

abbrev dotfile : String → Item
dotfile target = record {
  kind = file_item;
  of_package = [];
  source = codes "/store/x";
  target = codes target;
  name = [];
  enabled = false;
  system = false;
  user = [];
  hash = [];
  domain = [];
  key = [];
  prior = [];
  had_prior = false;
  dir = 0;
}

-- generation 2 exposes a file and the others nothing
abbrev items_of : ℤ → Option (List Item)
items_of (pos (suc (suc zero))) = some (dotfile "a" ∷ [])
items_of _ = some []

abbrev calm_answers : Answers
calm_answers = record {
  wanted_of = items_of;
  ledger_unread = false;
  handlers_fail = false;
  is_edited = false;
  extension_on = false;
  agrees = false;
  rewritten_unread = false;
  list_unread = λ file. false;
  note_fails = λ p. false;
  activate_fails = λ n. false;
  restore_fails = λ file. false;
  discard_fails = λ n. false;
  forget_fails = false;
  pending_unread = false;
  calls = calm_calls;
}

abbrev from_lists : Lists
from_lists = record { list_text = some (codes "old"); lock_text = none }

abbrev start_world : World
start_world = record {
  lists = from_lists;
  active = pos 1;
  generations = pos 1 ∷ pos 2 ∷ [];
  exposed = record { saved = []; there = [] };
  pending = none;
}

abbrev to_second : Change
to_second = record {
  to_number = pos 2;
  staged = true;
  system = false;
  yes = false;
  before = none;
  commit_writes = (list_file, some (codes "new")) ∷ (lock_file, some (codes "pins")) ∷ [];
  commit_fails = false;
  dry_run = false;
}

abbrev early : Pending
early = record {
  project = [];
  from_number = pos 1;
  to_number = pos 2;
  staged = true;
  elevated = false;
  before = from_lists;
  started = from_lists;
  committing = false;
  finished = false;
}

apply-deeds : apply calm_answers calm_answers [] to_second start_world ≡ record {
  deeds =
      notes early
      ∷ activates (pos 2)
      ∷ exposes (saves (dotfile "a" ∷ []))
      ∷ exposes (places (dotfile "a"))
      ∷ notes (record early { committing = true })
      ∷ writes list_file (some (codes "new"))
      ∷ writes lock_file (some (codes "pins"))
      ∷ forgets
      ∷ [];
  error = none;
}
unfolding apply plan_change plan_exposed planned pending_system carry_out switch place_exposed
    commit finish sync wants owns check_items remove_items place_items place_item bare same_item
    equal is_gone is_missing is_seen copies_dropped enact
apply-deeds = refl

-- a commit that fails behind its writes is undone
abbrev failing : Change
failing = record to_second { commit_fails = true }

apply-undone : (apply calm_answers calm_answers [] failing start_world).error ≡ some not_committed
unfolding apply plan_change plan_exposed planned pending_system carry_out switch place_exposed
    commit finish undo revert restore_lists restore_list is_kept sync wants owns check_items
    remove_items place_items place_item bare same_item equal is_gone is_missing is_seen
    copies_dropped enact act keep_system leave_out takes_system
apply-undone = refl

-- the world behind a crash between the two lists
abbrev halfway : World
halfway =
    stopped enact 6 (apply calm_answers calm_answers [] to_second start_world).deeds start_world

-- a recovery that stops behind one write
abbrev tries : List (Answers × ℕ)
tries = (calm_answers, 1) ∷ []

recover_pending-fine : (recover_pending calm_answers (run attempt tries halfway)).error ≡ none
unfolding recover_pending recover_from apply plan_change plan_exposed planned pending_system
    carry_out switch place_exposed commit finish undo revert restore_lists restore_list is_kept sync
    wants owns check_items remove_items place_items place_item bare same_item equal is_gone
    is_missing is_seen copies_dropped enact act keep_system leave_out takes_system
recover_pending-fine = refl

-- a list that the user edited before the change began to write it is kept
kept_lists-edited :
    kept_lists calm_answers early
      (record start_world { lists = record from_lists { list_text = some (codes "mine") } })
    ≡ list_file ∷ []
unfolding kept_lists is_kept equal
kept_lists-edited = refl

recover_pending-IsSettled_example : IsSettled to_second start_world (
    run enact
      (recover_pending calm_answers (run attempt tries halfway)).deeds
      (run attempt tries halfway))
recover_pending-IsSettled_example =
    recover_pending-IsSettled calm_answers calm_answers [] to_second start_world 6 tries
      calm_answers refl recover_pending-fine

-- a change of a project's list that stopped before it wrote the lists
abbrev project_change : Pending
project_change = record early { project = codes "/home/me/app" }

calm-AreWorking : AreWorking calm_answers project_change
calm-AreWorking = (λ file. refl, λ file. refl, refl, refl, refl, refl)

abbrev pending_world : World
pending_world = record start_world { pending = some project_change }

recover_pending-ends_example :
    ((recover_pending calm_answers pending_world).error ≡ none)
    × (run enact (recover_pending calm_answers pending_world).deeds pending_world
        ≡ settled project_change pending_world)
recover_pending-ends_example =
    recover_pending-ends calm_answers project_change pending_world calm-AreWorking refl refl
