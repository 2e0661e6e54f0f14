-- ===== src/Change.antt =====
-- internal/cli/change.go: apply, plan, restoreLists, revert and recoverPending, with planExposed,
-- placeExposed and pendingSystem of internal/cli/expose.go. What a generation exposes, what commit
-- writes and which calls fail are arguments.
pub mod Steps
pub mod Reverts
pub mod Recovers
pub mod Ends
pub mod Apply
use oku.Base.{
  Bool, Bytes, List, Option, [], equal, false, if◌then◌else◌, is_nil, keep, map, none, not,
  same_int, some, true, ℤ, ◌&&◌, ◌++◌, ◌||◌, ◌∷◌,
}
use oku.Expose.{Action, Calls, Item, Machine, SyncError, Synced, act, keep_system, sync}
use oku.List.Env.{fails}

-- oku.toml and oku.lock
pub data ListFile : Type 0 where
  list_file lock_file : ListFile

-- `savedLists`; a file that does not exist has no text
pub record Lists : Type 0 where
  pub list_text : Option Bytes
  pub lock_text : Option Bytes

abbrev pub text_of : ListFile → Lists → Option Bytes
text_of list_file lists = lists.list_text
text_of lock_file lists = lists.lock_text

abbrev pub with_text : ListFile → Option Bytes → Lists → Lists
with_text list_file text lists = record lists { list_text = text }
with_text lock_file text lists = record lists { lock_text = text }

abbrev pub same_text : Option Bytes → Option Bytes → Bool
same_text none none = true
same_text none (some t) = false
same_text (some s) none = false
same_text (some s) (some t) = equal s t

-- `pending`
pub record Pending : Type 0 where
  pub project : Bytes
  pub from_number : ℤ
  pub to_number : ℤ
  pub staged : Bool
  pub elevated : Bool
  pub before : Lists
  pub started : Lists
  pub committing : Bool
  pub finished : Bool

-- what a change reads and writes: the lists, the generation that "current" names, the generations
-- that are there, what is exposed, and the file of the pending change
pub record World : Type 0 where
  pub lists : Lists
  pub active : ℤ
  pub generations : List ℤ
  pub exposed : Machine
  pub pending : Option Pending

-- `change`; `commit` is the texts that it writes, and whether it fails behind them
pub record Change : Type 0 where
  pub to_number : ℤ
  pub staged : Bool
  pub system : Bool
  pub yes : Bool
  pub before : Option Lists
  pub commit_writes : List (ListFile × Option Bytes)
  pub commit_fails : Bool
  pub dry_run : Bool

-- one write to the world
pub data Deed : Type 0 where
  notes : Pending → Deed
  activates : ℤ → Deed
  exposes : Action → Deed
  writes : ListFile → Option Bytes → Deed
  discards : ℤ → Deed
  forgets : Deed

pub data ChangeError : Type 0 where
  not_planned : ChangeError
  not_noted : ChangeError
  not_activated : ChangeError
  not_exposed : SyncError → ChangeError
  not_committed : ChangeError
  not_forgotten : ChangeError
  not_read : ChangeError
  not_restored : ListFile → ChangeError
  not_discarded : ChangeError
  not_put_back : ChangeError → ChangeError → ChangeError

-- the writes of a part of a change, and the error that ends it
pub record Ran : Type 0 where
  pub deeds : List Deed
  pub error : Option ChangeError

-- the answers of the machine: what a generation exposes when all of it can be read, and which calls
-- fail
pub record Answers : Type 0 where
  pub wanted_of : ℤ → Option (List Item)
  pub ledger_unread : Bool
  pub handlers_fail : Bool
  pub is_edited : Bool
  pub extension_on : Bool
  pub agrees : Bool
  pub rewritten_unread : Bool
  pub list_unread : ListFile → Bool
  pub note_fails : Pending → Bool
  pub activate_fails : ℤ → Bool
  pub restore_fails : ListFile → Bool
  pub discard_fails : ℤ → Bool
  pub forget_fails : Bool
  pub pending_unread : Bool
  pub calls : Calls

unfoldable pub enact : Deed → World → World
enact (notes p) w = record w { pending = some p }
enact (activates n) w = record w { active = n }
enact (exposes a) w = record w { exposed = act a w.exposed }
enact (writes file text) w = record w { lists = with_text file text w.lists }
enact (discards n) w = record w { generations = keep (λ m. not (same_int n m)) w.generations }
enact forgets w = record w { pending = none }

abbrev pub did_nothing : Ran
did_nothing = record { deeds = []; error = none }

abbrev pub failed : ChangeError → Ran
failed e = record { deeds = []; error = some e }

-- one call that writes
abbrev pub step : Deed → Bool → ChangeError → Ran
step deed fails e = if fails then failed e else record { deeds = deed ∷ []; error = none }

abbrev pub then_ran : Ran → Ran → Ran
then_ran first next = elim first.error [
  | some e ↦ first
  | none ↦ record next { deeds = first.deeds ++ next.deeds }
]

abbrev pub sync_ran : Synced → Ran
sync_ran s = record {
  deeds = map exposes s.actions;
  error = elim s.error [ none ↦ none | some e ↦ some (not_exposed e) ];
}

module _ (answers : Answers) where
  -- the list holds edits made since the change began
  unfoldable pub is_kept : Pending → World → ListFile → Bool
  is_kept p w file =
      not p.committing && not (same_text (text_of file w.lists) (text_of file p.started))

  -- a round of the loop of `restoreLists`
  unfoldable pub restore_list : Pending → World → ListFile → Ran
  restore_list p w file =
      if answers.list_unread file
      then failed (not_restored file)
      else if is_kept p w file
      then did_nothing
      else step (writes file (text_of file p.before)) (answers.restore_fails file)
          (not_restored file)

  unfoldable pub restore_lists : Pending → World → Ran
  restore_lists p w = then_ran (restore_list p w list_file) (restore_list p w lock_file)

  -- the lists that `restoreLists` returns
  unfoldable pub kept_lists : Pending → World → List ListFile
  kept_lists p w = keep (is_kept p w) (list_file ∷ lock_file ∷ [])

  -- the sync of `revert`
  abbrev pub expose_items : Pending → World → Option (List Item) → Ran
  expose_items p w none = failed not_read
  expose_items p w (some wanted) =
      if answers.ledger_unread || answers.handlers_fail
      then failed not_read
      else sync_ran (
          sync answers.calls (if p.elevated then wanted else keep_system w.exposed.saved wanted)
            w.exposed.there w.exposed.saved)

  -- `revert`
  unfoldable pub revert : Pending → World → Ran
  revert p w = then_ran (restore_lists p w) (
      then_ran (step (activates p.from_number) (answers.activate_fails p.from_number) not_activated)
        (then_ran
          (if is_nil p.project
            then expose_items p w (answers.wanted_of p.from_number)
            else did_nothing)
          (then_ran
            (if p.staged
              then step (discards p.to_number) (answers.discard_fails p.to_number) not_discarded
              else did_nothing)
            (step forgets answers.forget_fails not_forgotten))))

  -- `recoverPending`, with the pending change
  unfoldable pub recover_from : World → Option Pending → Ran
  recover_from w none = did_nothing
  recover_from w (some p) =
      if p.finished then step forgets answers.forget_fails not_forgotten else revert p w

  unfoldable pub recover_pending : World → Ran
  recover_pending w = if answers.pending_unread then failed not_read else recover_from w w.pending
