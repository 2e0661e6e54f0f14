-- ===== src/Change/Apply.antt =====
-- apply and plan of internal/cli/change.go, with planExposed, placeExposed and pendingSystem of
-- internal/cli/expose.go.
pub mod Crashes
pub mod Recovered
use oku.Base.{
  run, Bool, Bytes, List, Option, [], any, false, if◌then◌else◌, is_nil, map, none, not, some, true,
  ◌&&◌, ◌++◌, ◌||◌, ◌∷◌,
}
use oku.Change.{
  Answers, Change, ChangeError, Deed, ListFile, Pending, Ran, World, activates, did_nothing,
  discards, enact, failed, forgets, list_file, lock_file, not_activated, not_committed,
  not_forgotten, not_noted, not_planned, not_put_back, not_read, notes, revert, step, sync_ran,
  then_ran, writes,
}
use oku.Expose.{Item, check_items, keep_system, same_item, sync}
use oku.Profile.Stages.{staged}

-- `exposePlan`
pub record Plan : Type 0 where
  pub wanted : List Item
  pub elevated : Bool

-- `pendingSystem` has a line
unfoldable pub pending_system : List Item → List Item → Bool
pending_system have wanted =
    any (λ (item : Item). item.system && not (any (same_item item) wanted)) have
    || any (λ (item : Item). item.system && not (any (same_item item) have)) wanted

-- the commit of a change
abbrev pub write_deeds : List (ListFile × Option Bytes) → List Deed
write_deeds = map (λ (w : ListFile × Option Bytes). writes w.0 w.1)

abbrev pub committed_by : Change → Ran
committed_by change = record {
  deeds = write_deeds change.commit_writes;
  error = if change.commit_fails then some not_committed else none;
}

-- the pending change that `plan` writes
unfoldable pub planned : Bytes → Change → World → Bool → Pending
planned project change w elevated = record {
  project = project;
  from_number = w.active;
  to_number = change.to_number;
  staged = change.staged;
  elevated = elevated;
  before = elim change.before [ none ↦ w.lists | some lists ↦ lists ];
  started = w.lists;
  committing = false;
  finished = false;
}

module _ (answers : Answers) where
  -- `ledger.Check`
  abbrev pub checked_plan : World → Plan → Option Plan
  checked_plan w plan =
      elim (check_items answers.calls w.exposed.there w.exposed.saved plan.wanted) [
        | none ↦ some plan
        | some bad ↦ none
      ]

  -- whether a change of system scope goes on
  unfoldable pub takes_system : Change → Bool
  takes_system change = change.system && (change.yes || answers.agrees)

  -- `planExposed`
  unfoldable pub plan_exposed : Bytes → Change → World → List Item → Option Plan
  plan_exposed project change w wanted =
      if not (is_nil project)
      then some (record { wanted = []; elevated = false })
      else if answers.ledger_unread || answers.is_edited
      then none
      else if not (pending_system w.exposed.saved wanted)
      then checked_plan w (record { wanted = wanted; elevated = false })
      else if change.system && answers.extension_on
      then none
      else if takes_system change
      then checked_plan w (record { wanted = wanted; elevated = true })
      else checked_plan w (record { wanted = keep_system w.exposed.saved wanted; elevated = false })

  abbrev pub plan_items : Bytes → Change → World → Option (List Item) → Option Plan
  plan_items project change w none = none
  plan_items project change w (some wanted) = plan_exposed project change w wanted

  -- what `plan` reads and checks
  unfoldable pub plan_change : Bytes → Change → World → Option Plan
  plan_change project change w =
      if answers.rewritten_unread || answers.list_unread list_file || answers.list_unread lock_file
      then none
      else plan_items project change w (answers.wanted_of change.to_number)

  -- `placeExposed`
  unfoldable pub place_exposed : Bytes → Plan → World → Ran
  place_exposed project plan w =
      if not (is_nil project)
      then did_nothing
      else if answers.ledger_unread || answers.handlers_fail
      then failed not_read
      else sync_ran (sync answers.calls plan.wanted w.exposed.there w.exposed.saved)

  -- the early return that discards what was staged
  unfoldable pub leave_out : Change → Option ChangeError → Ran
  leave_out change e =
      if not change.staged
      then record { deeds = []; error = e }
      else if answers.discard_fails change.to_number
      then record { deeds = []; error = some not_planned }
      else record { deeds = discards change.to_number ∷ []; error = e }

  -- activating the generation and placing what it exposes
  unfoldable pub switch : Pending → Plan → World → Ran
  switch p plan w =
      then_ran (step (activates p.to_number) (answers.activate_fails p.to_number) not_activated)
        (place_exposed p.project plan w)

  -- noting that the lists are written, and writing them
  unfoldable pub commit : Change → Pending → Ran
  commit change p =
      then_ran
        (step (notes (record p { committing = true }))
          (answers.note_fails (record p { committing = true })) not_noted)
        (committed_by change)

  -- the end of a change that went well
  unfoldable pub finish : Pending → Ran
  finish p =
      if not answers.forget_fails
      then record { deeds = forgets ∷ []; error = none }
      else if answers.note_fails (record p { finished = true })
      then failed not_forgotten
      else record { deeds = notes (record p { finished = true }) ∷ []; error = some not_forgotten }

-- what the caller of `revert` reports
abbrev pub put_back : ChangeError → Option ChangeError → ChangeError
put_back e none = e
put_back e (some undo) = not_put_back e undo

-- the undoing of a change that failed, with `later` for the answers behind the failure
unfoldable pub undo : Answers → Pending → World → Ran → ChangeError → Ran
undo later p w first e =
    let back = revert later p (run enact first.deeds w) in
    record { deeds = first.deeds ++ back.deeds; error = some (put_back e back.error) }

abbrev pub or_undo : Answers → Pending → World → Ran → (Ran → Ran) → Ran
or_undo later p w first next = elim first.error [
  | some e ↦ undo later p w first e
  | none ↦ next first
]

-- the change behind its plan, from the world with the pending change noted
unfoldable pub carry_out : Answers → Answers → Change → Pending → Plan → World → Ran
carry_out answers later change p plan w = or_undo later p w (switch answers p plan w) (λ switched.
    or_undo later (record p { committing = true }) w (then_ran switched (commit answers change p))
      (λ all. then_ran all (finish answers (record p { committing = true }))))

abbrev pub apply_plan : Answers → Answers → Bytes → Change → World → Option Plan → Ran
apply_plan answers later project change w none = leave_out answers change (some not_planned)
apply_plan answers later project change w (some plan) =
    let p = planned project change w plan.elevated in
    if change.dry_run
    then leave_out answers change none
    else if answers.note_fails p
    then leave_out answers change (some not_noted)
    else then_ran (record { deeds = notes p ∷ []; error = none })
        (carry_out answers later change p plan (enact (notes p) w))

-- `apply`
unfoldable pub apply : Answers → Answers → Bytes → Change → World → Ran
apply answers later project change w =
    apply_plan answers later project change w (plan_change answers project change w)
