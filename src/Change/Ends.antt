-- ===== src/Change/Ends.antt =====
-- recoverPending of internal/cli/change.go when the calls work again.
use oku.Base.{
  run, Bool, Bool-cases, Bytes, List, Option, [], ap, false, if◌then◌else◌, inl, inr, is_nil, keep,
  none, not, refl, same_int, some, subst, sym, true, ◌++◌, ◌∙◌, ◌∷◌, ◌≡◌,
}
use oku.Change.{
  Answers, Deed, ListFile, Pending, Ran, World, activates, did_nothing, discards, enact, forgets,
  is_kept, list_file, lock_file, not_discarded, not_forgotten, recover_from, recover_pending,
  restore_list, restore_lists, revert, same_text, step, text_of, writes,
}

-- the calls of a revert of `p` work
abbrev pub AreWorking : Answers → Pending → Type 0
AreWorking answers p =
    ((file : ListFile) → answers.list_unread file ≡ false)
    × ((file : ListFile) → answers.restore_fails file ≡ false)
    × (answers.activate_fails p.from_number ≡ false)
    × (answers.discard_fails p.to_number ≡ false)
    × (answers.forget_fails ≡ false)
    × (answers.pending_unread ≡ false)

-- the text of a list behind a revert: what the change found, unless it was edited since the change
-- began and the change had not begun to write the lists
abbrev pub settled_text : Pending → World → ListFile → Option Bytes
settled_text p w file =
    if p.committing
    then text_of file p.before
    else if same_text (text_of file w.lists) (text_of file p.started)
    then text_of file p.before
    else text_of file w.lists

-- the world behind a revert that leaves the texts of the lists
abbrev pub reverted : Pending → World → Option Bytes → Option Bytes → World
reverted p w list_text lock_text = record w {
  lists = record { list_text = list_text; lock_text = lock_text };
  active = p.from_number;
  generations =
      if p.staged then keep (λ m. not (same_int p.to_number m)) w.generations else w.generations;
  pending = none;
}

-- the world behind a recovery
abbrev pub settled : Pending → World → World
settled p w =
    if p.finished
    then record w { pending = none }
    else reverted p w (settled_text p w list_file) (settled_text p w lock_file)

-- a part of a change without an error
abbrev fine : List Deed → Ran
fine deeds = record { deeds = deeds; error = none }

abbrev text_or_kept : Bool → Pending → World → ListFile → Option Bytes
text_or_kept kept p w file = if kept then text_of file w.lists else text_of file p.before

abbrev written : Bool → Pending → ListFile → List Deed
written kept p file = if kept then [] else writes file (text_of file p.before) ∷ []

abbrev dropped : Bool → Pending → List Deed
dropped staged p = if staged then discards p.to_number ∷ [] else []

-- the writes of a revert, by what it keeps and whether it drops a generation
abbrev revert_deeds : Bool → Bool → Bool → Pending → List Deed
revert_deeds list_kept lock_kept staged p =
    (written list_kept p list_file ++ written lock_kept p lock_file)
    ++ ((activates p.from_number ∷ []) ++ (dropped staged p ++ (forgets ∷ [])))

-- the world behind the writes of a revert, by what it keeps and whether it drops a generation
run-revert :
    (list_kept lock_kept staged : Bool) (p : Pending) (w : World)
    → run enact (revert_deeds list_kept lock_kept staged p) w ≡ record w {
      lists = record {
        list_text = text_or_kept list_kept p w list_file;
        lock_text = text_or_kept lock_kept p w lock_file;
      };
      active = p.from_number;
      generations =
          if staged then keep (λ m. not (same_int p.to_number m)) w.generations else w.generations;
      pending = none;
    }
unfolding enact
run-revert true true true p w = refl
run-revert true true false p w = refl
run-revert true false true p w = refl
run-revert true false false p w = refl
run-revert false true true p w = refl
run-revert false true false p w = refl
run-revert false false true p w = refl
run-revert false false false p w = refl

forgotten : (w : World) → run enact (forgets ∷ []) w ≡ record w { pending = none }
unfolding enact
forgotten w = refl

module _ (answers : Answers) (p : Pending) (w : World) where
  settled_text-is_kept :
      (file : ListFile) → text_or_kept (is_kept answers p w file) p w file ≡ settled_text p w file
  unfolding is_kept
  settled_text-is_kept file = elim (Bool-cases p.committing) [
    | inl e ↦ rw e refl
    | inr e ↦ elim (Bool-cases (same_text (text_of file w.lists) (text_of file p.started))) [
      | inl same ↦ rw (e, same) refl
      | inr other ↦ rw (e, other) refl
    ]
  ]

  restore_list-fine :
      (file : ListFile)
      → AreWorking answers p
      → restore_list answers p w file ≡ fine (written (is_kept answers p w file) p file)
  unfolding restore_list
  restore_list-fine file works = elim (Bool-cases (is_kept answers p w file)) [
    | inl kept ↦ rw (works.0 file, kept) refl
    | inr other ↦ rw (works.0 file, other, works.1 file) refl
  ]

  discarded-fine :
      AreWorking answers p
      → (if p.staged
          then step (discards p.to_number) (answers.discard_fails p.to_number) not_discarded
          else did_nothing)
        ≡ fine (dropped p.staged p)
  discarded-fine works = elim (Bool-cases p.staged) [
    | inl e ↦ rw (e, works.3) refl
    | inr e ↦ rw e refl
  ]

  revert-fine :
      AreWorking answers p
      → is_nil p.project ≡ false
      → revert answers p w
        ≡ fine (
            revert_deeds (is_kept answers p w list_file) (is_kept answers p w lock_file) p.staged p)
  unfolding revert restore_lists
  revert-fine works project =
      rw
        (
          restore_list-fine list_file works,
          restore_list-fine lock_file works,
          works.2,
          project,
          discarded-fine works,
          works.4,
        )
        refl

  recovers :
      AreWorking answers p
      → w.pending ≡ some p
      → recover_pending answers w ≡ (
          if p.finished
          then step forgets answers.forget_fails not_forgotten
          else revert answers p w)
  unfolding recover_pending recover_from
  recovers works pending = rw (works.5, pending) refl

  -- from the writes of a recovery to the world behind it
  ends_in :
      (deeds : List Deed)
      → recover_pending answers w ≡ fine deeds
      → run enact deeds w ≡ settled p w
      → ((recover_pending answers w).error ≡ none)
        × (run enact (recover_pending answers w).deeds w ≡ settled p w)
  ends_in deeds h k =
      subst (λ (r : Ran). (r.error ≡ none) × (run enact r.deeds w ≡ settled p w)) (sym h) (refl, k)

  -- Once the calls of a revert work, recoverPending ends without an error on every pending change of
  -- a project, and leaves none pending. It only forgets a change that finished. Of any other it makes
  -- the generation from before active, drops the one that the change staged, and puts each list
  -- back, unless it was edited since the change began and the change had not begun to write the
  -- lists. Nothing else changes.
  pub recover_pending-ends :
      AreWorking answers p
      → is_nil p.project ≡ false
      → w.pending ≡ some p
      → ((recover_pending answers w).error ≡ none)
        × (run enact (recover_pending answers w).deeds w ≡ settled p w)
  recover_pending-ends works project pending = elim (Bool-cases p.finished) [
    | inl over ↦
        ends_in (forgets ∷ []) (recovers works pending ∙ rw (over, works.4) refl)
          (rw over (forgotten w))
    | inr unfinished ↦
        ends_in
          (revert_deeds (is_kept answers p w list_file) (is_kept answers p w lock_file) p.staged p)
          (recovers works pending
            ∙ ap
                (λ test.
                  if test
                  then step forgets answers.forget_fails not_forgotten
                  else revert answers p w)
                unfinished
            ∙ revert-fine works project)
          (run-revert (is_kept answers p w list_file) (is_kept answers p w lock_file) p.staged p w
            ∙ ap
                (λ text.
                  reverted p w text (text_or_kept (is_kept answers p w lock_file) p w lock_file))
                (settled_text-is_kept list_file)
            ∙ ap (reverted p w (settled_text p w list_file)) (settled_text-is_kept lock_file)
            ∙ ap
                (λ test.
                  if test
                  then record w { pending = none }
                  else reverted p w (settled_text p w list_file) (settled_text p w lock_file))
                (sym unfinished))
  ]
