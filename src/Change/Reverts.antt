-- ===== src/Change/Reverts.antt =====
-- restoreLists, revert and recoverPending of internal/cli/change.go, stopped at any point.
use oku.Base.{
  run, Bool, Bool-cases, Bytes, List, Option, arith, equal_refl, false, if◌then◌else◌, inl, inr,
  is_nil, none, refl, some, subst, sym, true, ◌||◌, ◌∙◌, ◌≡◌, ◌⊎◌,
}
use oku.Change.{
  Answers, ListFile, Lists, Pending, Ran, World, activates, did_nothing, discards, enact,
  expose_items, forgets, is_kept, list_file, lock_file, not_activated, not_discarded, not_forgotten,
  not_read, not_restored, restore_list, restore_lists, revert, same_text, step, text_of, then_ran,
  with_text, writes,
}
use oku.Change.Steps.{Holds, failed-Holds, if-Holds, step-Holds, sync_ran-Holds, then_ran-Holds}
use oku.Expose.{Item, keep_system, sync}

-- the pending change, with whether it began to write the lists
abbrev pub at : Pending → Bool → Pending
at p committing = record p { committing = committing; finished = false }

abbrev pub done : Pending → Pending
done p = record p { committing = true; finished = true }

same_text_refl : (t : Option Bytes) → same_text t t ≡ true
same_text_refl none = refl
same_text_refl (some t) = equal_refl t

module _ (p : Pending) where
  -- a list is as the change found it, or as a revert leaves it
  abbrev pub AreNear : Lists → Type 0
  AreNear lists =
      (file : ListFile)
      → (text_of file lists ≡ text_of file p.started) ⊎ (text_of file lists ≡ text_of file p.before)

  -- the file of the pending change lets a revert put the lists back
  abbrev pub IsNoted : World → Type 0
  IsNoted w = ((w.pending ≡ some (at p false)) × AreNear w.lists) ⊎ (w.pending ≡ some (at p true))

  -- a revert finished
  abbrev pub IsBack : World → Type 0
  IsBack w = (w.pending ≡ none) × (w.active ≡ p.from_number) × (w.lists ≡ p.before)

  abbrev pub IsUndoable : World → Type 0
  IsUndoable w = IsNoted w ⊎ IsBack w

  -- a revert of `at p committing` knows which lists to keep
  abbrev pub CanTell : Bool → World → Type 0
  CanTell committing w = (committing ≡ true) ⊎ AreNear w.lists

  abbrev restored : ListFile → World → World
  restored file w = record w { lists = with_text file (text_of file p.before) w.lists }

  restored_text :
      (file : ListFile) (w : World)
      → text_of file w.lists ≡ text_of file p.before
      → restored file w ≡ w
  restored_text list_file w h = λ i. record w { lists = record w.lists { list_text = sym h i } }
  restored_text lock_file w h = λ i. record w { lists = record w.lists { lock_text = sym h i } }

  AreNear-restored :
      (file : ListFile) (w : World) → AreNear w.lists → AreNear (restored file w).lists
  AreNear-restored list_file w h list_file = inr refl
  AreNear-restored list_file w h lock_file = h lock_file
  AreNear-restored lock_file w h list_file = h list_file
  AreNear-restored lock_file w h lock_file = inr refl

  IsNoted-restored : (file : ListFile) (w : World) → IsNoted w → IsNoted (restored file w)
  IsNoted-restored file w (inl (early, near)) = inl (early, AreNear-restored file w near)
  IsNoted-restored file w (inr late) = inr late

  module _ (answers : Answers) (committing : Bool) where
    kept-before :
        (w : World) (file : ListFile)
        → CanTell committing w
        → is_kept answers (at p committing) w file ≡ true
        → text_of file w.lists ≡ text_of file p.before
    unfolding is_kept
    kept-before w file (inl late) h = absurd (ground (arith, late, h))
    kept-before w file (inr near) h = elim (near file) [
      | inr back ↦ back
      | inl start ↦
          let same =
            subst (λ t. same_text (text_of file w.lists) t ≡ true) start
              (same_text_refl (text_of file w.lists)) in
          absurd (ground (arith, h, same))
    ]

    -- `w` is the world that is read, and `now` the one that is written
    restore_list-Holds :
        (w now : World) (file : ListFile)
        → CanTell committing w
        → text_of file now.lists ≡ text_of file w.lists
        → IsNoted now
        → Holds IsUndoable
            (λ t. t ≡ restored file now)
            now
            (restore_list answers (at p committing) w file)
    unfolding restore_list enact
    restore_list-Holds w now file tell same noted =
        let Q = λ (t : World). t ≡ restored file now in
        elim (Bool-cases (answers.list_unread file)) [
          | inl unread ↦ rw unread (failed-Holds IsUndoable Q now (not_restored file) (inl noted))
          | inr found ↦ elim (Bool-cases (is_kept answers (at p committing) w file)) [
            | inl kept ↦
                let back = restored_text file now (same ∙ kept-before w file tell kept) in
                rw (found, kept) (inl noted, λ fine. sym back)
            | inr written ↦
                rw (found, written)
                  (step-Holds IsUndoable Q now (writes file (text_of file p.before))
                    (answers.restore_fails file) (not_restored file) (inl noted)
                    (inl (IsNoted-restored file now noted)) refl)
          ]
        ]

    -- the lists are back
    abbrev AreBack : World → Type 0
    AreBack w = IsNoted w × (w.lists ≡ p.before)

    restore_lists-Holds :
        (w : World)
        → CanTell committing w
        → IsNoted w
        → Holds IsUndoable AreBack w (restore_lists answers (at p committing) w)
    unfolding restore_lists
    restore_lists-Holds w tell noted =
        let first = restore_list answers (at p committing) w list_file in
        let next = restore_list answers (at p committing) w lock_file in
        then_ran-Holds IsUndoable (λ t. t ≡ restored list_file w) AreBack w first next
          (restore_list-Holds w w list_file tell refl noted)
          (λ same.
            subst (λ t. Holds IsUndoable AreBack t next) (sym same)
              (let noted_list = IsNoted-restored list_file w noted in
                let (all, end) =
                  restore_list-Holds w (restored list_file w) lock_file tell refl noted_list in
                (
                  all,
                  λ fine.
                      subst AreBack (sym (end fine))
                        (IsNoted-restored lock_file (restored list_file w) noted_list, refl),
                )))

    -- the generation is back too
    abbrev AreAllBack : World → Type 0
    AreAllBack w = AreBack w × (w.active ≡ p.from_number)

    expose_items-Holds :
        (w now : World) (wanted : Option (List Item))
        → AreAllBack now
        → Holds IsUndoable AreAllBack now (expose_items answers (at p committing) w wanted)
    unfolding enact
    expose_items-Holds w now none h = failed-Holds IsUndoable AreAllBack now not_read (inl h.0.0)
    expose_items-Holds w now (some wanted) h =
        elim (Bool-cases (answers.ledger_unread || answers.handlers_fail)) [
          | inl unread ↦ rw unread (failed-Holds IsUndoable AreAllBack now not_read (inl h.0.0))
          | inr fine ↦ rw fine (
              sync_ran-Holds IsUndoable AreAllBack (λ t k. inl k.0.0) (λ a t k. k)
                (sync answers.calls
                  (if p.elevated then wanted else keep_system w.exposed.saved wanted)
                  w.exposed.there w.exposed.saved)
                now h)
        ]

    abbrev exposed_again : World → Ran
    exposed_again w =
        if is_nil p.project
        then expose_items answers (at p committing) w (answers.wanted_of p.from_number)
        else did_nothing

    exposed_again-Holds :
        (w now : World) → AreAllBack now → Holds IsUndoable AreAllBack now (exposed_again w)
    exposed_again-Holds w now h =
        if-Holds IsUndoable AreAllBack (is_nil p.project) now
          (expose_items answers (at p committing) w (answers.wanted_of p.from_number)) did_nothing
          (expose_items-Holds w now (answers.wanted_of p.from_number) h) (inl h.0.0, λ fine. h)

    abbrev discarded : Ran
    discarded =
        if p.staged
        then step (discards p.to_number) (answers.discard_fails p.to_number) not_discarded
        else did_nothing

    discarded-Holds : (now : World) → AreAllBack now → Holds IsUndoable AreAllBack now discarded
    unfolding enact
    discarded-Holds now h =
        if-Holds IsUndoable AreAllBack p.staged now
          (step (discards p.to_number) (answers.discard_fails p.to_number) not_discarded)
          did_nothing
          (step-Holds IsUndoable AreAllBack now (discards p.to_number)
            (answers.discard_fails p.to_number) not_discarded (inl h.0.0) (inl h.0.0) h)
          (inl h.0.0, λ fine. h)

    abbrev forgotten : Ran
    forgotten = step forgets answers.forget_fails not_forgotten

    forgotten-Holds : (now : World) → AreAllBack now → Holds IsUndoable IsBack now forgotten
    unfolding enact
    forgotten-Holds now h =
        let back : IsBack (enact forgets now) = (refl, h.1, h.0.1) in
        step-Holds IsUndoable IsBack now forgets answers.forget_fails not_forgotten (inl h.0.0)
          (inr back) back

    activated-Holds :
        (now : World)
        → AreBack now
        → Holds IsUndoable AreAllBack now
            (step (activates p.from_number) (answers.activate_fails p.from_number) not_activated)
    unfolding enact
    activated-Holds now h =
        step-Holds IsUndoable AreAllBack now (activates p.from_number)
          (answers.activate_fails p.from_number) not_activated (inl h.0) (inl h.0) (h, refl)

    pub revert-Holds :
        (w : World)
        → CanTell committing w
        → IsNoted w
        → Holds IsUndoable IsBack w (revert answers (at p committing) w)
    unfolding revert
    revert-Holds w tell noted =
        let activated =
          step (activates p.from_number) (answers.activate_fails p.from_number) not_activated in
        let ends = then_ran discarded forgotten in
        let exposes_again = then_ran (exposed_again w) ends in
        let restores = restore_lists answers (at p committing) w in
        let w1 = run enact restores.deeds w in
        let w2 = run enact activated.deeds w1 in
        let w3 = run enact (exposed_again w).deeds w2 in
        then_ran-Holds IsUndoable AreBack IsBack w restores (then_ran activated exposes_again)
          (restore_lists-Holds w tell noted)
          (λ back.
            then_ran-Holds IsUndoable AreAllBack IsBack w1 activated exposes_again
              (activated-Holds w1 back)
              (λ all.
                then_ran-Holds IsUndoable AreAllBack IsBack w2 (exposed_again w) ends
                  (exposed_again-Holds w w2 all)
                  (λ again.
                    then_ran-Holds IsUndoable AreAllBack IsBack w3 discarded forgotten
                      (discarded-Holds w3 again) (forgotten-Holds (run enact discarded.deeds w3)))))
