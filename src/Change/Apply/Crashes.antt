-- ===== src/Change/Apply/Crashes.antt =====
-- apply of internal/cli/change.go, stopped at any point.
use oku.Base.{
  none, some, subst, sym, run, Bool, Bool-cases, Bytes, List, Option, Option-cases, Throughout,
  Throughout-append, Throughout-run, Throughout-weaker, [], ap, false, inl, inr, is_nil, not, refl,
  some, true, ◌||◌, ◌∷◌, ◌≡◌,
}
use oku.Change.{
  ChangeError, Answers, Change, ChangeError, ListFile, Lists, Pending, Ran, World, activates,
  did_nothing, enact, failed, not_activated, not_noted, not_read, notes, revert, step, text_of,
  then_ran, with_text, writes,
}
use oku.Change.Apply.{
  carry_out, Plan, commit, committed_by, finish, or_undo, place_exposed, switch, undo, write_deeds,
}
use oku.Change.Recovers.{IsRecoverable, IsRecoverable-undoable}
use oku.Change.Reverts.{AreNear, CanTell, IsNoted, IsUndoable, at, done, revert-Holds}
use oku.Change.Steps.{
  Holds-weaker, Holds, failed-Holds, if-Holds, step-Holds, sync_ran-Holds, then_ran-Holds,
}
use oku.Expose.{sync}
use oku.Version.Pick.{note}

abbrev pub committed_lists : List (ListFile × Option Bytes) → Lists → Lists
committed_lists = run (λ (x : ListFile × Option Bytes) lists. with_text x.0 x.1 lists)

module _ (p : Pending) (change : Change) where
  abbrev AtCrash : World → Type 0
  AtCrash = IsRecoverable p (committed_lists change.commit_writes p.started)

  -- the lists are as the change found them
  abbrev IsEarly : World → Type 0
  IsEarly w = (w.pending ≡ some (at p false)) × (w.lists ≡ p.started)

  abbrev IsSwitched : World → Type 0
  IsSwitched w = IsEarly w × (w.active ≡ p.to_number)

  AreNear-started : (lists : Lists) → lists ≡ p.started → AreNear p lists
  AreNear-started lists h file = inl (ap (text_of file) h)

  IsNoted-early : (w : World) → IsEarly w → IsNoted p w
  IsNoted-early w (note, lists) = inl (note, AreNear-started w.lists lists)

  -- the lists are written so far
  abbrev IsWritten : Lists → World → Type 0
  IsWritten lists w = (w.pending ≡ some (at p true)) × (w.lists ≡ lists) × (w.active ≡ p.to_number)

  abbrev AllWritten : World → Type 0
  AllWritten = IsWritten (committed_lists change.commit_writes p.started)

  write_deeds-IsWritten :
      (l : List (ListFile × Option Bytes)) (lists : Lists) (w : World)
      → IsWritten lists w
      → Throughout enact (IsNoted p) w (write_deeds l)
        × IsWritten (committed_lists l lists) (run enact (write_deeds l) w)
  unfolding enact
  write_deeds-IsWritten [] lists w h = (inr h.0, h)
  write_deeds-IsWritten (x ∷ l) lists w h =
      let next : IsWritten (with_text x.0 x.1 lists) (enact (writes x.0 x.1) w) =
        (h.0, ap (with_text x.0 x.1) h.1, h.2) in
      let (all, end) =
        write_deeds-IsWritten l (with_text x.0 x.1 lists) (enact (writes x.0 x.1) w) next in
      ((inr h.0, all), end)

  module _ (answers : Answers) where
    place_exposed-Holds :
        (plan : Plan) (w now : World)
        → IsSwitched now
        → Holds IsEarly IsSwitched now (place_exposed answers p.project plan w)
    unfolding place_exposed enact
    place_exposed-Holds plan w now h =
        if-Holds IsEarly IsSwitched (not (is_nil p.project)) now did_nothing _ (h.0, λ fine. h)
          (if-Holds IsEarly IsSwitched (answers.ledger_unread || answers.handlers_fail) now
            (failed not_read) _ (failed-Holds IsEarly IsSwitched now not_read h.0)
            (sync_ran-Holds IsEarly IsSwitched (λ t k. k.0) (λ a t k. k)
              (sync answers.calls plan.wanted w.exposed.there w.exposed.saved) now h))

    switch-Holds :
        (plan : Plan) (w : World)
        → IsEarly w
        → Holds IsEarly IsSwitched w (switch answers (at p false) plan w)
    unfolding switch enact
    switch-Holds plan w h =
        let first =
          step (activates p.to_number) (answers.activate_fails p.to_number) not_activated in
        then_ran-Holds IsEarly IsSwitched IsSwitched w first
          (place_exposed answers p.project plan w)
          (step-Holds IsEarly IsSwitched w (activates p.to_number)
            (answers.activate_fails p.to_number) not_activated h h (h, refl))
          (place_exposed-Holds plan w (run enact first.deeds w))

    committed_by-Holds :
        (w : World) → IsWritten p.started w → Holds (IsNoted p) AllWritten w (committed_by change)
    committed_by-Holds w h =
        let (all, end) = write_deeds-IsWritten change.commit_writes p.started w h in
        (all, λ fine. end)

    commit-Holds :
        (w : World)
        → IsSwitched w
        → Holds (IsNoted p) AllWritten w (commit answers change (at p false))
    unfolding commit enact
    commit-Holds w h =
        let fails = answers.note_fails (at p true) in
        let first = step (notes (at p true)) fails not_noted in
        then_ran-Holds (IsNoted p) (IsWritten p.started) AllWritten w first (committed_by change)
          (step-Holds (IsNoted p) (IsWritten p.started) w (notes (at p true)) fails not_noted
            (IsNoted-early w h.0) (inr refl) (refl, h.0.1, h.1))
          (committed_by-Holds (run enact first.deeds w))

    finish-Throughout :
        (w : World) → AllWritten w → Throughout enact AtCrash w (finish answers (at p true)).deeds
    unfolding finish enact
    finish-Throughout w h =
        let noted : AtCrash w = inl (inr h.0) in
        elim (Bool-cases answers.forget_fails) [
          | inr gone ↦ rw gone (noted, inr (inr (refl, inr (h.2, h.1))))
          | inl stays ↦ elim (Bool-cases (answers.note_fails (done p))) [
            | inl unwritten ↦ rw (stays, unwritten) noted
            | inr written ↦ rw (stays, written) (noted, inr (inl (refl, h.2, h.1)))
          ]
        ]

    module _ (later : Answers) where
      undo-Throughout :
          (committing : Bool) (w : World) (first : Ran) (e : ChangeError)
          → Throughout enact (IsNoted p) w first.deeds
          → CanTell p committing (run enact first.deeds w)
          → Throughout enact AtCrash w (undo later (at p committing) w first e).deeds
      unfolding undo
      undo-Throughout committing w first e h tell =
          let end = run enact first.deeds w in
          let back = revert later (at p committing) end in
          Throughout-append enact AtCrash w first.deeds back.deeds
            (Throughout-weaker enact (IsNoted p) AtCrash w first.deeds (λ t k. inl k) h)
            (Throughout-weaker enact (IsUndoable p) AtCrash end back.deeds
              (IsRecoverable-undoable p (committed_lists change.commit_writes p.started))
              (revert-Holds p later committing end tell
                (Throughout-run enact (IsNoted p) w first.deeds h)).0)

      or_undo-Throughout :
          (committing : Bool) (w : World) (first : Ran) (next : Ran → Ran)
          → Throughout enact (IsNoted p) w first.deeds
          → CanTell p committing (run enact first.deeds w)
          → (first.error ≡ none → Throughout enact AtCrash w (next first).deeds)
          → Throughout enact AtCrash w (or_undo later (at p committing) w first next).deeds
      or_undo-Throughout committing w first next h tell k =
          let ends : Option ChangeError → Ran =
            λ x. elim x [ some e ↦ undo later (at p committing) w first e | none ↦ next first ] in
          let T = λ (x : Option ChangeError). Throughout enact AtCrash w (ends x).deeds in
          elim (Option-cases first.error) [
            | inr (e, bad) ↦ subst T (sym bad) (undo-Throughout committing w first e h tell)
            | inl fine ↦ subst T (sym fine) (k fine)
          ]

      finished-Throughout :
          (w : World) (all : Ran)
          → Holds (IsNoted p) AllWritten w all
          → Throughout enact AtCrash w
              (or_undo later (at p true) w all (λ r. then_ran r (finish answers (at p true)))).deeds
      finished-Throughout w all h =
          or_undo-Throughout true w all (λ r. then_ran r (finish answers (at p true))) h.0
            (inl refl)
            (λ fine. rw fine (
              Throughout-append enact AtCrash w all.deeds (finish answers (at p true)).deeds
                (Throughout-weaker enact (IsNoted p) AtCrash w all.deeds (λ t k. inl k) h.0)
                (finish-Throughout (run enact all.deeds w) (h.1 fine))))

      pub carry_out-Throughout :
          (plan : Plan) (w : World)
          → IsEarly w
          → Throughout enact AtCrash w (carry_out answers later change (at p false) plan w).deeds
      unfolding carry_out
      carry_out-Throughout plan w h =
          let switched = switch answers (at p false) plan w in
          let holds = switch-Holds plan w h in
          let commits = commit answers change (at p false) in
          let end = run enact switched.deeds w in
          let early = Throughout-run enact IsEarly w switched.deeds holds.0 in
          or_undo-Throughout false w switched
            (λ r.
              or_undo later (at p true) w (then_ran r commits)
                (λ all. then_ran all (finish answers (at p true))))
            (Throughout-weaker enact IsEarly (IsNoted p) w switched.deeds IsNoted-early holds.0)
            (inr (AreNear-started end.lists early.1))
            (λ fine. finished-Throughout w (then_ran switched commits) (
              then_ran-Holds (IsNoted p) IsSwitched AllWritten w switched commits
                (Holds-weaker IsEarly (IsNoted p) IsSwitched IsSwitched w switched IsNoted-early
                  (λ t k. k) holds)
                (commit-Holds end)))
