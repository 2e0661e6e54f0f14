-- ===== src/Change/Apply/Recovered.antt =====
-- apply and recoverPending of internal/cli/change.go: a change that stops at any point, and the
-- recoveries behind it.
use oku.Base.{
  not, run, Bool, Bytes, List, Option, Option-cases, Throughout, Throughout-stopped,
  Throughout-weaker, [], false, inl, inr, none, refl, some, stopped, ℕ, ◌∷◌, ◌≡◌, ◌⊎◌,
}
use oku.Change.{
  Answers, Change, ChangeError, Lists, World, enact, not_noted, not_planned, notes, recover_pending,
}
use oku.Change.Steps.{if-Throughout}
use oku.Change.Apply.{Plan, apply, apply_plan, carry_out, leave_out, plan_change, planned}
use oku.Change.Apply.Crashes.{carry_out-Throughout, committed_lists}
use oku.Change.Recovers.{IsRecoverable, recover_pending-Holds}

-- a recovery that stops after some writes
abbrev pub attempt : Answers × ℕ → World → World
attempt try w = stopped enact try.1 (recover_pending try.0 w).deeds w

-- the lists that a revert puts back
abbrev pub lists_before : Change → World → Lists
lists_before change w = elim change.before [ none ↦ w.lists | some lists ↦ lists ]

-- nothing is pending, and the change of `w` is undone or finished
abbrev pub IsSettled : Change → World → World → Type 0
IsSettled change w end =
    (end.pending ≡ none)
    × (((end.active ≡ w.active) × ((end.lists ≡ w.lists) ⊎ (end.lists ≡ lists_before change w)))
        ⊎ ((end.active ≡ change.to_number)
            × (end.lists ≡ committed_lists change.commit_writes w.lists)))

module _ (answers later : Answers) (project : Bytes) (change : Change) where
  abbrev IsCrashed : World → World → Type 0
  IsCrashed w t =
      (elevated : Bool) × IsRecoverable (planned project change w elevated)
        (committed_lists change.commit_writes w.lists) t

  IsCrashed-start : (w : World) → w.pending ≡ none → IsCrashed w w
  unfolding planned
  IsCrashed-start w h = (false, inr (inr (h, inl (refl, inl refl))))

  leave_out-Throughout :
      (w : World) (e : Option ChangeError)
      → w.pending ≡ none
      → Throughout enact (IsCrashed w) w (leave_out answers change e).deeds
  unfolding leave_out enact planned
  leave_out-Throughout w e h =
      let I = IsCrashed w in
      let start = IsCrashed-start w h in
      let n = change.to_number in
      if-Throughout I (not change.staged) w _ _ start (
        if-Throughout I (answers.discard_fails n) w _ _ start
          (start, (false, inr (inr (h, inl (refl, inl refl))))))

  planned-Throughout :
      (plan : Plan) (w : World)
      → w.pending ≡ none
      → Throughout enact
          (IsCrashed w)
          w
          (apply_plan answers later project change w (some plan)).deeds
  unfolding planned enact
  planned-Throughout plan w h =
      let p = planned project change w plan.elevated in
      let next = enact (notes p) w in
      if-Throughout (IsCrashed w) change.dry_run w _ _ (leave_out-Throughout w none h) (
        if-Throughout (IsCrashed w) (answers.note_fails p) w _ _
          (leave_out-Throughout w (some not_noted) h)
          (
            IsCrashed-start w h,
            Throughout-weaker enact (IsRecoverable p (committed_lists change.commit_writes w.lists))
                (IsCrashed w) next (carry_out answers later change p plan next).deeds
                (λ t k. (plan.elevated, k))
                (carry_out-Throughout p change answers later plan next (refl, refl)),
          ))

  apply-Throughout :
      (w : World)
      → w.pending ≡ none
      → Throughout enact (IsCrashed w) w (apply answers later project change w).deeds
  unfolding apply
  apply-Throughout w h = elim (Option-cases (plan_change answers project change w)) [
    | inl nothing ↦ rw nothing (leave_out-Throughout w (some not_planned) h)
    | inr (plan, found) ↦ rw found (planned-Throughout plan w h)
  ]

  attempts-IsCrashed :
      (w t : World) (tries : List (Answers × ℕ)) → IsCrashed w t → IsCrashed w (run attempt tries t)
  attempts-IsCrashed w t [] h = h
  attempts-IsCrashed w t (try ∷ l) (elevated, h) =
      let p = planned project change w elevated in
      let c = committed_lists change.commit_writes w.lists in
      let r = recover_pending try.0 t in
      attempts-IsCrashed w (attempt try t) l (
        elevated,
        Throughout-stopped enact (IsRecoverable p c) t r.deeds try.1
            (recover_pending-Holds p c try.0 t h).0,
      )

-- Wherever a change stops, and however often a recovery behind it stops, the next recovery without
-- an error leaves no pending change. Then either the generation of before the change is active and
-- the lists are those of before it, or the new generation is active and the lists are the ones
-- that it commits. This holds whatever calls fail on the way, if nothing was pending before and
-- nothing but oku writes the lists.
pub recover_pending-IsSettled :
    (answers later : Answers) (project : Bytes) (change : Change) (w : World) (n : ℕ)
    (tries : List (Answers × ℕ)) (last : Answers)
    → w.pending ≡ none
    → (recover_pending last
        (run attempt tries (stopped enact n (apply answers later project change w).deeds w))).error
      ≡ none
    → IsSettled change w (
        run enact
          (recover_pending last (
            run attempt tries
              (stopped enact n (apply answers later project change w).deeds w))).deeds
          (run attempt tries (stopped enact n (apply answers later project change w).deeds w)))
unfolding planned
recover_pending-IsSettled answers later project change w n tries last h fine =
    let deeds = (apply answers later project change w).deeds in
    let first = stopped enact n deeds w in
    let (elevated, crashed) = attempts-IsCrashed answers later project change w first tries (
      Throughout-stopped enact (IsCrashed answers later project change w) w deeds n
        (apply-Throughout answers later project change w h)) in
    (recover_pending-Holds (planned project change w elevated)
        (committed_lists change.commit_writes w.lists) last (run attempt tries first) crashed).1
      fine
