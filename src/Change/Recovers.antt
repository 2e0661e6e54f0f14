-- ===== src/Change/Recovers.antt =====
-- recoverPending of internal/cli/change.go, from any point of a change on.
use oku.Base.{Option, subst, sym, Bool, false, inl, inr, none, refl, some, true, ◌≡◌, ◌⊎◌}
use oku.Change.{
  Answers, Lists, Pending, World, enact, failed, forgets, not_forgotten, not_read, recover_from,
  recover_pending, revert,
}
use oku.Change.Reverts.{CanTell, IsBack, IsNoted, IsUndoable, at, done, revert-Holds}
use oku.Change.Steps.{Holds, Holds-weaker, failed-Holds, if-Holds, step-Holds}

-- The change `p` writes the lists `committed`.
module _ (p : Pending) (committed : Lists) where
  -- the change finished, and its file could not be deleted
  abbrev pub IsDone : World → Type 0
  IsDone w = (w.pending ≡ some (done p)) × (w.active ≡ p.to_number) × (w.lists ≡ committed)

  -- nothing is pending, and the change is undone or finished
  abbrev pub IsRecovered : World → Type 0
  IsRecovered w =
      (w.pending ≡ none)
      × (((w.active ≡ p.from_number) × ((w.lists ≡ p.started) ⊎ (w.lists ≡ p.before)))
          ⊎ ((w.active ≡ p.to_number) × (w.lists ≡ committed)))

  abbrev pub IsRecoverable : World → Type 0
  IsRecoverable w = IsNoted p w ⊎ (IsDone w ⊎ IsRecovered w)

  IsRecovered-back : (w : World) → IsBack p w → IsRecovered w
  IsRecovered-back w (gone, active, lists) = (gone, inl (active, inr lists))

  pub IsRecoverable-undoable : (w : World) → IsUndoable p w → IsRecoverable w
  IsRecoverable-undoable w (inl noted) = inl noted
  IsRecoverable-undoable w (inr back) = inr (inr (IsRecovered-back w back))

  module _ (answers : Answers) where
    reverted-Holds :
        (committing : Bool) (w : World)
        → CanTell p committing w
        → IsNoted p w
        → Holds IsRecoverable IsRecovered w (recover_from answers w (some (at p committing)))
    unfolding recover_from
    reverted-Holds committing w tell noted =
        Holds-weaker (IsUndoable p) IsRecoverable (IsBack p) IsRecovered w
          (revert answers (at p committing) w) IsRecoverable-undoable IsRecovered-back
          (revert-Holds p answers committing w tell noted)

    with_pending :
        (w : World) (q : Option Pending)
        → w.pending ≡ q
        → Holds IsRecoverable IsRecovered w (recover_from answers w q)
        → Holds IsRecoverable IsRecovered w (recover_from answers w w.pending)
    with_pending w q e h =
        subst (λ x. Holds IsRecoverable IsRecovered w (recover_from answers w x)) (sym e) h

    recover_from-Holds :
        (w : World)
        → IsRecoverable w
        → Holds IsRecoverable IsRecovered w (recover_from answers w w.pending)
    unfolding recover_from enact
    recover_from-Holds w (inl (inl (early, near))) =
        with_pending w (some (at p false)) early
          (reverted-Holds false w (inr near) (inl (early, near)))
    recover_from-Holds w (inl (inr late)) =
        with_pending w (some (at p true)) late (reverted-Holds true w (inl refl) (inr late))
    recover_from-Holds w (inr (inl (left, active, lists))) =
        let out : IsRecovered (enact forgets w) = (refl, inr (active, lists)) in
        let first : IsRecoverable w = inr (inl (left, active, lists)) in
        with_pending w (some (done p)) left (
          step-Holds IsRecoverable IsRecovered w forgets answers.forget_fails not_forgotten first
            (inr (inr out)) out)
    recover_from-Holds w (inr (inr (gone, rest))) =
        let out : IsRecovered w = (gone, rest) in
        with_pending w none gone (inr (inr out), λ fine. out)

    pub recover_pending-Holds :
        (w : World)
        → IsRecoverable w
        → Holds IsRecoverable IsRecovered w (recover_pending answers w)
    unfolding recover_pending
    recover_pending-Holds w h =
        if-Holds IsRecoverable IsRecovered answers.pending_unread w (failed not_read)
          (recover_from answers w w.pending) (failed-Holds IsRecoverable IsRecovered w not_read h)
          (recover_from-Holds w h)
