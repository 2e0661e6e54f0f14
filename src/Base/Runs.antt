-- ===== src/Base/Runs.antt =====
-- Runs of steps on a state, and what holds at every point of one.
use Prim.Native.Nat.{ℕ, suc, zero}
use mathlib.Core.Path.{◌≡◌, refl}
use mathlib.Core.List.{List, [], ◌∷◌, ◌++◌}

module _ {S A : Type 0} (act : A → S → S) where
  abbrev pub run : List A → S → S
  run [] s = s
  run (a ∷ l) s = run l (act a s)

  -- a property at every point of a run
  abbrev pub Throughout : (S → Type 0) → S → List A → Type 0
  Throughout P s [] = P s
  Throughout P s (a ∷ l) = P s × Throughout P (act a s) l

  pub Throughout-append :
      (P : S → Type 0) (s : S) (front back : List A)
      → Throughout P s front
      → Throughout P (run front s) back
      → Throughout P s (front ++ back)
  Throughout-append P s [] back h k = k
  Throughout-append P s (a ∷ front) back h k = (h.0, Throughout-append P (act a s) front back h.1 k)

  pub run-append : (front back : List A) (s : S) → run (front ++ back) s ≡ run back (run front s)
  run-append [] back s = refl
  run-append (a ∷ front) back s = run-append front back (act a s)

  -- a run that stops after some steps
  abbrev pub stopped : ℕ → List A → S → S
  stopped zero l s = s
  stopped (suc n) [] s = s
  stopped (suc n) (a ∷ l) s = stopped n l (act a s)

  pub Throughout-stopped :
      (P : S → Type 0) (s : S) (l : List A) (n : ℕ) → Throughout P s l → P (stopped n l s)
  Throughout-stopped P s [] zero h = h
  Throughout-stopped P s [] (suc n) h = h
  Throughout-stopped P s (a ∷ l) zero h = h.0
  Throughout-stopped P s (a ∷ l) (suc n) h = Throughout-stopped P (act a s) l n h.1

  pub Throughout-run : (P : S → Type 0) (s : S) (l : List A) → Throughout P s l → P (run l s)
  Throughout-run P s [] h = h
  Throughout-run P s (a ∷ l) h = Throughout-run P (act a s) l h.1

  pub Throughout-weaker :
      (P Q : S → Type 0) (s : S) (l : List A)
      → ((t : S) → P t → Q t)
      → Throughout P s l
      → Throughout Q s l
  Throughout-weaker P Q s [] f h = f s h
  Throughout-weaker P Q s (a ∷ l) f h = (f s h.0, Throughout-weaker P Q (act a s) l f h.1)
