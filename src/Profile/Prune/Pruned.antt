-- ===== src/Profile/Prune/Pruned.antt =====
-- `Prune` deletes the generations that a retention does not keep.
use mathlib.Core.List.{append-nil, append_assoc}
use oku.Base.{
  Bool, Bool-cases, List, Option, [], any, ap, arith, false, if◌then◌else◌, inl, inr, length, ltb,
  negsuc, none, not, pos, refl, some, suc, true, ℕ, ℤ, ◌&&◌, ◌++◌, ◌+◌, ◌<◌, ◌||◌, ◌∙◌, ◌∷◌, ◌≡◌,
  ◌≤◌,
}
use oku.Profile.{Generation, Retention}
use oku.Profile.Prune.{
  PruneError, State, at_least, delete, drop_trees, generation_stays, go_on_at, is_before,
  kept_by_count, kept_by_time, prune, prune_from, then_from, unless_failed, without_dir,
}
use oku.Profile.Prune.Spec.{is_newest, keeps, not_kept, was_active_from, without_dirs}

then_later :
    (r : Retention) (i j a : ℕ) (gens : List Generation)
    → j < a
    → a ≤ i
    → at_least j (then_from r i gens (some a)) ≡ false
unfolding then_from
then_later r i j a [] h k = ground arith
then_later r i j a (gen ∷ gens) h k = elim (Bool-cases (is_before r gen)) [
  | inl e ↦ rw e (then_later r (suc i) j i gens (omega arith) (omega arith))
  | inr e ↦ rw e (then_later r (suc i) j a gens h (omega arith))
]

at_least-then_from :
    (r : Retention) (i j : ℕ) (at : Option ℕ) (gens : List Generation)
    → j < i
    → at_least j at ≡ true
    → at_least j (then_from r i gens at) ≡ not (any (is_before r) gens)
unfolding then_from
at_least-then_from r i j at [] h k = k
at_least-then_from r i j at (gen ∷ gens) h k = elim (Bool-cases (is_before r gen)) [
  | inl e ↦ rw e (then_later r (suc i) j i gens h (omega arith))
  | inr e ↦ rw e (at_least-then_from r (suc i) j at gens (omega arith) k)
]

-- the loop on a list of the numbers to delete
abbrev delete_each : (ℕ → Bool) → Bool → List ℕ → State → State
delete_each stays dry [] s = s
delete_each stays dry (n ∷ ns) s = unless_failed (delete stays dry n s) (delete_each stays dry ns)

kept_by_count-is_newest :
    (k : ℤ) (i : ℕ) (newer : List Generation)
    → kept_by_count k i (i + suc (length newer)) ≡ is_newest k newer
kept_by_count-is_newest (pos k) i newer = ground arith
kept_by_count-is_newest (negsuc k) i newer = refl

is_before-was_active_from :
    (r : Retention) (newer : List Generation)
    → ltb 0 r.since ≡ true
    → not (any (is_before r) newer) ≡ was_active_from r.since newer
is_before-was_active_from r [] h = refl
is_before-was_active_from r (gen ∷ newer) h = ground (arith, is_before-was_active_from r newer)

-- the test in the loop is the one of the specification
kept-keeps :
    (r : Retention) (total i : ℕ) (at : Option ℕ) (gen : Generation) (gens : List Generation)
    → total ≡ i + suc (length gens)
    → at_least i at ≡ true
    → (gen.is_current
        || kept_by_count r.keep_newest i total
        || kept_by_time r i (then_from r (suc i) gens (if is_before r gen then some i else at)))
      ≡ keeps r gen gens
unfolding keeps
kept-keeps r total i at gen gens h k = rw h (
    ground (
      arith,
      kept_by_count-is_newest r.keep_newest i gens,
      is_before-was_active_from r gens,
      at_least-then_from r (suc i) i (if is_before r gen then some i else at) gens,
    ))

later_at :
    (r : Retention) (i : ℕ) (at : Option ℕ) (gen : Generation)
    → at_least i at ≡ true
    → at_least (suc i) (if is_before r gen then some i else at) ≡ true
later_at r i none gen k = ground arith
later_at r i (some a) gen k = ground arith

going : (t : State) (f : State → State) → t.error ≡ none → unless_failed t f ≡ f t
going t f m = ap (λ e. go_on_at e t f) m

settle :
    (t : State) (f g : State → State)
    → (t.error ≡ none → f t ≡ g t)
    → unless_failed t f ≡ unless_failed t g
settle t f g h = same t.error refl
  where
    same : (e : Option PruneError) → t.error ≡ e → go_on_at e t f ≡ go_on_at e t g
    same none k = h k
    same (some e) k = refl

round :
    (stays : ℕ → Bool) (dry : Bool) {b c : Bool} (n : ℕ) (ns : List ℕ) (next_round : State → State)
    (s : State)
    → b ≡ c
    → s.error ≡ none
    → ((t : State) → t.error ≡ none → next_round t ≡ delete_each stays dry ns t)
    → unless_failed (if b then s else delete stays dry n s) next_round
      ≡ delete_each stays dry (if c then ns else n ∷ ns) s
round stays dry {b = true} {c = false} n ns next_round s h m f = cc
round stays dry {b = false} {c = true} n ns next_round s h m f = cc
round stays dry {b = true} {c = true} n ns next_round s h m f = going s next_round m ∙ f s m
round stays dry {b = false} {c = false} n ns next_round s h m f =
    settle (delete stays dry n s) next_round (delete_each stays dry ns) (f (delete stays dry n s))

prune_from-not_kept :
    (stays : ℕ → Bool) (dry : Bool) (r : Retention) (total i : ℕ) (at : Option ℕ)
    (gens : List Generation) (s : State)
    → total ≡ i + length gens
    → at_least i at ≡ true
    → s.error ≡ none
    → prune_from stays dry r total (then_from r i gens at) i gens s
      ≡ delete_each stays dry (not_kept r gens) s
unfolding prune_from not_kept then_from
prune_from-not_kept stays dry r total i at [] s h k m = refl
prune_from-not_kept stays dry r total i at (gen ∷ gens) s h k m =
    let later = if is_before r gen then some i else at in
    round stays dry gen.number (not_kept r gens)
      (prune_from stays dry r total (then_from r (suc i) gens later) (suc i) gens) s
      (kept-keeps r total i at gen gens h k) m
      (λ t e.
        prune_from-not_kept stays dry r total (suc i) later gens t (omega (arith, h))
          (later_at r i at gen k) e)

delete-goes :
    (stays : ℕ → Bool) (n : ℕ) (s : State)
    → stays n ≡ false
    → delete stays false n s
      ≡ record s { dirs = without_dir n s.dirs; removed = s.removed ++ (n ∷ []) }
unfolding delete
delete-goes stays n s h = rw h

delete-stays :
    (stays : ℕ → Bool) (n : ℕ) (s : State)
    → stays n ≡ true
    → delete stays false n s ≡ record s { error = some (generation_stays n) }
unfolding delete
delete-stays stays n s h = rw h

-- a list of numbers that can all be deleted goes first
delete_each-append :
    (stays : ℕ → Bool) (dry : Bool) (front back : List ℕ) (dirs removed : List ℕ)
    → (not dry && any stays front) ≡ false
    → delete_each stays dry
        (front ++ back)
        (record { dirs = dirs; removed = removed; error = none })
      ≡ delete_each stays dry back (record {
        dirs = if dry then dirs else without_dirs front dirs;
        removed = removed ++ front;
        error = none;
      })
unfolding delete
delete_each-append stays true [] back dirs removed h = rw (append-nil removed)
delete_each-append stays false [] back dirs removed h = rw (append-nil removed)
delete_each-append stays true (n ∷ front) back dirs removed h =
    delete_each-append stays true front back dirs (removed ++ (n ∷ [])) h
    ∙ rw (append_assoc removed (n ∷ []) front)
delete_each-append stays false (n ∷ front) back dirs removed h =
    ap (λ t. unless_failed t (delete_each stays false (front ++ back)))
      (delete-goes stays n (record { dirs = dirs; removed = removed; error = none }) (ground arith))
    ∙ delete_each-append stays false front back (without_dir n dirs) (removed ++ (n ∷ []))
        (ground arith)
    ∙ rw (append_assoc removed (n ∷ []) front)

started :
    (stays : ℕ → Bool) (dry : Bool) (r : Retention) (gens : List Generation)
    (dirs front back : List ℕ)
    → not_kept r gens ≡ front ++ back
    → (not dry && any stays front) ≡ false
    → prune_from stays dry r
        (length gens)
        (then_from r 0 gens none)
        0
        gens
        (record { dirs = dirs; removed = []; error = none })
      ≡ delete_each stays dry back (record {
        dirs = if dry then dirs else without_dirs front dirs;
        removed = front;
        error = none;
      })
started stays dry r gens dirs front back h k =
    prune_from-not_kept stays dry r (length gens) 0 none gens
      (record { dirs = dirs; removed = []; error = none }) (omega arith) refl refl
    ∙ rw h (delete_each-append stays dry front back dirs [] k)

-- Where `n` is the first generation to go that cannot be deleted, `prune` stops at it with an error
-- that names it: it reports those before it and takes them out of the directory.
pub prune-generation_stays :
    (stays : ℕ → Bool) (trees_fail : Bool) (r : Retention) (gens : List Generation)
    (dirs front : List ℕ) (n : ℕ) (back : List ℕ)
    → not_kept r gens ≡ front ++ (n ∷ back)
    → any stays front ≡ false
    → stays n ≡ true
    → prune stays false trees_fail r gens dirs ≡ record {
      dirs = without_dirs front dirs;
      removed = front;
      error = some (generation_stays n);
    }
unfolding prune
prune-generation_stays stays trees_fail r gens dirs front n back h k m =
    let s : State = record { dirs = without_dirs front dirs; removed = front; error = none } in
    ap (λ t. unless_failed t (drop_trees stays false trees_fail))
      (started stays false r gens dirs front (n ∷ back) h k
        ∙ ap (λ t. unless_failed t (delete_each stays false back)) (delete-stays stays n s m))
