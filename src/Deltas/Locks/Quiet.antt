-- ===== src/Deltas/Locks/Quiet.antt =====
-- Packages and deps for which packageDeltas and depDeltas of internal/cli/changes.go have no row.
use oku.Base.{
  Bool, Bool-cases, Bytes, List, Option, [], any, any-sorted, arith, equal, equal_iff, false,
  if◌then◌else◌, inl, inr, none, not, refl, some, sorted, subst, true, ◌||◌, ◌∙◌, ◌∷◌, ◌≡◌,
}
use oku.Deltas.{Delta}
use oku.Deltas.Generations.Silent.{append-nil_both, with_row-nil}
use oku.Deltas.Locks.{
  dep_deltas, dep_gone, dep_row, dep_rows, dep_versions, keys, or_repinned, package_deltas,
  platform_rows, repinned, text_at,
}
use oku.Lock.{Package, pin_of, pinned}

or_repinned-nil :
    (again : Bool) (row : Delta) (rows : List Delta)
    → or_repinned again row rows ≡ []
    → again ≡ false
or_repinned-nil false row rows h = refl
or_repinned-nil true row [] h = cc
or_repinned-nil true row (d ∷ rows) h = cc

-- the first return of `packageDeltas`, or the second one
returns-nil :
    (early again : Bool) (row : Delta) (rows : List Delta)
    → (if early then row ∷ [] else or_repinned again row rows) ≡ []
    → (early ≡ false) × (again ≡ false)
returns-nil true again row rows h = cc
returns-nil false again row rows h = (refl, or_repinned-nil again row rows h)

pub package_deltas-silent :
    (was now : Package)
    → package_deltas was now ≡ []
    → ((pin_of was).ref ≡ (pin_of now).ref)
      × ((pin_of was).version ≡ (pin_of now).version)
      × (repinned (pin_of was) (pin_of now) ≡ false)
unfolding package_deltas
package_deltas-silent (pinned was ds) (pinned now es) h =
    let (early, again) =
      returns-nil (not (equal was.version now.version) || not (equal was.ref now.ref))
        (repinned was now) _
        (platform_rows (pinned was ds) (pinned now es) (sorted (keys now.platforms))) h in
    (
      ground (arith, equal_iff was.ref now.ref),
      ground (arith, equal_iff was.version now.version),
      again,
    )

dep_rows-silent :
    (row : Bytes → Option Bytes → Option Bytes → Option Delta) (before after : List (Bytes × Bytes))
    (refs : List Bytes) (ref : Bytes)
    → dep_rows row before after refs ≡ []
    → any (λ r. equal r ref) refs ≡ true
    → row ref (text_at ref before) (text_at ref after) ≡ none
unfolding dep_rows
dep_rows-silent row before after [] ref h k = cc
dep_rows-silent row before after (r ∷ refs) ref h k =
    let (here, rest) =
      with_row-nil (row r (text_at r before) (text_at r after)) (dep_rows row before after refs)
        h in
    elim (Bool-cases (equal r ref)) [
      | inl e ↦
          subst (λ x. row x (text_at x before) (text_at x after) ≡ none) ((equal_iff r ref).0 e)
            here
      | inr e ↦ dep_rows-silent row before after refs ref rest (rw e at k)
    ]

any-keys :
    (ref : Bytes) (l : List (Bytes × Bytes)) {v : Bytes}
    → text_at ref l ≡ some v
    → any (λ r. equal r ref) (keys l) ≡ true
unfolding text_at
any-keys ref [] h = cc
any-keys ref ((k, v) ∷ l) h = elim (Bool-cases (equal k ref)) [
  | inl e ↦ rw e
  | inr e ↦ rw e (any-keys ref l (rw e at h))
]

agree :
    (name ref : Bytes) (x y : Option Bytes)
    → ((v : Bytes) → x ≡ some v → dep_gone name ref x y ≡ none)
    → ((v : Bytes) → y ≡ some v → dep_row name ref x y ≡ none)
    → x ≡ y
unfolding dep_gone dep_row
agree name ref none none f g = refl
agree name ref (some v) none f g = let e = f v refl in cc
agree name ref none (some w) f g = let e = g w refl in cc
agree name ref (some v) (some w) f g = let e = g w refl in ground (arith, equal_iff v w)

pub dep_deltas-silent :
    (name : Bytes) (old new : List Package)
    → dep_deltas name old new ≡ []
    → (ref : Bytes) → text_at ref (dep_versions old) ≡ text_at ref (dep_versions new)
unfolding dep_deltas
dep_deltas-silent name old new h ref =
    let before = dep_versions old in
    let after = dep_versions new in
    let (no_gone, no_row) =
      append-nil_both (dep_rows (dep_gone name) before after (sorted (keys before)))
        (dep_rows (dep_row name) before after (sorted (keys after))) h in
    agree name ref (text_at ref before) (text_at ref after)
      (λ v e.
        dep_rows-silent (dep_gone name) before after (sorted (keys before)) ref no_gone
          (any-sorted (λ r. equal r ref) (keys before) ∙ any-keys ref before e))
      (λ v e.
        dep_rows-silent (dep_row name) before after (sorted (keys after)) ref no_row
          (any-sorted (λ r. equal r ref) (keys after) ∙ any-keys ref after e))
