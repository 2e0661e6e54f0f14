-- ===== src/Change/Steps.antt =====
-- The parts of a change of internal/cli/change.go: what holds at every point of one, and behind one
-- that ends without an error.
use oku.Base.{
  run, Bool, List, Option-cases, Throughout, Throughout-append, Throughout-weaker, [], false,
  if◌then◌else◌, inl, inr, map, none, run-append, true, ◌∷◌, ◌≡◌,
}
use oku.Change.{ChangeError, Deed, Ran, World, enact, exposes, failed, step, sync_ran, then_ran}
use oku.Expose.{Action, Synced}
use oku.Lock.Checks.{weaker}
use oku.Profile.Prune.Spec.{keeps}

-- `I` at every point of a part, and `Q` behind it if it has no error
abbrev pub Holds : (World → Type 0) → (World → Type 0) → World → Ran → Type 0
Holds I Q w r = Throughout enact I w r.deeds × (r.error ≡ none → Q (run enact r.deeds w))

module _ (I : World → Type 0) where
  pub failed-Holds :
      (Q : World → Type 0) (w : World) (e : ChangeError) → I w → Holds I Q w (failed e)
  failed-Holds Q w e h = (h, λ bad. cc)

  pub step-Holds :
      (Q : World → Type 0) (w : World) (deed : Deed) (fails : Bool) (e : ChangeError)
      → I w
      → I (enact deed w)
      → Q (enact deed w)
      → Holds I Q w (step deed fails e)
  step-Holds Q w deed true e h i q = failed-Holds Q w e h
  step-Holds Q w deed false e h i q = ((h, i), λ fine. q)

  pub then_ran-Holds :
      (Q R : World → Type 0) (w : World) (first next : Ran)
      → Holds I Q w first
      → (Q (run enact first.deeds w) → Holds I R (run enact first.deeds w) next)
      → Holds I R w (then_ran first next)
  then_ran-Holds Q R w first next h k = elim (Option-cases first.error) [
    | inr (e, bad) ↦ rw bad (h.0, λ fine. cc)
    | inl fine ↦
        let (all, end) = k (h.1 fine) in
        rw fine (
          Throughout-append enact I w first.deeds next.deeds h.0 all,
          λ none_left. rw (run-append enact first.deeds next.deeds w) (end none_left),
        )
  ]

  -- the actions of a sync keep what does not look at the machine
  pub exposes-Throughout :
      (Q : World → Type 0)
      → ((w : World) → Q w → I w)
      → ((a : Action) (w : World) → Q w → Q (enact (exposes a) w))
      → (actions : List Action) (w : World) → Q w
      → Throughout enact I w (map exposes actions) × Q (run enact (map exposes actions) w)
  exposes-Throughout Q weaker keeps [] w h = (weaker w h, h)
  exposes-Throughout Q weaker keeps (a ∷ l) w h =
      let (all, end) = exposes-Throughout Q weaker keeps l (enact (exposes a) w) (keeps a w h) in
      ((weaker w h, all), end)

  pub sync_ran-Holds :
      (Q : World → Type 0)
      → ((w : World) → Q w → I w)
      → ((a : Action) (w : World) → Q w → Q (enact (exposes a) w))
      → (s : Synced) (w : World) → Q w
      → Holds I Q w (sync_ran s)
  sync_ran-Holds Q weaker keeps s w h =
      let (all, end) = exposes-Throughout Q weaker keeps s.actions w h in (all, λ fine. end)

  pub if-Holds :
      (Q : World → Type 0) (test : Bool) (w : World) (first next : Ran)
      → Holds I Q w first
      → Holds I Q w next
      → Holds I Q w (if test then first else next)
  if-Holds Q true w first next h k = h
  if-Holds Q false w first next h k = k

pub Holds-weaker :
    (I K Q R : World → Type 0) (w : World) (r : Ran)
    → ((t : World) → I t → K t)
    → ((t : World) → Q t → R t)
    → Holds I Q w r
    → Holds K R w r
Holds-weaker I J Q R w r f g h =
    (Throughout-weaker enact I J w r.deeds f h.0, λ fine. g (run enact r.deeds w) (h.1 fine))

pub if-Throughout :
    (I : World → Type 0) (test : Bool) (w : World) (first next : Ran)
    → Throughout enact I w first.deeds
    → Throughout enact I w next.deeds
    → Throughout enact I w (if test then first else next).deeds
if-Throughout I true w first next h k = h
if-Throughout I false w first next h k = k
