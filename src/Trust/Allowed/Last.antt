-- ===== src/Trust/Allowed/Last.antt =====
-- The file holds the last allow of each directory, whichever process set it.
use oku.Base.{
  Bool, Bool-cases, Bytes, List, Option, [], ap, arith, equal, equal_iff, false, find,
  if◌then◌else◌, inl, inr, none, ok, refl, some, subst, ◌&&◌, ◌++◌, ◌∙◌, ◌∷◌, ◌≡◌,
}
use oku.Trust.{Machine, Toml, read, save}
use oku.Trust.Allowed.{Allow, changed, get, set, without}

find-append :
    (f : Allow → Bool) (xs ys : List Allow)
    → find f (xs ++ ys) ≡ elim (find f xs) [ some a ↦ some a | none ↦ find f ys ]
find-append f [] ys = refl
find-append f (x ∷ xs) ys = ground (arith, find-append f xs ys)

get-without_self : (dir : Bytes) (items : List Allow) → get (without dir items) dir ≡ none
unfolding get
get-without_self dir [] = refl
get-without_self dir (x ∷ items) = ground (arith, get-without_self dir items)

get-without_other :
    (dir other : Bytes) (items : List Allow)
    → equal dir other ≡ false
    → get (without dir items) other ≡ get items other
unfolding get
get-without_other dir other [] h = refl
get-without_other dir other (x ∷ items) h = ground (
  arith,
  get-without_other dir other items h,
  equal_iff x.dir dir,
  equal_iff x.dir other,
  equal_iff dir other,
)

-- the allow as it is recorded for a directory
abbrev pub recorded : Bytes → Option Allow → Option Allow
recorded dir none = none
recorded dir (some a) = some (record a { dir = dir })

get_snoc :
    (dir other : Bytes) (a : Allow) (xs : List Allow)
    → get (xs ++ (record a { dir = dir } ∷ [])) other ≡ elim (get xs other) [
      | some b ↦ some b
      | none ↦ if equal dir other then some (record a { dir = dir }) else none
    ]
unfolding get
get_snoc dir other a xs = find-append (λ item. equal item.dir other) xs _

get-changed :
    (dir other : Bytes) (allow : Option Allow) (items : List Allow)
    → get (changed dir allow items) other
      ≡ (if equal dir other then recorded dir allow else get items other)
unfolding changed
get-changed dir other none items = elim (Bool-cases (equal dir other)) [
  | inl e ↦ rw (e, ← (equal_iff dir other).0 e) (get-without_self dir items)
  | inr e ↦ rw e (get-without_other dir other items e)
]
get-changed dir other (some a) items = elim (Bool-cases (equal dir other)) [
  | inl e ↦
      let here : get (without dir items) other ≡ none =
        subst (λ d. get (without dir items) d ≡ none) ((equal_iff dir other).0 e)
          (get-without_self dir items) in
      get_snoc dir other a (without dir items) ∙ rw (here, e)
  | inr e ↦
      get_snoc dir other a (without dir items) ∙ ground (arith, get-without_other dir other items e)
]

-- One call of `Set`: what the machine answers, the items that the process read before, and the
-- change.
pub record Call : Type 0 where
  pub machine : Machine
  pub stale : List Allow
  pub dir : Bytes
  pub allow : Option Allow

-- whether the call reports no error on a file that can be read
abbrev pub succeeds : Call → Bool
succeeds c = c.machine.locks && c.machine.writes

-- the last allow that the calls leave for a directory
abbrev pub last_allow : List Call → Bytes → Option Allow → Option Allow
last_allow [] other before = before
last_allow (c ∷ cs) other before =
    last_allow cs other (if succeeds c && equal c.dir other then recorded c.dir c.allow else before)

module _ (toml : Toml Allow) where
  open toml use {Data, marshal}

  -- the file after calls of any processes, one after another, since each holds the lock
  unfoldable pub run : List Call → Option Data → Option Data
  run [] file = file
  run (c ∷ cs) file = run cs (set toml c.machine c.stale c.dir c.allow file).file

  -- the file reads as items that give each directory this allow
  pub record Gives (file : Option Data) (allows : Bytes → Option Allow) : Type 0 where
    pub items : List Allow
    pub reads : read toml file ≡ ok items
    pub gives : (other : Bytes) → get items other ≡ allows other

  set_file :
      (c : Call) (file : Option Data) (items : List Allow)
      → read toml file ≡ ok items
      → (set toml c.machine c.stale c.dir c.allow file).file
        ≡ (if succeeds c then some (marshal (changed c.dir c.allow items)) else file)
  unfolding set save
  set_file c file items h = ground arith

  read-marshal : (items : List Allow) → read toml (some (marshal items)) ≡ ok items
  unfolding read
  read-marshal items = rw toml.unmarshal-marshal

  set-Gives :
      (c : Call) (file : Option Data) (items : List Allow)
      → read toml file ≡ ok items
      → Gives (set toml c.machine c.stale c.dir c.allow file).file (λ other.
        if succeeds c && equal c.dir other then recorded c.dir c.allow else get items other)
  set-Gives c file items h = elim (Bool-cases (succeeds c)) [
    | inl e ↦ record {
      items = changed c.dir c.allow items;
      reads = rw (set_file c file items h, e) (read-marshal (changed c.dir c.allow items));
      gives = λ other. rw e (get-changed c.dir other c.allow items);
    }
    | inr e ↦ record {
      items = items;
      reads = rw (set_file c file items h, e) h;
      gives = λ other. rw e;
    }
  ]

  -- Whatever items the processes read before, calls of `set` in any order on a file that can be
  -- read leave a file that can be read, and that gives each directory the allow of the last call
  -- for it that took the lock and wrote, and the one it gave before where there was none.
  pub run-last_allow :
      (calls : List Call) (file : Option Data) (items : List Allow)
      → read toml file ≡ ok items
      → Gives (run calls file) (λ other. last_allow calls other (get items other))
  unfolding run
  run-last_allow [] file items h = record { items = items; reads = h; gives = λ other. refl }
  run-last_allow (c ∷ cs) file items h =
      let step = set-Gives c file items h in
      let rest =
        run-last_allow cs (set toml c.machine c.stale c.dir c.allow file).file step.items
          step.reads in
      record {
        items = rest.items;
        reads = rest.reads;
        gives = λ other. rest.gives other ∙ ap (last_allow cs other) (step.gives other);
      }
