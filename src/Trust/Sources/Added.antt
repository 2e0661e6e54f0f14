-- ===== src/Trust/Sources/Added.antt =====
-- What `Sources.Add` and `Approvals.Add` record.
use mathlib.Core.List.{append-nil, append_assoc}
-- no origin stands twice, and none is empty
use oku.Base.{
  ==_iff, Bool, Bool-cases, Bytes, List, Option, [], any-append, ap, arith, contains, equal,
  equal_iff, false, if◌then◌else◌, inl, inr, is_nil, length, length-append, not, ok, refl, subst,
  sym, true, ℕ, ◌&&◌, ◌++◌, ◌+◌, ◌==◌, ◌||◌, ◌∙◌, ◌∷◌, ◌≡◌,
}
use oku.Trust.{Machine, Toml, read, read-save}
use oku.Trust.Sources.{Source, add_each, add_origins, has_origin}

abbrev pub IsDistinct : List Source → Type 0
IsDistinct [] = Unit
IsDistinct (s ∷ items) =
    (is_nil s.origin ≡ false) × (has_origin items s.origin ≡ false) × IsDistinct items

has_origin-append :
    (xs ys : List Source) (o : Bytes)
    → has_origin (xs ++ ys) o ≡ (has_origin xs o || has_origin ys o)
unfolding has_origin
has_origin-append xs ys o = any-append (λ item. equal item.origin o) xs ys

abbrev one_source : ℕ → Bytes → Source
one_source now origin = record { origin = origin; trusted_at = now }

has_origin_one :
    (now : ℕ) (origin o : Bytes) → has_origin (one_source now origin ∷ []) o ≡ equal origin o
unfolding has_origin
has_origin_one now origin o = ground arith

IsDistinct-snoc :
    (items : List Source) (now : ℕ) (origin : Bytes)
    → IsDistinct items
    → is_nil origin ≡ false
    → has_origin items origin ≡ false
    → IsDistinct (items ++ (one_source now origin ∷ []))
unfolding has_origin
IsDistinct-snoc [] now origin d h k = (h, refl, tt)
IsDistinct-snoc (s ∷ items) now origin d h k = (
  d.0,
  has_origin-append items (one_source now origin ∷ []) s.origin
      ∙ ground (arith, equal_iff origin s.origin, equal_iff s.origin origin),
  IsDistinct-snoc items now origin d.2 h (ground arith),
)

-- one round of the loop
abbrev pub added_one : ℕ → Bytes → List Source → List Source
added_one now origin items =
    if not (is_nil origin) && not (has_origin items origin)
    then items ++ (one_source now origin ∷ [])
    else items

added_one-IsDistinct :
    (now : ℕ) (origin : Bytes) (items : List Source)
    → IsDistinct items
    → IsDistinct (added_one now origin items)
added_one-IsDistinct now origin items d =
    elim (Bool-cases (not (is_nil origin) && not (has_origin items origin))) [
      | inl e ↦ rw e (IsDistinct-snoc items now origin d (ground arith) (ground arith))
      | inr e ↦ rw e d
    ]

added_one-has_origin :
    (now : ℕ) (origin : Bytes) (items : List Source) (o : Bytes)
    → has_origin (added_one now origin items) o
      ≡ (has_origin items o || not (is_nil o) && equal origin o)
added_one-has_origin now origin items o =
    elim (Bool-cases (not (is_nil origin) && not (has_origin items origin))) [
      | inl e ↦
          rw
            (e, has_origin-append items (one_source now origin ∷ []) o, has_origin_one now origin o)
            (elim (Bool-cases (equal origin o)) [
              | inl same ↦
                  let full : is_nil o ≡ false =
                    subst (λ x. is_nil x ≡ false) ((equal_iff origin o).0 same) (ground arith) in
                  ground arith
              | inr other ↦ ground arith
            ])
      | inr e ↦ rw e (elim (Bool-cases (equal origin o)) [
        | inl same ↦
            let in_or_empty : (has_origin items o || is_nil o) ≡ true =
              subst (λ x. (has_origin items x || is_nil x) ≡ true) ((equal_iff origin o).0 same)
                (ground arith) in
            ground arith
        | inr other ↦ ground arith
      ])
    ]

add_each-has_origin :
    (now : ℕ) (origins : List Bytes) (items : List Source) (o : Bytes)
    → has_origin (add_each now origins items) o
      ≡ (has_origin items o || not (is_nil o) && contains origins o)
unfolding add_each
add_each-has_origin now [] items o = ground arith
add_each-has_origin now (x ∷ origins) items o =
    add_each-has_origin now origins (added_one now x items) o
    ∙ ground (arith, added_one-has_origin now x items o)

add_each-IsDistinct :
    (now : ℕ) (origins : List Bytes) (items : List Source)
    → IsDistinct items
    → IsDistinct (add_each now origins items)
unfolding add_each
add_each-IsDistinct now [] items d = d
add_each-IsDistinct now (x ∷ origins) items d =
    add_each-IsDistinct now origins (added_one now x items) (added_one-IsDistinct now x items d)

add_each_extends :
    (now : ℕ) (origins : List Bytes) (items : List Source)
    → (more : List Source) × (add_each now origins items ≡ items ++ more)
unfolding add_each
add_each_extends now [] items = ([], sym (append-nil items))
add_each_extends now (x ∷ origins) items =
    let (first, e) = added_one_extends now x items in
    let (more, f) = add_each_extends now origins (added_one now x items) in
    (first ++ more, f ∙ ap (λ l. l ++ more) e ∙ append_assoc items first more)
  where
    added_one_extends :
        (now : ℕ) (origin : Bytes) (items : List Source)
        → (more : List Source) × (added_one now origin items ≡ items ++ more)
    added_one_extends now origin items =
        elim (Bool-cases (not (is_nil origin) && not (has_origin items origin))) [
          | inl e ↦ (one_source now origin ∷ [], rw e)
          | inr e ↦ ([], rw e (sym (append-nil items)))
        ]

add_each_same :
    (now : ℕ) (origins : List Bytes) (items : List Source)
    → (length (add_each now origins items) == length items) ≡ true
    → add_each now origins items ≡ items
add_each_same now origins items h =
    let (more, e) = add_each_extends now origins items in
    e ∙ none_more more (ap length e ∙ length-append items more)
  where
    none_more :
        (more : List Source)
        → length (add_each now origins items) ≡ length items + length more
        → items ++ more ≡ items
    none_more [] k = append-nil items
    none_more (s ∷ more) k = absurd (omega (arith, (==_iff _ (length items)).0 h))

module _ (toml : Toml Source) where
  open toml use {Data, marshal}

  -- the file reads as distinct origins, which are the listed ones and these
  pub record Trusts (file : Option Data) (trusted : Bytes → Bool) : Type 0 where
    pub items : List Source
    pub reads : read toml file ≡ ok items
    pub distinct : IsDistinct items
    pub trusts : (o : Bytes) → has_origin items o ≡ trusted o

  add_origins_file :
      (machine : Machine) (now : ℕ) (origins : List Bytes) (items : List Source)
      (file : Option Data)
      → machine.writes ≡ true
      → read toml file ≡ ok items
      → read toml (add_origins toml machine now origins items file).file
        ≡ ok (add_each now origins items)
  unfolding add_origins
  add_origins_file machine now origins items file w h =
      elim (Bool-cases (length (add_each now origins items) == length items)) [
        | inl e ↦ rw (e, add_each_same now origins items e) h
        | inr e ↦ rw e (read-save toml machine (add_each now origins items) file w)
      ]

  -- Where the process holds the items of the file, the origins there are distinct and the machine
  -- writes, `add_origins` leaves a file of distinct origins that trusts what it trusted before and
  -- the added origins, without the empty one.
  pub add_origins-Trusts :
      (machine : Machine) (now : ℕ) (origins : List Bytes) (items : List Source)
      (file : Option Data)
      → machine.writes ≡ true
      → read toml file ≡ ok items
      → IsDistinct items
      → Trusts
          (add_origins toml machine now origins items file).file
          (λ o. has_origin items o || not (is_nil o) && contains origins o)
  add_origins-Trusts machine now origins items file w h d = record {
    items = add_each now origins items;
    reads = add_origins_file machine now origins items file w h;
    distinct = add_each-IsDistinct now origins items d;
    trusts = add_each-has_origin now origins items;
  }
