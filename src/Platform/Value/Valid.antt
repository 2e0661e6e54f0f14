-- ===== src/Platform/Value/Valid.antt =====
-- What a `when` value that `parseWhen` accepts holds.
use oku.Base.{
  >>=-eq-ok, All, All-append, Bool, Bool-cases, Bytes, List, Option, [], arith, codes, equal, false,
  inl, inr, is_nil, length, length-append, none, ok, refl, some, subst, true, ◌++◌, ◌+◌, ◌<◌, ◌∷◌,
  ◌≡◌,
}
use oku.Platform.{CheckError, Selector, When, check}
use oku.Platform.Value.{
  Field, Item, Value, checked, many, missing, no_fields, one, other_item, other_value, parse_when,
  read_entries, read_entry, read_item, read_items, set_field, table_item,
}

abbrev pub HasNoHost : Selector → Type 0
HasNoHost s = s.host ≡ []

assign_host :
    (key : Bytes) (field : Field) (s s' : Selector)
    → equal key (codes "host") ≡ false
    → HasNoHost s
    → read_entry false key field s ≡ ok s'
    → HasNoHost s'
unfolding read_entry set_field
assign_host key field s s' h n e = ground arith

read_entry-HasNoHost :
    (key : Bytes) (field : Field) (s s' : Selector)
    → HasNoHost s
    → read_entry false key field s ≡ ok s'
    → HasNoHost s'
unfolding read_entry
read_entry-HasNoHost key field s s' n e = elim (Bool-cases (equal key (codes "host"))) [
  | inl h ↦ ground arith
  | inr h ↦ assign_host key field s s' h n e
]

read_entries-HasNoHost :
    (entries : List (Bytes × Field)) (s s' : Selector)
    → HasNoHost s
    → read_entries false entries s ≡ ok s'
    → HasNoHost s'
unfolding read_entries
read_entries-HasNoHost [] s s' n e = ground arith
read_entries-HasNoHost ((key, field) ∷ rest) s s' n e =
    let (t, first, later) = >>=-eq-ok (read_entry false key field s) (read_entries false rest) e in
    read_entries-HasNoHost rest t s' (read_entry-HasNoHost key field s t n first) later

checked-ok : (s s' : Selector) (o : Option CheckError) → checked s o ≡ ok s' → (o ≡ none) × (s ≡ s')
checked-ok s s' none h = (refl, cc)
checked-ok s s' (some e) h = cc

read_item-IsValid :
    (hosts : Bool) (item : Item) (s : Selector)
    → read_item hosts item ≡ ok s
    → (check s ≡ none) × (hosts ≡ false → HasNoHost s)
unfolding read_item
read_item-IsValid hosts other_item s h = cc
read_item-IsValid hosts (table_item entries) s h =
    let (t, entries_read, c) =
      >>=-eq-ok (read_entries hosts entries no_fields) (λ t. checked t (check t)) h in
    let (passes, same) = checked-ok t s (check t) c in
    (
      subst (λ x. check x ≡ none) same passes,
      λ off. subst HasNoHost same (
          read_entries-HasNoHost entries no_fields t refl
            (subst (λ b. read_entries b entries no_fields ≡ ok t) off entries_read)),
    )

abbrev pub IsValid : Bool → Selector → Type 0
IsValid hosts s = (check s ≡ none) × (hosts ≡ false → HasNoHost s)

read_items-IsValid :
    (hosts : Bool) (items : List Item) (w w' : When)
    → All (IsValid hosts) w
    → read_items hosts items w ≡ ok w'
    → All (IsValid hosts) w' × (length w' ≡ length w + length items)
unfolding read_items
read_items-IsValid hosts [] w w' v h =
    let same : w ≡ w' = cc in (subst (All (IsValid hosts)) same v, rw same (omega arith))
read_items-IsValid hosts (item ∷ items) w w' v h =
    let (s, first, later) =
      >>=-eq-ok (read_item hosts item) (λ s. read_items hosts items (w ++ (s ∷ []))) h in
    let (valid, count) =
      read_items-IsValid hosts items (w ++ (s ∷ [])) w'
        (All-append (IsValid hosts) w (s ∷ []) v (read_item-IsValid hosts item s first, tt))
        later in
    (valid, omega (arith, length-append w (s ∷ [])))

-- At least one item is read, so the result is not empty.
from_item :
    (hosts : Bool) (item : Item) (items : List Item) (w : When) (v : Value)
    → read_items hosts (item ∷ items) [] ≡ ok w
    → All (IsValid hosts) w × (is_nil w ≡ true → v ≡ missing)
from_item hosts item items w v h =
    let (valid, count) = read_items-IsValid hosts (item ∷ items) [] w tt h in
    (valid, λ e. absurd (not_nil w e (omega (arith, count))))
  where
    not_nil : (l : When) → is_nil l ≡ true → 0 < length l → ⊥
    not_nil [] e p = elim p [ ]
    not_nil (s ∷ l) e p = cc

-- Every selector of a `when` value that `parse_when` accepts passes `check`, and names no host
-- where hosts are not allowed. The result is empty, and so matches every platform, only for a
-- missing value.
pub parse_when-IsValid :
    (hosts : Bool) (v : Value) (w : When)
    → parse_when hosts v ≡ ok w
    → All (IsValid hosts) w × (is_nil w ≡ true → v ≡ missing)
unfolding parse_when
parse_when-IsValid hosts missing w h =
    let same : [] ≡ w = cc in (subst (All (IsValid hosts)) same tt, λ e. refl)
parse_when-IsValid hosts (one entries) w h =
    from_item hosts (table_item entries) [] w (one entries) h
parse_when-IsValid hosts (many []) w h = cc
parse_when-IsValid hosts (many (item ∷ items)) w h =
    from_item hosts item items w (many (item ∷ items)) h
parse_when-IsValid hosts other_value w h = cc
