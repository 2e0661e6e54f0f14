-- ===== src/List/Env/Raw/Safe.antt =====
-- The variables that `toEnv` of internal/list/env.go lets through.
use oku.Base.{
  >>=-eq-ok, All, All-append, Bool, Bool-cases, Bytes, List, Option-cases, [], arith, codes, differ,
  equal, every, false, if◌then◌else◌, inl, inr, is_nil, none, not, ok, refl, some, subst, true,
  ◌&&◌, ◌++◌, ◌||◌, ◌∷◌, ◌≡◌,
}
use oku.List.Dotenv.{valid_env_name}
use oku.List.Env.{EnvEntry, EnvValue, empty_value, is_set}
use oku.List.Env.Raw.{
  RawField, RawTable, RawValue, Scalar, check_env_name, flag, one_form, one_scalar, other_scalar,
  path_items, prepend_field, raw_files, raw_scalar, raw_table, required_field, reserved_env,
  scalars, text_scalar, to_env_value, value_fields,
}
use oku.List.Env.Raw.Tables.{Env, env_key, to_env, to_env_files, value_key}

-- the four forms of a variable, as the comment on `EnvValue` lists them: an unset, entries to
-- prepend, a hint, or else a value
unfoldable pub one_of : EnvValue → Bool
one_of v = elim v.prepend [
  | some entries ↦
      not v.unset
      && is_nil v.required
      && is_nil v.value
      && not (is_nil entries)
      && every (λ s. not (is_nil s)) entries
  | none ↦
      if v.unset then is_nil v.required && is_nil v.value else is_nil v.required || is_nil v.value
]

-- a variable has one of the four forms, and a name that a list may set
abbrev pub IsSettable : EnvEntry → Type 0
IsSettable e =
    (one_of e.entry ≡ true)
    × (valid_env_name e.name ≡ true)
    × ((reserved_env e.name && not (equal e.name (codes "PATH") && is_set e.entry.prepend)) ≡ false)

check_env_name-none :
    (name : Bytes) (prepends_only : Bool)
    → check_env_name name prepends_only ≡ none
    → (valid_env_name name ≡ true)
      × ((reserved_env name && not (equal name (codes "PATH") && prepends_only)) ≡ false)
unfolding check_env_name
check_env_name-none name prepends_only h = ground arith

-- a table is read into a value without a text and an unset, with entries that are not empty
abbrev InTable : EnvValue → Type 0
InTable v =
    (v.unset ≡ false)
    × (v.value ≡ [])
    × ((entries : List Bytes)
        → v.prepend ≡ some entries
        → (not (is_nil entries) && every (λ s. not (is_nil s)) entries) ≡ true)

path_items-every :
    (l : List Scalar) (entries : List Bytes)
    → path_items l ≡ ok entries
    → (every (λ s. not (is_nil s)) entries ≡ true) × (is_nil entries ≡ is_nil l)
unfolding path_items
path_items-every [] [] h = (refl, refl)
path_items-every [] (x ∷ entries) h = cc
path_items-every (text_scalar [] ∷ l) entries h = cc
path_items-every (flag b ∷ l) entries h = cc
path_items-every (other_scalar ∷ l) entries h = cc
path_items-every (text_scalar (c ∷ s) ∷ l) entries h =
    let (rest, p, q) = >>=-eq-ok (path_items l) _ h in
    let same : (c ∷ s) ∷ rest ≡ entries = cc in
    subst (λ e. (every (λ s. not (is_nil s)) e ≡ true) × (is_nil e ≡ false)) same
      ((path_items-every l rest p).0, refl)

prepend_field-every :
    (field : RawField) (entries : List Bytes)
    → prepend_field field ≡ ok entries
    → (not (is_nil entries) && every (λ s. not (is_nil s)) entries) ≡ true
unfolding prepend_field
prepend_field-every (one_scalar s) entries h = cc
prepend_field-every (scalars []) entries h = cc
prepend_field-every (scalars (s ∷ l)) entries h =
    let (full, same) = path_items-every (s ∷ l) entries h in ground arith

value_fields-InTable :
    (v : EnvValue) (table : RawTable) (w : EnvValue)
    → InTable v
    → value_fields v table ≡ ok w
    → InTable w
unfolding value_fields
value_fields-InTable v [] w good h = let same : v ≡ w = cc in subst InTable same good
value_fields-InTable v ((key, field) ∷ l) w good h =
    elim (Bool-cases (equal key (codes "prepend"))) [
      | inl here ↦
          let (entries, p, q) = >>=-eq-ok (prepend_field field) _ (rw here at h) in
          let full = prepend_field-every field entries p in
          value_fields-InTable (record v { prepend = some entries }) l w
            (
              good.0,
              good.1,
              λ others e.
                  let same : entries ≡ others = cc in
                  subst (λ x. (not (is_nil x) && every (λ s. not (is_nil s)) x) ≡ true) same full,
            )
            q
      | inr other ↦ elim (Bool-cases (equal key (codes "required"))) [
        | inl here ↦
            let (hint, p, q) = >>=-eq-ok (required_field field) _ (rw (other, here) at h) in
            value_fields-InTable (record v { required = hint }) l w good q
        | inr unknown ↦ let bad = rw (other, unknown) at h in cc
      ]
    ]

one_of-table :
    (v : EnvValue)
    → InTable v
    → differ (is_set v.prepend) (not (is_nil v.required)) ≡ true
    → one_of v ≡ true
unfolding one_of
one_of-table v (unset, value, entries) h = elim (Option-cases v.prepend) [
  | inl e ↦ rw (e, unset, value) (ground arith)
  | inr (l, e) ↦
      let full = entries l e in let no_hint = rw e at h in rw (e, unset, value) (ground arith)
]

one_form-one_of : (v w : EnvValue) → InTable v → one_form v ≡ ok w → one_of w ≡ true
one_form-one_of v w good h =
    elim (Bool-cases (differ (is_set v.prepend) (not (is_nil v.required)))) [
      | inl single ↦
          let done = rw single at h in
          let same : v ≡ w = cc in subst (λ x. one_of x ≡ true) same (one_of-table v good single)
      | inr twice ↦ let bad = rw twice at h in cc
    ]

to_env_value-one_of : (raw : RawValue) (v : EnvValue) → to_env_value raw ≡ ok v → one_of v ≡ true
unfolding to_env_value one_of
to_env_value-one_of (raw_scalar (text_scalar s)) v h =
    let same : record empty_value { value = s } ≡ v = cc in subst (λ x. one_of x ≡ true) same refl
to_env_value-one_of (raw_scalar (flag true)) v h = cc
to_env_value-one_of (raw_scalar (flag false)) v h =
    let same : record empty_value { unset = true } ≡ v = cc in
    subst (λ x. one_of x ≡ true) same refl
to_env_value-one_of (raw_scalar other_scalar) v h = cc
to_env_value-one_of (raw_files files) v h = cc
to_env_value-one_of (raw_table table) v h =
    let (w, p, q) = >>=-eq-ok (value_fields empty_value table) _ h in
    one_form-one_of w v (value_fields-InTable empty_value table w (refl, refl, λ entries e. cc) p) q

value_key-AreSettable :
    (name : Bytes) (raw : RawValue) (env : Env)
    → value_key name raw ≡ ok env
    → All IsSettable env.entries
unfolding value_key
value_key-AreSettable name raw env h =
    let (v, p, q) = >>=-eq-ok (to_env_value raw) _ h in
    elim (Option-cases (check_env_name name (is_set v.prepend))) [
      | inr (e, bad) ↦ let no = rw bad at q in cc
      | inl fine ↦
          let done = rw fine at q in
          let found : Env = record {
            entries = record { name = name; entry = v } ∷ [];
            env_files = [];
          } in
          let name_good = check_env_name-none name (is_set v.prepend) fine in
          let same : found ≡ env = cc in
          subst (λ (x : Env). All IsSettable x.entries) same
            ((to_env_value-one_of raw v p, name_good.0, name_good.1), tt)
    ]

env_key-AreSettable :
    (name : Bytes) (raw : RawValue) (env : Env)
    → env_key name raw ≡ ok env
    → All IsSettable env.entries
unfolding env_key
env_key-AreSettable name (raw_scalar s) env h = value_key-AreSettable name (raw_scalar s) env h
env_key-AreSettable name (raw_table table) env h =
    value_key-AreSettable name (raw_table table) env h
env_key-AreSettable name (raw_files files) env h = elim (Bool-cases (equal name (codes "file"))) [
  | inr other ↦ value_key-AreSettable name (raw_files files) env (rw other at h)
  | inl file ↦
      let (fs, p, q) = >>=-eq-ok (to_env_files files) _ (rw file at h) in
      let same : record { entries = []; env_files = fs } ≡ env = cc in
      subst (λ (x : Env). All IsSettable x.entries) same tt
]

-- Every variable that `to_env` lets through has one of the four forms, where entries to prepend are
-- not empty, a name of letters, digits and underscores that does not begin with a digit, and a name
-- that is reserved only if it is PATH with entries to prepend.
pub to_env-AreSettable :
    (table : List (Bytes × RawValue)) (env : Env)
    → to_env table ≡ ok env
    → All IsSettable env.entries
unfolding to_env
to_env-AreSettable [] env h =
    let same : record { entries = []; env_files = [] } ≡ env = cc in
    subst (λ (x : Env). All IsSettable x.entries) same tt
to_env-AreSettable ((name, raw) ∷ l) env h =
    let (first, p, g) = >>=-eq-ok (env_key name raw) _ h in
    let (rest, q, r) = >>=-eq-ok (to_env l) _ g in
    let whole : Env = record {
      entries = first.entries ++ rest.entries;
      env_files = first.env_files ++ rest.env_files;
    } in
    let same : whole ≡ env = cc in
    subst (λ (x : Env). All IsSettable x.entries) same
      (All-append IsSettable first.entries rest.entries (env_key-AreSettable name raw first p)
        (to_env-AreSettable l rest q))
