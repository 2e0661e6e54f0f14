-- ===== src/List/Env/Raw/Tables.antt =====
-- `toEnvFile` and `toEnv` of internal/list/env.go.
use oku.Base.{
  Bytes, List, Option, Result, [], codes, equal, err, false, if◌then◌else◌, is_nil, none, ok, some,
  true, ◌++◌, ◌>>=◌, ◌∷◌,
}
use oku.List.Env.{EnvEntry, is_set}
use oku.List.Env.Raw.{
  EnvFile, RawError, RawField, RawFile, RawTable, RawValue, bad_scope, bad_unless, check_env_name,
  file_table, flag_field, no_file_table, no_path, no_table, one_scalar, raw_files, raw_scalar,
  raw_table, scalars, text_field, to_env_value, unknown_key, unless_items,
}

-- the case of `unless`, which adds to the names so far
unfoldable pub unless_field : List Bytes → RawField → Result RawError (List Bytes)
unless_field before (one_scalar s) = err bad_unless
unless_field before (scalars l) = unless_items l >>= λ names. ok (before ++ names)

-- one key of an item of `[[env.file]]`
unfoldable pub file_field : EnvFile → Bytes → RawField → Result RawError EnvFile
file_field f key field =
    if equal key (codes "path")
    then ok (record f { path = text_field field })
    else if equal key (codes "optional")
    then (flag_field key field >>= λ b. ok (record f { is_optional = b }))
    else if equal key (codes "secret")
    then (flag_field key field >>= λ b. ok (record f { is_secret = b }))
    else if equal key (codes "scope")
    then (if equal (text_field field) (codes "shell")
        then ok f
        else if equal (text_field field) (codes "exec")
        then ok (record f { exec_only = true })
        else err bad_scope)
    else if equal key (codes "unless")
    then (unless_field f.unless field >>= λ names. ok (record f { unless = names }))
    else err (unknown_key key)

unfoldable pub file_fields : EnvFile → RawTable → Result RawError EnvFile
file_fields f [] = if is_nil f.path then err no_path else ok f
file_fields f ((key, field) ∷ l) = file_field f key field >>= λ g. file_fields g l

-- `toEnvFile`
unfoldable pub to_env_file : RawFile → Result RawError EnvFile
to_env_file no_table = err no_file_table
to_env_file (file_table table) =
    file_fields
      (record { path = []; is_optional = false; unless = []; is_secret = false; exec_only = false })
      table

unfoldable pub to_env_files : List RawFile → Result RawError (List EnvFile)
to_env_files [] = ok []
to_env_files (raw ∷ l) = to_env_file raw >>= λ f. to_env_files l >>= λ rest. ok (f ∷ rest)

-- what `toEnv` returns
pub record Env : Type 0 where
  pub entries : List EnvEntry
  pub env_files : List EnvFile

abbrev pub unless_error : {V : Type 0} → Option RawError → Result RawError V → Result RawError V
unless_error none result = result
unless_error (some e) result = err e

-- one variable of [env]
unfoldable pub value_key : Bytes → RawValue → Result RawError Env
value_key name raw = to_env_value raw >>= λ v.
    unless_error (check_env_name name (is_set v.prepend))
      (ok (record { entries = record { name = name; entry = v } ∷ []; env_files = [] }))

-- the body of the loop of `toEnv`
unfoldable pub env_key : Bytes → RawValue → Result RawError Env
env_key name (raw_files files) =
    if equal name (codes "file")
    then (to_env_files files >>= λ fs. ok (record { entries = []; env_files = fs }))
    else value_key name (raw_files files)
env_key name (raw_scalar s) = value_key name (raw_scalar s)
env_key name (raw_table table) = value_key name (raw_table table)

-- `toEnv`
unfoldable pub to_env : List (Bytes × RawValue) → Result RawError Env
to_env [] = ok (record { entries = []; env_files = [] })
to_env ((name, raw) ∷ l) = env_key name raw >>= λ first. to_env l >>= λ rest. ok (record {
  entries = first.entries ++ rest.entries;
  env_files = first.env_files ++ rest.env_files;
})
