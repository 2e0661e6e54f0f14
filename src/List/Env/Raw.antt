-- ===== src/List/Env/Raw.antt =====
-- The reader of [env] in internal/list/env.go: toEnv, toEnvValue, toEnvFile and CheckEnvName, with
-- `ReservedEnv` of internal/manifest/manifest.go. A table of TOML is the list of its entries in the
-- order in which Go's `range` meets them.
pub mod Tables
pub mod Safe
use oku.Base.{
  Bool, Bytes, List, Option, Result, [], any, codes, contains, differ, equal, err, false,
  has_prefix, if◌then◌else◌, is_nil, leb, map, none, not, ok, some, text_or, true, ℕ, ◌&&◌, ◌-◌,
  ◌>>=◌, ◌||◌, ◌∷◌,
}
use oku.List.Dotenv.{valid_env_name}
use oku.List.Env.{EnvValue, empty_value, is_set}

-- `EnvFile`
pub record EnvFile : Type 0 where
  pub path : Bytes
  pub is_optional : Bool
  pub unless : List Bytes
  pub is_secret : Bool
  pub exec_only : Bool

-- a value of TOML that is neither a list nor a table
pub data Scalar : Type 0 where
  text_scalar : Bytes → Scalar
  flag : Bool → Scalar
  other_scalar : Scalar

-- the value of a key in a table of [env]
pub data RawField : Type 0 where
  one_scalar : Scalar → RawField
  scalars : List Scalar → RawField

abbrev pub RawTable : Type 0
RawTable = List (Bytes × RawField)

-- an item of `[[env.file]]`
pub data RawFile : Type 0 where
  file_table : RawTable → RawFile
  no_table : RawFile

-- the value of a key in [env]
pub data RawValue : Type 0 where
  raw_scalar : Scalar → RawValue
  raw_table : RawTable → RawValue
  raw_files : List RawFile → RawValue

pub data RawError : Type 0 where
  true_is_no_value : RawError
  bad_prepend : RawError
  bad_required : RawError
  unknown_key : Bytes → RawError
  not_one_of : RawError
  bad_value : RawError
  no_file_table : RawError
  bad_flag : Bytes → RawError
  bad_scope : RawError
  bad_unless : RawError
  no_path : RawError
  invalid_name : Bytes → RawError
  reserved_name : Bytes → RawError

-- `strings.ToUpper`, on ASCII
abbrev pub upper_byte : ℕ → ℕ
upper_byte c = if leb b'a' c && leb c b'z' then c - 32 else c

-- `ReservedEnv`
unfoldable pub reserved_env : Bytes → Bool
reserved_env name =
    let upper = map upper_byte name in
    any (λ prefix. has_prefix prefix upper) (codes "LD_" ∷ codes "DYLD_" ∷ codes "OKU_" ∷ [])
    || contains
        (codes "PATH"
          ∷ codes "HOME"
          ∷ codes "SHELL"
          ∷ codes "IFS"
          ∷ codes "ENV"
          ∷ codes "BASH_ENV"
          ∷ codes "PROMPT_COMMAND"
          ∷ codes "PS1"
          ∷ codes "USER"
          ∷ [])
        upper

-- `CheckEnvName`
unfoldable pub check_env_name : Bytes → Bool → Option RawError
check_env_name name prepends_only =
    if not (valid_env_name name)
    then some (invalid_name name)
    else if reserved_env name && (not (equal name (codes "PATH")) || not prepends_only)
    then some (reserved_name name)
    else none

-- the loop over the entries of `prepend`
unfoldable pub path_items : List Scalar → Result RawError (List Bytes)
path_items [] = ok []
path_items (text_scalar [] ∷ l) = err bad_prepend
path_items (text_scalar (c ∷ s) ∷ l) = path_items l >>= λ rest. ok ((c ∷ s) ∷ rest)
path_items (flag b ∷ l) = err bad_prepend
path_items (other_scalar ∷ l) = err bad_prepend

-- the case of `prepend`
unfoldable pub prepend_field : RawField → Result RawError (List Bytes)
prepend_field (one_scalar s) = err bad_prepend
prepend_field (scalars []) = err bad_prepend
prepend_field (scalars (s ∷ l)) = path_items (s ∷ l)

-- the case of `required`
unfoldable pub required_field : RawField → Result RawError Bytes
required_field (one_scalar (text_scalar hint)) =
    ok (text_or hint (codes "set it before you use this project"))
required_field (one_scalar (flag b)) = err bad_required
required_field (one_scalar other_scalar) = err bad_required
required_field (scalars l) = err bad_required

-- the loop of `toEnvValue` over a table
unfoldable pub value_fields : EnvValue → RawTable → Result RawError EnvValue
value_fields v [] = ok v
value_fields v ((key, field) ∷ l) =
    if equal key (codes "prepend")
    then (prepend_field field >>= λ entries. value_fields (record v { prepend = some entries }) l)
    else if equal key (codes "required")
    then (required_field field >>= λ hint. value_fields (record v { required = hint }) l)
    else err (unknown_key key)

-- the last test on a table: `prepend` or `required`, one of them
abbrev pub one_form : EnvValue → Result RawError EnvValue
one_form v = if differ (is_set v.prepend) (not (is_nil v.required)) then ok v else err not_one_of

-- `toEnvValue`
unfoldable pub to_env_value : RawValue → Result RawError EnvValue
to_env_value (raw_scalar (text_scalar s)) = ok (record empty_value { value = s })
to_env_value (raw_scalar (flag true)) = err true_is_no_value
to_env_value (raw_scalar (flag false)) = ok (record empty_value { unset = true })
to_env_value (raw_scalar other_scalar) = err bad_value
to_env_value (raw_table table) = value_fields empty_value table >>= one_form
to_env_value (raw_files files) = err bad_value

-- the names of `unless`
unfoldable pub unless_items : List Scalar → Result RawError (List Bytes)
unless_items [] = ok []
unless_items (text_scalar s ∷ l) =
    if valid_env_name s then (unless_items l >>= λ rest. ok (s ∷ rest)) else err bad_unless
unless_items (flag b ∷ l) = err bad_unless
unless_items (other_scalar ∷ l) = err bad_unless

abbrev pub flag_field : Bytes → RawField → Result RawError Bool
flag_field key (one_scalar (flag b)) = ok b
flag_field key (one_scalar (text_scalar s)) = err (bad_flag key)
flag_field key (one_scalar other_scalar) = err (bad_flag key)
flag_field key (scalars l) = err (bad_flag key)

-- the text of a field, or an empty one
abbrev pub text_field : RawField → Bytes
text_field (one_scalar (text_scalar s)) = s
text_field (one_scalar (flag b)) = []
text_field (one_scalar other_scalar) = []
text_field (scalars l) = []
