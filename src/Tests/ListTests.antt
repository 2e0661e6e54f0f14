-- ===== src/Tests/ListTests.antt =====
-- Tests of the environment of a list and its .env files.
use Prim.Native.String.{String}
use oku.Base.{
  All, Bytes, List, Option, [], codes, equal, err, false, if◌then◌else◌, insert_text, none, ok,
  refl, some, sorted, text_leq, true, ◌++◌, ◌∷◌, ◌≡◌, ◌≢◌,
}
use oku.List.Dotenv.{DotenvVar, expand_dotenv, unescape}
use oku.List.Dotenv.Lines.{
  after_quote, bad_name, no_assignment, out_of_fuel, parse_dotenv, quote_open,
}
use oku.List.Dotenv.Lines.Ends.{parse_dotenv-ends}
use oku.List.Dotenv.Lines.Printed.{parse_dotenv-print_vars, print_vars}
use oku.List.Env.{EnvEntry, EnvText, EnvValue, find_text, names_itself, no_fuel}
use oku.List.Env.Changes.{EnvChange, resolve_env}
use oku.List.Env.Changes.Ends.{resolve_env-ends}
use oku.List.Env.Changes.Fixpoint.{reads, resolve_env-fixpoint}
use oku.List.Env.Raw.{
  RawValue, file_table, flag, not_one_of, one_scalar, raw_files, raw_scalar, raw_table,
  reserved_name, scalars, text_scalar,
}
use oku.List.Env.Raw.Safe.{IsSettable, to_env-AreSettable}
use oku.List.Env.Raw.Tables.{Env, to_env}
use oku.List.Env.Said.{spell}
use oku.List.Pieces.{pieces}

abbrev no_env : Bytes → Option Bytes
no_env name = none

abbrev home_env : Bytes → Option Bytes
home_env name = if equal name (codes "HOME") then some (codes "/root") else none

abbrev env_var : String → String → DotenvVar
env_var name value = record { name = codes name; value = codes value }

bare_test :
    parse_dotenv (codes "# x\nexport A = one # two\nB=$A-${C:-z}$HOME/\n") home_env
    ≡ ok (env_var "A" "one" ∷ env_var "B" "one-z/root/" ∷ [])
unfolding parse_dotenv oku.List.Dotenv.Lines.read_assignments oku.List.Dotenv.Lines.dotenv_lines
    oku.Base.split oku.Base.split_pieces oku.List.Dotenv.Lines.unix_lines oku.Base.has_prefix
    oku.List.Dotenv.Lines.read_assignment oku.Base.trim_right oku.Base.trim_left oku.Base.cut
    oku.Base.cut_prefix oku.List.Dotenv.valid_env_name oku.List.Dotenv.is_name_byte
    oku.List.Dotenv.Lines.read_value oku.List.Dotenv.Lines.gather equal
    oku.List.Dotenv.Lines.bare_value oku.List.Dotenv.Lines.quoted_value oku.List.Dotenv.closing
    oku.List.Dotenv.closing_from oku.List.Dotenv.cut_two oku.List.Dotenv.expand_brace expand_dotenv
    oku.List.Dotenv.expand_from oku.List.Dotenv.expand_name oku.List.Dotenv.expand_round
    oku.List.Dotenv.name_span unescape oku.List.Dotenv.unescape_from oku.List.Dotenv.unescaped
bare_test = refl

quotes_test :
    parse_dotenv (codes "A='$B\\'\nB=\"x\\n\ny\\$A\" # z\n") no_env
    ≡ ok (env_var "A" "$B\\" ∷ env_var "B" "x\n\ny$A" ∷ [])
unfolding parse_dotenv oku.List.Dotenv.Lines.read_assignments oku.List.Dotenv.Lines.dotenv_lines
    oku.Base.split oku.Base.split_pieces oku.List.Dotenv.Lines.unix_lines oku.Base.has_prefix
    oku.List.Dotenv.Lines.read_assignment oku.Base.trim_right oku.Base.trim_left oku.Base.cut
    oku.Base.cut_prefix oku.List.Dotenv.valid_env_name oku.List.Dotenv.is_name_byte
    oku.List.Dotenv.Lines.read_value oku.List.Dotenv.Lines.gather equal
    oku.List.Dotenv.Lines.bare_value oku.List.Dotenv.Lines.quoted_value oku.List.Dotenv.closing
    oku.List.Dotenv.closing_from oku.List.Dotenv.cut_two oku.List.Dotenv.expand_brace expand_dotenv
    oku.List.Dotenv.expand_from oku.List.Dotenv.expand_name oku.List.Dotenv.expand_round
    oku.List.Dotenv.name_span unescape oku.List.Dotenv.unescape_from oku.List.Dotenv.unescaped
quotes_test = refl

open_test : parse_dotenv (codes "A=1\n\nB='x\ny") no_env ≡ err (quote_open 3 b'\'')
unfolding parse_dotenv oku.List.Dotenv.Lines.read_assignments oku.List.Dotenv.Lines.dotenv_lines
    oku.Base.split oku.Base.split_pieces oku.List.Dotenv.Lines.unix_lines oku.Base.has_prefix
    oku.List.Dotenv.Lines.read_assignment oku.Base.trim_right oku.Base.trim_left oku.Base.cut
    oku.Base.cut_prefix oku.List.Dotenv.valid_env_name oku.List.Dotenv.is_name_byte
    oku.List.Dotenv.Lines.read_value oku.List.Dotenv.Lines.gather equal
    oku.List.Dotenv.Lines.bare_value oku.List.Dotenv.Lines.quoted_value oku.List.Dotenv.closing
    oku.List.Dotenv.closing_from oku.List.Dotenv.cut_two oku.List.Dotenv.expand_brace expand_dotenv
    oku.List.Dotenv.expand_from oku.List.Dotenv.expand_name oku.List.Dotenv.expand_round
    oku.List.Dotenv.name_span unescape oku.List.Dotenv.unescape_from oku.List.Dotenv.unescaped
open_test = refl

after_test : parse_dotenv (codes "A='x' y") no_env ≡ err (after_quote 1 (codes "y"))
unfolding parse_dotenv oku.List.Dotenv.Lines.read_assignments oku.List.Dotenv.Lines.dotenv_lines
    oku.Base.split oku.Base.split_pieces oku.List.Dotenv.Lines.unix_lines oku.Base.has_prefix
    oku.List.Dotenv.Lines.read_assignment oku.Base.trim_right oku.Base.trim_left oku.Base.cut
    oku.Base.cut_prefix oku.List.Dotenv.valid_env_name oku.List.Dotenv.is_name_byte
    oku.List.Dotenv.Lines.read_value oku.List.Dotenv.Lines.gather equal
    oku.List.Dotenv.Lines.bare_value oku.List.Dotenv.Lines.quoted_value oku.List.Dotenv.closing
    oku.List.Dotenv.closing_from oku.List.Dotenv.cut_two oku.List.Dotenv.expand_brace expand_dotenv
    oku.List.Dotenv.expand_from oku.List.Dotenv.expand_name oku.List.Dotenv.expand_round
    oku.List.Dotenv.name_span unescape oku.List.Dotenv.unescape_from oku.List.Dotenv.unescaped
after_test = refl

name_test : parse_dotenv (codes "A=1\n2B=3") no_env ≡ err (bad_name 2 (codes "2B"))
unfolding parse_dotenv oku.List.Dotenv.Lines.read_assignments oku.List.Dotenv.Lines.dotenv_lines
    oku.Base.split oku.Base.split_pieces oku.List.Dotenv.Lines.unix_lines oku.Base.has_prefix
    oku.List.Dotenv.Lines.read_assignment oku.Base.trim_right oku.Base.trim_left oku.Base.cut
    oku.Base.cut_prefix oku.List.Dotenv.valid_env_name oku.List.Dotenv.is_name_byte
    oku.List.Dotenv.Lines.read_value oku.List.Dotenv.Lines.gather equal
    oku.List.Dotenv.Lines.bare_value oku.List.Dotenv.Lines.quoted_value oku.List.Dotenv.closing
    oku.List.Dotenv.closing_from oku.List.Dotenv.cut_two oku.List.Dotenv.expand_brace expand_dotenv
    oku.List.Dotenv.expand_from oku.List.Dotenv.expand_name oku.List.Dotenv.expand_round
    oku.List.Dotenv.name_span unescape oku.List.Dotenv.unescape_from oku.List.Dotenv.unescaped
name_test = refl

assignment_test : parse_dotenv (codes "A") no_env ≡ err (no_assignment 1)
unfolding parse_dotenv oku.List.Dotenv.Lines.read_assignments oku.List.Dotenv.Lines.dotenv_lines
    oku.Base.split oku.Base.split_pieces oku.List.Dotenv.Lines.unix_lines oku.Base.has_prefix
    oku.List.Dotenv.Lines.read_assignment oku.Base.trim_right oku.Base.trim_left oku.Base.cut
    oku.Base.cut_prefix oku.List.Dotenv.valid_env_name oku.List.Dotenv.is_name_byte
    oku.List.Dotenv.Lines.read_value oku.List.Dotenv.Lines.gather equal
    oku.List.Dotenv.Lines.bare_value oku.List.Dotenv.Lines.quoted_value oku.List.Dotenv.closing
    oku.List.Dotenv.closing_from oku.List.Dotenv.cut_two oku.List.Dotenv.expand_brace expand_dotenv
    oku.List.Dotenv.expand_from oku.List.Dotenv.expand_name oku.List.Dotenv.expand_round
    oku.List.Dotenv.name_span unescape oku.List.Dotenv.unescape_from oku.List.Dotenv.unescaped
assignment_test = refl

parse_dotenv-ends_example : parse_dotenv (codes "A=\"x\ny\nB") no_env ≢ err out_of_fuel
parse_dotenv-ends_example = parse_dotenv-ends (codes "A=\"x\ny\nB") no_env

abbrev some_vars : List DotenvVar
some_vars = env_var "A" "$B \"x\"\\n\n" ∷ env_var "_2" "" ∷ []

parse_dotenv-print_vars_example : parse_dotenv (print_vars some_vars) home_env ≡ ok some_vars
unfolding oku.List.Dotenv.valid_env_name oku.List.Dotenv.is_name_byte
parse_dotenv-print_vars_example = parse_dotenv-print_vars home_env some_vars (refl, (refl, tt))

abbrev entry_of : String → EnvValue → EnvEntry
entry_of name value = record { name = codes name; entry = value }

abbrev valued : String → EnvValue
valued text = record { value = codes text; unset = false; prepend = none; required = [] }

abbrev slash_join : Bytes → Bytes → Bytes
slash_join dir path = dir ++ (b'/' ∷ path)

abbrev some_env : List EnvEntry
some_env =
    entry_of "A" (valued "${B}-${B}${HOME}${C:-c}${A:-a}$B")
    ∷ entry_of "B" (valued "b")
    ∷ entry_of "C" (record { value = []; unset = true; prepend = none; required = [] })
    ∷ entry_of "D" (record { value = []; unset = false; prepend = none; required = codes "set D" })
    ∷ entry_of "PATH" (record {
      value = [];
      unset = false;
      prepend = some (codes "bin" ∷ codes "${HOME}/bin" ∷ []);
      required = [];
    })
    ∷ []

abbrev text_of : String → String → EnvText
text_of name text = record { name = codes name; text = codes text }

abbrev some_change : EnvChange
some_change = record {
  set = text_of "A" "b-b/rootca$B" ∷ text_of "B" "b" ∷ [];
  removed = codes "C" ∷ [];
  prepended =
      record { name = codes "PATH"; entries = codes "/list/bin" ∷ codes "/root/bin" ∷ [] } ∷ [];
  missing = text_of "D" "set D" ∷ [];
}

resolve_env_test : resolve_env slash_join some_env (codes "/list") home_env ≡ ok some_change
unfolding resolve_env oku.List.Env.Changes.changes_from oku.List.Env.Changes.effect_of
    oku.List.Env.Changes.entries_from oku.List.Env.Changes.or_fail oku.List.Env.Changes.is_abs
    oku.List.Env.Changes.with_effect oku.List.Env.resolve oku.List.Env.expand oku.List.Env.keep
    oku.List.Env.done_or oku.List.Env.is_self oku.List.Env.is_value oku.List.Env.find_env find_text
    pieces oku.List.Pieces.pieces_from oku.List.Pieces.reference_at oku.List.Pieces.reference_behind
    oku.List.Pieces.reference_default oku.List.Dotenv.name_span oku.List.Dotenv.is_name_byte
    oku.Base.has_prefix oku.Base.cut equal sorted insert_text text_leq
resolve_env_test = refl

circle_test :
    resolve_env slash_join
      (entry_of "A" (valued "${B}") ∷ entry_of "B" (valued "x${A}") ∷ [])
      []
      no_env
    ≡ err (names_itself (codes "A") (codes "B" ∷ codes "A" ∷ []))
unfolding resolve_env oku.List.Env.Changes.changes_from oku.List.Env.Changes.effect_of
    oku.List.Env.Changes.entries_from oku.List.Env.Changes.or_fail oku.List.Env.Changes.is_abs
    oku.List.Env.Changes.with_effect oku.List.Env.resolve oku.List.Env.expand oku.List.Env.keep
    oku.List.Env.done_or oku.List.Env.is_self oku.List.Env.is_value oku.List.Env.find_env find_text
    pieces oku.List.Pieces.pieces_from oku.List.Pieces.reference_at oku.List.Pieces.reference_behind
    oku.List.Pieces.reference_default oku.List.Dotenv.name_span oku.List.Dotenv.is_name_byte
    oku.Base.has_prefix oku.Base.cut equal sorted insert_text text_leq
circle_test = refl

resolve_env-ends_example :
    resolve_env slash_join
      (entry_of "A" (valued "${B}") ∷ entry_of "B" (valued "x${A}") ∷ [])
      []
      no_env
    ≢ err no_fuel
resolve_env-ends_example =
    resolve_env-ends slash_join (entry_of "A" (valued "${B}") ∷ entry_of "B" (valued "x${A}") ∷ [])
      [] no_env

resolve_env-fixpoint_example :
    find_text (codes "A") some_change.set
    ≡ some (
        spell
          (reads some_env home_env some_change.set (codes "A"))
          (pieces (codes "${B}-${B}${HOME}${C:-c}${A:-a}$B")))
unfolding oku.List.Env.find_env oku.List.Env.is_value equal
resolve_env-fixpoint_example =
    resolve_env-fixpoint slash_join some_env (codes "/list") home_env some_change (codes "A")
      (valued "${B}-${B}${HOME}${C:-c}${A:-a}$B") resolve_env_test refl refl

abbrev some_table : List (Bytes × RawValue)
some_table =
    (codes "A", raw_scalar (text_scalar (codes "1")))
    ∷ (codes "B", raw_scalar (flag false))
    ∷ (codes "PATH", raw_table ((codes "prepend", scalars (text_scalar (codes "bin") ∷ [])) ∷ []))
    ∷ (
      codes "file",
      raw_files (
          file_table (
            (codes "path", one_scalar (text_scalar (codes ".env")))
            ∷ (codes "scope", one_scalar (text_scalar (codes "exec")))
            ∷ (codes "optional", one_scalar (flag true))
            ∷ [])
          ∷ []),
    )
    ∷ []

abbrev read_table : Env
read_table = record {
  entries =
      entry_of "A" (valued "1")
      ∷ entry_of "B" (record { value = []; unset = true; prepend = none; required = [] })
      ∷ entry_of "PATH"
          (record { value = []; unset = false; prepend = some (codes "bin" ∷ []); required = [] })
      ∷ [];
  env_files =
      record {
        path = codes ".env";
        is_optional = true;
        unless = [];
        is_secret = false;
        exec_only = true;
      }
      ∷ [];
}

to_env_test : to_env some_table ≡ ok read_table
unfolding to_env oku.List.Env.Raw.Tables.env_key oku.List.Env.Raw.Tables.value_key
    oku.List.Env.Raw.Tables.to_env_files oku.List.Env.Raw.Tables.to_env_file
    oku.List.Env.Raw.Tables.file_fields oku.List.Env.Raw.Tables.file_field
    oku.List.Env.Raw.to_env_value oku.List.Env.Raw.value_fields oku.List.Env.Raw.prepend_field
    oku.List.Env.Raw.path_items oku.List.Env.Raw.required_field oku.List.Env.Raw.check_env_name
    oku.List.Env.Raw.reserved_env oku.List.Dotenv.valid_env_name oku.List.Dotenv.is_name_byte
    oku.Base.has_prefix equal
to_env_test = refl

reserved_test :
    to_env ((codes "PATH", raw_scalar (text_scalar (codes "x"))) ∷ [])
    ≡ err (reserved_name (codes "PATH"))
unfolding to_env oku.List.Env.Raw.Tables.env_key oku.List.Env.Raw.Tables.value_key
    oku.List.Env.Raw.Tables.to_env_files oku.List.Env.Raw.Tables.to_env_file
    oku.List.Env.Raw.Tables.file_fields oku.List.Env.Raw.Tables.file_field
    oku.List.Env.Raw.to_env_value oku.List.Env.Raw.value_fields oku.List.Env.Raw.prepend_field
    oku.List.Env.Raw.path_items oku.List.Env.Raw.required_field oku.List.Env.Raw.check_env_name
    oku.List.Env.Raw.reserved_env oku.List.Dotenv.valid_env_name oku.List.Dotenv.is_name_byte
    oku.Base.has_prefix equal
reserved_test = refl

both_test :
    to_env (
      (
        codes "A",
        raw_table (
            (codes "prepend", scalars (text_scalar (codes "bin") ∷ []))
            ∷ (codes "required", one_scalar (text_scalar []))
            ∷ []),
      )
      ∷ [])
    ≡ err not_one_of
unfolding to_env oku.List.Env.Raw.Tables.env_key oku.List.Env.Raw.Tables.value_key
    oku.List.Env.Raw.Tables.to_env_files oku.List.Env.Raw.Tables.to_env_file
    oku.List.Env.Raw.Tables.file_fields oku.List.Env.Raw.Tables.file_field
    oku.List.Env.Raw.to_env_value oku.List.Env.Raw.value_fields oku.List.Env.Raw.prepend_field
    oku.List.Env.Raw.path_items oku.List.Env.Raw.required_field oku.List.Env.Raw.check_env_name
    oku.List.Env.Raw.reserved_env oku.List.Dotenv.valid_env_name oku.List.Dotenv.is_name_byte
    oku.Base.has_prefix equal
both_test = refl

to_env-AreSettable_example : All IsSettable read_table.entries
to_env-AreSettable_example = to_env-AreSettable some_table read_table to_env_test
