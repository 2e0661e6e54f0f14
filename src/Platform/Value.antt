-- ===== src/Platform/Value.antt =====
-- `ParseWhen` and `ParseListWhen` of internal/platform/platform.go: the `when` value of a manifest
-- or a list, as TOML gives it. A table is the list of its entries in the order in which Go ranges
-- over the map. Of a value the code tests only whether it is a string, and of an array's item only
-- whether it is a table, so every other one is `other_field` or `other_item`.
pub mod Valid
use oku.Base.{
  Bool, Bytes, List, Option, Result, [], codes, equal, err, if◌then◌else◌, none, not, ok, some,
  ◌&&◌, ◌++◌, ◌>>=◌, ◌∷◌,
}
use oku.Platform.{CheckError, Selector, When, check}

pub data Field : Type 0 where
  text_field : Bytes → Field
  other_field : Field

pub data Item : Type 0 where
  table_item : List (Bytes × Field) → Item
  other_item : Item

pub data Value : Type 0 where
  missing : Value
  one : List (Bytes × Field) → Value
  many : List Item → Value
  other_value : Value

pub data WhenError : Type 0 where
  empty_array : WhenError
  not_table : WhenError
  host_in_manifest : WhenError
  unknown_key : Bytes → WhenError
  not_string : Bytes → WhenError
  no_such : CheckError → WhenError

-- the map from a key to the field that it sets
unfoldable pub set_field : Bytes → Selector → Option (Bytes → Selector)
set_field key s =
    if equal key (codes "os")
    then some (λ v. record s { os = v })
    else if equal key (codes "arch")
    then some (λ v. record s { arch = v })
    else if equal key (codes "libc")
    then some (λ v. record s { libc = v })
    else if equal key (codes "host")
    then some (λ v. record s { host = v })
    else none

abbrev pub assign : Bytes → (Bytes → Selector) → Field → Result WhenError Selector
assign key put (text_field v) = ok (put v)
assign key put other_field = err (not_string key)

-- the loop body for one entry of a table
unfoldable pub read_entry : Bool → Bytes → Field → Selector → Result WhenError Selector
read_entry hosts key field s =
    if equal key (codes "host") && not hosts
    then err host_in_manifest
    else elim (set_field key s) [ some put ↦ assign key put field | none ↦ err (unknown_key key) ]

unfoldable pub read_entries : Bool → List (Bytes × Field) → Selector → Result WhenError Selector
read_entries hosts [] s = ok s
read_entries hosts ((key, field) ∷ rest) s = do
  s' ← read_entry hosts key field s
  read_entries hosts rest s'

abbrev pub checked : Selector → Option CheckError → Result WhenError Selector
checked s none = ok s
checked s (some e) = err (no_such e)

abbrev pub no_fields : Selector
no_fields = record { os = []; arch = []; libc = []; host = [] }

unfoldable pub read_item : Bool → Item → Result WhenError Selector
read_item hosts other_item = err not_table
read_item hosts (table_item entries) = do
  s ← read_entries hosts entries no_fields
  checked s (check s)

-- the loop over the tables
unfoldable pub read_items : Bool → List Item → When → Result WhenError When
read_items hosts [] w = ok w
read_items hosts (item ∷ items) w = do
  s ← read_item hosts item
  read_items hosts items (w ++ (s ∷ []))

-- `parseWhen`; `hosts` is set for a list
unfoldable pub parse_when : Bool → Value → Result WhenError When
parse_when hosts missing = ok []
parse_when hosts (one entries) = read_items hosts (table_item entries ∷ []) []
parse_when hosts (many []) = err empty_array
parse_when hosts (many (item ∷ items)) = read_items hosts (item ∷ items) []
parse_when hosts other_value = err not_table
