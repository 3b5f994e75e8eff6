-- ===== src/Tests/Columns.antt =====
-- The parameters of `iceberg_scan` and the column `file_row_number`.
use duckdb_iceberg.Common.{
  Bool, true, false, Result, throw, invalid_input, ℕ, ◌≡◌, refl, String, none, some, [], ◌∷◌, ◌++◌,
  ok, ◌==◌, if◌then◌else◌,
}
use duckdb_iceberg.Schema.ColumnTypes.{LogicalType, varchar, bigint, ubigint}
use duckdb_iceberg.Duckdb.{StringUtil, ci_find, ci_erase, ci_set_all, ci_set}
use duckdb_iceberg.FileList.Options.{
  Value, boolean, string, unsigned, timestamp, ValueAccess, parse_option,
}
use duckdb_iceberg.FileList.Columns.{ColumnDefinition, initialize_global_state}
use duckdb_iceberg.FileList.Placed.{MapsRowNumber, initialize_global_state-create_column_mapping}
use duckdb_iceberg.Functions.Registry.{
  TableFunction, scan_function, scan_parameters, add_named_parameters,
}
use duckdb_iceberg.Functions.Parameters.{
  takes_up, accepts, is_registered, ReadsOwnType, InLowerCase, scan_function-parse_option,
  parse_option_registered,
}
use duckdb_iceberg.Tests.Fixtures.{util, default_options}

abbrev lower_case : String → String
lower_case s =
    if s == "Version" then "version" else if s == "FILE_ROW_NUMBER" then "file_row_number" else s

abbrev folding : StringUtil
folding = record util { lower = lower_case }

-- The type that a value is of.
abbrev type_of : Value → LogicalType
type_of (boolean b) = LogicalType.boolean
type_of (string s) = varchar
type_of (unsigned n) = ubigint
type_of (timestamp t) = LogicalType.timestamp

abbrev read_boolean : Value → Result Bool
read_boolean (boolean b) = ok b
read_boolean _ = throw (invalid_input "the value is of another type")

own_boolean : (v : Value) → type_of v ≡ LogicalType.boolean → (a : Bool) × (read_boolean v ≡ ok a)
own_boolean (boolean b) e = (b, refl)
own_boolean (string s) e = cc
own_boolean (unsigned n) e = cc
own_boolean (timestamp t) e = cc

abbrev read_string : Value → Result String
read_string (string s) = ok s
read_string _ = throw (invalid_input "the value is of another type")

own_string : (v : Value) → type_of v ≡ varchar → (a : String) × (read_string v ≡ ok a)
own_string (boolean b) e = cc
own_string (string s) e = (s, refl)
own_string (unsigned n) e = cc
own_string (timestamp t) e = cc

abbrev read_uint64 : Value → Result ℕ
read_uint64 (unsigned n) = ok n
read_uint64 _ = throw (invalid_input "the value is of another type")

own_uint64 : (v : Value) → type_of v ≡ ubigint → (a : ℕ) × (read_uint64 v ≡ ok a)
own_uint64 (boolean b) e = cc
own_uint64 (string s) e = cc
own_uint64 (unsigned n) e = (n, refl)
own_uint64 (timestamp t) e = cc

abbrev read_timestamp : Value → Result ℕ
read_timestamp (timestamp t) = ok t
read_timestamp _ = throw (invalid_input "the value is of another type")

own_timestamp :
    (v : Value) → type_of v ≡ LogicalType.timestamp → (a : ℕ) × (read_timestamp v ≡ ok a)
own_timestamp (boolean b) e = cc
own_timestamp (string s) e = cc
own_timestamp (unsigned n) e = cc
own_timestamp (timestamp t) e = (t, refl)

-- A function of `parquet_scan`, with a parameter that `iceberg_scan` gives up.
abbrev parquet_function : TableFunction ℕ
parquet_function = record {
  name = "parquet_scan";
  arguments = varchar ∷ [];
  named_parameters = ("schema", varchar) ∷ ("binary_as_string", LogicalType.boolean) ∷ [];
  function = some 1;
  bind = some 2;
  init_global = some 3;
  get_multi_file_reader = none;
  serialize = some 4;
  deserialize = some 5;
  statistics = some 6;
  table_scan_progress = some 7;
  get_bind_info = some 8;
}

-- The readers of values: each value is of one type, and is read only as that type.
abbrev own_type : ValueAccess Value
own_type = record {
  boolean_get = read_boolean;
  string_get = read_string;
  get_uint64 = read_uint64;
  get_timestamp = read_timestamp;
}

own_type-ReadsOwnType : ReadsOwnType own_type type_of (λ v. false)
own_type-ReadsOwnType = record {
  reads_boolean = λ v e f. own_boolean v e;
  reads_string = λ v e f. own_string v e;
  reads_uint64 = λ v e f. own_uint64 v e;
  reads_timestamp = λ v e f. own_timestamp v e;
}

abbrev low_names : InLowerCase folding scan_parameters
low_names = (refl, (refl, (refl, (refl, (refl, (refl, (refl, (refl, tt))))))))

scan_function-parse_option_example :
    takes_up (parse_option folding own_type "Version" (unsigned 3) default_options)
    ≡ is_registered
        (ci_find folding (scan_function folding 9 parquet_function).named_parameters "Version")
unfolding ci_find ci_erase
scan_function-parse_option_example =
    scan_function-parse_option folding 9 parquet_function own_type default_options "Version"
      (unsigned 3) low_names refl refl

parse_option_registered_example :
    accepts (parse_option folding own_type "Version" (string "3") default_options) ≡ true
unfolding ci_find ci_erase scan_function add_named_parameters ci_set_all ci_set
parse_option_registered_example =
    parse_option_registered folding 9 parquet_function own_type default_options "Version"
      (string "3") low_names refl refl type_of (λ v. false) own_type-ReadsOwnType refl refl refl

abbrev id_column : ColumnDefinition
id_column = record { name = "id"; type = bigint; identifier = 1 }

abbrev row_number_column : ColumnDefinition
row_number_column = record { name = "FILE_ROW_NUMBER"; type = bigint; identifier = 2 }

-- A projection of the row id and one column, of a file whose second column counts the rows.
initialize_global_state-create_column_mapping_example :
    (placed : ℕ × ℕ) × (initialize_global_state folding (id_column ∷ []) (none ∷ some 0 ∷ [])
      ≡ ok placed)
    × MapsRowNumber folding
        ((id_column ∷ []) ++ (row_number_column ∷ (id_column ∷ [])))
        1
        (id_column ∷ [])
        (none ∷ some 0 ∷ [])
        placed
initialize_global_state-create_column_mapping_example =
    initialize_global_state-create_column_mapping folding (id_column ∷ []) (none ∷ some 0 ∷ [])
      (id_column ∷ []) row_number_column (id_column ∷ []) (tt, ((id_column, refl), tt)) refl
      (refl, tt)
