-- ===== src/TypeText/Names.antt =====
-- src/catalog_utils.cpp: the names that the extension gives to types, and the names that it knows.
use duckdb_iceberg.Common.{
  ℕ, String, Option, none, some, Result, ok, throw, invalid_input, not_implemented, ◌==◌,
  if◌then◌else◌, ◌+++◌,
}
use duckdb_iceberg.Schema.ColumnTypes.{
  LogicalType, boolean, tinyint, utinyint, smallint, usmallint, integer, uinteger, bigint, ubigint,
  float, double, date, timestamp, timestamp_tz, varchar, blob, decimal,
}

-- `LogicalToIcebergType`, with `std::to_string`.
unfoldable pub logical_to_iceberg_type : (ℕ → String) → LogicalType → Result String
logical_to_iceberg_type to_string tinyint = ok "tinyint"
logical_to_iceberg_type to_string utinyint = ok "tinyint"
logical_to_iceberg_type to_string smallint = ok "smallint"
logical_to_iceberg_type to_string usmallint = ok "smallint"
logical_to_iceberg_type to_string integer = ok "int"
logical_to_iceberg_type to_string uinteger = ok "int"
logical_to_iceberg_type to_string bigint = ok "long"
logical_to_iceberg_type to_string ubigint = ok "long"
logical_to_iceberg_type to_string varchar = ok "string"
logical_to_iceberg_type to_string double = ok "double"
logical_to_iceberg_type to_string float = ok "float"
logical_to_iceberg_type to_string boolean = ok "boolean"
logical_to_iceberg_type to_string timestamp = ok "timestamp"
logical_to_iceberg_type to_string timestamp_tz = ok "timestamptz"
logical_to_iceberg_type to_string blob = ok "binary"
logical_to_iceberg_type to_string date = ok "date"
logical_to_iceberg_type to_string (decimal precision scale) =
    ok ("decimal(" +++ to_string precision +++ ", " +++ to_string scale +++ ")")
logical_to_iceberg_type to_string _ = throw (invalid_input "Unsupported type: %s")

-- `TypeToString`, with `LogicalType::ToString`.
unfoldable pub type_to_string : (LogicalType → String) → LogicalType → String
type_to_string to_string varchar = "TEXT"
type_to_string to_string utinyint = "TINYINT UNSIGNED"
type_to_string to_string usmallint = "SMALLINT UNSIGNED"
type_to_string to_string uinteger = "INTEGER UNSIGNED"
type_to_string to_string ubigint = "BIGINT UNSIGNED"
type_to_string to_string timestamp = "DATETIME"
type_to_string to_string timestamp_tz = "TIMESTAMP"
type_to_string to_string input = to_string input

-- `ToICType`: the code after the `throw` is not reached.
unfoldable pub to_ic_type : LogicalType → Result LogicalType
to_ic_type input = throw (not_implemented "ToUCType not yet implemented")

-- The names of types without parts.
unfoldable pub plain_type : String → Option LogicalType
plain_type type_text =
    if type_text == "tinyint"
    then some tinyint
    else if type_text == "smallint"
    then some smallint
    else if type_text == "bigint"
    then some bigint
    else if type_text == "int"
    then some integer
    else if type_text == "long"
    then some bigint
    else if type_text == "string"
    then some varchar
    else if type_text == "double"
    then some double
    else if type_text == "float"
    then some float
    else if type_text == "boolean"
    then some boolean
    else if type_text == "timestamp"
    then some timestamp
    else if type_text == "timestamptz"
    then some timestamp_tz
    else if type_text == "binary"
    then some blob
    else if type_text == "date"
    then some date
    else none
