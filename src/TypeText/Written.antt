-- ===== src/TypeText/Written.antt =====
-- How a type is written in the texts of a catalog, with the types in brackets after "array", "map"
-- and "struct": the grammar that `TypeToLogicalType` is measured against.
use Prim.Native.Char.{Char, code}
use duckdb_iceberg.Common.{join, ◌≡◌, String, Bool, true, not, ◌&&◌, ◌||◌, eqb}
use duckdb_iceberg.Schema.ColumnTypes.{
  LogicalType, Children, boolean, tinyint, smallint, integer, bigint, float, double, date,
  timestamp, timestamp_tz, varchar, blob, list, map, struct, nil, child,
}

abbrev pub bracketed : String → String → String
bracketed opening body = join opening (join body ">")

abbrev mutual
  pub type_text : LogicalType → String
  type_text tinyint = "tinyint"
  type_text smallint = "smallint"
  type_text integer = "int"
  type_text bigint = "long"
  type_text varchar = "string"
  type_text double = "double"
  type_text float = "float"
  type_text boolean = "boolean"
  type_text timestamp = "timestamp"
  type_text timestamp_tz = "timestamptz"
  type_text blob = "binary"
  type_text date = "date"
  type_text (list type) = bracketed "array<" (type_text type)
  type_text (map key value) = bracketed "map<" (join (type_text key) (join "," (type_text value)))
  type_text (struct cs) = bracketed "struct<" (fields_text cs)
  type_text _ = ""

  pub fields_text : Children → String
  fields_text nil = ""
  fields_text (child name type nil) = join name (join ":" (type_text type))
  fields_text (child name type (child n t cs)) =
      join (join name (join ":" (type_text type))) (join "," (fields_text (child n t cs)))

-- A name of a field that holds no separator.
abbrev pub is_separator : Char → Bool
is_separator c = eqb (code c) b',' || eqb (code c) b':' || eqb (code c) b'<' || eqb (code c) b'>'

abbrev pub is_plain : String → Bool
is_plain String.[] = true
is_plain (String.◌∷◌ c s) = not (is_separator c) && is_plain s

-- The types that have such a text. A decimal has none: its ',' stands in no angle brackets.
abbrev mutual
  pub IsWritten : LogicalType → Type 0
  IsWritten tinyint = Unit
  IsWritten smallint = Unit
  IsWritten integer = Unit
  IsWritten bigint = Unit
  IsWritten varchar = Unit
  IsWritten double = Unit
  IsWritten float = Unit
  IsWritten boolean = Unit
  IsWritten timestamp = Unit
  IsWritten timestamp_tz = Unit
  IsWritten blob = Unit
  IsWritten date = Unit
  IsWritten (list type) = IsWritten type
  IsWritten (map key value) = IsWritten key × IsWritten value
  IsWritten (struct nil) = ⊥
  IsWritten (struct cs) = AreWritten cs
  IsWritten _ = ⊥

  pub AreWritten : Children → Type 0
  AreWritten nil = Unit
  AreWritten (child name type cs) = (is_plain name ≡ true) × IsWritten type × AreWritten cs
