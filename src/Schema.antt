-- ===== src/Schema.antt =====
-- src/common/schema.cpp: the column types of a schema in the metadata JSON, and the choice of the
-- schema by its id. The default value of a column is the NULL of its type, and is left out.
pub mod ColumnTypes
pub mod Primitive
pub mod Termination
pub mod Choice
use duckdb_iceberg.Common.{
  ℕ, zero, suc, String, Bool, Option, none, some, List, [], ◌∷◌, Error, Result, ok, throw,
  io_exception, out_of_fuel, ◌>>=◌, ◌>>◌, throw_if, or_throw, ◌==◌, not, eqb, if◌then◌else◌,
  map_result,
}
use duckdb_iceberg.Json.{Json, null, bool, num, str, arr, obj, obj_get, arr_items}
use duckdb_iceberg.Json.Depth.{depth, depth?}
use duckdb_iceberg.Utils.{try_get_num, try_get_bool, try_get_str}
use duckdb_iceberg.Duckdb.{StringUtil}
use duckdb_iceberg.Schema.ColumnTypes.{LogicalType, Children, nil, child, list, map, struct}
use duckdb_iceberg.Schema.Primitive.{parse_primitive}

abbrev pub invalid_type : Error
invalid_type = io_exception "Invalid field found while parsing field: type"

module _ (parse : Option Json → Result LogicalType) where
  -- The loop of `ParseStruct` over the fields.
  unfoldable pub parse_children : List Json → Result Children
  parse_children [] = ok nil
  parse_children (field ∷ fields) = do
    name ← try_get_str (some field) "name"
    type ← parse (obj_get (some field) "type")
    rest ← parse_children fields
    ok (child name type rest)

  unfoldable pub parse_struct : Json → Result LogicalType
  unfolding parse_children
  parse_struct type = do ok (struct (← parse_children (arr_items (obj_get (some type) "fields"))))

  unfoldable pub parse_list : Json → Result LogicalType
  parse_list type = do ok (list (← parse (obj_get (some type) "element")))

  unfoldable pub parse_map : Json → Result LogicalType
  parse_map type = do
    key ← parse (obj_get (some type) "key")
    value ← parse (obj_get (some type) "value")
    ok (map key value)

  unfoldable pub parse_complex_type : Json → Result LogicalType
  unfolding parse_struct parse_list parse_map
  parse_complex_type type = do
    type_str ← try_get_str (some type) "type"
    if type_str == "struct"
        then parse_struct type
        else if type_str == "list"
        then parse_list type
        else if type_str == "map"
        then parse_map type
        else throw invalid_type

  -- The cases of `ParseTypeValue`, over the kind of the value.
  unfoldable pub parse_by_kind : StringUtil → Option Json → Result LogicalType
  unfolding parse_complex_type
  parse_by_kind u none = throw invalid_type
  parse_by_kind u (some (obj ps)) = parse_complex_type (obj ps)
  parse_by_kind u (some (str type_str)) = parse_primitive u type_str
  parse_by_kind u (some _) = throw invalid_type

module _ (u : StringUtil) where
  unfoldable pub parse_type_value_on : ℕ → Option Json → Result LogicalType
  unfolding parse_by_kind
  parse_type_value_on zero v = throw out_of_fuel
  parse_type_value_on (suc fuel) v = parse_by_kind (parse_type_value_on fuel) u v

  -- Each level of the recursion goes one level down in the value.
  unfoldable pub parse_type_value : Option Json → Result LogicalType
  unfolding parse_type_value_on depth
  parse_type_value v = parse_type_value_on (suc (depth? v)) v

  unfoldable pub parse_type : Json → Result LogicalType
  unfolding parse_type_value
  parse_type v = do
    val ← or_throw (obj_get (some v) "type") invalid_type
    parse_type_value (some val)

pub record IcebergColumnDefinition : Type 0 where
  pub id : ℕ
  pub name : String
  pub type : LogicalType
  pub required : Bool

module _ (u : StringUtil) where
  unfoldable pub parse_column : Json → Result IcebergColumnDefinition
  unfolding parse_type
  parse_column v = do
    id ← try_get_num (some v) "id"
    name ← try_get_str (some v) "name"
    type ← parse_type u v
    required ← try_get_bool (some v) "required"
    ok (record { id = id; name = name; type = type; required = required })

  unfoldable pub parse_schema_from_json : Json → Result (List IcebergColumnDefinition)
  unfolding parse_column
  parse_schema_from_json schema_json = do
    type_str ← try_get_str (some schema_json) "type"
    throw_if (not (type_str == "struct")) (io_exception "Schema in JSON Metadata is invalid")
    map_result parse_column (arr_items (obj_get (some schema_json) "fields"))

  unfoldable pub parse_schema : List Json → ℕ → Result (List IcebergColumnDefinition)
  unfolding parse_schema_from_json
  parse_schema [] schema_id = throw (io_exception "Iceberg schema was not found!")
  parse_schema (schema ∷ schemas) schema_id = do
    found_schema_id ← try_get_num (some schema) "schema-id"
    if eqb found_schema_id schema_id
        then parse_schema_from_json schema
        else parse_schema schemas schema_id
