-- ===== src/Catalog/Requests.antt =====
-- src/catalog_api.cpp: what the catalog asks of its service. The HTTP requests, which
-- src/common/api_utils.cpp makes, are a parameter; an answer may depend on the requests before it.
use duckdb_iceberg.Common.{
  ℕ, ◌||◌, ◌-◌, ◌+◌, ◌%◌, ◌^◌, String, Bool, false, Option, some, List, [], ◌∷◌, ◌++◌, Result, ok,
  invalid_input, ◌>>=◌, throw_if, ◌>>◌, ◌==◌, ◌+++◌, eqb, not, if◌then◌else◌, map_result,
}
use duckdb_iceberg.Json.{Json, obj_get, arr_items}
use duckdb_iceberg.Utils.{try_get_num, try_get_str}
use duckdb_iceberg.Catalog.Endpoint.{
  IrcEndpointBuilder, add_path_component, CatalogType, get_base_url,
}
use duckdb_iceberg.Catalog.Cache.{MetadataCache}

-- `IRCAPIColumnDefinition`; the numbers are of type `idx_t`.
pub record ApiColumnDefinition : Type 0 where
  pub name : String
  pub type_text : String
  pub precision : ℕ
  pub scale : ℕ
  pub position : ℕ

-- `IRCAPITable`. The type of the table is never set.
pub record ApiTable : Type 0 where
  pub table_id : String
  pub name : String
  pub catalog_name : String
  pub schema_name : String
  pub data_source_format : String
  pub storage_location : String
  pub columns : List ApiColumnDefinition

-- `IRCAPISchema`
pub record ApiSchema : Type 0 where
  pub schema_name : String
  pub catalog_name : String

-- What a request needs of `IRCatalog`.
pub record IrcCatalog : Type 0 where
  pub name : String
  pub host : String
  pub version : String
  pub prefix : String
  pub secret_name : String
  pub token : String
  pub catalog_type : CatalogType

pub record Request : Type 0 where
  pub url : IrcEndpointBuilder
  pub secret_name : String
  pub token : String
  pub extra_headers : List String

-- The cache of the catalog, and the requests that were answered, the last one first.
pub record Session : Type 0 where
  pub metadata_cache : MetadataCache
  pub requests : List Request

-- `-1` as an `idx_t`
abbrev pub no_index : ℕ
no_index = 2 ^ 64 - 1

-- `id - 1`, of a `uint64_t`
abbrev pub position_of : ℕ → ℕ
position_of id = (id + 2 ^ 64 - 1) % 2 ^ 64

unfoldable pub decimal_number : String → Option Json → String → Result ℕ
unfolding try_get_num
decimal_number type_text column_def field =
    if type_text == "decimal" then try_get_num column_def field else ok no_index

unfoldable pub parse_column_definition : Json → Result ApiColumnDefinition
unfolding decimal_number try_get_num try_get_str
parse_column_definition column_def = do
  name ← try_get_str (some column_def) "name"
  type_text ← try_get_str (some column_def) "type"
  precision ← decimal_number type_text (some column_def) "type_precision"
  scale ← decimal_number type_text (some column_def) "type_scale"
  id ← try_get_num (some column_def) "id"
  ok (record {
    name = name;
    type_text = type_text;
    precision = precision;
    scale = scale;
    position = position_of id;
  })

-- The loop of `populateTableMetadata` over the schemas, with the columns so far.
unfoldable pub schemas_loop :
    ℕ → Bool → List ApiColumnDefinition → List Json → Result (Bool × List ApiColumnDefinition)
unfolding try_get_num
schemas_loop current_schema_id found columns [] = ok (found, columns)
schemas_loop current_schema_id found columns (schema ∷ schemas) = do
  schema_id ← try_get_num (some schema) "schema-id"
  let current = eqb schema_id current_schema_id
  let fields = if current then arr_items (obj_get (some schema) "fields") else []
  parsed ← map_result parse_column_definition fields
  schemas_loop current_schema_id (found || current) (columns ++ parsed) schemas

unfoldable pub populate_table_metadata : ApiTable → Option Json → Result ApiTable
unfolding schemas_loop try_get_num try_get_str
populate_table_metadata table metadata_root = do
  storage_location ← try_get_str metadata_root "metadata-location"
  let metadata = obj_get metadata_root "metadata"
  current_schema_id ← try_get_num metadata "current-schema-id"
  result ←
      schemas_loop current_schema_id false table.columns (arr_items (obj_get metadata "schemas"))
  throw_if (not result.0) (invalid_input "Current schema not found")
  ok (record table { storage_location = storage_location; columns = result.1 })

-- The name of the table does not enter its id.
unfoldable pub create_table_result : (String → String) → IrcCatalog → String → String → ApiTable
create_table_result underscores_to_dashes catalog schema table_name = record {
  table_id = underscores_to_dashes ("uuid-" +++ schema +++ "-" +++ "table");
  name = table_name;
  catalog_name = catalog.name;
  schema_name = schema;
  data_source_format = "ICEBERG";
  storage_location = "";
  columns = [];
}

-- The column of a table whose metadata has not been asked for.
abbrev pub placeholder : ApiColumnDefinition
placeholder = record {
  name = "__";
  type_text = "int";
  precision = no_index;
  scale = no_index;
  position = 0;
}

unfoldable pub tables_url : IrcCatalog → String → IrcEndpointBuilder
unfolding get_base_url add_path_component
tables_url catalog schema = add_path_component "tables" (
    add_path_component schema (
      add_path_component "namespaces" (
        add_path_component catalog.prefix
          (get_base_url catalog.catalog_type catalog.host catalog.version))))

unfoldable pub table_url : IrcCatalog → String → String → IrcEndpointBuilder
unfolding tables_url
table_url catalog schema table = add_path_component table (tables_url catalog schema)

unfoldable pub namespaces_url : IrcCatalog → IrcEndpointBuilder
unfolding get_base_url add_path_component
namespaces_url catalog = add_path_component "namespaces" (
    add_path_component catalog.prefix
      (get_base_url catalog.catalog_type catalog.host catalog.version))
