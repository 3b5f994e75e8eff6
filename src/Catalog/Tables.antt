-- ===== src/Catalog/Tables.antt =====
-- src/catalog_api.cpp: the tables and the schemas that the service answers, and the metadata of a
-- table, which may come from the cache.
use duckdb_iceberg.Common.{
  ℕ, String, Bool, true, false, Option, none, some, List, [], ◌∷◌, Result, ok, logic_error, ◌>>=◌,
  or_throw, if◌then◌else◌, map_result,
}
use duckdb_iceberg.Json.{Json, obj_get, arr_items, get_str}
use duckdb_iceberg.Utils.{try_get_str}
use duckdb_iceberg.Catalog.Endpoint.{IrcEndpointBuilder, get_url}
use duckdb_iceberg.Catalog.Config.{api_result_to_doc}
use duckdb_iceberg.Catalog.Cache.{has_cached_value, get_cached_value, set_cached_value}
use duckdb_iceberg.Catalog.Requests.{
  ApiTable, ApiSchema, IrcCatalog, Request, Session, populate_table_metadata, create_table_result,
  placeholder, tables_url, table_url, namespaces_url,
}

-- What the requests use of other libraries. `get_request` is given the requests that were answered
-- before.
pub record Service : Type 0 where
  pub get_request : List Request → Request → Result String
  pub post_request : String → String → Result String
  pub yyjson_read : String → Option Json
  pub stoll : String → Result ℕ
  pub url_encode : String → String
  pub underscores_to_dashes : String → String

module _ (service : Service) (catalog : IrcCatalog) where
  open service use {
    get_request, post_request, yyjson_read, stoll, url_encode, underscores_to_dashes,
  }

  -- `APIUtils::GetRequest`, with the answer noted.
  unfoldable pub ask : Session → Request → Result (String × Session)
  ask session request = do
    answer ← get_request session.requests request
    ok (answer, record session { requests = request ∷ session.requests })

  abbrev pub metadata_request : String → String → String → Request
  metadata_request schema table secret_name = record {
    url = table_url catalog schema table;
    secret_name = secret_name;
    token = catalog.token;
    extra_headers = "X-Iceberg-Access-Delegation: vended-credentials" ∷ [];
  }

  unfoldable pub get_table_metadata : Session → String → String → String → Result (String × Session)
  unfolding ask table_url get_url set_cached_value
  get_table_metadata session schema table secret_name = do
    asked ← ask session (metadata_request schema table secret_name)
    cached ←
        set_cached_value yyjson_read stoll asked.1.metadata_cache
          (get_url url_encode (table_url catalog schema table)) asked.0
    ok (asked.0, record asked.1 { metadata_cache = cached.0 })

  -- The clock is read by `HasCachedValue` and again by `GetCachedValue`.
  unfoldable pub get_table_metadata_cached :
      ℕ → ℕ → Session → String → String → String → Result (String × Session)
  unfolding get_table_metadata table_url get_url has_cached_value get_cached_value
  get_table_metadata_cached now later session schema table secret_name =
      let url = get_url url_encode (table_url catalog schema table) in
      let served =
        get_cached_value later session.metadata_cache url >>= λ value. ok (value, session) in
      if has_cached_value now session.metadata_cache url
      then served
      else get_table_metadata session schema table secret_name

  -- `GetTable` without credentials leaves the metadata for later.
  unfoldable pub get_table : Session → String → String → Bool → Result (ApiTable × Session)
  unfolding create_table_result get_table_metadata populate_table_metadata api_result_to_doc
  get_table session schema table_name true = do
    let table = create_table_result underscores_to_dashes catalog schema table_name
    result ← get_table_metadata session schema table.name catalog.secret_name
    metadata_root ← api_result_to_doc yyjson_read result.0
    filled ← populate_table_metadata table metadata_root
    ok (filled, result.1)
  get_table session schema table_name false =
      let table = create_table_result underscores_to_dashes catalog schema table_name in
      ok (record table { columns = placeholder ∷ [] }, session)

  abbrev tables_request : IrcEndpointBuilder → Request
  tables_request url = record {
    url = url;
    secret_name = catalog.secret_name;
    token = catalog.token;
    extra_headers = [];
  }

  unfoldable pub tables_loop : Session → String → List Json → Result (List ApiTable × Session)
  unfolding get_table try_get_str
  tables_loop session schema [] = ok ([], session)
  tables_loop session schema (table ∷ tables) = do
    name ← try_get_str (some table) "name"
    first ← get_table session schema name false
    rest ← tables_loop first.1 schema tables
    ok (first.0 ∷ rest.0, rest.1)

  unfoldable pub get_tables : Session → String → Result (List ApiTable × Session)
  unfolding ask tables_url tables_loop api_result_to_doc
  get_tables session schema = do
    asked ← ask session (tables_request (tables_url catalog schema))
    root ← api_result_to_doc yyjson_read asked.0
    tables_loop asked.1 schema (arr_items (obj_get root "identifiers"))

  -- The first part of each namespace is its name.
  abbrev first_item : List Json → Option Json
  first_item [] = none
  first_item (item ∷ items) = some item

  unfoldable pub schema_of : Json → Result ApiSchema
  schema_of schema = do
    schema_name ← or_throw (get_str (first_item (arr_items (some schema)))) logic_error
    ok (record { schema_name = schema_name; catalog_name = catalog.name })

  unfoldable pub get_schemas : Session → Result (List ApiSchema × Session)
  unfolding ask namespaces_url schema_of api_result_to_doc
  get_schemas session = do
    asked ← ask session (tables_request (namespaces_url catalog))
    root ← api_result_to_doc yyjson_read asked.0
    schemas ← map_result schema_of (arr_items (obj_get root "namespaces"))
    ok (schemas, asked.1)
