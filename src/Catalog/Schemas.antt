-- ===== src/Catalog/Schemas.antt =====
-- src/storage/irc_schema_set.cpp, src/storage/irc_schema_entry.cpp, src/storage/irc_clear_cache.cpp
-- and the schemas of src/storage/irc_catalog.cpp.
use duckdb_iceberg.Common.{
  ℕ, String, Bool, true, false, not, Option, none, some, List, [], ◌∷◌, Result, ok, throw,
  not_implemented, invalid_input, binder_exception, internal_exception, ◌>>=◌, is_empty, ◌==◌,
  if◌then◌else◌,
}
use duckdb_iceberg.Duckdb.{StringUtil}
use duckdb_iceberg.Catalog.Entries.{create_entry, get_entry, clear_entries, scan}
use duckdb_iceberg.Catalog.Requests.{ApiSchema, IrcCatalog, Session}
use duckdb_iceberg.Catalog.Tables.{Service, get_schemas}
use duckdb_iceberg.Catalog.TableSet.{TableEntry, TableEntries, load_tables, fill_table}

-- `IRCSchemaEntry`
pub record SchemaEntry : Type 0 where
  pub name : String
  pub schema_data : ApiSchema
  pub tables : TableEntries

abbrev pub SchemaEntries : Type 0
SchemaEntries = List (String × SchemaEntry)

-- Of DuckDB's `CatalogType`, those that a schema tells apart.
pub data EntryType : Type 0 where
  index_entry table_entry view_entry other_entry : EntryType

unfoldable pub catalog_type_is_supported : EntryType → Bool
catalog_type_is_supported other_entry = false
catalog_type_is_supported _ = true

-- An index passes the test above, and has no set.
unfoldable pub get_catalog_set : SchemaEntry → EntryType → Result TableEntries
get_catalog_set schema table_entry = ok schema.tables
get_catalog_set schema view_entry = ok schema.tables
get_catalog_set schema _ = throw (internal_exception "Type not supported for GetCatalogSet")

-- `IRCSchemaEntry::GetEntry`, with the lookup in a set as `get_entry_of`.
unfoldable pub schema_get_entry :
    (TableEntries → String → Session → Result (Option TableEntry × TableEntries × Session))
    → SchemaEntry
    → EntryType
    → String
    → Session
    → Result (Option TableEntry × SchemaEntry × Session)
unfolding catalog_type_is_supported get_catalog_set
schema_get_entry get_entry_of schema type name session =
    if not (catalog_type_is_supported type) then ok (none, schema, session) else (do
      tables ← get_catalog_set schema type
      found ← get_entry_of tables name session
      ok (found.0, record schema { tables = found.1 }, found.2))

-- `CreateSchema` and `DropSchema` of the set end in requests that are not implemented, and before
-- anything is dropped.
unfoldable pub create_schema : String → Result SchemaEntry
create_schema schema = throw (not_implemented "IRCAPI::Create Schema not Implemented")

unfoldable pub drop_schema : String → Result SchemaEntries
drop_schema schema = throw (not_implemented "IRCAPI Drop Schema not Implemented")

-- `IRCatalog::CreateSchema`; a schema that is to be replaced is dropped first.
unfoldable pub catalog_create_schema : Bool → String → Result SchemaEntry
unfolding create_schema drop_schema
catalog_create_schema true schema = drop_schema schema >>= λ entries. create_schema schema
catalog_create_schema false schema = create_schema schema

module _ (service : Service) (catalog : IrcCatalog) (u : StringUtil) where
  unfoldable pub create_schemas : SchemaEntries → List ApiSchema → Result SchemaEntries
  unfolding create_entry
  create_schemas entries [] = ok entries
  create_schemas entries (schema ∷ schemas) = do
    let entry : SchemaEntry = record {
      name = schema.schema_name;
      schema_data = schema;
      tables = [];
    }
    created ← create_entry u entries entry.name entry
    create_schemas created.0 schemas

  unfoldable pub load_schemas : SchemaEntries → Session → Result (SchemaEntries × Session)
  unfolding get_schemas create_schemas
  load_schemas entries session = if not (is_empty entries) then ok (entries, session) else (do
    schemas ← get_schemas service catalog session
    loaded ← create_schemas entries schemas.0
    ok (loaded, schemas.1))

  abbrev fill_schema : SchemaEntry → Session → Result (SchemaEntry × Session)
  fill_schema entry session = ok (entry, session)

  abbrev or_missing :
      Bool
      → Option SchemaEntry × SchemaEntries × Session
      → Result (Option SchemaEntry × SchemaEntries × Session)
  or_missing return_null (some entry, entries, session) = ok (some entry, entries, session)
  or_missing true (none, entries, session) = ok (none, entries, session)
  or_missing false (none, entries, session) =
      throw (binder_exception "Schema with name \"%s\" not found")

  -- `ScanSchemas`
  unfoldable pub scan_schemas :
      {S : Type 0}
      → (SchemaEntry → S → S)
      → SchemaEntries
      → S
      → Session
      → Result (S × SchemaEntries × Session)
  unfolding scan load_schemas
  scan_schemas callback = scan u load_schemas fill_schema callback

  -- `IRCSchemaEntry::Scan`
  unfoldable pub schema_scan :
      {S : Type 0}
      → (String → Result ℕ)
      → (TableEntry → S → S)
      → SchemaEntry
      → EntryType
      → S
      → Session
      → Result (S × SchemaEntry × Session)
  unfolding catalog_type_is_supported get_catalog_set scan load_tables fill_table
  schema_scan cast callback schema type s session =
      if not (catalog_type_is_supported type) then ok (s, schema, session) else (do
        tables ← get_catalog_set schema type
        scanned ←
            scan u (load_tables cast service catalog u schema.name)
              (fill_table cast service catalog u schema.name) callback tables s session
        ok (scanned.0, record schema { tables = scanned.1 }, scanned.2))

  -- `IRCatalog::GetSchema`, with DuckDB's name `DEFAULT_SCHEMA`. `default_schema` is empty in every
  -- catalog, as nothing sets it.
  unfoldable pub get_schema :
      String
      → SchemaEntries
      → String
      → Bool
      → Session
      → Result (Option SchemaEntry × SchemaEntries × Session)
  unfolding get_entry load_schemas
  get_schema default_name entries schema_name return_null session =
      if schema_name == default_name
      then (if return_null
          then ok (none, entries, session)
          else throw (
              invalid_input
                "Attempting to fetch the default schema - but no database was provided in the connection string"))
      else (get_entry u load_schemas fill_schema entries schema_name session
          >>= or_missing return_null)

  -- `IRCatalog::ClearCache`
  unfoldable pub clear_cache : SchemaEntries → SchemaEntries
  unfolding clear_entries
  clear_cache entries = clear_entries u entries

  -- `ClearIRCCaches`, of databases with the type of their catalog and its schemas.
  unfoldable pub clear_irc_caches : List (String × SchemaEntries) → List (String × SchemaEntries)
  unfolding clear_cache
  clear_irc_caches [] = []
  clear_irc_caches ((type, schemas) ∷ databases) =
      (type, if type == "iceberg" then clear_cache schemas else schemas)
      ∷ clear_irc_caches databases

  -- The table function clears the caches once; the state says whether it has.
  unfoldable pub clear_cache_function :
      Bool → List (String × SchemaEntries) → Bool × List (String × SchemaEntries)
  unfolding clear_irc_caches
  clear_cache_function true databases = (true, databases)
  clear_cache_function false databases = (true, clear_irc_caches databases)

-- `GetDatabaseSize`
unfoldable pub get_database_size : Result (Unit {0})
get_database_size = throw (
    invalid_input
      "Attempting to fetch the database size - but no database was provided in the connection string")
