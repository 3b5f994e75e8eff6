-- ===== src/Catalog/TableSet.antt =====
-- src/storage/irc_table_set.cpp: the tables of a schema. They are listed by their names first, and
-- the metadata of a table is asked for when it is looked up.
use duckdb_iceberg.Common.{
  ℕ, String, true, not, Option, List, [], ◌∷◌, Result, ok, throw, not_implemented, ◌>>=◌, is_empty,
  empty, map_result, if◌then◌else◌,
}
use duckdb_iceberg.Duckdb.{StringUtil}
use duckdb_iceberg.Schema.ColumnTypes.{LogicalType}
use duckdb_iceberg.TypeText.Parser.{type_to_logical_type}
use duckdb_iceberg.Catalog.Entries.{create_entry, get_entry}
use duckdb_iceberg.Catalog.Requests.{ApiColumnDefinition, ApiTable, IrcCatalog, Session}
use duckdb_iceberg.Catalog.Tables.{Service, get_table, get_tables}

-- `ICTableEntry`: what the service said of the table, and its columns.
pub record TableEntry : Type 0 where
  pub name : String
  pub table_data : ApiTable
  pub columns : List (String × LogicalType)

abbrev pub TableEntries : Type 0
TableEntries = List (String × TableEntry)

-- `GetTableInfo`, and `CreateTable`, `DropTable` and `AlterTable` with what they call.
unfoldable pub refresh_table : String → Result TableEntry
refresh_table table_name = throw (not_implemented "ICTableSet::GetTableInfo")

unfoldable pub create_table : String → Result TableEntry
create_table table_name = throw (not_implemented "IRCAPI Create Table not Implemented")

unfoldable pub drop_table : String → Result TableEntries
drop_table table_name = throw (not_implemented "IRCAPI Drop Table not Implemented")

unfoldable pub alter_table : String → Result TableEntries
alter_table table_name = throw (not_implemented "ICTableSet::AlterTable")

module _ (cast : String → Result ℕ) where
  unfoldable pub create_column_definition : ApiColumnDefinition → Result (String × LogicalType)
  unfolding type_to_logical_type
  create_column_definition coldef = do
    type ← type_to_logical_type cast coldef.type_text
    ok (coldef.name, type)

  unfoldable pub create_catalog_entry : ApiTable → Result TableEntry
  unfolding create_column_definition
  create_catalog_entry table = do
    columns ← map_result create_column_definition table.columns
    ok (record { name = table.name; table_data = table; columns = columns })

  module _ (service : Service) (catalog : IrcCatalog) (u : StringUtil) (schema : String) where
    -- The entry is left alone if its metadata is there.
    unfoldable pub fill_table : TableEntry → Session → Result (TableEntry × Session)
    unfolding get_table create_catalog_entry
    fill_table entry session =
        if not (empty entry.table_data.storage_location) then ok (entry, session) else (do
          table ← get_table service catalog session schema entry.name true
          filled ← create_catalog_entry table.0
          ok (filled, table.1))

    unfoldable pub create_tables : TableEntries → List ApiTable → Result TableEntries
    unfolding create_catalog_entry create_entry
    create_tables entries [] = ok entries
    create_tables entries (table ∷ tables) = do
      entry ← create_catalog_entry table
      created ← create_entry u entries entry.name entry
      create_tables created.0 tables

    unfoldable pub load_tables : TableEntries → Session → Result (TableEntries × Session)
    unfolding get_tables create_tables
    load_tables entries session = if not (is_empty entries) then ok (entries, session) else (do
      tables ← get_tables service catalog session schema
      loaded ← create_tables entries tables.0
      ok (loaded, tables.1))

    -- `GetEntry` of the set.
    unfoldable pub get_table_entry :
        TableEntries → String → Session → Result (Option TableEntry × TableEntries × Session)
    unfolding get_entry load_tables fill_table
    get_table_entry = get_entry u load_tables fill_table
