-- ===== src/FileList/Columns.antt =====
-- `IcebergMultiFileReader`: the columns that it binds and the position of the column
-- `file_row_number`, which the deletes are applied by; and what it answers on the list of files.
-- DuckDB's base class is left out.
use duckdb_iceberg.Common.{
  ℕ, suc, String, Bool, false, Option, none, some, List, [], ◌∷◌, ◌++◌, Result, ok, throw,
  io_exception, binder_exception, undefined_behaviour, ◌>>=◌, or_throw, eqb, if◌then◌else◌, length,
  get_elem?, ltb,
}
use duckdb_iceberg.Duckdb.{StringUtil, ClientContext, ci_find, ci_set}
use duckdb_iceberg.Schema.{IcebergColumnDefinition}
use duckdb_iceberg.Schema.ColumnTypes.{LogicalType}
use duckdb_iceberg.Reader.{AvroScan}
use duckdb_iceberg.Snapshot.{IcebergOptions}
use duckdb_iceberg.FileList.{get_total_file_count}
use duckdb_iceberg.FileList.Initial.{Files}

pub record ColumnDefinition : Type 0 where
  pub name : String
  pub type : LogicalType
  pub identifier : ℕ

-- `IcebergMultiFileList::Bind`, after `InitializeFiles`: the names and the types of the schema are
-- appended to those that are there.
unfoldable pub list_bind :
    List IcebergColumnDefinition → List (String × LogicalType) → List (String × LogicalType)
list_bind [] names = names
list_bind (schema_entry ∷ schema) names =
    list_bind schema (names ++ ((schema_entry.name, schema_entry.type) ∷ []))

-- The columns of the schema, found by their field ids.
unfoldable pub bind_columns : List IcebergColumnDefinition → List ColumnDefinition
bind_columns [] = []
bind_columns (item ∷ schema) =
    record { name = item.name; type = item.type; identifier = item.id } ∷ bind_columns schema

pub record BindData : Type 0 where
  pub schema : List ColumnDefinition
  pub file_row_number_idx : ℕ

-- `Bind` of the reader: the names and types of the output, the columns, and the index that
-- `file_row_number` gets.
unfoldable pub bind :
    List IcebergColumnDefinition
    → List (String × LogicalType)
    → List ColumnDefinition
    → List (String × LogicalType) × BindData
unfolding list_bind bind_columns
bind schema names columns =
    let names' = list_bind schema names in
    (
      names',
      record { schema = columns ++ bind_columns schema; file_row_number_idx = length names' },
    )

-- `MultiFileReaderOptions`, as far as `BindOptions` sets them.
pub record ReaderOptions : Type 0 where
  pub auto_detect_hive_partitioning : Bool
  pub hive_partitioning : Bool
  pub union_by_name : Bool

-- `BindOptions`, before the one of the base class, which is given.
unfoldable pub bind_reader_options :
    (ReaderOptions → Result ReaderOptions) → ReaderOptions → Result ReaderOptions
bind_reader_options base options = base (record options {
  auto_detect_hive_partitioning = false;
  hive_partitioning = false;
  union_by_name = false;
})

-- `CreateFileList`: the path that `InitializeFiles` is given.
unfoldable pub create_file_list : List String → Result String
create_file_list (path ∷ []) = ok path
create_file_list paths =
    throw (binder_exception "'iceberg_scan' only supports single path as input")

module _ (context : ClientContext) (open_avro : String → Result AvroScan) (path : String)
    (options : IcebergOptions) where
  -- `GetCardinality`: a table without files has none, of any other it is not known. The cardinality
  -- and the greatest one are the pair.
  unfoldable pub get_cardinality : ℕ → Files → Result (Files × Option (ℕ × ℕ))
  unfolding get_total_file_count
  get_cardinality fuel files = do
    out ← get_total_file_count context open_avro path options fuel files
    ok (out.0, if eqb (out.1) 0 then some (0, 0) else none)

module _ (u : StringUtil) where
  -- `selected_columns.insert`, which keeps the index of a name that is present.
  abbrev insert_unless : Option ℕ → List (String × ℕ) → String → ℕ → List (String × ℕ)
  insert_unless none selected name i = ci_set u selected name i
  insert_unless (some j) selected name i = selected

  abbrev pub insert_column : List (String × ℕ) → String → ℕ → List (String × ℕ)
  insert_column selected name i = insert_unless (ci_find u selected name) selected name i

  -- The columns of the projection, from position `i` on; the row id column is `none`.
  unfoldable pub select_columns :
      List ColumnDefinition → ℕ → List (Option ℕ) → List (String × ℕ) → Result (List (String × ℕ))
  select_columns columns i [] selected = ok selected
  select_columns columns i (none ∷ ids) selected = select_columns columns (suc i) ids selected
  select_columns columns i (some global_id ∷ ids) selected = do
    column ← or_throw (get_elem? columns global_id) undefined_behaviour
    select_columns columns (suc i) ids (insert_column selected column.name i)

  -- `InitializeGlobalState`: where `file_row_number` stands, and the number of extra columns.
  unfoldable pub initialize_global_state : List ColumnDefinition → List (Option ℕ) → Result (ℕ × ℕ)
  unfolding select_columns ci_find
  initialize_global_state global_columns global_column_ids = do
    selected_columns ← select_columns global_columns 0 global_column_ids []
    ok (elim (ci_find u selected_columns "file_row_number") [
      | some i ↦ (i, 0)
      | none ↦ (length global_column_ids, 1)
    ])

  -- The name map of `CreateColumnMapping`, from column `col_idx` on.
  unfoldable pub name_map : ℕ → List ColumnDefinition → List (String × ℕ) → List (String × ℕ)
  unfolding ci_set
  name_map col_idx [] m = m
  name_map col_idx (column ∷ columns) m =
      name_map (suc col_idx) columns (ci_set u m column.name col_idx)

  -- `CreateColumnMapping`: the column of the file that is read besides those of the projection,
  -- with its place in the chunk.
  unfoldable pub create_column_mapping :
      List ColumnDefinition → List (Option ℕ) → ℕ → Result (Option (ℕ × ℕ))
  unfolding name_map
  create_column_mapping local_columns global_column_ids file_row_number_idx =
      if ltb file_row_number_idx (length global_column_ids)
      then ok none
      else elim (ci_find u (name_map 0 local_columns []) "file_row_number") [
        | none ↦ throw (io_exception "Failed to find the file_row_number column")
        | some col_idx ↦ ok (some (col_idx, file_row_number_idx))
      ]
