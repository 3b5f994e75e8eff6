-- ===== src/Functions/Registry.antt =====
-- src/iceberg_functions.cpp and src/iceberg_functions/iceberg_scan.cpp: the table functions of the
-- extension, with the types of their arguments and of their named parameters. What DuckDB calls of
-- a function, its callbacks, are of a type that is left open.
use duckdb_iceberg.Common.{String, Option, none, some, List, [], ◌∷◌, ◌++◌, Result, ok, ◌>>=◌}
use duckdb_iceberg.Duckdb.{StringUtil, ci_set_all, ci_erase}
use duckdb_iceberg.Schema.ColumnTypes.{LogicalType, boolean, varchar, timestamp, ubigint}

pub record TableFunction (C : Type 0) : Type 0 where
  pub name : String
  pub arguments : List LogicalType
  pub named_parameters : List (String × LogicalType)
  pub function : Option C
  pub bind : Option C
  pub init_global : Option C
  pub get_multi_file_reader : Option C
  pub serialize : Option C
  pub deserialize : Option C
  pub statistics : Option C
  pub table_scan_progress : Option C
  pub get_bind_info : Option C

pub record TableFunctionSet (C : Type 0) : Type 0 where
  pub name : String
  pub functions : List (TableFunction C)

-- The parameters that `AddNamedParameters` adds.
abbrev pub scan_parameters : List (String × LogicalType)
scan_parameters =
    ("skip_schema_inference", boolean)
    ∷ ("allow_moved_paths", boolean)
    ∷ ("mode", varchar)
    ∷ ("metadata_compression_codec", varchar)
    ∷ ("version", varchar)
    ∷ ("version_name_format", varchar)
    ∷ ("snapshot_from_timestamp", timestamp)
    ∷ ("snapshot_from_id", ubigint)
    ∷ []

abbrev metadata_parameters : List (String × LogicalType)
metadata_parameters =
    ("allow_moved_paths", boolean)
    ∷ ("skip_schema_inference", boolean)
    ∷ ("metadata_compression_codec", varchar)
    ∷ ("version", varchar)
    ∷ ("version_name_format", varchar)
    ∷ []

abbrev snapshots_parameters : List (String × LogicalType)
snapshots_parameters =
    ("metadata_compression_codec", varchar)
    ∷ ("version", varchar)
    ∷ ("version_name_format", varchar)
    ∷ ("skip_schema_inference", boolean)
    ∷ []

-- The functions of the source that the table functions are made of.
pub record Callbacks (C : Type 0) : Type 0 where
  pub create_instance : C
  pub snapshots_function : C
  pub snapshots_bind : C
  pub snapshots_init : C
  pub metadata_function : C
  pub metadata_bind : C
  pub metadata_init : C

-- The constructor of `TableFunction`.
abbrev new_function :
    {C : Type 0} → List LogicalType → C → C → C → List (String × LogicalType) → TableFunction C
new_function arguments function bind init_global named_parameters = record {
  name = "";
  arguments = arguments;
  named_parameters = named_parameters;
  function = some function;
  bind = some bind;
  init_global = some init_global;
  get_multi_file_reader = none;
  serialize = none;
  deserialize = none;
  statistics = none;
  table_scan_progress = none;
  get_bind_info = none;
}

-- `TableFunctionSet::AddFunction` gives the function the name of the set.
abbrev add_function : {C : Type 0} → TableFunctionSet C → TableFunction C → TableFunctionSet C
add_function set fun = record set {
  functions = set.functions ++ (record fun { name = set.name } ∷ []);
}

module _ (u : StringUtil) {C : Type 0} where
  unfoldable pub add_named_parameters : TableFunction C → TableFunction C
  unfolding ci_set_all
  add_named_parameters fun = record fun {
    named_parameters = ci_set_all u fun.named_parameters scan_parameters;
  }

  -- The body of the loop of `GetIcebergScanFunction`.
  unfoldable pub scan_function : C → TableFunction C → TableFunction C
  unfolding ci_erase add_named_parameters
  scan_function create_instance function =
      let reader = record function { get_multi_file_reader = some create_instance } in
      let unset = record reader {
        serialize = none;
        deserialize = none;
        statistics = none;
        table_scan_progress = none;
        get_bind_info = none;
        named_parameters = ci_erase u reader.named_parameters "schema";
      } in
      record (add_named_parameters unset) { name = "iceberg_scan" }

  unfoldable scan_functions : C → List (TableFunction C) → List (TableFunction C)
  unfolding scan_function
  scan_functions create_instance [] = []
  scan_functions create_instance (function ∷ functions) =
      scan_function create_instance function ∷ scan_functions create_instance functions

  -- `parquet_scan` is DuckDB's set of that name.
  unfoldable pub get_iceberg_scan_function : C → TableFunctionSet C → TableFunctionSet C
  unfolding scan_functions
  get_iceberg_scan_function create_instance parquet_scan = record parquet_scan {
    functions = scan_functions create_instance parquet_scan.functions;
    name = "iceberg_scan";
  }

  unfoldable pub get_iceberg_snapshots_function : Callbacks C → TableFunctionSet C
  unfolding ci_set_all
  get_iceberg_snapshots_function calls =
      add_function (record { name = "iceberg_snapshots"; functions = [] })
        (new_function (varchar ∷ []) calls.snapshots_function calls.snapshots_bind
          calls.snapshots_init (ci_set_all u [] snapshots_parameters))

  abbrev metadata_on : Callbacks C → List LogicalType → TableFunction C
  metadata_on calls arguments =
      new_function arguments calls.metadata_function calls.metadata_bind calls.metadata_init
        (ci_set_all u [] metadata_parameters)

  -- Without a snapshot, with its id, and with a time.
  unfoldable pub get_iceberg_metadata_function : Callbacks C → TableFunctionSet C
  unfolding ci_set_all
  get_iceberg_metadata_function calls =
      add_function
        (add_function
          (add_function (record { name = "iceberg_metadata"; functions = [] })
            (metadata_on calls (varchar ∷ [])))
          (metadata_on calls (varchar ∷ ubigint ∷ [])))
        (metadata_on calls (varchar ∷ timestamp ∷ []))

  -- `GetTableFunction(instance, name)` of DuckDB is given. There are no scalar functions.
  unfoldable pub get_table_functions :
      Callbacks C → (String → Result (TableFunctionSet C)) → Result (List (TableFunctionSet C))
  unfolding get_iceberg_scan_function get_iceberg_snapshots_function get_iceberg_metadata_function
  get_table_functions calls get_table_function = do
    parquet_scan ← get_table_function "parquet_scan"
    ok (
        get_iceberg_snapshots_function calls
        ∷ get_iceberg_scan_function calls.create_instance parquet_scan
        ∷ get_iceberg_metadata_function calls
        ∷ [])
