-- ===== src/Extension/Load.antt =====
-- src/iceberg_extension.cpp: `LoadInternal`, on what DuckDB has registered.
use duckdb_iceberg.Common.{
  String, Bool, true, false, not, List, [], ◌∷◌, ◌++◌, Result, ok, missing_extension, ◌>>=◌,
  throw_if, ◌>>◌, ◌==◌, if◌then◌else◌,
}
use duckdb_iceberg.Schema.ColumnTypes.{LogicalType, boolean, varchar}
use duckdb_iceberg.Duckdb.{StringUtil, ci_set_all}
use duckdb_iceberg.Functions.Registry.{TableFunctionSet, Callbacks, get_table_functions}

-- A setting, with its type and its default.
pub record ExtensionOption : Type 0 where
  pub name : String
  pub type : LogicalType
  pub default_value : Bool

pub record SecretType : Type 0 where
  pub name : String
  pub default_provider : String

-- `CreateSecretFunction`, with the function that makes the secret.
pub record SecretFunction (C : Type 0) : Type 0 where
  pub secret_type : String
  pub provider : String
  pub function : C
  pub named_parameters : List (String × LogicalType)

-- `StorageExtension`
pub record StorageExtension (C : Type 0) : Type 0 where
  pub attach : C
  pub create_transaction_manager : C

-- A `DatabaseInstance`, as far as it is changed here.
pub record DatabaseInstance (C : Type 0) : Type 0 where
  pub loaded : List String
  pub options : List ExtensionOption
  pub table_functions : List (TableFunctionSet C)
  pub secret_types : List SecretType
  pub secret_functions : List (SecretFunction C)
  pub storage_extensions : List (String × StorageExtension C)

pub record LoadCallbacks (C : Type 0) : Type 0 where
  pub table_callbacks : Callbacks C
  pub create_catalog_secret : C
  pub iceberg_catalog_attach : C
  pub create_transaction_manager : C

abbrev is_loaded : List String → String → Bool
is_loaded [] name = false
is_loaded (extension ∷ extensions) name =
    if extension == name then true else is_loaded extensions name

-- The map of storage extensions compares names as they are.
abbrev set_storage {ℓ} : {V : Type ℓ} → List (String × V) → String → V → List (String × V)
set_storage [] name v = (name, v) ∷ []
set_storage ((k, w) ∷ m) name v = if k == name then (k, v) ∷ m else (k, w) ∷ set_storage m name v

module _ (u : StringUtil) {C : Type 0} where
  -- `SetCatalogSecretParameters`
  unfoldable pub set_catalog_secret_parameters : SecretFunction C → SecretFunction C
  unfolding ci_set_all
  set_catalog_secret_parameters function = record function {
    named_parameters = ci_set_all u function.named_parameters (
        ("client_id", varchar)
        ∷ ("client_secret", varchar)
        ∷ ("endpoint", varchar)
        ∷ ("aws_region", varchar)
        ∷ ("token", varchar)
        ∷ []);
  }

  -- `AutoLoadExtension` and `GetTableFunction` are DuckDB's. A function that is registered comes
  -- behind those that are there.
  module _ (auto_load : DatabaseInstance C → String → Result (DatabaseInstance C))
      (get_table_function : DatabaseInstance C → String → Result (TableFunctionSet C)) where
    unfoldable pub load_extension :
        DatabaseInstance C → String → String → Result (DatabaseInstance C)
    load_extension instance name message = do
      instance' ← auto_load instance name
      throw_if (not (is_loaded instance'.loaded name)) (missing_extension message) >> ok instance'

    abbrev pub version_guessing : ExtensionOption
    version_guessing = record {
      name = "unsafe_enable_version_guessing";
      type = boolean;
      default_value = false;
    }

    unfoldable pub load_internal :
        LoadCallbacks C → DatabaseInstance C → Result (DatabaseInstance C)
    unfolding load_extension get_table_functions set_catalog_secret_parameters
    load_internal calls instance = do
      with_avro ←
          load_extension instance "avro"
            "The iceberg extension requires the avro extension to be loaded!"
      with_parquet ←
          load_extension with_avro "parquet"
            "The iceberg extension requires the parquet extension to be loaded!"
      functions ← get_table_functions u calls.table_callbacks (get_table_function with_parquet)
      ok (record with_parquet {
        options = with_parquet.options ++ (version_guessing ∷ []);
        table_functions = with_parquet.table_functions ++ functions;
        secret_types =
            with_parquet.secret_types
            ++ (record { name = "iceberg"; default_provider = "config" } ∷ []);
        secret_functions =
            with_parquet.secret_functions
            ++ (set_catalog_secret_parameters (record {
              secret_type = "iceberg";
              provider = "config";
              function = calls.create_catalog_secret;
              named_parameters = [];
            })
                ∷ []);
        storage_extensions = set_storage with_parquet.storage_extensions "iceberg" (record {
          attach = calls.iceberg_catalog_attach;
          create_transaction_manager = calls.create_transaction_manager;
        });
      })
