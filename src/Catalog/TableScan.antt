-- ===== src/Catalog/TableScan.antt =====
-- src/storage/irc_table_entry.cpp: the secrets that a scan of a table
-- creates, and the path it scans; and `GetTableCredentials` of src/catalog_api.cpp.
use duckdb_iceberg.Common.{
  ℕ, String, Option, none, some, List, [], ◌∷◌, Result, ok, not_implemented, invalid_input,
  undefined_behaviour, ◌>>=◌, or_throw, throw_if, ◌>>◌, not, ◌==◌, ◌+++◌, if◌then◌else◌, get_elem?,
  before_text, ◌++◌,
}
use text.Mathlib.Text.{starts_with}
use duckdb_iceberg.Duckdb.{StringUtil, ci_set}
use duckdb_iceberg.Catalog.Config.{api_result_to_doc}
use duckdb_iceberg.Catalog.Requests.{ApiTable, IrcCatalog, Session}
use duckdb_iceberg.Catalog.Tables.{Service, get_table_metadata_cached}
use duckdb_iceberg.Catalog.Credentials.{
  SecretLibrary, Options, CreateSecretInfo, TableCredentials, get_secret, read_credentials,
}

-- `tolower` is that of the C library, on each character.
module _ (library : SecretLibrary) (u : StringUtil) (tolower : String → String) where
  open library use {Secret, of_str, try_get_value, value_text}

  -- The scope ends before the first "metadata" in the location, which is read without capitals.
  unfoldable pub secret_scope : ApiTable → Result String
  unfolding before_text
  secret_scope table =
      or_throw (before_text "metadata" (tolower table.storage_location))
        (invalid_input "Substring not found")

  abbrev pub session_token_of : Option String → String
  session_token_of none = ""
  session_token_of (some token) = token

  -- Amazon's catalogs have an endpoint of their own, and one of them other options.
  unfoldable pub override_options :
      String → String → String → Options library u → Result (Options library u)
  unfolding get_secret ci_set
  override_options host warehouse secret_name options =
      if starts_with host "glue"
      then (do
        secret ← get_secret library u secret_name
        let region = value_text (try_get_value secret "region")
        ok (ci_set u options "endpoint" (of_str (some ("s3." +++ region +++ ".amazonaws.com")))))
      else if starts_with host "s3tables"
      then (do
        secret ← get_secret library u secret_name
        region ← or_throw (get_elem? (u.split warehouse ":") 3) undefined_behaviour
        ok (
            ("key_id", of_str (some (value_text (try_get_value secret "key_id"))))
            ∷ ("secret", of_str (some (value_text (try_get_value secret "secret"))))
            ∷ (
              "session_token",
              of_str (some (session_token_of (try_get_value secret "session_token"))),
            )
            ∷ ("region", of_str (some region))
            ∷ ("endpoint", of_str (some ("s3." +++ region +++ ".amazonaws.com")))
            ∷ []))
      else ok options

  unfoldable pub config_secrets :
      String
      → String
      → String
      → ApiTable
      → Option (CreateSecretInfo library u)
      → Result (List (CreateSecretInfo library u))
  unfolding secret_scope override_options
  config_secrets host warehouse secret_name table none = ok []
  config_secrets host warehouse secret_name table (some info) = do
    scope ← secret_scope table
    options ← override_options host warehouse secret_name info.options
    ok (record info { scope = scope ∷ []; options = options } ∷ [])

  module _ (service : Service) (catalog : IrcCatalog) where
    unfoldable pub get_table_credentials :
        ℕ → ℕ → Session → String → String → String → Result (TableCredentials library u × Session)
    unfolding get_table_metadata_cached api_result_to_doc read_credentials
    get_table_credentials now later session schema table secret_base_name = do
      api_result ←
          get_table_metadata_cached service catalog now later session schema table
            catalog.secret_name
      root ← api_result_to_doc service.yyjson_read api_result.0
      credentials ← read_credentials library u catalog.secret_name secret_base_name root
      ok (credentials, api_result.1)

    -- The secrets that `GetScanFunction` creates, in order, and the path that it scans.
    unfoldable pub scan_secrets :
        ℕ
        → ℕ
        → Session
        → String
        → ApiTable
        → Result ((List (CreateSecretInfo library u) × String) × Session)
    unfolding config_secrets get_table_credentials
    scan_secrets now later session warehouse table = do
      throw_if (not (table.data_source_format == "ICEBERG"))
          (not_implemented "Table '%s' is of unsupported format '%s', ")
      let secret_base_name =
          "__internal_ic_" +++ table.table_id +++ "__" +++ table.schema_name +++ "__" +++ table.name
      answer ← get_table_credentials now later session table.schema_name table.name secret_base_name
      secrets ← config_secrets catalog.host warehouse catalog.secret_name table answer.0.config
      ok ((secrets ++ answer.0.storage_credentials, table.storage_location), answer.1)
