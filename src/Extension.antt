-- ===== src/Extension.antt =====
-- src/iceberg_extension.cpp: the secret of a catalog, and the options of ATTACH; and what
-- src/common/api_utils.cpp reads off the host of a catalog.
pub mod Attach
pub mod Configure
pub mod Hosts
pub mod Http
pub mod Signed
pub mod Load
use text.Mathlib.Text.{starts_with}
use duckdb_iceberg.Common.{
  ℕ, suc, ◌-◌, String, Bool, true, false, not, ◌||◌, Option, none, some, List, [], ◌∷◌, Result, ok,
  throw, io_exception, invalid_input, binder_exception, internal_exception, ◌>>=◌, or_throw,
  throw_if, ◌>>◌, ◌==◌, ◌+++◌, if◌then◌else◌, eqb, get_elem?, length, empty, find_char, take_text,
  drop_text,
}
use duckdb_iceberg.Json.{Json}
use duckdb_iceberg.Duckdb.{StringUtil, ci_find, ci_set}
use duckdb_iceberg.Catalog.Endpoint.{
  IrcEndpointBuilder, CatalogType, aws_s3tables, aws_glue, other, get_base_url, add_path_component,
  set_param,
}
use duckdb_iceberg.Catalog.Config.{Configuration, read_config, api_result_to_doc}
use duckdb_iceberg.Catalog.Credentials.{SecretLibrary, get_secret, get_token}

-- What `IcebergCatalogAttach` reads of the options.
pub record AttachOptions : Type 0 where
  pub secret_name : String
  pub endpoint_type : String
  pub endpoint : String
  pub oauth2_scope : String
  pub oauth2_server_uri : String

abbrev pub no_options : AttachOptions
no_options = record {
  secret_name = "";
  endpoint_type = "";
  endpoint = "";
  oauth2_scope = "";
  oauth2_server_uri = "";
}

-- The catalog before its configuration is asked for.
pub record AttachedCatalog : Type 0 where
  pub warehouse : String
  pub host : String
  pub secret_name : String
  pub token : String
  pub oauth2_scope : String
  pub catalog_type : CatalogType

-- `KeyValueSecret`
pub record CatalogSecret : Type 0 where
  pub secret_map : List (String × String)
  pub redact_keys : List String

abbrev at_position : Option ℕ → ℕ → Bool
at_position none position = false
at_position (some found) position = eqb found position

-- A warehouse is <account_id>:s3tablescatalog/<bucket>. The account is tested first.
unfoldable pub sanity_check_glue_warehouse : String → Result Bool
unfolding find_char
sanity_check_glue_warehouse warehouse =
    if not (at_position (find_char b':' warehouse) 12)
    then throw (io_exception "Expect 12 digits for account_id.")
    else if at_position (find_char b'/' warehouse) 28
    then ok true
    else throw (io_exception "Expected '<account_id>:s3tablescatalog/<bucket>'")

abbrev pub aws_host : String → String → String
aws_host service region = service +++ "." +++ region +++ ".amazonaws.com"

-- Of `StringUtil`, `RTrim` with "/".
module _ (u : StringUtil) (rtrim_slash : String → String) where
  unfoldable pub set_attach_option : String → String → AttachOptions → Result AttachOptions
  set_attach_option lower_name value options =
      if lower_name == "type" || lower_name == "read_only"
      then ok options
      else if lower_name == "secret"
      then ok (record options { secret_name = u.lower value })
      else if lower_name == "endpoint_type"
      then ok (record options { endpoint_type = u.lower value })
      else if lower_name == "endpoint"
      then ok (record options { endpoint = rtrim_slash (u.lower value) })
      else if lower_name == "oauth2_scope"
      then ok (record options { oauth2_scope = u.lower value })
      else if lower_name == "oauth2_server_uri"
      then ok (record options { oauth2_server_uri = u.lower value })
      else throw (binder_exception "Unrecognized option for PC attach: %s")

  unfoldable pub read_attach_options : List (String × String) → AttachOptions → Result AttachOptions
  unfolding set_attach_option
  read_attach_options [] options = ok options
  read_attach_options ((name, value) ∷ entries) options = do
    options' ← set_attach_option (u.lower name) value options
    read_attach_options entries options'

-- The scope of Polaris, and the deprecated address of tokens.
unfoldable pub default_attach_options : AttachOptions → AttachOptions
default_attach_options options = record options {
  oauth2_scope = if empty options.oauth2_scope then "PRINCIPAL_ROLE:ALL" else options.oauth2_scope;
  oauth2_server_uri =
      if empty options.oauth2_server_uri
      then options.endpoint +++ "/v1/oauth/tokens"
      else options.oauth2_server_uri;
}
