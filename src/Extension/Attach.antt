-- ===== src/Extension/Attach.antt =====
-- src/iceberg_extension.cpp: `CreateCatalogSecretFunction` and `IcebergCatalogAttach`, up to the
-- request for the configuration.
use duckdb_iceberg.Common.{
  String, Bool, not, ◌||◌, Option, List, [], ◌∷◌, Result, ok, throw, io_exception, invalid_input,
  internal_exception, ◌>>=◌, or_throw, throw_if, ◌>>◌, ◌==◌, ◌+++◌, if◌then◌else◌, eqb, get_elem?,
  length, empty,
}
use duckdb_iceberg.Json.{Json}
use duckdb_iceberg.Duckdb.{StringUtil, ci_find, ci_set}
use duckdb_iceberg.Catalog.Endpoint.{CatalogType, aws_s3tables, aws_glue, other}
use duckdb_iceberg.Catalog.Credentials.{SecretLibrary, get_secret, get_token}
use duckdb_iceberg.Extension.{
  AttachOptions, no_options, AttachedCatalog, CatalogSecret, sanity_check_glue_warehouse, aws_host,
  read_attach_options, default_attach_options,
}

module _ (library : SecretLibrary) (u : StringUtil) (rtrim_slash : String → String)
    (yyjson_read : String → Option Json) (post_request : String → String → Result String) where
  open library use {Secret, try_get_value, value_text}

  abbrev is_secret_option : String → Bool
  is_secret_option lower_name =
      lower_name == "key_id"
      || lower_name == "secret"
      || lower_name == "endpoint"
      || lower_name == "aws_region"
      || lower_name == "oauth2_scope"
      || lower_name == "oauth2_server_uri"

  unfoldable pub read_secret_options :
      List (String × String) → List (String × String) → Result (List (String × String))
  unfolding ci_set
  read_secret_options [] secret_map = ok secret_map
  read_secret_options ((name, value) ∷ options) secret_map =
      if is_secret_option (u.lower name)
      then read_secret_options options (ci_set u secret_map (u.lower name) value)
      else throw (
          internal_exception
            ("Unknown named parameter passed to CreateIRCSecretFunction: " +++ u.lower name))

  -- `secret_map[key].ToString()`, without the NULL that the source adds for a missing key.
  abbrev secret_text : List (String × String) → String → String
  secret_text secret_map key = value_text (ci_find u secret_map key)

  unfoldable pub create_catalog_secret : List (String × String) → Result CatalogSecret
  unfolding read_secret_options ci_find ci_set get_token
  create_catalog_secret options = do
    secret_map ← read_secret_options options []
    token ←
        get_token u yyjson_read post_request (secret_text secret_map "oauth2_server_uri")
          (secret_text secret_map "key_id") (secret_text secret_map "secret")
          (secret_text secret_map "oauth2_scope")
    ok (record {
      secret_map = ci_set u secret_map "token" token;
      redact_keys = "token" ∷ "client_id" ∷ "client_secret" ∷ [];
    })

  -- The region of Amazon's catalogs: of the ARN, or else of the secret, which has one in any case.
  unfoldable pub aws_region : CatalogType → String → String → Result String
  unfolding sanity_check_glue_warehouse
  aws_region aws_s3tables warehouse region = do
    let substrings = u.split warehouse ":"
    throw_if (not (eqb (length substrings) 6))
        (invalid_input "Could not parse S3 Tables arn warehouse value")
    or_throw (get_elem? substrings 3)
        (invalid_input "Could not parse S3 Tables arn warehouse value")
  aws_region aws_glue warehouse region =
      sanity_check_glue_warehouse warehouse >>= λ is_valid. ok region
  aws_region _ warehouse region = throw (io_exception "Unsupported AWS catalog type")

  unfoldable pub attach_aws : CatalogType → String → String → AttachOptions → Result AttachedCatalog
  unfolding get_secret aws_region
  attach_aws catalog_type service warehouse options = do
    secret ← get_secret library u options.secret_name
    region ←
        or_throw (try_get_value secret "region")
          (io_exception "Assumed catalog secret does not have a region")
    host_region ← aws_region catalog_type warehouse region
    ok (record {
      warehouse = warehouse;
      host = aws_host service host_region;
      secret_name = options.secret_name;
      token = "";
      oauth2_scope = options.oauth2_scope;
      catalog_type = catalog_type;
    })

  unfoldable pub attach_rest : String → AttachOptions → Result AttachedCatalog
  unfolding get_secret create_catalog_secret
  attach_rest warehouse options = do
    throw_if (empty options.endpoint) (io_exception "No endpoint type or endpoint provided")
    secret ← get_secret library u options.secret_name
    new_secret ← create_catalog_secret (
        ("oauth2_server_uri", options.oauth2_server_uri)
        ∷ ("key_id", value_text (try_get_value secret "key_id"))
        ∷ ("secret", value_text (try_get_value secret "secret"))
        ∷ ("endpoint", options.endpoint)
        ∷ ("oauth2_scope", options.oauth2_scope)
        ∷ [])
    token ←
        or_throw (ci_find u new_secret.secret_map "token")
          (io_exception "Failed to generate oath token")
    ok (record {
      warehouse = warehouse;
      host = options.endpoint;
      secret_name = options.secret_name;
      token = token;
      oauth2_scope = options.oauth2_scope;
      catalog_type = other;
    })

  unfoldable pub attach_by_type : String → AttachOptions → Result AttachedCatalog
  unfolding attach_aws attach_rest
  attach_by_type warehouse options =
      if options.endpoint_type == "s3_tables"
      then attach_aws aws_s3tables "s3tables" warehouse options
      else if options.endpoint_type == "glue"
      then attach_aws aws_glue "glue" warehouse options
      else if not (empty options.endpoint_type)
      then throw (io_exception "Unrecognized endpoint point: %s. Expected either S3_TABLES or GLUE")
      else attach_rest warehouse options

  unfoldable pub attach : String → List (String × String) → Result AttachedCatalog
  unfolding read_attach_options default_attach_options attach_by_type
  attach warehouse entries = do
    options ← read_attach_options u rtrim_slash entries no_options
    attach_by_type warehouse (default_attach_options options)
