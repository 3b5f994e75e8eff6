-- ===== src/Catalog/Credentials.antt =====
-- src/catalog_api.cpp and `GetSecret` of src/storage/irc_catalog.cpp: the secrets that the answer
-- of the service gives for a table, and the token of the catalog.
use duckdb_iceberg.Common.{
  ℕ, suc, ◌-◌, String, Bool, true, false, not, Option, none, some, List, [], ◌∷◌, Result, ok, throw,
  invalid_input, io_exception, not_implemented, logic_error, ◌>>=◌, or_throw, throw_if, ◌>>◌, ◌==◌,
  ◌+++◌, if◌then◌else◌, is_empty, empty, strip_prefix, ends_with, take_text, text_length,
  first_some,
}
use duckdb_iceberg.Json.{Json, obj_get, obj_items, arr_items, get_str}
use duckdb_iceberg.Duckdb.{StringUtil, ci_find, ci_set}
use duckdb_iceberg.Catalog.Config.{api_result_to_doc}

-- `Value`, as the options of a secret hold it: from a pointer to a text, or a boolean, and as text.
-- `format_name` fills the three places of a secret's name, and
-- `value_text` is the text of a value of a secret, which may be missing.
pub record SecretLibrary : Type 1 where
  pub Value : Type 0
  pub Secret : Type 0
  pub of_str : Option String → Value
  pub of_bool : Bool → Value
  pub to_text : Value → String
  pub format_name : String → ℕ → String → String
  pub try_get_value : Secret → String → Option String
  pub value_text : Option String → String
  pub get_secret_by_name : String → Option Secret
  pub lookup_secret : String → String → Option Secret

module _ (library : SecretLibrary) (u : StringUtil) where
  open library use {
    Value, Secret, of_str, of_bool, to_text, format_name, try_get_value, value_text,
    get_secret_by_name, lookup_secret,
  }

  abbrev pub Options : Type 0
  Options = List (String × Value)

  -- `CreateSecretInfo`, of type "s3", with the provider "config", in the storage "memory".
  pub record CreateSecretInfo : Type 0 where
    pub name : String
    pub scope : List String
    pub options : Options

  pub record TableCredentials : Type 0 where
    pub config : Option CreateSecretInfo
    pub storage_credentials : List CreateSecretInfo

  abbrev pub config_to_option : List (String × String)
  config_to_option =
      ("s3.access-key-id", "key_id")
      ∷ ("s3.secret-access-key", "secret")
      ∷ ("s3.session-token", "session_token")
      ∷ ("s3.region", "region")
      ∷ ("s3.endpoint", "endpoint")
      ∷ []

  abbrev set_found : String → Option Json → Options → Options
  set_found option none options = options
  set_found option (some item) options = ci_set u options option (of_str (get_str (some item)))

  unfoldable pub set_options : Option Json → List (String × String) → Options → Options
  unfolding ci_set
  set_options config [] options = options
  set_options config ((key, option) ∷ keys) options =
      set_options config keys (set_found option (obj_get config key) options)

  -- "true" and "false" alone are texts of the property.
  abbrev read_path_style : String → Result Bool
  read_path_style value =
      if value == "true"
      then ok true
      else if value == "false"
      then ok false
      else throw
          (invalid_input "Unexpected value ('%s') for 's3.path-style-access' in 'config' property")

  abbrev style_options : Bool → Options → Options
  style_options true options = ci_set u options "url_style" (of_str (some "path"))
  style_options false options = options

  unfoldable pub set_access_style : Option Json → Options → Result Options
  unfolding ci_set
  set_access_style none options = ok options
  set_access_style (some access_style) options = do
    value ← or_throw (get_str (some access_style)) logic_error
    path_style ← read_path_style value
    ok (style_options path_style (ci_set u options "use_ssl" (of_bool (not path_style))))

  abbrev without_scheme : Option String → String → String
  without_scheme none endpoint = endpoint
  without_scheme (some rest) endpoint = rest

  -- The endpoint without "http://" at its front, and then without one "/" at its end.
  unfoldable pub trim_endpoint : String → String
  unfolding strip_prefix ends_with
  trim_endpoint endpoint =
      let host = without_scheme (strip_prefix "http://" endpoint) endpoint in
      if ends_with host "/" then take_text (text_length host - 1) host else host

  abbrev set_endpoint : Option Value → Options → Options
  set_endpoint none options = options
  set_endpoint (some endpoint) options =
      ci_set u options "endpoint" (of_str (some (trim_endpoint (to_text endpoint))))

  unfoldable pub parse_config_options : Option Json → Options → Result Options
  unfolding set_options set_access_style trim_endpoint ci_find ci_set
  parse_config_options config options = if is_empty (obj_items config) then ok options else (do
    styled ←
        set_access_style (obj_get config "s3.path-style-access")
          (set_options config config_to_option options)
    ok (set_endpoint (ci_find u styled "endpoint") styled))

  -- A secret of the name given, or else the one for "s3://".
  unfoldable pub get_secret : String → Result Secret
  get_secret secret_name =
      or_throw
        (first_some (if empty secret_name then none else get_secret_by_name secret_name)
          (lookup_secret "s3://" "s3"))
        (io_exception "Failed to find a secret and no explicit secret was passed!")

  unfoldable pub storage_credential : String → ℕ → Options → Json → Result CreateSecretInfo
  unfolding parse_config_options
  storage_credential secret_base_name index config_options credential = do
    sc_prefix ←
        or_throw (obj_get (some credential) "prefix")
          (invalid_input "required property 'prefix' is missing from the StorageCredential schema")
    prefix ←
        or_throw (get_str (some sc_prefix))
          (invalid_input "property 'prefix' of StorageCredential is NULL")
    options ← parse_config_options (obj_get (some credential) "config") config_options
    ok (record {
      name = format_name secret_base_name index prefix;
      scope = prefix ∷ [];
      options = options;
    })

  unfoldable pub credentials_loop :
      String → Options → ℕ → List Json → Result (List CreateSecretInfo)
  unfolding storage_credential
  credentials_loop secret_base_name config_options index [] = ok []
  credentials_loop secret_base_name config_options index (credential ∷ credentials) = do
    secret ← storage_credential secret_base_name index config_options credential
    rest ← credentials_loop secret_base_name config_options (suc index) credentials
    ok (secret ∷ rest)

  -- The secret of the 'config', only where there are no storage credentials.
  unfoldable pub config_secret : String → Options → List CreateSecretInfo → Option CreateSecretInfo
  config_secret secret_base_name [] storage_credentials = none
  config_secret secret_base_name (option ∷ options) [] =
      some (record { name = secret_base_name; scope = []; options = option ∷ options })
  config_secret secret_base_name (option ∷ options) (secret ∷ secrets) = none

  abbrev region_option : Option Json → Secret → Options
  region_option none secret = []
  region_option (some config) secret =
      ("region", of_str (some (value_text (try_get_value secret "region")))) ∷ []

  -- What `GetTableCredentials` makes of the root of the table's metadata.
  unfoldable pub read_credentials : String → String → Option Json → Result TableCredentials
  unfolding get_secret parse_config_options credentials_loop config_secret
  read_credentials secret_name secret_base_name root = do
    catalog_credentials ← get_secret secret_name
    let config_val = obj_get root "config"
    config_options ← parse_config_options config_val (region_option config_val catalog_credentials)
    secrets ←
        credentials_loop secret_base_name config_options 0
          (arr_items (obj_get root "storage-credentials"))
    ok (record {
      config = config_secret secret_base_name config_options secrets;
      storage_credentials = secrets;
    })

-- `GetToken`. The parameters are not encoded.
unfoldable pub token_request : String → String → String → String
token_request id secret scope =
    "grant_type=client_credentials&client_id=" +++ id +++ "&client_secret=" +++ secret +++ "&scope="
    +++ scope

unfoldable pub read_token : StringUtil → Option Json → Result String
read_token u root = do
  access_token ←
      or_throw (obj_get root "access_token")
        (io_exception "OAuthTokenResponse is missing required property 'access_token'")
  token_type ←
      or_throw (obj_get root "token_type")
        (io_exception "OAuthTokenResponse is missing required property 'token_type'")
  type ← or_throw (get_str (some token_type)) logic_error
  throw_if (not (u.lower type == u.lower "bearer")) (
      not_implemented
        "token_type return value '%s' is not supported, only supports 'bearer' currently.")
  or_throw (get_str (some access_token)) logic_error

module _ (u : StringUtil) (yyjson_read : String → Option Json)
    (post_request : String → String → Result String) where
  unfoldable pub get_token : String → String → String → String → Result String
  unfolding token_request read_token api_result_to_doc
  get_token uri id secret scope = do
    api_result ← post_request uri (token_request id secret scope)
    root ← api_result_to_doc yyjson_read api_result
    read_token u root
