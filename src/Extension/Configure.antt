-- ===== src/Extension/Configure.antt =====
-- The rest of `IcebergCatalogAttach`: `GetConfig` of src/storage/irc_catalog.cpp, which asks the
-- service for the configuration of the catalog that is attached.
use duckdb_iceberg.Common.{String, List, [], Result, ok, ◌>>=◌}
use duckdb_iceberg.Duckdb.{StringUtil}
use duckdb_iceberg.Catalog.Endpoint.{
  IrcEndpointBuilder, get_base_url, add_path_component, set_param,
}
use duckdb_iceberg.Catalog.Config.{Configuration, read_config, api_result_to_doc}
use duckdb_iceberg.Catalog.Requests.{IrcCatalog, Session}
use duckdb_iceberg.Catalog.Tables.{Service, ask}
use duckdb_iceberg.Catalog.Credentials.{SecretLibrary}
use duckdb_iceberg.Extension.{AttachedCatalog}
use duckdb_iceberg.Extension.Attach.{attach}

unfoldable pub config_url : IrcCatalog → String → IrcEndpointBuilder
unfolding get_base_url add_path_component set_param
config_url catalog warehouse =
    set_param "warehouse" warehouse
      (add_path_component "config" (get_base_url catalog.catalog_type catalog.host catalog.version))

-- The constructor of `IRCatalog`, whose version is "v1" if none is given.
abbrev new_catalog : String → AttachedCatalog → IrcCatalog
new_catalog name attached = record {
  name = name;
  host = attached.host;
  version = "v1";
  prefix = "";
  secret_name = attached.secret_name;
  token = attached.token;
  catalog_type = attached.catalog_type;
}

module _ (service : Service) (url_decode : String → String) where
  unfoldable pub get_config :
      IrcCatalog → String → Session → Result (IrcCatalog × Configuration × Session)
  unfolding config_url ask read_config api_result_to_doc
  get_config catalog warehouse session = do
    asked ← ask service catalog session (record {
      url = config_url catalog warehouse;
      secret_name = catalog.secret_name;
      token = catalog.token;
      extra_headers = [];
    })
    root ← api_result_to_doc service.yyjson_read asked.0
    configuration ← read_config url_decode root
    ok (record catalog { prefix = configuration.prefix }, configuration, asked.1)

  -- `ATTACH` of a warehouse, under a name.
  unfoldable pub attach_catalog :
      SecretLibrary
      → StringUtil
      → (String → String)
      → String
      → String
      → List (String × String)
      → Result (IrcCatalog × Configuration × Session)
  unfolding attach get_config
  attach_catalog library u rtrim_slash name warehouse entries = do
    attached ←
        attach library u rtrim_slash service.yyjson_read service.post_request warehouse entries
    get_config (new_catalog name attached) warehouse (record { metadata_cache = []; requests = [] })
