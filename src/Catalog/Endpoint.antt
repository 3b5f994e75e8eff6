-- ===== src/Catalog/Endpoint.antt =====
-- src/common/url_utils.cpp and `GetBaseUrl` of src/storage/irc_catalog.cpp. The parameters are a
-- list, in the order that the source's unordered map has.
use duckdb_iceberg.Common.{
  String, not, Option, none, some, List, [], ◌∷◌, snoc, ◌==◌, ◌+++◌, empty, if◌then◌else◌,
}

pub record IrcEndpointBuilder : Type 0 where
  pub path_components : List String
  pub host : String
  pub version : String
  pub prefix : String
  pub params : List (String × String)

abbrev pub new_builder : IrcEndpointBuilder
new_builder = record { path_components = []; host = ""; version = ""; prefix = ""; params = [] }

unfoldable pub add_path_component : String → IrcEndpointBuilder → IrcEndpointBuilder
add_path_component component b =
    if not (empty component)
    then record b { path_components = snoc b.path_components component }
    else b

-- `map[key] = value` of a `std::unordered_map`
abbrev pub set_key : List (String × String) → String → String → List (String × String)
set_key [] key value = (key, value) ∷ []
set_key ((k, v) ∷ m) key value = if k == key then (k, value) ∷ m else (k, v) ∷ set_key m key value

abbrev pub find_key : List (String × String) → String → Option String
find_key [] key = none
find_key ((k, v) ∷ m) key = if k == key then some v else find_key m key

unfoldable pub set_param : String → String → IrcEndpointBuilder → IrcEndpointBuilder
set_param key value b = record b { params = set_key b.params key value }

unfoldable pub get_param : String → IrcEndpointBuilder → String
get_param key b = elim (find_key b.params key) [ some v ↦ v | none ↦ "" ]

add_components : List String → String → String
add_components [] ret = ret
add_components (c ∷ cs) ret = add_components cs (ret +++ "/" +++ c)

add_params : (String → String) → String → List (String × String) → String → String
add_params url_encode sep [] ret = ret
add_params url_encode sep ((key, value) ∷ params) ret =
    add_params url_encode "&" params (ret +++ sep +++ url_encode key +++ "=" +++ url_encode value)

unfoldable pub get_url : (String → String) → IrcEndpointBuilder → String
unfolding add_components add_params
get_url url_encode b =
    let ret = if not (empty b.version) then b.host +++ "/" +++ b.version else b.host in
    let ret' = if not (empty b.prefix) then ret +++ "/" +++ b.prefix else ret in
    add_params url_encode "?" b.params (add_components b.path_components ret')

pub data CatalogType : Type 0 where
  aws_s3tables aws_glue other invalid : CatalogType

-- Amazon's services repeat the version in the path.
unfoldable pub get_base_url : CatalogType → String → String → IrcEndpointBuilder
unfolding add_path_component
get_base_url aws_glue host version =
    add_path_component version
      (add_path_component "iceberg" (record new_builder { host = host; version = version }))
get_base_url aws_s3tables host version =
    add_path_component version
      (add_path_component "iceberg" (record new_builder { host = host; version = version }))
get_base_url _ host version = record new_builder { host = host; version = version }
