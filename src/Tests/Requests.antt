-- ===== src/Tests/Requests.antt =====
-- A service that gives one answer to all requests, and the hosts of its catalogs.
use duckdb_iceberg.Common.{
  arith, ◌≡◌, refl, String, Option, some, [], ◌∷◌, ok, throw, internal_exception, ltb,
  if◌then◌else◌, find_char, none, true, ◌==◌, ◌+++◌, inl,
}
use duckdb_iceberg.Json.{Json, num, str, obj, no_props, property, no_elems, element, arr}
use duckdb_iceberg.Utils.{try_get_str_or, templated_try_get, try_get_num, try_get_str}
use duckdb_iceberg.Duckdb.{ci_find}
use duckdb_iceberg.Catalog.Endpoint.{other}
use duckdb_iceberg.Catalog.Config.{api_result_to_doc}
use duckdb_iceberg.Catalog.Requests.{
  Request, IrcCatalog, Session, tables_url, no_index, parse_column_definition,
}
use duckdb_iceberg.Catalog.Tables.{
  Service, metadata_request, get_table_metadata, get_table_metadata_cached,
}
use duckdb_iceberg.Catalog.Fetched.{get_table_metadata_cached-get_table_metadata}
use duckdb_iceberg.Schema.ColumnTypes.{integer}
use duckdb_iceberg.Catalog.TableSet.{TableEntry, get_table_entry}
use duckdb_iceberg.Catalog.Lookup.{get_table_entry-again}
use duckdb_iceberg.Catalog.Endpoint.{new_builder}
use duckdb_iceberg.Catalog.Credentials.{SecretLibrary, get_secret}
use duckdb_iceberg.Extension.Http.{HttpLibrary, get_request, text_or_empty}
use duckdb_iceberg.Extension.Signed.{get_request-aws_host}
use duckdb_iceberg.Tests.Fixtures.{util}

abbrev prop : String → Json → Json
prop k v = obj (property k v no_props)

abbrev expiring : Option Json
expiring = some (prop "config" (prop "s3.session-token-expires-at-ms" (str "50")))

abbrev pub service : Option Json → Service
service root = record {
  get_request = λ before request. ok "an answer";
  post_request = λ uri body. ok "a token";
  yyjson_read = λ text. root;
  stoll = λ text. ok 50;
  url_encode = λ text. text;
  underscores_to_dashes = λ text. text;
}

abbrev pub catalog : IrcCatalog
catalog = record {
  name = "c";
  host = "h";
  version = "v1";
  prefix = "";
  secret_name = "s";
  token = "t";
  catalog_type = other;
}

abbrev pub fresh_session : Session
fresh_session = record { metadata_cache = []; requests = [] }

get_table_metadata_cached-get_table_metadata_example :
    (session' : Session) × (get_table_metadata (service expiring) catalog fresh_session "a" "b" "s"
      ≡ ok ("an answer", session'))
    × (get_table_metadata_cached (service expiring) catalog 40 60 session' "a" "b" "s" ≡ (
        if ltb 40 50
        then (if ltb 60 50
            then ok ("an answer", session')
            else throw (internal_exception "Cached value does not exist"))
        else get_table_metadata (service expiring) catalog session' "a" "b" "s"))
unfolding api_result_to_doc try_get_str_or templated_try_get
get_table_metadata_cached-get_table_metadata_example =
    get_table_metadata_cached-get_table_metadata (service expiring) catalog fresh_session "a" "b"
      "s" "an answer" "50" expiring 50 40 60 refl refl refl refl refl refl (omega arith)

abbrev fields : Json
fields =
    obj (property "name" (str "x") (property "type" (str "int") (property "id" (num 1) no_props)))

abbrev schema : Json
schema =
    obj (property "schema-id" (num 0) (property "fields" (arr (element fields no_elems)) no_props))

abbrev metadata : Json
metadata = obj (
    property "current-schema-id" (num 0)
      (property "schemas" (arr (element schema no_elems)) no_props))

-- What the service answers to every request.
abbrev listing : Option Json
listing = some (
    obj (
      property "identifiers" (arr (element (prop "name" (str "b")) no_elems)) (
        property "metadata-location" (str "s3://x/metadata/v1")
          (property "metadata" metadata no_props))))

abbrev pub found : TableEntry
found = record {
  name = "b";
  table_data = record {
    table_id = "uuid-a-table";
    name = "b";
    catalog_name = "c";
    schema_name = "a";
    data_source_format = "ICEBERG";
    storage_location = "s3://x/metadata/v1";
    columns =
        record {
          name = "x";
          type_text = "int";
          precision = no_index;
          scale = no_index;
          position = 0;
        }
        ∷ [];
  };
  columns = ("x", integer) ∷ [];
}

abbrev asked_session : Session
asked_session = record {
  metadata_cache = [];
  requests =
      metadata_request (service listing) catalog "a" "b" "s"
      ∷ record { url = tables_url catalog "a"; secret_name = "s"; token = "t"; extra_headers = [] }
      ∷ [];
}

-- The first lookup asks twice, for the names of the tables and for the metadata of the one found.
get_table_entry-again_example :
    get_table_entry
      (λ s. ok 0)
      (service listing)
      catalog
      util
      "a"
      (("b", found) ∷ [])
      "b"
      asked_session
    ≡ ok (some found, ("b", found) ∷ [], asked_session)
unfolding get_table_entry api_result_to_doc try_get_str try_get_num ci_find templated_try_get
    try_get_str_or parse_column_definition
get_table_entry-again_example =
    get_table_entry-again (λ s. ok 0) (service listing) catalog util "a" [] "b" fresh_session refl
      refl

abbrev pub secrets : SecretLibrary
secrets = record {
  Value = String;
  Secret = String;
  of_str = text_or_empty;
  of_bool = λ b. "a boolean";
  to_text = λ v. v;
  format_name = λ base index prefix. base +++ prefix;
  try_get_value = λ secret key. some (secret +++ key);
  value_text = text_or_empty;
  get_secret_by_name = λ name. some name;
  lookup_secret = λ path type. none;
}

-- Requests that are not signed for Glue are refused.
abbrev http : HttpLibrary
http = record {
  easy_init = true;
  perform = λ request. none;
  make_request = λ request. if request.service == "glue" then (200, request.region) else (403, "");
}

abbrev glue_request : Request
glue_request = record {
  url = record new_builder { host = "glue.us-east-1.amazonaws.com" };
  secret_name = "s";
  token = "";
  extra_headers = [];
}

get_request-aws_host_example :
    get_request http "" secrets util (λ text. text) glue_request ≡ ok "us-east-1"
unfolding get_secret find_char
get_request-aws_host_example =
    get_request-aws_host http "" secrets util (λ text. text) "glue" "us-east-1" glue_request
      (inl refl) refl refl
