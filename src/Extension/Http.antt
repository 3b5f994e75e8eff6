-- ===== src/Extension/Http.antt =====
-- src/common/api_utils.cpp: the requests that are made with libcurl and with Amazon's library. The
-- two libraries are parameters: what they answer to a request.
use duckdb_iceberg.Common.{
  ℕ, String, Bool, Option, none, some, List, ◌∷◌, Result, ok, throw, io_exception,
  internal_exception, ◌>>=◌, or_throw, ◌+++◌, eqb, empty, if◌then◌else◌,
}
use duckdb_iceberg.Duckdb.{StringUtil}
use duckdb_iceberg.Catalog.Endpoint.{IrcEndpointBuilder, get_url}
use duckdb_iceberg.Catalog.Credentials.{SecretLibrary, get_secret}
use duckdb_iceberg.Catalog.Requests.{Request}
use duckdb_iceberg.Extension.Hosts.{get_aws_service, get_aws_region, is_aws_host}

-- The options that are set on a handle of libcurl.
pub record CurlRequest : Type 0 where
  pub url : String
  pub custom_request : Option String
  pub post_fields : Option String
  pub http_headers : List String
  pub bearer : Option String
  pub ca_info : Option String

-- A request to Amazon, signed for a service and a region.
pub record AwsRequest : Type 0 where
  pub authority : String
  pub path_segments : List String
  pub query : List (String × String)
  pub key_id : String
  pub secret : String
  pub session_token : String
  pub service : String
  pub region : String

-- `easy_init` says whether a handle was made; `perform` answers the body, which
-- `RequestWriteCallback` collects, or none for an error, and `make_request` a code and the body.
pub record HttpLibrary : Type 0 where
  pub easy_init : Bool
  pub perform : CurlRequest → Option String
  pub make_request : AwsRequest → ℕ × String

abbrev pub text_or_empty : Option String → String
text_or_empty none = ""
text_or_empty (some text) = text

abbrev unless_empty : String → Option String
unless_empty text = if empty text then none else some text

module _ (http : HttpLibrary) (ca_path : String) where
  open http use {easy_init, perform, make_request}

  -- `InitializeCurlObject` and `SetCurlCAFileInfo`
  unfoldable pub initialize_curl_object : String → CurlRequest → CurlRequest
  initialize_curl_object token request = record request {
    bearer = unless_empty token;
    ca_info = unless_empty ca_path;
  }

  -- The code of an answer is not read: an error page is an answer.
  unfoldable pub run_request : String → CurlRequest → Result String
  run_request error request =
      if easy_init
      then or_throw (perform request) (io_exception error)
      else throw (internal_exception "Failed to initialize curl")

  unfoldable pub delete_request : String → String → List String → Result String
  unfolding initialize_curl_object run_request
  delete_request url token extra_headers =
      run_request "Curl DELETE Request to '%s' failed with error: '%s'" (
        initialize_curl_object token (record {
          url = url;
          custom_request = some "DELETE";
          post_fields = none;
          http_headers = extra_headers;
          bearer = none;
          ca_info = none;
        }))

  unfoldable pub post_request : String → String → String → String → List String → Result String
  unfolding initialize_curl_object run_request
  post_request url post_data content_type token extra_headers =
      run_request "Curl Request to '%s' failed with error: '%s'" (
        initialize_curl_object token (record {
          url = url;
          custom_request = none;
          post_fields = some post_data;
          http_headers = ("Content-Type: application/" +++ content_type) ∷ extra_headers;
          bearer = none;
          ca_info = none;
        }))

  module _ (library : SecretLibrary) (u : StringUtil) (url_encode : String → String) where
    open library use {Secret, try_get_value, value_text}

    abbrev pub read_answer : ℕ × String → Result String
    read_answer (code, body) =
        if eqb code 200
        then ok body
        else throw (io_exception "Failed to query %s, http error %d thrown. Message: %s")

    -- The version of the endpoint is not read here: it is among the components.
    abbrev pub aws_request : Secret → IrcEndpointBuilder → String → String → AwsRequest
    aws_request secret_entry endpoint_builder service region = record {
      authority = endpoint_builder.host;
      path_segments = endpoint_builder.path_components;
      query = endpoint_builder.params;
      key_id = value_text (try_get_value secret_entry "key_id");
      secret = value_text (try_get_value secret_entry "secret");
      session_token = text_or_empty (try_get_value secret_entry "session_token");
      service = service;
      region = region;
    }

    unfoldable pub get_request_aws : IrcEndpointBuilder → String → Result String
    unfolding get_aws_service get_aws_region get_secret
    get_request_aws endpoint_builder secret_name =
        get_secret library u secret_name >>= λ secret_entry. read_answer (
          make_request (
            aws_request secret_entry endpoint_builder (get_aws_service endpoint_builder.host)
              (get_aws_region endpoint_builder.host)))

    unfoldable pub get_request : Request → Result String
    unfolding is_aws_host get_request_aws initialize_curl_object run_request get_url
    get_request request =
        if is_aws_host request.url.host
        then get_request_aws request.url request.secret_name
        else run_request "Curl Request to '%s' failed with error: '%s'" (
            initialize_curl_object request.token (record {
              url = get_url url_encode request.url;
              custom_request = none;
              post_fields = none;
              http_headers = request.extra_headers;
              bearer = none;
              ca_info = none;
            }))
