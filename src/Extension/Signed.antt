-- ===== src/Extension/Signed.antt =====
-- The requests to the catalogs of Amazon, which are signed.
use text.Mathlib.TextLemmas.{append_assoc}
use text.Mathlib.TextPositions.{starts_with-append}
use text.Mathlib.Text.{starts_with}
use duckdb_iceberg.Common.{
  ◌≡◌, refl, sym, ap, ◌∙◌, ◌⊎◌, inl, inr, Bool, false, String, true, none, ◌>>=◌, find_char, ◌||◌,
  ◌+++◌,
}
use duckdb_iceberg.Duckdb.{StringUtil}
use duckdb_iceberg.Catalog.Credentials.{SecretLibrary, get_secret}
use duckdb_iceberg.Catalog.Requests.{Request}
use duckdb_iceberg.Extension.{aws_host}
use duckdb_iceberg.Extension.Hosts.{
  get_aws_service, get_aws_region, is_aws_host, get_aws_region-aws_host,
}
use duckdb_iceberg.Extension.Http.{
  HttpLibrary, get_request, get_request_aws, aws_request, read_answer,
}

starts_with_dot :
    (service region : String) → starts_with (aws_host service region) (service +++ ".") ≡ true
starts_with_dot service region =
    ap (λ host. starts_with host (service +++ "."))
      (sym (append_assoc service "." (region +++ ".amazonaws.com")))
    ∙ starts_with-append (service +++ ".") (region +++ ".amazonaws.com")

true_or : (a : Bool) {b : Bool} → b ≡ true → (a || b) ≡ true
true_or true h = refl
true_or false h = h

is_aws_host-aws_host :
    (service region : String)
    → (service ≡ "glue") ⊎ (service ≡ "s3tables")
    → is_aws_host (aws_host service region) ≡ true
unfolding is_aws_host
is_aws_host-aws_host service region (inl e) = rw (e, starts_with_dot "glue" region)
is_aws_host-aws_host service region (inr e) = rw e (true_or _ (starts_with_dot "s3tables" region))

no_dot :
    (service : String) → (service ≡ "glue") ⊎ (service ≡ "s3tables") → find_char b'.' service ≡ none
unfolding find_char
no_dot service (inl e) = rw e
no_dot service (inr e) = rw e

module _ (http : HttpLibrary) (ca_path : String) (library : SecretLibrary) (u : StringUtil)
    (url_encode : String → String) where
  -- A request to the host that ATTACH makes of one of Amazon's services, Glue or S3 Tables, and of a
  -- region without dots is never made with libcurl: it is signed with the secret of the catalog, for
  -- that service and that region, and its answer is the body if the code is 200 and throws if not.
  pub get_request-aws_host :
      (service region : String) (request : Request)
      → (service ≡ "glue") ⊎ (service ≡ "s3tables")
      → find_char b'.' region ≡ none
      → request.url.host ≡ aws_host service region
      → get_request http ca_path library u url_encode request ≡ (
          get_secret library u request.secret_name >>= λ secret.
          read_answer http ca_path library u url_encode (
            http.make_request
              (aws_request http ca_path library u url_encode secret request.url service region)))
  unfolding get_request get_request_aws
  get_request-aws_host service region request known r at_host =
      let (is_service, is_region) =
        get_aws_region-aws_host service region (no_dot service known) r in
      rw (
        ap is_aws_host at_host ∙ is_aws_host-aws_host service region known,
        ap get_aws_service at_host ∙ is_service,
        ap get_aws_region at_host ∙ is_region,
      )
