-- ===== src/Extension/Hosts.antt =====
-- src/common/api_utils.cpp: the service and the region that a request to Amazon reads off its host,
-- and the choice of a certificate file.
use text.Mathlib.Text.{starts_with}
use duckdb_iceberg.Common.{
  append-eq-join, drop_text-join, find_char-join, join, take_text-join, ℕ, suc, ◌≡◌, refl, ap, ◌∙◌,
  arith, String, Bool, false, ◌||◌, Option, none, some, List, [], ◌∷◌, if◌then◌else◌, find_char,
  take_text, drop_text, text_length,
}
use duckdb_iceberg.Extension.{aws_host}

abbrev before_dot : Option ℕ → String → String
before_dot none host = host
before_dot (some dot) host = take_text dot host

-- `host.substr(0, host.find_first_of('.'))`
unfoldable pub get_aws_service : String → String
unfolding find_char
get_aws_service host = before_dot (find_char b'.' host) host

abbrev after_dot : Option ℕ → String → String
after_dot none host = host
after_dot (some dot) host = drop_text (suc dot) host

-- What stands between the first two dots. Without a dot the host is searched again from its
-- beginning, as one more than `npos` is 0.
unfoldable pub get_aws_region : String → String
unfolding get_aws_service find_char
get_aws_region host = get_aws_service (after_dot (find_char b'.' host) host)

-- `GetRequest` signs the requests to Amazon's hosts.
unfoldable pub is_aws_host : String → Bool
is_aws_host host = starts_with host "glue." || starts_with host "s3tables."

-- `SelectCurlCertPath`: the last file that exists is selected, and the answer is false.
unfoldable pub select_curl_cert_path : (String → Bool) → List String → String → String × Bool
select_curl_cert_path file_exists [] selected = (selected, false)
select_curl_cert_path file_exists (ca_file ∷ cert_file_locations) selected =
    select_curl_cert_path file_exists cert_file_locations
      (if file_exists ca_file then ca_file else selected)

first_dot :
    (p q : String)
    → find_char b'.' p ≡ none
    → find_char b'.' (join p (join "." q)) ≡ some (text_length p)
unfolding find_char
first_dot p q h = find_char-join b'.' 0 p (join "." q) h refl ∙ ap some (omega arith)

get_aws_service-join :
    (p q : String) → find_char b'.' p ≡ none → get_aws_service (join p (join "." q)) ≡ p
unfolding get_aws_service
get_aws_service-join p q h = rw (first_dot p q h) (take_text-join p (join "." q))

get_aws_region-join :
    (p q : String)
    → find_char b'.' p ≡ none
    → get_aws_region (join p (join "." q)) ≡ get_aws_service q
unfolding get_aws_region
get_aws_region-join p q h = rw (first_dot p q h, drop_text-join p "." q)

aws_host-join :
    (service region : String)
    → aws_host service region ≡ join service (join "." (join region (join "." "amazonaws.com")))
aws_host-join service region = rw (
  append-eq-join region ".amazonaws.com",
  append-eq-join "." (join region ".amazonaws.com"),
  append-eq-join service (join "." (join region ".amazonaws.com")),
)

-- Round trip: from the host that ATTACH makes of a service and a region without dots, a request
-- reads that service and that region.
pub get_aws_region-aws_host :
    (service region : String)
    → find_char b'.' service ≡ none
    → find_char b'.' region ≡ none
    → (get_aws_service (aws_host service region) ≡ service)
      × (get_aws_region (aws_host service region) ≡ region)
get_aws_region-aws_host service region s r =
    let rest : String = join region (join "." "amazonaws.com") in
    rw (aws_host-join service region) (
      get_aws_service-join service rest s,
      get_aws_region-join service rest s ∙ get_aws_service-join region "amazonaws.com" r,
    )
