-- ===== src/Tests/Scopes.antt =====
-- The secrets of a scan of a table, for one storage credential.
use duckdb_iceberg.Common.{◌≡◌, refl, String, Option, some, [], ◌∷◌, ok}
use duckdb_iceberg.Json.{Json, str, obj, arr, no_props, property, no_elems, element}
use duckdb_iceberg.Catalog.Requests.{ApiTable, Session}
use duckdb_iceberg.Catalog.Tables.{metadata_request}
use duckdb_iceberg.Catalog.Credentials.{CreateSecretInfo}
use duckdb_iceberg.Catalog.TableScan.{scan_secrets}
use duckdb_iceberg.Catalog.Prefixes.{AreScoped}
use duckdb_iceberg.Catalog.Scopes.{IsMetadata, scan_secrets-AreScoped}
use duckdb_iceberg.Tests.Fixtures.{util}
use duckdb_iceberg.Tests.Requests.{service, catalog, fresh_session, secrets, found}

abbrev table : ApiTable
table = found.table_data

abbrev credential : Json
credential = obj (
    property "prefix" (str "s3://x/")
      (property "config" (obj (property "s3.access-key-id" (str "k") no_props)) no_props))

abbrev answer : Option Json
answer = some (obj (property "storage-credentials" (arr (element credential no_elems)) no_props))

abbrev secret : CreateSecretInfo secrets util
secret = record {
  name = "__internal_ic_uuid-a-table__a__bs3://x/";
  scope = "s3://x/" ∷ [];
  options = ("key_id", "k") ∷ [];
}

abbrev after : Session
after = record {
  metadata_cache = [];
  requests = metadata_request (service answer) catalog "a" "b" "s" ∷ [];
}

created :
    scan_secrets secrets util (λ s. s) (service answer) catalog 0 0 fresh_session "w" table
    ≡ ok ((secret ∷ [], "s3://x/metadata/v1"), after)
unfolding scan_secrets
created = refl

scan_secrets-AreScoped_example :
    (metadata : String) × (root : Option Json) × IsMetadata secrets util
      (λ s. s)
      (service answer)
      catalog
      0
      0
      fresh_session
      table
      metadata
      root
      after
    × (table.data_source_format ≡ "ICEBERG")
    × ("s3://x/metadata/v1" ≡ table.storage_location)
    × AreScoped secrets util (λ s. s) root table (secret ∷ [])
scan_secrets-AreScoped_example =
    scan_secrets-AreScoped secrets util (λ s. s) (service answer) catalog 0 0 fresh_session table
      "w" (secret ∷ []) "s3://x/metadata/v1" after created
