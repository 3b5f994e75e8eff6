-- ===== src/Tests/Metadata.antt =====
-- Schemas, snapshots and paths of small metadata files.
use duckdb_iceberg.Common.{
  ℕ, ◌≡◌, inl, inr, refl, Option, some, [], ◌∷◌, ok, arith, HasFuel, rfind_suffix,
}
use duckdb_iceberg.Json.{Json, num, str, arr, obj, no_elems, element, no_props, property}
use duckdb_iceberg.Utils.{try_get_num, get_full_path}
use duckdb_iceberg.Utils.Paths.{get_full_path_metadata}
use duckdb_iceberg.Schema.{parse_type_value, parse_schema, parse_schema_from_json}
use duckdb_iceberg.Schema.Termination.{parse_type_value-HasFuel}
use duckdb_iceberg.Schema.Choice.{parse_schema_first}
use duckdb_iceberg.Snapshot.Find.{find_latest, find_by_id, find_by_timestamp}
use duckdb_iceberg.Snapshot.Choice.{
  find_latest_greatest, find_by_timestamp_greatest, find_by_id_first,
}
use duckdb_iceberg.Snapshot.MetadataPath.{generate_metadata_url}
use duckdb_iceberg.Snapshot.Formats.{generate_metadata_url_first}
use duckdb_iceberg.Tests.Fixtures.{util, disk, context, default_options}

abbrev snapshot : ℕ → ℕ → Json
snapshot id millis =
    obj (property "snapshot-id" (num id) (property "timestamp-ms" (num millis) no_props))

abbrev snapshots : Option Json
snapshots =
    some
      (arr (element (snapshot 7 20) (element (snapshot 8 30) (element (snapshot 9 10) no_elems))))

find_latest_greatest_example : find_latest snapshots ≡ ok (some (snapshot 8 30))
unfolding try_get_num
find_latest_greatest_example =
    find_latest_greatest snapshots (snapshot 7 20 ∷ []) (snapshot 8 30) (snapshot 9 10 ∷ []) 30 refl
      ((20, refl, omega arith), tt) refl ((10, refl, omega arith), tt)

find_by_timestamp_greatest_example : find_by_timestamp snapshots 25 ≡ ok (some (snapshot 7 20))
unfolding try_get_num
find_by_timestamp_greatest_example =
    find_by_timestamp_greatest snapshots 25 [] (snapshot 7 20) (snapshot 8 30 ∷ snapshot 9 10 ∷ [])
      20 refl (omega arith) tt refl
      ((30, refl, inl (omega arith)), ((10, refl, inr (omega arith)), tt))

find_by_id_first_example : find_by_id snapshots 8 ≡ ok (some (snapshot 8 30))
unfolding try_get_num
find_by_id_first_example =
    find_by_id_first snapshots 8 (snapshot 7 20 ∷ []) (snapshot 8 30) (snapshot 9 10 ∷ []) refl
      ((7, refl, λ p. omega arith), tt) refl

abbrev list_type : Json
list_type = obj (property "type" (str "list") (property "element" (str "int") no_props))

parse_type_value-HasFuel_example : HasFuel (parse_type_value util (some list_type))
parse_type_value-HasFuel_example = parse_type_value-HasFuel util (some list_type)

abbrev schema : ℕ → Json
schema id = obj (property "schema-id" (num id) (property "type" (str "struct") no_props))

parse_schema_first_example :
    parse_schema util (schema 0 ∷ schema 1 ∷ []) 1 ≡ parse_schema_from_json util (schema 1)
unfolding try_get_num
parse_schema_first_example =
    parse_schema_first util 1 (schema 0 ∷ []) (schema 1) [] ((0, refl, λ p. omega arith), tt) refl

get_full_path_metadata_example :
    get_full_path disk "new" "s3://old/metadata/x.avro" ≡ ok "new/metadata/x.avro"
unfolding rfind_suffix
get_full_path_metadata_example = get_full_path_metadata disk "new" "s3://old" "x.avro" refl

generate_metadata_url_first_example :
    generate_metadata_url context "t/metadata" "3" default_options
    ≡ ok "t/metadata/v3.metadata.json"
generate_metadata_url_first_example =
    generate_metadata_url_first context "t/metadata" "3" default_options [] "v%s%s.metadata.json" []
      refl tt refl
