-- ===== src/Tests/Scan.antt =====
-- A table of one data manifest and one delete manifest, from its metadata file to its rows.
use duckdb_iceberg.Common.{
  ℕ, ◌≡◌, refl, ◌==◌, if◌then◌else◌, String, false, true, some, List, [], ◌∷◌, Result, ok,
  filter_map, All, arith, ends_with,
}
use duckdb_iceberg.Json.{Json, num, str, obj, arr, no_props, property, no_elems, element}
use duckdb_iceberg.Types.{
  IcebergManifest, IcebergManifestEntry, data_manifest, delete_manifest, status_of_int,
  content_of_int,
}
use duckdb_iceberg.Duckdb.{ClientContext, ci_find, ci_set}
use duckdb_iceberg.Manifest.Chunk.{Leaf, leaf, scalar}
use duckdb_iceberg.Manifest.Mapping.{
  manifest_name_mapping, verify_manifest_v2, entry_name_mapping, map_children, verify_entry_v1,
  verify_entry_v2,
}
use duckdb_iceberg.Manifest.Produce.{produce_manifest_v2, produce_entry_v2, read_entry_v2}
use duckdb_iceberg.Reader.{
  new_reader, read_all, read_entries, read_loop, refill, AvroScan, initialize, map_columns,
  is_finished,
}
use duckdb_iceberg.Reader.Rows.{pending}
use duckdb_iceberg.Utils.{try_get_num, try_get_str}
use duckdb_iceberg.Snapshot.Find.{find_latest, latest_loop}
use duckdb_iceberg.Snapshot.{
  get_parse_info_at, parse_snapshot, IcebergOptions, IcebergSnapshot, latest, get_latest_snapshot,
}
use duckdb_iceberg.Snapshot.MetadataPath.{get_metadata_path}
use duckdb_iceberg.Snapshot.Read.{scan_avro_metadata, manifest_v2, manifest_entry_v2, resolve_path}
use duckdb_iceberg.FileList.Initial.{
  data_manifests_of, delete_manifests_of, select_snapshot, Files, initialize_files, entry_reader,
}
use duckdb_iceberg.FileList.{open_manifest, get_total_file_count}
use duckdb_iceberg.FileList.Listing.{Listing, Opens}
use duckdb_iceberg.FileList.AllDeletes.{Lists}
use duckdb_iceberg.FileList.Finalized.{expected, named_by, IsOf, finalize_all}
use duckdb_iceberg.FileList.Scan.{IsTable, Selects, initialize_files-scan}
use duckdb_iceberg.Tests.Fixtures.{util, context, default_options, input, decode, Good}
use duckdb_iceberg.Tests.Files.{delivers, file, fresh, opened}

abbrev schema : Json
schema = obj (property "schema-id" (num 0) (property "type" (str "struct") no_props))

abbrev snapshot_json : Json
snapshot_json = obj (
    property "snapshot-id" (num 7) (
      property "timestamp-ms" (num 20)
        (property "sequence-number" (num 1) (property "manifest-list" (str "l") no_props))))

abbrev metadata : Json
metadata = obj (
    property "format-version" (num 2) (
      property "current-schema-id" (num 0) (
        property "schemas" (arr (element schema no_elems))
          (property "snapshots" (arr (element snapshot_json no_elems)) no_props))))

abbrev pub table_context : ClientContext
table_context = record context { yyjson_read = λ s. some metadata }

abbrev pub table_options : IcebergOptions
table_options = record default_options { skip_schema_inference = true }

-- The manifest list: a manifest of content 0, data, and one of content 1, deletes.
abbrev pub list_file : AvroScan
list_file = record {
  returns = (scalar, "manifest_path") ∷ (scalar, "content") ∷ (scalar, "sequence_number") ∷ [];
  chunks =
      ((leaf (Leaf.str "m") ∷ leaf (Leaf.int 0) ∷ leaf (Leaf.int 1) ∷ [])
        ∷ (leaf (Leaf.str "d") ∷ leaf (Leaf.int 1) ∷ leaf (Leaf.int 1) ∷ [])
        ∷ [])
      ∷ [];
  finished = false;
}

abbrev pub open_table : String → Result AvroScan
open_table path = if path == "l" then ok list_file else ok file

abbrev pub data_manifest_m : IcebergManifest
data_manifest_m = record { manifest_path = "m"; sequence_number = 1; content = data_manifest }

abbrev pub delete_manifest_d : IcebergManifest
delete_manifest_d = record { manifest_path = "d"; sequence_number = 1; content = delete_manifest }

abbrev pub snapshot : IcebergSnapshot
snapshot = record {
  snapshot_id = 7;
  sequence_number = some 1;
  manifest_list = "l";
  timestamp_ms = some 20;
  iceberg_format_version = 2;
  schema_id = 0;
  schema = [];
  metadata_compression_codec = "none";
}

-- The delete file "a" names row 1 of the data file "b", and "b" row 0 of "a".
abbrev pub content : String → List (List (String × ℕ))
content path = if path == "a" then (("b", 1) ∷ []) ∷ [] else (("a", 0) ∷ []) ∷ []

abbrev pub open_delete_file : String → Result (List (List (String × ℕ)))
open_delete_file path = ok (content path)

abbrev entries : List IcebergManifestEntry
entries = filter_map decode (pending (opened fresh))

abbrev pub listing : Listing
listing = record {
  input = λ m. input;
  decode = λ m. decode;
  Good = λ m. Good;
  produce = produce_entry_v2 util;
  delivers = λ m. delivers;
  config = fresh;
  entries_of = λ m. entries;
}

pub finds_metadata : get_metadata_path table_context "t.json" table_options ≡ ok "t.json"
unfolding get_metadata_path ends_with
finds_metadata = refl

selects_snapshot :
    select_snapshot table_context open_table "t.json" table_options latest ≡ ok snapshot
unfolding select_snapshot get_latest_snapshot get_parse_info_at ends_with try_get_num find_latest
    latest_loop parse_snapshot try_get_str
selects_snapshot = refl

reads_list :
    scan_avro_metadata table_context open_table (manifest_v2 util) "l"
    ≡ ok (data_manifest_m ∷ delete_manifest_d ∷ [])
unfolding scan_avro_metadata manifest_v2 initialize new_reader manifest_name_mapping
    verify_manifest_v2 ci_find read_all is_finished read_entries read_loop refill
    produce_manifest_v2 content_of_int
reads_list = refl

pub selects :
    Selects table_context open_table "t.json" table_options snapshot
      (data_manifest_m ∷ delete_manifest_d ∷ [])
unfolding resolve_path
selects = record {
  meta_path = "t.json";
  list_path = "l";
  is_found = finds_metadata;
  is_selected = selects_snapshot;
  version = refl;
  has_list = refl;
  is_resolved = refl;
  is_read = reads_list;
}

unfoldable opens_at :
    (m : IcebergManifest)
    → (m.manifest_path == "l") ≡ false
    → Opens listing (open_manifest table_context open_table "t.json" table_options) m
unfolding open_manifest resolve_path initialize map_columns entry_name_mapping map_children ci_set
    verify_entry_v1 verify_entry_v2 ci_find is_finished read_entry_v2
opens_at m other r (mapping, validation, skip) = (
  opened r,
  rw (other, mapping, validation),
  record {
    is_open = λ p. cc;
    good_chunk = tt;
    good_rest = (((_, refl), ((_, refl), tt)), tt);
    same_map = refl;
    same_skip = skip;
    same_end = refl;
  },
  refl,
  (mapping, validation, skip),
  refl,
)

small_at :
    Lists table_context open_table "t.json" table_options open_delete_file listing
      (λ m. 2)
      delete_manifest_d
unfolding opens_at
small_at = record {
  opens = opens_at delete_manifest_d refl;
  small = λ r same. omega arith;
  fits = omega arith;
}

pub table :
    IsTable table_context open_table "t.json" table_options open_delete_file listing
      (λ m. 2)
      content
      (data_manifest_m ∷ delete_manifest_d ∷ [])
unfolding manifest_entry_v2 entry_reader data_manifests_of delete_manifests_of read_entry_v2
    status_of_int resolve_path entry_name_mapping new_reader
table = record {
  producer = refl;
  same_config = (refl, refl, refl);
  opens = (opens_at data_manifest_m refl, tt);
  resolves = (("a", refl, refl), (("b", refl, refl), tt));
  lists = (small_at, tt);
  holds = (refl, (refl, tt));
}

-- A chunk of the file "b" and one of "a".
initialize_files-scan_example :
    (files files' : Files) × (initialize_files table_context open_table "t.json" table_options
      ≡ ok files)
    × (get_total_file_count table_context open_table "t.json" table_options 4 files
        ≡ ok (files', 2))
    × (files'.data_files ≡ entries)
    × ((calls : List (ℕ × List (String × ℕ)))
        → All (IsOf entries) calls
        → finalize_all table_context open_table "t.json" table_options open_delete_file 4 files'
            calls
          ≡ ok (
              expected
                (named_by table_context open_table "t.json" table_options open_delete_file listing
                  content
                  (delete_manifest_d ∷ []))
                entries
                calls))
unfolding data_manifests_of delete_manifests_of read_entry_v2 status_of_int
initialize_files-scan_example =
    initialize_files-scan table_context open_table "t.json" table_options open_delete_file listing
      (λ m. 2) content 4 snapshot (data_manifest_m ∷ delete_manifest_d ∷ []) table selects
      (omega arith) (omega arith)
