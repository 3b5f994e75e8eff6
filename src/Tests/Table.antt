-- ===== src/Tests/Table.antt =====
-- `iceberg_metadata` on a table of one data manifest and one delete manifest.
use duckdb_iceberg.Common.{
  ◌≡◌, refl, ◌==◌, String, false, Option, none, some, List, [], ◌∷◌, ok, filter_map, arith,
  map_result, ends_with,
}
use duckdb_iceberg.Types.{
  IcebergManifest, IcebergManifestEntry, IcebergTableEntry, content_of_int, status_of_int,
}
use duckdb_iceberg.Duckdb.{ci_find, ci_set}
use duckdb_iceberg.Manifest.Chunk.{Row, NameMap}
use duckdb_iceberg.Manifest.Mapping.{manifest_name_mapping, verify_manifest_v1, verify_manifest_v2}
use duckdb_iceberg.Manifest.Produce.{
  ManifestReaderInput, read_manifest_v2, never, at, read_entry_v2,
}
use duckdb_iceberg.Manifest.Deliver.{visible, IsReadable, produce_manifest_v2_appends}
use duckdb_iceberg.Reader.{ManifestReader, initialize, new_reader, is_finished, map_columns}
use duckdb_iceberg.Reader.Rounds.{Delivers}
use duckdb_iceberg.Reader.Rows.{pending, IsReading}
use duckdb_iceberg.Snapshot.Find.{find_latest, latest_loop}
use duckdb_iceberg.Snapshot.{get_parse_info_at, parse_snapshot, get_latest_snapshot}
use duckdb_iceberg.Snapshot.Read.{manifest_v2, manifest_entry_v2, resolve_path}
use duckdb_iceberg.Snapshot.Loads.{HoldsEntries, version_2}
use duckdb_iceberg.Utils.{try_get_num, try_get_str}
use duckdb_iceberg.Functions.Metadata.{
  initial_state, metadata_row, metadata_function, metadata_bind, snapshot_to_scan, bind_parameters,
}
use duckdb_iceberg.Functions.Cursor.{listed_row}
use duckdb_iceberg.Functions.Calls.{scan_calls}
use duckdb_iceberg.Functions.Table.{all_entries, Binds, metadata_bind-scan_calls}
use duckdb_iceberg.Tests.Fixtures.{util}
use duckdb_iceberg.Tests.Files.{
  file, unskipped, entry_of, Readable, delivers_all, begun, begins, reading,
}
use duckdb_iceberg.Tests.Scan.{
  table_context, table_options, list_file, open_table, data_manifest_m, delete_manifest_d, snapshot,
  finds_metadata,
}

abbrev list_names : NameMap
list_names =
    ("manifest_path", record { primary = 0; child = none })
    ∷ ("content", record { primary = 1; child = none })
    ∷ ("sequence_number", record { primary = 2; child = none })
    ∷ []

abbrev list_input : ManifestReaderInput
list_input = record { name_to_vec = list_names; skip_deleted = false }

abbrev manifest_of : Row → Option IcebergManifest
manifest_of = visible (read_manifest_v2 0 1 2) never

abbrev ListReadable : Row → Type 0
ListReadable = IsReadable (read_manifest_v2 0 1 2) never

list_delivers : Delivers manifest_of (manifest_v2 util).produce_entries ListReadable list_input
unfolding manifest_v2 at ci_find
list_delivers =
    produce_manifest_v2_appends util list_input (record { primary = 0; child = none })
      (record { primary = 1; child = none }) (record { primary = 2; child = none }) refl refl refl

abbrev list_begun : ManifestReader
list_begun = record {
  scan = some list_file;
  chunk = [];
  offset = 0;
  finished = false;
  name_to_vec = list_names;
  name_mapping = manifest_name_mapping util;
  schema_validation = verify_manifest_v2 util;
  skip_deleted = false;
}

list_begins :
    initialize list_file
      (new_reader (manifest_v2 util).populate_name_mapping (manifest_v2 util).verify_schema false)
    ≡ ok list_begun
unfolding manifest_v2 new_reader initialize map_columns manifest_name_mapping verify_manifest_v1
    verify_manifest_v2 ci_find ci_set
list_begins = refl

list-IsReading : IsReading ListReadable list_input list_begun
unfolding is_finished read_manifest_v2
list-IsReading = record {
  is_open = λ p. cc;
  good_chunk = tt;
  good_rest = (((_, refl), ((_, refl), tt)), tt);
  same_map = refl;
  same_skip = refl;
  same_end = refl;
}

abbrev pub entries_of : IcebergManifest → List IcebergManifestEntry
entries_of m = filter_map entry_of (pending begun)

pub list_holds :
    HoldsEntries open_table (manifest_v2 util) "l" (data_manifest_m ∷ delete_manifest_d ∷ [])
unfolding read_manifest_v2 content_of_int is_finished
list_holds = record {
  decode = manifest_of;
  Good = ListReadable;
  input = list_input;
  delivers = list_delivers;
  scan = list_file;
  reader = list_begun;
  is_open = refl;
  begins = list_begins;
  is_reading = list-IsReading;
  more = refl;
  fits = omega arith;
  holds = refl;
}

pub manifest_holds :
    (path : String)
    → (path == "l") ≡ false
    → HoldsEntries open_table (manifest_entry_v2 util) path (entries_of data_manifest_m)
manifest_holds path other = record {
  decode = entry_of;
  Good = Readable;
  input = unskipped;
  delivers = delivers_all;
  scan = file;
  reader = begun;
  is_open = rw other;
  begins = begins;
  is_reading = reading;
  more = refl;
  fits = omega arith;
  holds = refl;
}

binds :
    Binds table_context open_table "t.json" none [] table_options entries_of
      (data_manifest_m ∷ delete_manifest_d ∷ [])
unfolding bind_parameters snapshot_to_scan get_latest_snapshot get_parse_info_at ends_with
    try_get_num find_latest latest_loop parse_snapshot try_get_str resolve_path
binds = record {
  meta_path = "t.json";
  snapshot = snapshot;
  is_found = finds_metadata;
  is_selected = refl;
  is_loaded = record {
    list_format = manifest_v2 util;
    entry_format = manifest_entry_v2 util;
    version = version_2;
    list_path = "l";
    resolves = refl;
    list_file = list_holds;
    files = (
      record { full_path = "m"; resolves = refl; file = manifest_holds "m" refl },
      (record { full_path = "d"; resolves = refl; file = manifest_holds "d" refl }, tt),
    );
  };
}

-- Four entries, in vectors of three rows.
metadata_bind-scan_calls_example :
    (table : List IcebergTableEntry) × (metadata_bind table_context open_table "t.json" none []
        table_options
      ≡ ok table)
    × (scan_calls 3 (metadata_function 3 metadata_row table) initial_state
        ≡ map_result
            (listed_row metadata_row)
            (all_entries entries_of (data_manifest_m ∷ delete_manifest_d ∷ [])))
unfolding read_entry_v2 status_of_int is_finished
metadata_bind-scan_calls_example =
    metadata_bind-scan_calls table_context open_table "t.json" none [] table_options entries_of
      (data_manifest_m ∷ delete_manifest_d ∷ []) 3 2 binds (omega arith) (omega arith)
