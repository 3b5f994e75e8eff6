-- ===== src/Tests/Agrees.antt =====
-- The data files of a table, found in two ways.
use duckdb_iceberg.Common.{◌≡◌, refl, List, [], ◌∷◌, ok, length, arith}
use duckdb_iceberg.Types.{IcebergManifest, IcebergTableEntry, data_manifest, status_of_int}
use duckdb_iceberg.Manifest.Produce.{read_entry_v2}
use duckdb_iceberg.Snapshot.Read.{
  manifest_v2, manifest_entry_v2, resolve_path, load, paths_of, get_paths,
}
use duckdb_iceberg.Snapshot.Loads.{IsLoaded, version_2}
use duckdb_iceberg.FileList.{get_total_file_count}
use duckdb_iceberg.FileList.Initial.{
  Files, initialize_files, data_manifests_of, delete_manifests_of,
}
use duckdb_iceberg.FileList.Agrees.{OfRows, get_total_file_count-get_paths}
use duckdb_iceberg.Tests.Fixtures.{util, columns, entry_row}
use duckdb_iceberg.Tests.Scan.{
  table_context, table_options, open_table, open_delete_file, listing, content, snapshot,
  data_manifest_m, delete_manifest_d, selects, table,
}
use duckdb_iceberg.Tests.Table.{entries_of, list_holds, manifest_holds}

loaded :
    IsLoaded table_context open_table table_options "t.json" entries_of snapshot
      (data_manifest_m ∷ delete_manifest_d ∷ [])
unfolding resolve_path
loaded = record {
  list_format = manifest_v2 util;
  entry_format = manifest_entry_v2 util;
  version = version_2;
  list_path = "l";
  resolves = refl;
  list_file = list_holds;
  files = (
    record { full_path = "m"; resolves = refl; file = manifest_holds "m" refl },
    (record { full_path = "d"; resolves = refl; file = manifest_holds "d" refl }, tt),
  );
}

of_rows : (m : IcebergManifest) → OfRows listing entries_of m
of_rows m = record {
  read = read_entry_v2 columns 3;
  rows = entry_row 1 "a" ∷ entry_row 1 "b" ∷ [];
  scanned = refl;
  loaded = refl;
}

get_total_file_count-get_paths_example :
    (loaded_table : List IcebergTableEntry) × (files files' : Files) × (load table_context
        open_table "t.json" snapshot table_options
      ≡ ok loaded_table)
    × (initialize_files table_context open_table "t.json" table_options ≡ ok files)
    × (get_total_file_count table_context open_table "t.json" table_options 4 files
        ≡ ok (files', length (get_paths data_manifest loaded_table)))
    × (paths_of files'.data_files ≡ get_paths data_manifest loaded_table)
unfolding data_manifests_of delete_manifests_of read_entry_v2 status_of_int
get_total_file_count-get_paths_example =
    get_total_file_count-get_paths table_context open_table "t.json" table_options open_delete_file
      listing (λ m. 2) content entries_of 4 snapshot (data_manifest_m ∷ delete_manifest_d ∷ [])
      table selects loaded (of_rows data_manifest_m, (of_rows delete_manifest_d, tt)) (omega arith)
      (omega arith)
