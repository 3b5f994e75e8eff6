-- ===== src/FileList/Initial.antt =====
-- `InitializeFiles`: the snapshot, the readers and the two lists of manifests.
use duckdb_iceberg.Common.{
  String, Bool, true, false, List, [], ◌∷◌, Result, ok, throw, invalid_input, ◌>>=◌, eqb,
  if◌then◌else◌,
}
use duckdb_iceberg.Types.{ManifestContentType, data_manifest, IcebergManifest, IcebergManifestEntry}
use duckdb_iceberg.Duckdb.{ClientContext}
use duckdb_iceberg.Reader.{AvroScan, ManifestReader, new_reader}
use duckdb_iceberg.Snapshot.{
  IcebergOptions, IcebergSnapshot, SnapshotSource, latest, from_timestamp, from_id, invalid_index,
  get_latest_snapshot, get_snapshot_by_id, get_snapshot_by_timestamp,
}
use duckdb_iceberg.Snapshot.MetadataPath.{get_metadata_path}
use duckdb_iceberg.Snapshot.Read.{
  AvroFormat, manifest_v1, manifest_v2, manifest_entry_v1, manifest_entry_v2, scan_avro_metadata,
  resolve_path,
}
use duckdb_iceberg.FileList.Deletes.{DeleteData}

-- The members that `InitializeFiles` sets. An iterator into a list of manifests is the part of the
-- list that it has before it.
pub record Files : Type 0 where
  pub snapshot : IcebergSnapshot
  pub entry_format : AvroFormat IcebergManifestEntry
  pub data_reader : ManifestReader
  pub delete_reader : ManifestReader
  pub data_files : List IcebergManifestEntry
  pub data_manifests : List IcebergManifest
  pub delete_manifests : List IcebergManifest
  pub current_data : List IcebergManifest
  pub current_delete : List IcebergManifest
  pub delete_data : DeleteData

abbrev pub is_data : ManifestContentType → Bool
is_data data_manifest = true
is_data _ = false

-- The loop that tells data manifests from delete manifests: all but the data manifests are the
-- latter.
unfoldable pub data_manifests_of : List IcebergManifest → List IcebergManifest
data_manifests_of [] = []
data_manifests_of (manifest ∷ manifests) =
    let rest = data_manifests_of manifests in
    if is_data manifest.content then manifest ∷ rest else rest

unfoldable pub delete_manifests_of : List IcebergManifest → List IcebergManifest
delete_manifests_of [] = []
delete_manifests_of (manifest ∷ manifests) =
    let rest = delete_manifests_of manifests in
    if is_data manifest.content then rest else manifest ∷ rest

unfoldable pub entry_reader : AvroFormat IcebergManifestEntry → ManifestReader
entry_reader format = new_reader format.populate_name_mapping format.verify_schema true

unfoldable pub files_of :
    IcebergSnapshot → AvroFormat IcebergManifestEntry → List IcebergManifest → Files
unfolding entry_reader data_manifests_of delete_manifests_of
files_of snapshot format manifests = record {
  snapshot = snapshot;
  entry_format = format;
  data_reader = entry_reader format;
  delete_reader = entry_reader format;
  data_files = [];
  data_manifests = data_manifests_of manifests;
  delete_manifests = delete_manifests_of manifests;
  current_data = data_manifests_of manifests;
  current_delete = delete_manifests_of manifests;
  delete_data = [];
}

module _ (context : ClientContext) (open_avro : String → Result AvroScan) where
  open context use {util}

  -- `switch (options.snapshot_source)`
  unfoldable pub select_snapshot : String → IcebergOptions → SnapshotSource → Result IcebergSnapshot
  select_snapshot meta_path options latest = get_latest_snapshot context meta_path options
  select_snapshot meta_path options (from_id snapshot_id) =
      get_snapshot_by_id context meta_path snapshot_id options
  select_snapshot meta_path options (from_timestamp timestamp) =
      get_snapshot_by_timestamp context meta_path timestamp options

  -- An empty table has no manifest list.
  unfoldable pub list_files :
      AvroFormat IcebergManifest
      → AvroFormat IcebergManifestEntry
      → String
      → IcebergOptions
      → IcebergSnapshot
      → Result Files
  unfolding files_of resolve_path scan_avro_metadata
  list_files manifest_format entry_format path options snapshot =
      if eqb snapshot.snapshot_id invalid_index then ok (files_of snapshot entry_format []) else (do
        full_path ← resolve_path context open_avro options path snapshot.manifest_list
        manifests ← scan_avro_metadata context open_avro manifest_format full_path
        ok (files_of snapshot entry_format manifests))

  -- Called once, by the first of `Bind` and `GetFile`.
  unfoldable pub initialize_files : String → IcebergOptions → Result Files
  unfolding select_snapshot list_files
  initialize_files path options = do
    meta_path ← get_metadata_path context path options
    snapshot ← select_snapshot meta_path options options.snapshot_source
    if eqb snapshot.iceberg_format_version 1
        then list_files (manifest_v1 util) (manifest_entry_v1 util) path options snapshot
        else if eqb snapshot.iceberg_format_version 2
        then list_files (manifest_v2 util) (manifest_entry_v2 util) path options snapshot
        else throw (invalid_input "Reading from this Iceberg version is not supported yet")
