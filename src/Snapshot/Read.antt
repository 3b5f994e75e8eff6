-- ===== src/Snapshot/Read.antt =====
-- src/common/iceberg.cpp, src/include/manifest_reader.hpp and src/include/iceberg_metadata.hpp: the
-- manifests of a snapshot, with all their entries.
use duckdb_iceberg.Common.{
  ℕ, ◌+◌, String, Bool, true, false, List, [], ◌∷◌, ◌++◌, Result, ok, throw, invalid_input, ◌>>=◌,
  eqb, if◌then◌else◌,
}
use duckdb_iceberg.Types.{
  ManifestContentType, data_manifest, delete_manifest, IcebergManifest, IcebergManifestEntry,
  IcebergTableEntry,
}
use duckdb_iceberg.Duckdb.{ClientContext, StringUtil}
use duckdb_iceberg.Utils.{get_full_path}
use duckdb_iceberg.Manifest.Chunk.{ColumnType, NameMap}
use duckdb_iceberg.Manifest.Mapping.{manifest_name_mapping}
use duckdb_iceberg.Manifest.Produce.{Producer}
use duckdb_iceberg.Reader.{AvroScan, new_reader, initialize, read_all, rows_left}
use duckdb_iceberg.Manifest.Mapping.{
  manifest_name_mapping, entry_name_mapping, verify_manifest_v1, verify_manifest_v2,
  verify_entry_v1, verify_entry_v2,
}
use duckdb_iceberg.Manifest.Produce.{
  is_deleted, produce_manifest_v1, produce_manifest_v2, produce_entry_v1, produce_entry_v2,
}
use duckdb_iceberg.Snapshot.{IcebergOptions, IcebergSnapshot}

-- `STANDARD_VECTOR_SIZE`
abbrev pub standard_vector_size : ℕ
standard_vector_size = 2048

-- What the template parameter `OP` of `ScanAvroMetadata` brings.
pub record AvroFormat (E : Type 0) : Type 0 where
  pub populate_name_mapping : ℕ → ColumnType → String → NameMap → Result NameMap
  pub verify_schema : NameMap → Bool
  pub produce_entries : Producer E

-- The four structs of src/include/iceberg_manifest.hpp.
module _ (u : StringUtil) where
  unfoldable pub manifest_v1 : AvroFormat IcebergManifest
  manifest_v1 = record {
    populate_name_mapping = manifest_name_mapping u;
    verify_schema = verify_manifest_v1 u;
    produce_entries = produce_manifest_v1 u;
  }

  unfoldable pub manifest_v2 : AvroFormat IcebergManifest
  manifest_v2 = record {
    populate_name_mapping = manifest_name_mapping u;
    verify_schema = verify_manifest_v2 u;
    produce_entries = produce_manifest_v2 u;
  }

  unfoldable pub manifest_entry_v1 : AvroFormat IcebergManifestEntry
  manifest_entry_v1 = record {
    populate_name_mapping = entry_name_mapping u;
    verify_schema = verify_entry_v1 u;
    produce_entries = produce_entry_v1 u;
  }

  unfoldable pub manifest_entry_v2 : AvroFormat IcebergManifestEntry
  manifest_entry_v2 = record {
    populate_name_mapping = entry_name_mapping u;
    verify_schema = verify_entry_v2 u;
    produce_entries = produce_entry_v2 u;
  }

-- `open_avro` is the constructor of `AvroScan`, which binds `read_avro` to a file.
module _ (context : ClientContext) (open_avro : String → Result AvroScan) where
  open context use {fs, util}

  unfoldable pub scan_avro_metadata : {E : Type 0} → AvroFormat E → String → Result (List E)
  scan_avro_metadata format path = do
    scan ← open_avro path
    reader ← initialize scan (new_reader format.populate_name_mapping format.verify_schema false)
    read ← read_all format.produce_entries (2 + rows_left reader) standard_vector_size reader []
    ok read.1

  -- The path of a file of the table, which may have been moved.
  unfoldable pub resolve_path : IcebergOptions → String → String → Result String
  resolve_path options iceberg_path file_path =
      if options.allow_moved_paths then get_full_path fs iceberg_path file_path else ok file_path

  unfoldable pub read_manifest_entries :
      AvroFormat IcebergManifestEntry
      → IcebergOptions
      → String
      → List IcebergManifest
      → Result (List IcebergTableEntry)
  unfolding resolve_path scan_avro_metadata
  read_manifest_entries format options iceberg_path [] = ok []
  read_manifest_entries format options iceberg_path (manifest ∷ manifests) = do
    full_path ← resolve_path options iceberg_path manifest.manifest_path
    entries ← scan_avro_metadata format full_path
    rest ← read_manifest_entries format options iceberg_path manifests
    ok (record { manifest = manifest; manifest_entries = entries } ∷ rest)

  unfoldable pub load_version :
      AvroFormat IcebergManifest
      → AvroFormat IcebergManifestEntry
      → IcebergOptions
      → String
      → String
      → Result (List IcebergTableEntry)
  unfolding read_manifest_entries
  load_version manifest_format entry_format options iceberg_path full_path = do
    manifests ← scan_avro_metadata manifest_format full_path
    read_manifest_entries entry_format options iceberg_path manifests

  -- `IcebergTable::Load`: the entries of the table.
  unfoldable pub load : String → IcebergSnapshot → IcebergOptions → Result (List IcebergTableEntry)
  unfolding load_version manifest_v1 manifest_v2 manifest_entry_v1 manifest_entry_v2
  load iceberg_path snapshot options = do
    full_path ← resolve_path options iceberg_path snapshot.manifest_list
    if eqb snapshot.iceberg_format_version 1
        then load_version (manifest_v1 util) (manifest_entry_v1 util) options iceberg_path full_path
        else if eqb snapshot.iceberg_format_version 2
        then load_version (manifest_v2 util) (manifest_entry_v2 util) options iceberg_path full_path
        else throw (invalid_input "iceberg_format_version not handled")

abbrev pub same_content : ManifestContentType → ManifestContentType → Bool
same_content data_manifest data_manifest = true
same_content delete_manifest delete_manifest = true
same_content (ManifestContentType.other m) (ManifestContentType.other n) = eqb m n
same_content _ _ = false

-- The inner loop of `GetAllPaths`: the entries that are not deleted.
unfoldable pub live_entries : List IcebergManifestEntry → List IcebergManifestEntry
live_entries [] = []
live_entries (entry ∷ entries) =
    if is_deleted entry.status then live_entries entries else entry ∷ live_entries entries

abbrev pub paths_of : List IcebergManifestEntry → List String
paths_of [] = []
paths_of (entry ∷ entries) = entry.file_path ∷ paths_of entries

unfoldable pub get_paths : ManifestContentType → List IcebergTableEntry → List String
unfolding live_entries
get_paths type [] = []
get_paths type (entry ∷ entries) =
    (if same_content entry.manifest.content type
      then paths_of (live_entries entry.manifest_entries)
      else [])
    ++ get_paths type entries

unfoldable pub get_all_paths : List IcebergTableEntry → List IcebergManifestEntry
unfolding live_entries
get_all_paths [] = []
get_all_paths (entry ∷ entries) = live_entries entry.manifest_entries ++ get_all_paths entries
