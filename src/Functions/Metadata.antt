-- ===== src/Functions/Metadata.antt =====
-- src/iceberg_functions/iceberg_metadata.cpp: `iceberg_metadata`, which lists the entries of the
-- manifests, a vector of rows at a time. The position of the next entry outlives a call.
use duckdb_iceberg.Common.{
  ℕ, suc, ◌+◌, String, Option, none, some, List, [], ◌∷◌, ◌++◌, Result, ok, throw, invalid_input,
  ◌>>=◌, ◌==◌, leb, if◌then◌else◌, length, drop,
}
use duckdb_iceberg.Types.{
  IcebergManifest, IcebergManifestEntry, IcebergTableEntry, content_to_string, status_to_string,
  entry_content_to_string, manifest_types, manifest_names, entry_types, entry_names,
}
use duckdb_iceberg.Schema.ColumnTypes.{LogicalType}
use duckdb_iceberg.Duckdb.{ClientContext}
use duckdb_iceberg.Snapshot.{
  IcebergOptions, IcebergSnapshot, get_latest_snapshot, get_snapshot_by_id,
  get_snapshot_by_timestamp,
}
use duckdb_iceberg.Snapshot.MetadataPath.{get_metadata_path}
use duckdb_iceberg.Snapshot.Read.{load}
use duckdb_iceberg.Reader.{AvroScan}
use duckdb_iceberg.FileList.Options.{Value, boolean, string, unsigned, timestamp}

-- One row of the output.
pub record MetadataRow : Type 0 where
  pub manifest_path : String
  pub sequence_number : ℕ
  pub manifest_content : String
  pub status : String
  pub content : String
  pub file_path : String
  pub file_format : String
  pub record_count : ℕ

pub record MetadataState : Type 0 where
  pub current_manifest_idx : ℕ
  pub current_manifest_entry_idx : ℕ

abbrev pub initial_state : MetadataState
initial_state = record { current_manifest_idx = 0; current_manifest_entry_idx = 0 }

-- The values of a row; the three names may throw.
unfoldable pub metadata_row : IcebergManifest → IcebergManifestEntry → Result MetadataRow
unfolding content_to_string status_to_string entry_content_to_string
metadata_row manifest entry = do
  manifest_content ← content_to_string manifest.content
  status ← status_to_string entry.status
  content ← entry_content_to_string entry.content
  ok (record {
    manifest_path = manifest.manifest_path;
    sequence_number = manifest.sequence_number;
    manifest_content = manifest_content;
    status = status;
    content = content;
    file_path = entry.file_path;
    file_format = entry.file_format;
    record_count = entry.record_count;
  })

module _ {ℓ} {R : Type ℓ} (vector_size : ℕ) where
  -- The inner loop, over the entries from `entry_idx` on. It comes back with the position at which
  -- the output was found full, or without one at the end of the manifest.
  unfoldable pub entries_loop :
      (IcebergManifestEntry → Result R)
      → ℕ
      → ℕ
      → List IcebergManifestEntry
      → Result (List R × Option ℕ)
  entries_loop row_of out entry_idx [] = ok ([], none)
  entries_loop row_of out entry_idx (entry ∷ entries) =
      let rest = entries_loop row_of (suc out) (suc entry_idx) entries in
      if leb vector_size out
      then ok ([], some entry_idx)
      else row_of entry >>= λ row. rest >>= λ tail. ok (row ∷ tail.0, tail.1)

  -- What the outer loop does after the inner one: it returns, or goes on at the next manifest.
  unfoldable pub after_entries :
      (ℕ → Result (List R × MetadataState))
      → ℕ
      → List R × Option ℕ
      → Result (List R × MetadataState)
  after_entries next manifest_idx (rows, some entry_idx) =
      ok (
        rows,
        record { current_manifest_idx = manifest_idx; current_manifest_entry_idx = entry_idx },
      )
  after_entries next manifest_idx (rows, none) =
      next (length rows) >>= λ rest. ok (rows ++ rest.0, rest.1)

  -- The outer loop, over the manifests from `manifest_idx` on, the first one at `entry_idx`.
  unfoldable pub manifests_loop :
      (IcebergManifest → IcebergManifestEntry → Result R)
      → ℕ
      → ℕ
      → ℕ
      → List IcebergTableEntry
      → Result (List R × MetadataState)
  unfolding entries_loop after_entries
  manifests_loop row_of out manifest_idx entry_idx [] =
      ok
        ([], record { current_manifest_idx = manifest_idx; current_manifest_entry_idx = entry_idx })
  manifests_loop row_of out manifest_idx entry_idx (table_entry ∷ manifests) = do
    inner ←
        entries_loop (row_of table_entry.manifest) out entry_idx
          (drop entry_idx table_entry.manifest_entries)
    after_entries (λ written. manifests_loop row_of (out + written) (suc manifest_idx) 0 manifests)
        manifest_idx inner

  unfoldable pub metadata_function :
      (IcebergManifest → IcebergManifestEntry → Result R)
      → List IcebergTableEntry
      → MetadataState
      → Result (List R × MetadataState)
  unfolding manifests_loop
  metadata_function row_of table state =
      manifests_loop row_of 0 state.current_manifest_idx state.current_manifest_entry_idx
        (drop state.current_manifest_idx table)

-- The body of the loop over the named parameters; one of another name is passed over.
abbrev set_parameter : String → Value → IcebergOptions → IcebergOptions
set_parameter loption (boolean b) options =
    if loption == "allow_moved_paths"
    then record options { allow_moved_paths = b }
    else if loption == "skip_schema_inference"
    then record options { skip_schema_inference = b }
    else options
set_parameter loption (string s) options =
    if loption == "metadata_compression_codec"
    then record options { metadata_compression_codec = s }
    else if loption == "version"
    then record options { table_version = s }
    else if loption == "version_name_format"
    then record options { version_name_format = s }
    else options
set_parameter loption _ options = options

-- The names and the types of the output, as the bind function builds them.
unfoldable pub output_columns : List String × List LogicalType
unfolding manifest_types manifest_names entry_types entry_names
output_columns = (manifest_names ++ entry_names, manifest_types ++ entry_types)

module _ (context : ClientContext) (open_avro : String → Result AvroScan) where
  open context use {util}

  unfoldable pub bind_parameters : List (String × Value) → IcebergOptions → IcebergOptions
  bind_parameters [] options = options
  bind_parameters ((key, value) ∷ named_parameters) options =
      bind_parameters named_parameters (set_parameter (util.lower key) value options)

  -- The snapshot that the second argument asks for, where there is one.
  unfoldable pub snapshot_to_scan : String → Option Value → IcebergOptions → Result IcebergSnapshot
  unfolding get_latest_snapshot get_snapshot_by_id get_snapshot_by_timestamp
  snapshot_to_scan meta_path none options = get_latest_snapshot context meta_path options
  snapshot_to_scan meta_path (some (unsigned id)) options =
      get_snapshot_by_id context meta_path id options
  snapshot_to_scan meta_path (some (timestamp t)) options =
      get_snapshot_by_timestamp context meta_path t options
  snapshot_to_scan meta_path (some _) options =
      throw (invalid_input "Unknown argument type in IcebergScanBindReplace.")

  -- `IcebergMetaDataBind`: the table that the calls list.
  unfoldable pub metadata_bind :
      String
      → Option Value
      → List (String × Value)
      → IcebergOptions
      → Result (List IcebergTableEntry)
  unfolding bind_parameters snapshot_to_scan get_metadata_path load
  metadata_bind iceberg_path argument named_parameters defaults = do
    let options = bind_parameters named_parameters defaults
    meta_path ← get_metadata_path context iceberg_path options
    snapshot ← snapshot_to_scan meta_path argument options
    load context open_avro iceberg_path snapshot options
