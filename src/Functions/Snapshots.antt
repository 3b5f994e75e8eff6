-- ===== src/Functions/Snapshots.antt =====
-- src/iceberg_functions/iceberg_snapshots.cpp: `iceberg_snapshots`, a batch of rows at a time. The
-- iterator over the snapshots is the list of those it has before it.
use duckdb_iceberg.Common.{
  ℕ, suc, String, some, List, [], ◌∷◌, Result, ok, undefined_behaviour, ◌>>=◌, or_throw, ◌==◌, leb,
  if◌then◌else◌,
}
use duckdb_iceberg.Json.{Json, obj_get, arr_items}
use duckdb_iceberg.Utils.{try_get_num}
use duckdb_iceberg.Duckdb.{ClientContext}
use duckdb_iceberg.Snapshot.{IcebergOptions, read_metadata, get_parse_info, parse_snapshot}
use duckdb_iceberg.Snapshot.MetadataPath.{get_metadata_path}
use duckdb_iceberg.FileList.Options.{Value, boolean, string}

-- One row of the output.
pub record SnapshotRow : Type 0 where
  pub sequence_number : ℕ
  pub snapshot_id : ℕ
  pub timestamp_ms : ℕ
  pub manifest_list : String

pub record GlobalState : Type 0 where
  pub metadata_doc : Json
  pub snapshot_it : List Json
  pub iceberg_format_version : ℕ

-- The body of the loop of `IcebergSnapshotsBind`; an option of another name is passed over.
abbrev set_option : String → Value → IcebergOptions → IcebergOptions
set_option loption (string s) options =
    if loption == "metadata_compression_codec"
    then record options { metadata_compression_codec = s }
    else if loption == "version"
    then record options { table_version = s }
    else if loption == "version_name_format"
    then record options { version_name_format = s }
    else options
set_option loption (boolean b) options =
    if loption == "skip_schema_inference"
    then record options { skip_schema_inference = b }
    else options
set_option loption _ options = options

-- The loop of `IcebergSnapshotsFunction`. The iterator moves on before the output is found full.
unfoldable pub snapshots_loop {ℓ} :
    {R : Type ℓ} → ℕ → (Json → Result R) → ℕ → List Json → Result (List R × List Json)
snapshots_loop vector_size row_of i [] = ok ([], [])
snapshots_loop vector_size row_of i (next_snapshot ∷ snapshot_it) =
    let rest = snapshots_loop vector_size row_of (suc i) snapshot_it in
    if leb vector_size i
    then ok ([], snapshot_it)
    else row_of next_snapshot >>= λ row. rest >>= λ out. ok (row ∷ out.0, out.1)

module _ (context : ClientContext) where
  open context use {util, yyjson_read}

  unfoldable pub bind_options : List (String × Value) → IcebergOptions → IcebergOptions
  bind_options [] options = options
  bind_options ((key, value) ∷ named_parameters) options =
      bind_options named_parameters (set_option (util.lower key) value options)

  -- `Init`: a text that does not parse has no root, and no format version.
  unfoldable pub init : String → IcebergOptions → Result GlobalState
  unfolding get_metadata_path read_metadata
  init filename options = do
    meta_path ← get_metadata_path context filename options
    metadata_file ← read_metadata context meta_path options.metadata_compression_codec
    version ← try_get_num (yyjson_read metadata_file) "format-version"
    root ← or_throw (yyjson_read metadata_file) undefined_behaviour
    ok (record {
      metadata_doc = root;
      snapshot_it = arr_items (obj_get (some root) "snapshots");
      iceberg_format_version = version;
    })

  -- The values of a row; those that were never set are read all the same.
  unfoldable pub snapshot_row : GlobalState → IcebergOptions → Json → Result SnapshotRow
  unfolding get_parse_info parse_snapshot
  snapshot_row state options next_snapshot = do
    info ← get_parse_info state.metadata_doc
    snapshot ←
        parse_snapshot context (some next_snapshot) state.iceberg_format_version info.schema_id
          info.schemas options
    sequence_number ← or_throw snapshot.sequence_number undefined_behaviour
    timestamp_ms ← or_throw snapshot.timestamp_ms undefined_behaviour
    ok (record {
      sequence_number = sequence_number;
      snapshot_id = snapshot.snapshot_id;
      timestamp_ms = timestamp_ms;
      manifest_list = snapshot.manifest_list;
    })

  unfoldable pub snapshots_function :
      ℕ → IcebergOptions → GlobalState → Result (List SnapshotRow × GlobalState)
  unfolding snapshots_loop snapshot_row
  snapshots_function vector_size options state = do
    out ← snapshots_loop vector_size (snapshot_row state options) 0 state.snapshot_it
    ok (out.0, record state { snapshot_it = out.1 })
