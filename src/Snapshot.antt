-- ===== src/Snapshot.antt =====
-- src/common/iceberg.cpp and src/include/iceberg_metadata.hpp: the metadata of a table, read and
-- searched for a snapshot.
pub mod Find
pub mod Choice
pub mod MetadataPath
pub mod Formats
pub mod Read
pub mod Scans
pub mod Loads
use duckdb_iceberg.Common.{
  ℕ, zero, suc, String, Bool, Option, none, some, List, [], ◌∷◌, ◌||◌, Result, ok, throw,
  io_exception, invalid_input, ◌>>=◌, ◌>>◌, or_throw, ◌==◌, ◌+++◌, ends_with, eqb, if◌then◌else◌,
}
use duckdb_iceberg.Json.{Json, obj, obj_get, arr_items}
use duckdb_iceberg.Utils.{try_get_num, try_get_str, file_to_string, gz_file_to_string}
use duckdb_iceberg.Duckdb.{ClientContext, FileSystem}
use duckdb_iceberg.Schema.{IcebergColumnDefinition, parse_schema}
use duckdb_iceberg.Snapshot.Find.{find_latest, find_by_id, find_by_timestamp}

-- `SnapshotSource` of src/include/iceberg_options.hpp, with the argument that goes with it.
pub data SnapshotSource : Type 0 where
  latest : SnapshotSource
  from_timestamp from_id : ℕ → SnapshotSource

pub record IcebergOptions : Type 0 where
  pub allow_moved_paths : Bool
  pub metadata_compression_codec : String
  pub skip_schema_inference : Bool
  pub table_version : String
  pub version_name_format : String
  pub snapshot_source : SnapshotSource

-- The parsed text itself is kept alive by the source only for the values that point into it.
pub record SnapshotParseInfo : Type 0 where
  pub snapshots : Option Json
  pub schemas : List Json
  pub iceberg_version : ℕ
  pub schema_id : ℕ

-- A field that the source leaves uninitialised is `none`.
pub record IcebergSnapshot : Type 0 where
  pub snapshot_id : ℕ
  pub sequence_number : Option ℕ
  pub manifest_list : String
  pub timestamp_ms : Option ℕ
  pub iceberg_format_version : ℕ
  pub schema_id : ℕ
  pub schema : List IcebergColumnDefinition
  pub metadata_compression_codec : String

-- `DConstants::INVALID_INDEX`
abbrev pub invalid_index : ℕ
invalid_index = 18_446_744_073_709_551_615

unfoldable pub get_parse_info : Json → Result SnapshotParseInfo
get_parse_info root = do
  version ← try_get_num (some root) "format-version"
  elim (obj_get (some root) "current-schema-id") [
    | some current ↦ (do
      schema_id ← try_get_num (some root) "current-schema-id"
      ok (record {
        snapshots = obj_get (some root) "snapshots";
        schemas = arr_items (obj_get (some root) "schemas");
        iceberg_version = version;
        schema_id = schema_id;
      }))
    | none ↦ (do
      schema ←
          or_throw (obj_get (some root) "schema")
            (io_exception "Neither a valid schema or schemas field was found")
      found_schema_id ← try_get_num (some schema) "schema-id"
      ok (record {
        snapshots = obj_get (some root) "snapshots";
        schemas = schema ∷ [];
        iceberg_version = version;
        schema_id = found_schema_id;
      }))
  ]

module _ (context : ClientContext) where
  open context use {fs, util, yyjson_read, from_epoch_ms, epoch_ms, timestamp_to_string, to_string}

  unfoldable pub read_metadata : String → String → Result String
  unfolding file_to_string gz_file_to_string
  read_metadata path metadata_compression_codec =
      if metadata_compression_codec == "gzip" || ends_with path "gz.metadata.json"
      then gz_file_to_string fs path
      else file_to_string fs path

  unfoldable pub get_parse_info_at : String → String → Result SnapshotParseInfo
  unfolding get_parse_info read_metadata
  get_parse_info_at path metadata_compression_codec = do
    metadata_json ← read_metadata path metadata_compression_codec
    root ←
        or_throw (yyjson_read metadata_json)
          (invalid_input ("Fails to parse iceberg metadata from " +++ path))
    get_parse_info root

  sequence_number_of : Json → ℕ → Result (Option ℕ)
  sequence_number_of snapshot iceberg_format_version =
      if eqb iceberg_format_version 1
      then ok (some 0)
      else if eqb iceberg_format_version 2
      then (do ok (some (← try_get_num (some snapshot) "sequence-number")))
      else ok none

  -- The schema, unless its inference is skipped.
  schema_of : List Json → ℕ → IcebergOptions → Result (List IcebergColumnDefinition)
  schema_of schemas schema_id options =
      if options.skip_schema_inference then ok [] else parse_schema util schemas schema_id

  -- A null pointer is the snapshot of an empty table.
  unfoldable pub parse_snapshot :
      Option Json → ℕ → ℕ → List Json → IcebergOptions → Result IcebergSnapshot
  unfolding sequence_number_of schema_of
  parse_snapshot none iceberg_format_version schema_id schemas options = do
    schema ← schema_of schemas schema_id options
    ok (record {
      snapshot_id = invalid_index;
      sequence_number = none;
      manifest_list = "";
      timestamp_ms = none;
      iceberg_format_version = iceberg_format_version;
      schema_id = schema_id;
      schema = schema;
      metadata_compression_codec = "none";
    })
  parse_snapshot (some (obj ps)) iceberg_format_version schema_id schemas options = do
    sequence_number ← sequence_number_of (obj ps) iceberg_format_version
    snapshot_id ← try_get_num (some (obj ps)) "snapshot-id"
    timestamp_ms ← (try_get_num (some (obj ps)) "timestamp-ms" >>= from_epoch_ms)
    manifest_list ← try_get_str (some (obj ps)) "manifest-list"
    schema ← schema_of schemas schema_id options
    ok (record {
      snapshot_id = snapshot_id;
      sequence_number = sequence_number;
      manifest_list = manifest_list;
      timestamp_ms = some timestamp_ms;
      iceberg_format_version = iceberg_format_version;
      schema_id = schema_id;
      schema = schema;
      metadata_compression_codec = options.metadata_compression_codec;
    })
  parse_snapshot (some _) iceberg_format_version schema_id schemas options =
      throw (io_exception "Invalid snapshot field found parsing iceberg metadata.json")

  parse_found : SnapshotParseInfo → IcebergOptions → Option Json → Result IcebergSnapshot
  parse_found info options snapshot =
      parse_snapshot snapshot info.iceberg_version info.schema_id info.schemas options

  unfoldable pub get_latest_snapshot : String → IcebergOptions → Result IcebergSnapshot
  unfolding parse_found
  get_latest_snapshot path options = do
    info ← get_parse_info_at path options.metadata_compression_codec
    latest_snapshot ← find_latest info.snapshots
    parse_found info options latest_snapshot

  unfoldable pub get_snapshot_by_id : String → ℕ → IcebergOptions → Result IcebergSnapshot
  unfolding parse_found
  get_snapshot_by_id path snapshot_id options = do
    info ← get_parse_info_at path options.metadata_compression_codec
    found ← find_by_id info.snapshots snapshot_id
    snapshot ←
        or_throw found (io_exception ("Could not find snapshot with id " +++ to_string snapshot_id))
    parse_found info options (some snapshot)

  unfoldable pub get_snapshot_by_timestamp : String → ℕ → IcebergOptions → Result IcebergSnapshot
  unfolding parse_found
  get_snapshot_by_timestamp path timestamp options = do
    info ← get_parse_info_at path options.metadata_compression_codec
    found ← find_by_timestamp info.snapshots (epoch_ms timestamp)
    snapshot ← or_throw found (
        io_exception
          ("Could not find latest snapshots for timestamp " +++ timestamp_to_string timestamp))
    parse_found info options (some snapshot)
