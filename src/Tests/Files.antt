-- ===== src/Tests/Files.antt =====
-- A table with one manifest, from which the list of files is expanded.
use duckdb_iceberg.Common.{
  ◌≡◌, refl, inl, true, false, String, List, [], ◌∷◌, none, some, Result, ok,
}
use mathlib.Core.List.{Sublist}
use duckdb_iceberg.Types.{IcebergManifest, IcebergManifestEntry, data_manifest, status_of_int}
use duckdb_iceberg.Duckdb.{ci_find, ci_set}
use duckdb_iceberg.Manifest.Chunk.{scalar, struct}
use duckdb_iceberg.Manifest.Mapping.{
  entry_name_mapping, map_children, verify_entry_v1, verify_entry_v2,
}
use duckdb_iceberg.Manifest.Produce.{entry_columns, produce_entry_v2, read_entry_v2}
use duckdb_iceberg.Manifest.Deliver.{produce_entry_v2_appends}
use duckdb_iceberg.Reader.{AvroScan, ManifestReader, initialize, map_columns, is_finished}
use duckdb_iceberg.Reader.Rounds.{Delivers}
use duckdb_iceberg.Snapshot.{IcebergSnapshot}
use duckdb_iceberg.Snapshot.Read.{manifest_entry_v2, resolve_path}
use duckdb_iceberg.Manifest.Chunk.{Row}
use duckdb_iceberg.Manifest.Produce.{ManifestReaderInput, skips_entry}
use duckdb_iceberg.Manifest.Deliver.{visible, IsReadable}
use duckdb_iceberg.Reader.{new_reader}
use duckdb_iceberg.Reader.Rows.{pending, IsReading}
use duckdb_iceberg.Snapshot.Read.{scan_avro_metadata}
use duckdb_iceberg.Snapshot.Scans.{scan_avro_metadata_sound}
use duckdb_iceberg.Common.{Option, filter_map, arith, ◌++◌, ◌≤◌, All}
use duckdb_iceberg.FileList.Initial.{Files}
use duckdb_iceberg.FileList.{open_manifest, expand_files, get_total_file_count}
use duckdb_iceberg.FileList.Listing.{SameDeletes, Listing, Opens}
use duckdb_iceberg.FileList.Round.{IsReady, left}
use duckdb_iceberg.FileList.Totality.{Answers, expand_files-returns}
use duckdb_iceberg.FileList.Counting.{Resolves, all_files, get_total_file_count-all}
use duckdb_iceberg.Tests.Fixtures.{
  util, context, default_options, names, columns, input, entry_row, decode, Good,
}

pub delivers : Delivers decode (produce_entry_v2 util) Good input
unfolding entry_columns ci_find
delivers =
    produce_entry_v2_appends util input columns (record { primary = 1; child = some 3 }) 3 refl refl
      refl

abbrev pub file : AvroScan
file = record {
  returns =
      (scalar, "status")
      ∷ (struct ("file_path" ∷ "file_format" ∷ "record_count" ∷ "content" ∷ []), "data_file")
      ∷ [];
  chunks = (entry_row 1 "a" ∷ entry_row 1 "b" ∷ []) ∷ [];
  finished = false;
}

abbrev pub open_file : String → Result AvroScan
open_file path = ok file

abbrev pub manifest : IcebergManifest
manifest = record { manifest_path = "m"; sequence_number = 1; content = data_manifest }

abbrev pub fresh : ManifestReader
fresh = record {
  scan = none;
  chunk = [];
  offset = 0;
  finished = true;
  name_to_vec = [];
  name_mapping = entry_name_mapping util;
  schema_validation = verify_entry_v2 util;
  skip_deleted = true;
}

abbrev snapshot : IcebergSnapshot
snapshot = record {
  snapshot_id = 1;
  sequence_number = none;
  manifest_list = "l";
  timestamp_ms = none;
  iceberg_format_version = 2;
  schema_id = 0;
  schema = [];
  metadata_compression_codec = "none";
}

abbrev pub files : Files
files = record {
  snapshot = snapshot;
  entry_format = manifest_entry_v2 util;
  data_reader = fresh;
  delete_reader = fresh;
  data_files = [];
  data_manifests = manifest ∷ [];
  delete_manifests = [];
  current_data = manifest ∷ [];
  current_delete = [];
  delete_data = [];
}

abbrev pub opened : ManifestReader → ManifestReader
opened r = record r {
  scan = some file;
  chunk = [];
  offset = 0;
  finished = false;
  name_to_vec = names;
}

abbrev pub listing : Listing
listing = record {
  input = λ m. input;
  decode = λ m. decode;
  Good = λ m. Good;
  produce = produce_entry_v2 util;
  delivers = λ m. delivers;
  config = fresh;
  entries_of = λ m. filter_map decode (pending (opened fresh));
}

unfoldable pub opens : Opens listing (open_manifest context open_file "t" default_options) manifest
unfolding open_manifest resolve_path initialize map_columns entry_name_mapping map_children ci_set
    verify_entry_v1 verify_entry_v2 ci_find is_finished read_entry_v2
opens r (mapping, validation, skip) = (
  opened r,
  rw (mapping, validation),
  record {
    is_open = λ p. cc;
    good_chunk = tt;
    good_rest = (((_, refl), ((_, refl), tt)), tt);
    same_map = refl;
    same_skip = skip;
    same_end = refl;
  },
  refl,
  (mapping, validation, skip),
  refl,
)

ready : IsReady listing context open_file "t" default_options files
unfolding manifest_entry_v2 is_finished
ready = record {
  producer = refl;
  same_config = (refl, refl, refl);
  between = inl refl;
  opens = (opens, tt);
}

-- The data files "a" and "b".
abbrev entries : List IcebergManifestEntry
entries = filter_map decode (pending (opened fresh))

expand_files-returns_example :
    (files' : Files) × (es : List IcebergManifestEntry) × (expand_files context open_file "t"
        default_options 1 files
      ≡ ok files')
    × (files'.data_files ≡ es)
    × Sublist (es ++ left listing context open_file "t" default_options files') entries
    × (1 ≤ 0 → es ++ left listing context open_file "t" default_options files' ≡ entries)
    × Answers listing context open_file "t" default_options 1 files'
unfolding is_finished read_entry_v2 status_of_int
expand_files-returns_example =
    expand_files-returns listing context open_file "t" default_options 1 files ready

resolved :
    All
      (Resolves listing context open_file "t" default_options)
      (all_files listing context open_file "t" default_options files)
unfolding is_finished read_entry_v2 status_of_int resolve_path
resolved = (("a", refl, refl), (("b", refl, refl), tt))

get_total_file_count-all_example :
    (files' : Files) × (get_total_file_count context open_file "t" default_options 3 files
      ≡ ok (files', 2))
    × (files'.data_files ≡ entries)
    × SameDeletes files files'
unfolding is_finished read_entry_v2 status_of_int
get_total_file_count-all_example =
    get_total_file_count-all listing context open_file "t" default_options 3 files ready resolved
      (omega arith)

-- `ScanAvroMetadata` does not skip the deleted entries.
abbrev pub unskipped : ManifestReaderInput
unskipped = record { name_to_vec = names; skip_deleted = false }

abbrev pub entry_of : Row → Option IcebergManifestEntry
entry_of = visible (read_entry_v2 columns 3) (skips_entry false)

abbrev pub Readable : Row → Type 0
Readable = IsReadable (read_entry_v2 columns 3) (skips_entry false)

pub delivers_all : Delivers entry_of (manifest_entry_v2 util).produce_entries Readable unskipped
unfolding manifest_entry_v2 entry_columns ci_find
delivers_all =
    produce_entry_v2_appends util unskipped columns (record { primary = 1; child = some 3 }) 3 refl
      refl refl

abbrev pub begun : ManifestReader
begun = record fresh {
  scan = some file;
  finished = false;
  name_to_vec = names;
  skip_deleted = false;
}

pub begins :
    initialize file (
      new_reader
        (manifest_entry_v2 util).populate_name_mapping
        (manifest_entry_v2 util).verify_schema
        false)
    ≡ ok begun
unfolding manifest_entry_v2 new_reader initialize map_columns entry_name_mapping map_children ci_set
    verify_entry_v1 verify_entry_v2 ci_find
begins = refl

pub reading : IsReading Readable unskipped begun
unfolding is_finished read_entry_v2
reading = record {
  is_open = λ p. cc;
  good_chunk = tt;
  good_rest = (((_, refl), ((_, refl), tt)), tt);
  same_map = refl;
  same_skip = refl;
  same_end = refl;
}

scan_avro_metadata_sound_example :
    (es : List IcebergManifestEntry) × (scan_avro_metadata context open_file
        (manifest_entry_v2 util)
        "m"
      ≡ ok es)
    × Sublist es (filter_map entry_of (pending begun))
scan_avro_metadata_sound_example =
    scan_avro_metadata_sound context open_file (manifest_entry_v2 util) "m" file begun entry_of
      Readable unskipped delivers_all refl begins reading refl
