-- ===== src/Tests/Fixtures.antt =====
-- A string library, a file system, a context and a manifest, to run the modules on.
use duckdb_iceberg.Common.{ℕ, String, true, false, Option, none, some, [], ◌∷◌, ok, ◌==◌, ◌+++◌}
use duckdb_iceberg.Json.{Json}
use duckdb_iceberg.Types.{IcebergManifestEntry}
use duckdb_iceberg.Duckdb.{FileSystem, StringUtil, ClientContext}
use duckdb_iceberg.Manifest.Chunk.{Row, Leaf, leaf, struct, NameMap}
use duckdb_iceberg.Manifest.Produce.{ManifestReaderInput, EntryColumns, read_entry_v2, skips_entry}
use duckdb_iceberg.Manifest.Deliver.{visible, IsReadable}
use duckdb_iceberg.Snapshot.{IcebergOptions, latest}

abbrev pub util : StringUtil
util = record {
  lower = λ s. s;
  split = λ s sep. s ∷ [];
  format = λ pattern version suffix. "v" +++ version +++ suffix +++ ".metadata.json";
}

abbrev pub disk : FileSystem
disk = record {
  join_path = λ folder file. folder +++ "/" +++ file;
  file_exists = λ path. path == "t/metadata/v3.metadata.json";
  read_file = λ path. ok path;
  uncompress = λ s. ok s;
  glob = λ pattern. [];
}

abbrev pub context : ClientContext
context = record {
  fs = disk;
  util = util;
  yyjson_read = λ s. some (Json.str s);
  from_epoch_ms = λ n. ok n;
  epoch_ms = λ t. t;
  timestamp_to_string = λ t. "a time";
  to_string = λ n. "a number";
  sort = λ vs. vs;
  version_guessing = none;
}

abbrev pub default_options : IcebergOptions
default_options = record {
  allow_moved_paths = false;
  metadata_compression_codec = "none";
  skip_schema_inference = false;
  table_version = "?";
  version_name_format = "v%s%s.metadata.json";
  snapshot_source = latest;
}

abbrev pub names : NameMap
names =
    ("status", record { primary = 0; child = none })
    ∷ ("file_path", record { primary = 1; child = some 0 })
    ∷ ("file_format", record { primary = 1; child = some 1 })
    ∷ ("record_count", record { primary = 1; child = some 2 })
    ∷ ("content", record { primary = 1; child = some 3 })
    ∷ []

abbrev pub columns : EntryColumns
columns = record { status = 0; data_file = 1; file_path = 0; file_format = 1; record_count = 2 }

abbrev pub input : ManifestReaderInput
input = record { name_to_vec = names; skip_deleted = true }

-- The row of an entry of the status, 1 for added and 2 for deleted.
abbrev pub entry_row : ℕ → String → Row
entry_row status path =
    leaf (Leaf.int status)
    ∷ struct (Leaf.str path ∷ Leaf.str "PARQUET" ∷ Leaf.int 10 ∷ Leaf.int 0 ∷ [])
    ∷ []

abbrev pub decode : Row → Option IcebergManifestEntry
decode = visible (read_entry_v2 columns 3) (skips_entry true)

abbrev pub Good : Row → Type 0
Good = IsReadable (read_entry_v2 columns 3) (skips_entry true)
