-- ===== src/Tests/Functions.antt =====
-- `iceberg_metadata` on two manifests, the first without entries.
use duckdb_iceberg.Common.{◌≡◌, String, refl, arith, List, [], ◌∷◌, ok, map_result, length, min}
use duckdb_iceberg.Types.{
  IcebergManifest, IcebergManifestEntry, IcebergTableEntry, data_manifest, added, data_file,
}
use duckdb_iceberg.Functions.Metadata.{
  MetadataRow, MetadataState, initial_state, metadata_row, metadata_function,
}
use duckdb_iceberg.Functions.Cursor.{
  remaining, shown, delivered, listed_row, metadata_function_refines,
}
use duckdb_iceberg.Functions.Range.{IsInRange, metadata_function_bounds}
use duckdb_iceberg.Functions.Calls.{scan_calls, scan_calls-metadata_function}

abbrev manifest : IcebergManifest
manifest = record { manifest_path = "m.avro"; sequence_number = 3; content = data_manifest }

abbrev entry : String → IcebergManifestEntry
entry path = record {
  status = added;
  content = data_file;
  file_path = path;
  file_format = "PARQUET";
  record_count = 10;
}

abbrev table : List IcebergTableEntry
table =
    record { manifest = manifest; manifest_entries = [] }
    ∷ record { manifest = manifest; manifest_entries = entry "a" ∷ entry "b" ∷ [] }
    ∷ []

abbrev row : IcebergManifestEntry → MetadataRow
row e = record {
  manifest_path = "m.avro";
  sequence_number = 3;
  manifest_content = "DATA";
  status = "ADDED";
  content = "EXISTING";
  file_path = e.file_path;
  file_format = e.file_format;
  record_count = e.record_count;
}

abbrev halfway : MetadataState
halfway = record { current_manifest_idx = 1; current_manifest_entry_idx = 1 }

-- A vector of one row is full at the second entry, which the next call begins with.
first_call :
    metadata_function 1 metadata_row table initial_state ≡ ok (row (entry "a") ∷ [], halfway)
unfolding metadata_function metadata_row
first_call = refl

metadata_function_refines_example :
    shown metadata_row 1 table (metadata_function 1 metadata_row table halfway)
    ≡ delivered metadata_row 1 table 1 (remaining table halfway)
metadata_function_refines_example = metadata_function_refines metadata_row 1 table halfway

metadata_function_bounds_example :
    (length (row (entry "a") ∷ []) ≡ min 1 (length (remaining table initial_state)))
    × IsInRange table halfway
metadata_function_bounds_example =
    metadata_function_bounds metadata_row 1 table initial_state
      (record { manifest_in = omega arith; entry_in = omega arith }) first_call

scan_calls-metadata_function_example :
    scan_calls 3 (metadata_function 1 metadata_row table) initial_state
    ≡ map_result (listed_row metadata_row) (remaining table initial_state)
scan_calls-metadata_function_example =
    scan_calls-metadata_function metadata_row 1 table 2 initial_state (omega arith) (omega arith)
