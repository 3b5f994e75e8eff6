-- ===== src/Tests/Deletes.antt =====
-- A table with one delete manifest, whose delete files are read.
use duckdb_iceberg.Common.{
  ◌≡◌, refl, ℕ, ◌||◌, ◌==◌, if◌then◌else◌, String, List, [], ◌∷◌, Result, ok, inl, arith,
}
use duckdb_iceberg.Types.{IcebergManifestEntry, status_of_int, added, data_file}
use duckdb_iceberg.Manifest.Produce.{read_entry_v2}
use duckdb_iceberg.Reader.{is_finished}
use duckdb_iceberg.Snapshot.Read.{manifest_entry_v2}
use duckdb_iceberg.FileList.Initial.{Files}
use duckdb_iceberg.FileList.{process_deletes}
use duckdb_iceberg.FileList.Deletions.{is_marked, names_row}
use duckdb_iceberg.FileList.AllDeletes.{Lists, process_deletes-marks}
use duckdb_iceberg.FileList.Finalized.{finalize_all, finalize_all-expected}
use duckdb_iceberg.Tests.Fixtures.{util, context, default_options}
use duckdb_iceberg.Tests.Files.{listing, opens, open_file, manifest, files}

-- The rows of the delete files "a" and "b".
abbrev content : String → List (List (String × ℕ))
content path = if path == "a" then (("x", 1) ∷ []) ∷ [] else (("x", 2) ∷ ("y", 0) ∷ []) ∷ []

abbrev open_delete_file : String → Result (List (List (String × ℕ)))
open_delete_file path = ok (content path)

abbrev with_deletes : Files
with_deletes = record files { current_delete = manifest ∷ [] }

lists : Lists context open_file "t" default_options open_delete_file listing (λ m. 2) manifest
unfolding opens
lists = record { opens = opens; small = λ r same. omega arith; fits = omega arith }

process_deletes-marks_example :
    (files' : Files) × (process_deletes context open_file "t" default_options open_delete_file 4
        with_deletes
      ≡ ok files')
    × (files'.current_delete ≡ [])
    × (files'.data_files ≡ [])
    × ((p : String) (x : ℕ)
        → is_marked util files'.delete_data p x
          ≡ (names_row util p x (("x", 1) ∷ ("x", 2) ∷ ("y", 0) ∷ []) || is_marked util [] p x))
unfolding manifest_entry_v2 is_finished read_entry_v2 status_of_int
process_deletes-marks_example =
    process_deletes-marks context open_file "t" default_options open_delete_file listing (λ m. 2)
      content 4 with_deletes refl (refl, refl, refl) refl (lists, tt) (omega arith)
      (refl, (refl, tt))

abbrev entry_at : String → IcebergManifestEntry
entry_at path = record {
  status = added;
  content = data_file;
  file_path = path;
  file_format = "PARQUET";
  record_count = 3;
}

abbrev with_data : Files
with_data = record with_deletes { data_files = entry_at "x" ∷ entry_at "y" ∷ [] }

-- A chunk of "y" and then two of "x", with the numbers of their rows.
finalize_all-expected_example :
    finalize_all context open_file "t" default_options open_delete_file {A = String} 4 with_data (
      (1, ("a", 0) ∷ ("b", 1) ∷ [])
      ∷ (0, ("c", 0) ∷ ("d", 1) ∷ [])
      ∷ (0, ("e", 2) ∷ ("f", 3) ∷ [])
      ∷ [])
    ≡ ok (("b" ∷ []) ∷ ("c" ∷ []) ∷ ("f" ∷ []) ∷ [])
unfolding manifest_entry_v2 is_finished read_entry_v2 status_of_int
finalize_all-expected_example =
    finalize_all-expected context open_file "t" default_options open_delete_file listing (λ m. 2)
      content (manifest ∷ []) (lists, tt) (refl, (refl, tt)) 4 with_data _
      (inl (record {
        producer = refl;
        same_config = (refl, refl, refl);
        at_end = refl;
        unread = refl;
        unmarked = refl;
      }))
      (omega arith) ((_, refl), ((_, refl), ((_, refl), tt)))
