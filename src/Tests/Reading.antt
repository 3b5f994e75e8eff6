-- ===== src/Tests/Reading.antt =====
-- Readers, producers and deletes on small files.
use mathlib.Core.List.{Sublist}
use duckdb_iceberg.Common.{
  ℕ, ◌≤◌, ◌≡◌, ◌⊎◌, inl, refl, String, true, false, none, some, List, [], ◌∷◌, ◌++◌, ok, throw,
  out_of_range, length, filter_map, arith,
}
use duckdb_iceberg.Types.{
  IcebergManifestEntry, added, data_file, status_of_int, entry_content_of_int,
}
use duckdb_iceberg.Duckdb.{ci_find}
use duckdb_iceberg.Manifest.Chunk.{NameMap}
use duckdb_iceberg.Manifest.Mapping.{verify_manifest_v2, verify_manifest_v1, verify_entry_v1}
use duckdb_iceberg.Manifest.Produce.{
  read_entry_v2, entry_columns, produce_entry_v2, produce_manifest_v2,
}
use duckdb_iceberg.Manifest.Deliver.{produce_entry_v2_appends}
use duckdb_iceberg.Manifest.Verify.{verify_manifest_v2-out_of_range, verify_entry_v1-columns}
use duckdb_iceberg.Reader.{AvroScan, ManifestReader, is_finished, read_entries}
use duckdb_iceberg.Reader.Rounds.{Delivers}
use duckdb_iceberg.Reader.Rows.{pending, IsReading}
use duckdb_iceberg.Reader.Batches.{read_entries_exact, read_entries_sound}
use duckdb_iceberg.Reader.Loss.{opened, loaded, read_entries_loses}
use duckdb_iceberg.FileList.Deletes.{apply}
use duckdb_iceberg.FileList.Deletions.{apply-eq-surviving}
use duckdb_iceberg.Tests.Fixtures.{util, names, columns, input, entry_row, decode, Good}

delivers : Delivers decode (produce_entry_v2 util) Good input
unfolding entry_columns ci_find
delivers =
    produce_entry_v2_appends util input columns (record { primary = 1; child = some 3 }) 3 refl refl
      refl

abbrev file : AvroScan
file = record {
  returns = [];
  chunks = (entry_row 1 "a" ∷ entry_row 2 "b" ∷ []) ∷ (entry_row 1 "c" ∷ []) ∷ [];
  finished = false;
}

abbrev reader : ManifestReader
reader = record {
  scan = some file;
  chunk = [];
  offset = 0;
  finished = false;
  name_to_vec = names;
  name_mapping = λ i type name m. ok m;
  schema_validation = λ m. true;
  skip_deleted = true;
}

readable : (status : ℕ) (path : String) → Good (entry_row status path)
unfolding read_entry_v2
readable status path = (_, refl)

reading : IsReading Good input reader
unfolding is_finished
reading = record {
  is_open = λ p. cc;
  good_chunk = tt;
  good_rest = ((readable 1 "a", (readable 2 "b", tt)), ((readable 1 "c", tt), tt));
  same_map = refl;
  same_skip = refl;
  same_end = refl;
}

read_entries_exact_example :
    (r' : ManifestReader) × (es : List IcebergManifestEntry) × (read_entries
        (produce_entry_v2 util)
        3
        reader
        []
      ≡ ok (length es, r', es))
    × (es ++ filter_map decode (pending r') ≡ filter_map decode (pending reader))
    × ((r'.finished ≡ true) ⊎ (3 ≤ length es))
    × IsReading Good input r'
read_entries_exact_example =
    read_entries_exact decode (produce_entry_v2 util) Good input delivers 3 (omega arith) reader []
      reading refl (inl (omega arith))

read_entries_sound_example :
    (r' : ManifestReader) × (es : List IcebergManifestEntry) × (read_entries
        (produce_entry_v2 util)
        2
        reader
        []
      ≡ ok (length es, r', es))
    × Sublist (es ++ filter_map decode (pending r')) (filter_map decode (pending reader))
    × ((r'.finished ≡ true) ⊎ (2 ≤ length es))
    × IsReading Good input r'
read_entries_sound_example =
    read_entries_sound decode (produce_entry_v2 util) Good input delivers 2 (omega arith) reader []
      reading refl

abbrev entry : String → IcebergManifestEntry
entry path = record {
  status = added;
  content = data_file;
  file_path = path;
  file_format = "PARQUET";
  record_count = 10;
}

abbrev lossy : ManifestReader
lossy =
    opened decode (produce_entry_v2 util) Good input delivers reader file (entry_row 2 "a")
      (entry_row 1 "b") (entry_row 1 "c") (entry_row 1 "d") [] []

abbrev after_loss : ManifestReader
after_loss =
    loaded decode (produce_entry_v2 util) Good input delivers reader file (entry_row 2 "a")
      (entry_row 1 "b") (entry_row 1 "c") (entry_row 1 "d") [] [] 4

read_entries_loses_example :
    (read_entries (produce_entry_v2 util) 2 lossy []
      ≡ ok (2, after_loss, entry "b" ∷ entry "c" ∷ []))
    × (pending lossy
        ≡ entry_row 2 "a"
          ∷ entry_row 1 "b"
          ∷ entry_row 1 "c"
          ∷ entry_row 1 "d"
          ∷ pending after_loss)
unfolding read_entry_v2 status_of_int entry_content_of_int
read_entries_loses_example =
    read_entries_loses decode (produce_entry_v2 util) Good input delivers reader file
      (entry_row 2 "a") (entry_row 1 "b") (entry_row 1 "c") (entry_row 1 "d") [] [] (entry "b")
      (entry "c") [] refl (readable 2 "a", (readable 1 "b", (readable 1 "c", (readable 1 "d", tt))))
      refl refl refl

apply-eq-surviving_example :
    apply {A = String} (1 ∷ []) ("x" ∷ "y" ∷ "z" ∷ []) (0 ∷ 1 ∷ 2 ∷ []) ≡ "x" ∷ "z" ∷ []
apply-eq-surviving_example = apply-eq-surviving (1 ∷ []) (("x", 0) ∷ ("y", 1) ∷ ("z", 2) ∷ [])

abbrev list_names : NameMap
list_names =
    ("manifest_path", record { primary = 0; child = none })
    ∷ ("content", record { primary = 1; child = none })
    ∷ []

verify_manifest_v2-out_of_range_example :
    produce_manifest_v2 util [] 0 1 (record { name_to_vec = list_names; skip_deleted = false }) []
    ≡ throw (out_of_range "sequence_number")
unfolding verify_manifest_v2 verify_manifest_v1 ci_find
verify_manifest_v2-out_of_range_example =
    verify_manifest_v2-out_of_range util [] 0 1
      (record { name_to_vec = list_names; skip_deleted = false }) [] refl refl

verify_entry_v1-columns_example : ¬ (entry_columns util names ≡ throw (out_of_range "status"))
unfolding verify_entry_v1 ci_find
verify_entry_v1-columns_example = verify_entry_v1-columns util names "status" refl
