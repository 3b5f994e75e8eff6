-- ===== src/FileList/DeleteFiles.antt =====
-- The delete files of a list, scanned one after the other.
use duckdb_iceberg.Common.{
  ℕ, ◌≡◌, refl, sym, ap, ◌∙◌, String, ◌||◌, List, [], ◌∷◌, ◌++◌, Result, ok, All,
}
use duckdb_iceberg.Types.{IcebergManifestEntry}
use duckdb_iceberg.Duckdb.{ClientContext}
use duckdb_iceberg.Reader.{AvroScan}
use duckdb_iceberg.Snapshot.{IcebergOptions}
use duckdb_iceberg.FileList.Deletes.{DeleteData, scan_delete_chunks}
use duckdb_iceberg.FileList.Deletions.{
  is_marked, names_row, names_row-append, delivered, scan_delete_chunks-marks, or_assoc, or_swap,
}
use duckdb_iceberg.FileList.{scan_delete_file, scan_delete_files}

module _ (context : ClientContext) (open_avro : String → Result AvroScan) (path : String)
    (options : IcebergOptions) (open_parquet : String → Result (List (List (String × ℕ))))
    (content : String → List (List (String × ℕ))) where
  open context use {util}

  -- The delete file can be read, and holds the rows that are said.
  abbrev pub Holds : IcebergManifestEntry → Type 0
  Holds e = open_parquet e.file_path ≡ ok (content e.file_path)

  -- The rows of delete files, as they are delivered.
  abbrev pub delete_rows : List IcebergManifestEntry → List (String × ℕ)
  delete_rows [] = []
  delete_rows (e ∷ es) = delivered util (content e.file_path) ++ delete_rows es

  -- After delete files are scanned, a row of a data file is deleted exactly if it was before or a
  -- row of one of the delete files names it.
  pub scan_delete_files-marks :
      (es : List IcebergManifestEntry) (m : DeleteData)
      → All Holds es
      → (m' : DeleteData) × (scan_delete_files context open_avro path options open_parquet es m
          ≡ ok m')
        × ((p : String) (x : ℕ)
            → is_marked util m' p x ≡ (names_row util p x (delete_rows es) || is_marked util m p x))
  unfolding scan_delete_files
  scan_delete_files-marks [] m holds = (m, refl, λ p x. refl)
  scan_delete_files-marks (e ∷ es) m (here, holds) =
      let now = delivered util (content e.file_path) in
      let later = delete_rows es in
      let marked = scan_delete_chunks util (content e.file_path) m in
      let (m', scanned, marks) = scan_delete_files-marks es marked holds in
      (
        m',
        rw (here, scan_delete_file) scanned,
        λ p x.
            marks p x
            ∙ ap (λ b. names_row util p x later || b)
                (scan_delete_chunks-marks util (content e.file_path) m p x)
            ∙ or_swap util (names_row util p x later) (names_row util p x now)
                (is_marked util m p x)
            ∙ sym (
                or_assoc util (names_row util p x now) (names_row util p x later)
                  (is_marked util m p x))
            ∙ ap (λ b. b || is_marked util m p x) (sym (names_row-append util p x now later)),
      )
