-- ===== src/FileList/AllDeletes.antt =====
-- `ProcessDeletes` reads every delete manifest, and every delete file that they list.
use mathlib.Core.List.{append_assoc, append-nil}
use duckdb_iceberg.Common.{
  ℕ, zero, suc, ◌+◌, ◌≤◌, ◌≡◌, refl, sym, ap, ◌∙◌, ◌⊎◌, inl, inr, true, false, String, ◌||◌, List,
  [], ◌∷◌, ◌++◌, Result, ok, ◌>>=◌, filter_map, All, Bool-cases, arith,
}
use duckdb_iceberg.Types.{IcebergManifest, IcebergManifestEntry}
use duckdb_iceberg.Duckdb.{ClientContext}
use duckdb_iceberg.Reader.{AvroScan, ManifestReader, is_finished, read_entries, rows_left}
use duckdb_iceberg.Reader.Rows.{pending, IsReading, SameConfig, SameConfig-trans}
use duckdb_iceberg.Reader.Batches.{exact_order, read_entries-Reads}
use duckdb_iceberg.Snapshot.{IcebergOptions}
use duckdb_iceberg.Snapshot.Read.{standard_vector_size}
use duckdb_iceberg.FileList.Initial.{Files}
use duckdb_iceberg.FileList.Deletions.{is_marked, names_row}
use duckdb_iceberg.FileList.Listing.{Listing, Opens, listed}
use duckdb_iceberg.FileList.DeleteFiles.{Holds, delete_rows, scan_delete_files-marks}
use duckdb_iceberg.FileList.{open_manifest, next_delete_round, delete_files_loop, process_deletes}

module _ (context : ClientContext) (open_avro : String → Result AvroScan) (path : String)
    (options : IcebergOptions) (open_parquet : String → Result (List (List (String × ℕ))))
    (l : Listing) (size : IcebergManifest → ℕ) where
  open l use {input, decode, Good, produce, delivers, config, entries_of}

  -- The manifest can be opened and read, and has at most as many rows as are said and as fit in a
  -- vector.
  pub record Lists (m : IcebergManifest) : Type 0 where
    pub opens : Opens l (open_manifest context open_avro path options) m
    pub small :
        (r : ManifestReader) (same : SameConfig config r) → rows_left ((opens r same).0) ≤ size m
    pub fits : size m ≤ standard_vector_size

  -- A round for each row, one for each manifest, and one at the end.
  abbrev pub rounds : List IcebergManifest → ℕ
  rounds [] = 1
  rounds (m ∷ ms) = (size m + 1) + rounds ms

  abbrev loop :
      ℕ
      → List IcebergManifest
      → ManifestReader
      → List IcebergManifestEntry
      → Result (ManifestReader × List IcebergManifestEntry)
  loop = delete_files_loop context open_avro path options open_parquet produce

  -- The entries are appended to those found, and the reader is at the end of its file.
  abbrev Finds :
      List IcebergManifestEntry
      → List IcebergManifestEntry
      → Result (ManifestReader × List IcebergManifestEntry)
      → Type 0
  Finds found es outcome =
      (after : ManifestReader) × (outcome ≡ ok (after, found ++ es)) × (is_finished after ≡ true)

  -- The entries of a round, and those found after it.
  extend :
      (found es rest all : List IcebergManifestEntry)
      {before after : Result (ManifestReader × List IcebergManifestEntry)}
      → es ++ rest ≡ all
      → before ≡ after
      → Finds (found ++ es) rest after
      → Finds found all before
  extend found es rest all e step (r, returns, over) = (
    r,
    step
        ∙ returns
        ∙ ap (λ k. ok (r, k)) (append_assoc found es rest)
        ∙ ap (λ k. ok (r, found ++ k)) e,
    over,
  )

  -- The reader is in the first of the manifests, or at the end of its file, with rounds enough.
  abbrev Stage : ℕ → ManifestReader → List IcebergManifest → List IcebergManifestEntry → Type 0
  Stage fuel r [] es = (is_finished r ≡ true) × (es ≡ []) × (1 ≤ fuel)
  Stage fuel r (m ∷ ms) es =
      ((is_finished r ≡ true) × (es ≡ listed l (m ∷ ms)) × (rounds (m ∷ ms) ≤ fuel))
      ⊎ (IsReading (Good m) (input m) r
          × (r.finished ≡ false)
          × (rows_left r ≤ standard_vector_size)
          × (es ≡ filter_map (decode m) (pending r) ++ listed l ms)
          × ((rows_left r + 1) + rounds ms ≤ fuel))

  Stage-next :
      (fuel : ℕ) (r : ManifestReader) (ms : List IcebergManifest)
      → is_finished r ≡ true
      → rounds ms ≤ fuel
      → Stage fuel r ms (listed l ms)
  Stage-next fuel r [] over enough = (over, refl, enough)
  Stage-next fuel r (m ∷ ms) over enough = inl (over, refl, enough)

  module _ (fuel : ℕ)
      (again : (ms : List IcebergManifest) (r : ManifestReader)
          (found es : List IcebergManifestEntry)
        → SameConfig config r
        → All Lists ms
        → Stage fuel r ms es
        → Finds found es (loop fuel ms r found)) where
    -- A round in a manifest, and what comes after it.
    a_round :
        (m : IcebergManifest) (ms : List IcebergManifest) (r : ManifestReader)
        (found : List IcebergManifestEntry)
        → SameConfig config r
        → All Lists (m ∷ ms)
        → IsReading (Good m) (input m) r
        → r.finished ≡ false
        → rows_left r ≤ standard_vector_size
        → (rows_left r + 1) + rounds ms ≤ suc fuel
        → Finds found (filter_map (decode m) (pending r) ++ listed l ms) (
            read_entries produce standard_vector_size r found
            >>= next_delete_round context open_avro path options open_parquet (loop fuel) m ms)
    a_round m ms r found same lists reading open_ended fits enough =
        let reads =
          read_entries-Reads (decode m) produce (Good m) (input m) (delivers m) standard_vector_size
            (omega arith) ◌≡◌ (λ n. (n ≤ standard_vector_size) ⊎ (standard_vector_size ≡ 1)) r found
            (exact_order (decode m) standard_vector_size) reading open_ended (inl fits) in
        let kept = SameConfig-trans config r reads.after same reads.kept in
        let at_end = reads.reading.same_end in
        let few = reads.shrinks in
        let called =
          ap
            (λ o.
              o >>= next_delete_round context open_avro path options open_parquet (loop fuel) m ms)
            reads.returns in
        elim (Bool-cases reads.after.finished) [
          | inl over ↦
              let none_left : filter_map (decode m) (pending reads.after) ≡ [] = rw over in
              let all_read = ap (λ k. reads.es ++ k) (sym none_left) ∙ reads.order in
              extend found reads.es (listed l ms) _
                (ap (λ k. k ++ listed l ms) (sym (append-nil reads.es) ∙ all_read))
                (called ∙ rw (at_end ∙ over, next_delete_round))
                (again ms reads.after (found ++ reads.es) (listed l ms) kept (lists.1)
                  (Stage-next fuel reads.after ms (at_end ∙ over) (omega arith)))
          | inr more ↦
              let full = reads.enough more in
              let rest = filter_map (decode m) (pending reads.after) ++ listed l ms in
              extend found reads.es rest _
                (sym (append_assoc reads.es _ (listed l ms))
                  ∙ ap (λ k. k ++ listed l ms) reads.order)
                (called ∙ rw (at_end ∙ more, next_delete_round))
                (again (m ∷ ms) reads.after (found ++ reads.es) rest kept lists
                  (inr (reads.reading, more, omega (arith, few), refl, omega (arith, few, full))))
        ]

  delete_files_loop-Finds :
      (fuel : ℕ) (ms : List IcebergManifest) (r : ManifestReader)
      (found es : List IcebergManifestEntry)
      → SameConfig config r
      → All Lists ms
      → Stage fuel r ms es
      → Finds found es (loop fuel ms r found)
  unfolding delete_files_loop
  delete_files_loop-Finds zero [] r found es same lists (over, none_left, enough) =
      absurd (omega arith)
  delete_files_loop-Finds zero (m ∷ ms) r found es same lists (inl (over, all_left, enough)) =
      absurd (omega arith)
  delete_files_loop-Finds zero (m ∷ ms) r found es same lists (inr (a, b, c, d, enough)) =
      absurd (omega arith)
  delete_files_loop-Finds (suc fuel) [] r found es same lists (over, none_left, enough) =
      (r, rw (none_left, append-nil), over)
  delete_files_loop-Finds (suc fuel) (m ∷ ms) r found es same lists (inl (over, all_left, enough)) =
      let (opened, is_open, reading, unfinished, kept, holds) = lists.0.opens r same in
      let small = lists.0.small r same in
      let fits = lists.0.fits in
      let (after, returns, ended) =
        a_round fuel (delete_files_loop-Finds fuel) m ms opened found kept lists reading unfinished
          (omega arith) (omega arith) in
      (
        after,
        rw (over, is_open) returns
            ∙ ap (λ k. ok (after, found ++ k)) (ap (λ k. k ++ listed l ms) holds ∙ sym all_left),
        ended,
      )
  delete_files_loop-Finds (suc fuel) (m ∷ ms) r found es same lists
        (inr (reading, unfinished, fits, left, enough)) =
      let (after, returns, ended) =
        a_round fuel (delete_files_loop-Finds fuel) m ms r found same lists reading unfinished fits
          enough in
      (
        after,
        rw (reading.same_end ∙ unfinished) returns ∙ ap (λ k. ok (after, found ++ k)) (sym left),
        ended,
      )

  module _ (content : String → List (List (String × ℕ))) where
    open context use {util}

    -- If every delete manifest can be opened and read, has at most a vector of rows and lists
    -- delete files that can be read, and the rounds are enough, `ProcessDeletes` returns: no delete
    -- manifest is left, the data files are as they were, and a row of a data file is deleted exactly
    -- if it was before or a row of one of the delete files names it.
    pub process_deletes-marks :
        (fuel : ℕ) (files : Files)
        → files.entry_format.produce_entries ≡ produce
        → SameConfig config files.delete_reader
        → is_finished files.delete_reader ≡ true
        → All Lists files.current_delete
        → rounds files.current_delete ≤ fuel
        → All
            (Holds context open_avro path options open_parquet content)
            (listed l files.current_delete)
        → (files' : Files) × (process_deletes context open_avro path options open_parquet fuel files
            ≡ ok files')
          × (files'.current_delete ≡ [])
          × (files'.data_files ≡ files.data_files)
          × ((p : String) (x : ℕ)
              → is_marked util files'.delete_data p x ≡ (
                  names_row util p x (
                    delete_rows context open_avro path options open_parquet content
                      (listed l files.current_delete))
                  || is_marked util files.delete_data p x))
    unfolding process_deletes
    process_deletes-marks fuel files made same over lists enough holds =
        let es = listed l files.current_delete in
        let (after, returns, ended) =
          delete_files_loop-Finds fuel files.current_delete files.delete_reader [] es same lists
            (Stage-next fuel files.delete_reader files.current_delete over enough) in
        let (marked, scanned, marks) =
          scan_delete_files-marks context open_avro path options open_parquet content es
            files.delete_data holds in
        (
          record files { delete_reader = after; current_delete = []; delete_data = marked },
          rw (made, returns, scanned),
          refl,
          refl,
          marks,
        )
