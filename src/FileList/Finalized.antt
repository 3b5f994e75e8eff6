-- ===== src/FileList/Finalized.antt =====
-- `FinalizeChunk`, chunk after chunk, whatever files the chunks are of.
use duckdb_iceberg.Common.{
  ℕ, ◌≤◌, ◌≡◌, refl, sym, ap, ◌∙◌, ◌⊎◌, inl, inr, String, Bool, true, false, ◌||◌, Option, none,
  some, List, [], ◌∷◌, Result, ok, ◌>>=◌, get_elem?, All, if◌then◌else◌,
}
use duckdb_iceberg.Types.{IcebergManifest, IcebergManifestEntry}
use duckdb_iceberg.Duckdb.{ClientContext, ci_find}
use duckdb_iceberg.Reader.{AvroScan, is_finished}
use duckdb_iceberg.Reader.Rows.{SameConfig}
use duckdb_iceberg.Snapshot.{IcebergOptions}
use duckdb_iceberg.FileList.Initial.{Files}
use duckdb_iceberg.FileList.Listing.{Listing, listed}
use duckdb_iceberg.FileList.Deletes.{has_row, rows_or_empty, get_deletes_for_file}
use duckdb_iceberg.FileList.Deletions.{
  surviving, rows_of, ids_of, apply-eq-surviving, is_marked, names_row,
}
use duckdb_iceberg.FileList.DeleteFiles.{Holds, delete_rows}
use duckdb_iceberg.FileList.AllDeletes.{Lists, rounds, process_deletes-marks}
use duckdb_iceberg.FileList.{process_deletes, read_deletes, deleted_from, finalize_chunk}

-- The rows whose ids do not pass the test, in their order.
abbrev pub kept_rows {ℓ} : {A : Type ℓ} → (ℕ → Bool) → List (A × ℕ) → List A
kept_rows deleted [] = []
kept_rows deleted ((row, id) ∷ rows) =
    if deleted id then kept_rows deleted rows else row ∷ kept_rows deleted rows

kept_rows-congr {ℓ} :
    {A : Type ℓ} (f g : ℕ → Bool) (rows : List (A × ℕ))
    → ((x : ℕ) → f x ≡ g x)
    → kept_rows f rows ≡ kept_rows g rows
kept_rows-congr f g [] h = refl
kept_rows-congr f g ((row, id) ∷ rows) h = rw (h id, kept_rows-congr f g rows h)

surviving-eq-kept_rows {ℓ} :
    {A : Type ℓ} (deleted : List ℕ) (rows : List (A × ℕ))
    → surviving deleted rows ≡ kept_rows (λ x. has_row x deleted) rows
surviving-eq-kept_rows deleted [] = refl
surviving-eq-kept_rows deleted ((row, id) ∷ rows) = rw (surviving-eq-kept_rows deleted rows)

kept_rows-all {ℓ} : {A : Type ℓ} (rows : List (A × ℕ)) → rows_of rows ≡ kept_rows (λ x. false) rows
kept_rows-all [] = refl
kept_rows-all ((row, id) ∷ rows) = rw (kept_rows-all rows)

abbrev pub path_at : Option IcebergManifestEntry → String
path_at none = ""
path_at (some e) = e.file_path

-- The chunk is of a data file that was found.
abbrev pub IsOf {ℓ} : {A : Type ℓ} → List IcebergManifestEntry → ℕ × List (A × ℕ) → Type 0
IsOf data_files (file_id, rows) =
    (e : IcebergManifestEntry) × (get_elem? data_files file_id ≡ some e)

-- The rows of each chunk that are not deleted from its file.
abbrev pub expected {ℓ} :
    {A : Type ℓ}
    → (String → ℕ → Bool)
    → List IcebergManifestEntry
    → List (ℕ × List (A × ℕ))
    → List (List A)
expected deleted data_files [] = []
expected deleted data_files ((file_id, rows) ∷ calls) =
    kept_rows (deleted (path_at (get_elem? data_files file_id))) rows
    ∷ expected deleted data_files calls

or_false : (b : Bool) → (b || false) ≡ b
or_false true = refl
or_false false = refl

module _ (context : ClientContext) (open_avro : String → Result AvroScan) (path : String)
    (options : IcebergOptions) (open_parquet : String → Result (List (List (String × ℕ)))) where
  open context use {util}

  -- Whatever is known of the file, the rows that are marked are taken out.
  deleted_from-kept_rows :
      {A : Type 0} (o : Option (List ℕ)) (rows : List (A × ℕ))
      → deleted_from context open_avro path options open_parquet o (rows_of rows) (ids_of rows)
        ≡ kept_rows (λ x. has_row x (rows_or_empty o)) rows
  unfolding deleted_from
  deleted_from-kept_rows none rows = kept_rows-all rows
  deleted_from-kept_rows (some deletes) rows =
      apply-eq-surviving deletes rows ∙ surviving-eq-kept_rows deletes rows

  -- Chunks, each with the index of its file, are finalized one after the other.
  unfoldable pub finalize_all :
      {A : Type 0} → ℕ → Files → List (ℕ × List (A × ℕ)) → Result (List (List A))
  finalize_all fuel files [] = ok []
  finalize_all fuel files ((file_id, rows) ∷ calls) = do
    out ←
        finalize_chunk context open_avro path options open_parquet fuel file_id (rows_of rows)
          (ids_of rows) files
    rest ← finalize_all fuel (out.0) calls
    ok (out.1 ∷ rest)

  -- A delete file that the delete manifests list names the row of the file.
  abbrev pub named_by :
      Listing → (String → List (List (String × ℕ))) → List IcebergManifest → String → ℕ → Bool
  named_by l content manifests file_path x =
      names_row util file_path x
        (delete_rows context open_avro path options open_parquet content (listed l manifests))

  module _ (l : Listing) (size : IcebergManifest → ℕ) (content : String → List (List (String × ℕ)))
      (manifests : List IcebergManifest)
      (lists : All (Lists context open_avro path options open_parquet l size) manifests)
      (holds : All
        (Holds context open_avro path options open_parquet content)
        (listed l manifests)) where
    open l use {produce, config}

    abbrev deleted : String → ℕ → Bool
    deleted = named_by l content manifests

    -- No delete manifest was read, or all of them were.
    pub record IsFresh (files : Files) : Type 0 where
      pub producer : files.entry_format.produce_entries ≡ produce
      pub same_config : SameConfig config files.delete_reader
      pub at_end : is_finished files.delete_reader ≡ true
      pub unread : files.current_delete ≡ manifests
      pub unmarked : files.delete_data ≡ []

    pub record IsMarked (files : Files) : Type 0 where
      pub read : files.current_delete ≡ []
      pub marks : (p : String) (x : ℕ) → is_marked util files.delete_data p x ≡ deleted p x

    abbrev pub IsPrepared : Files → Type 0
    IsPrepared files = IsFresh files ⊎ IsMarked files

    -- What a call does: the deletes are known afterwards, and the rows are those that are kept.
    abbrev Finalizes :
        {A : Type 0} → Files → List (A × ℕ) → String → Result (Files × List A) → Type 0
    Finalizes files rows file_path outcome =
        (files' : Files) × (outcome ≡ ok (files', kept_rows (deleted file_path) rows))
        × IsMarked files'
        × (files'.data_files ≡ files.data_files)

    finalize_chunk-kept_rows :
        {A : Type 0} (fuel file_id : ℕ) (rows : List (A × ℕ)) (files files' : Files)
        (data_file : IcebergManifestEntry)
        → get_elem? files.data_files file_id ≡ some data_file
        → read_deletes context open_avro path options open_parquet fuel files files.current_delete
          ≡ ok files'
        → IsMarked files'
        → finalize_chunk context open_avro path options open_parquet fuel file_id
            (rows_of rows)
            (ids_of rows)
            files
          ≡ ok (files', kept_rows (deleted data_file.file_path) rows)
    unfolding finalize_chunk get_deletes_for_file
    finalize_chunk-kept_rows fuel file_id rows files files' data_file found known h =
        rw (found, known)
          (ap (λ k. ok (files', k))
            (deleted_from-kept_rows (ci_find util files'.delete_data data_file.file_path) rows
              ∙ kept_rows-congr _ _ rows (h.marks data_file.file_path)))

    -- What is deleted once, where nothing was marked before.
    only_deleted :
        (files : Files)
        → IsFresh files
        → (p : String) (x : ℕ)
        → (names_row util p x (
              delete_rows context open_avro path options open_parquet content
                (listed l files.current_delete))
            || is_marked util files.delete_data p x)
          ≡ deleted p x
    unfolding get_deletes_for_file ci_find
    only_deleted files h p x = rw (h.unread, h.unmarked) (or_false (deleted p x))

    processed :
        (fuel : ℕ) (files : Files)
        → IsFresh files
        → rounds context open_avro path options open_parquet l size manifests ≤ fuel
        → (files' : Files) × (process_deletes context open_avro path options open_parquet fuel files
            ≡ ok files')
          × IsMarked files'
          × (files'.data_files ≡ files.data_files)
    processed fuel files h enough =
        let (files', returns, read, same, marks) =
          process_deletes-marks context open_avro path options open_parquet l size content fuel
            files h.producer h.same_config h.at_end (rw h.unread lists) (rw h.unread enough)
            (rw h.unread holds) in
        (
          files',
          returns,
          record { read = read; marks = λ p x. marks p x ∙ only_deleted files h p x },
          same,
        )

    known :
        (fuel : ℕ) (files : Files) (ms : List IcebergManifest)
        → files.current_delete ≡ ms
        → IsPrepared files
        → rounds context open_avro path options open_parquet l size manifests ≤ fuel
        → (files' : Files) × (read_deletes context open_avro path options open_parquet fuel files ms
            ≡ ok files')
          × IsMarked files'
          × (files'.data_files ≡ files.data_files)
    unfolding read_deletes get_deletes_for_file ci_find
    known fuel files [] e (inl h) enough =
        let none_listed : [] ≡ manifests = sym e ∙ h.unread in
        (files, refl, record { read = e; marks = λ p x. rw (h.unmarked, ← none_listed) }, refl)
    known fuel files [] e (inr h) enough = (files, refl, h, refl)
    known fuel files (m ∷ ms) e (inl h) enough = processed fuel files h enough
    known fuel files (m ∷ ms) e (inr h) enough = cc

    finalize_chunk-Finalizes :
        {A : Type 0} (fuel file_id : ℕ) (rows : List (A × ℕ)) (files : Files)
        (data_file : IcebergManifestEntry)
        → get_elem? files.data_files file_id ≡ some data_file
        → IsPrepared files
        → rounds context open_avro path options open_parquet l size manifests ≤ fuel
        → Finalizes files rows data_file.file_path (
            finalize_chunk context open_avro path options open_parquet fuel file_id
              (rows_of rows)
              (ids_of rows)
              files)
    finalize_chunk-Finalizes fuel file_id rows files data_file found h enough =
        let (files', returns, marked, same) = known fuel files files.current_delete refl h enough in
        (
          files',
          finalize_chunk-kept_rows fuel file_id rows files files' data_file found returns marked,
          marked,
          same,
        )

    -- If the delete manifests and the delete files can be read, each delete manifest has at most a
    -- vector of rows, and the rounds are enough: however many chunks there are, of whatever files
    -- and in whatever order, `FinalizeChunk` hands on of each the rows that no delete file names,
    -- in their order, whether the deletes were known before the first of them or not.
    pub finalize_all-expected :
        {A : Type 0} (fuel : ℕ) (files : Files) (calls : List (ℕ × List (A × ℕ)))
        → IsPrepared files
        → rounds context open_avro path options open_parquet l size manifests ≤ fuel
        → All (IsOf files.data_files) calls
        → finalize_all fuel files calls ≡ ok (expected deleted files.data_files calls)
    unfolding finalize_all
    finalize_all-expected fuel files [] h enough found = refl
    finalize_all-expected fuel files ((file_id, rows) ∷ calls) h enough ((e, here), found) =
        let (files', returns, marked, same) =
          finalize_chunk-Finalizes fuel file_id rows files e here h enough in
        let rest = finalize_all-expected fuel files' calls (inr marked) enough (rw same found) in
        rw (returns, ◌>>=◌, rest, same, here)
