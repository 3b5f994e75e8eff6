-- ===== src/FileList.antt =====
-- src/iceberg_functions/iceberg_multi_file_reader.cpp: the data files of a snapshot, found one by
-- one, and the deletes that go with them.
pub mod Initial
pub mod Deletes
pub mod Deletions
pub mod Listing
pub mod Round
pub mod Totality
pub mod Counting
pub mod DeleteFiles
pub mod AllDeletes
pub mod Finalized
pub mod Scan
pub mod Agrees
pub mod Options
pub mod Columns
pub mod Projection
pub mod Placed
use duckdb_iceberg.Common.{
  ℕ, zero, suc, ◌+◌, ◌-◌, String, true, false, Option, none, some, List, [], ◌∷◌, Result, ok, throw,
  out_of_fuel, undefined_behaviour, or_throw, ◌>>=◌, ltb, eqb, empty, if◌then◌else◌, length,
  get_elem?, drop,
}
use duckdb_iceberg.Types.{IcebergManifest, IcebergManifestEntry}
use duckdb_iceberg.Duckdb.{ClientContext}
use duckdb_iceberg.Manifest.Produce.{Producer}
use duckdb_iceberg.Reader.{AvroScan, ManifestReader, initialize, is_finished, read_entries}
use duckdb_iceberg.Snapshot.{IcebergOptions}
use duckdb_iceberg.Snapshot.Read.{AvroFormat, resolve_path, standard_vector_size}
use duckdb_iceberg.FileList.Deletes.{DeleteData, scan_delete_chunks, apply, get_deletes_for_file}
use duckdb_iceberg.FileList.Initial.{Files}

pub data FileExpandResult : Type 0 where
  no_files single_file multiple_files : FileExpandResult

module _ (context : ClientContext) (open_avro : String → Result AvroScan) where
  open context use {util}

  module _ (path : String) (options : IcebergOptions) where
    -- A reader on the entries of a manifest.
    unfoldable pub open_manifest : ManifestReader → IcebergManifest → Result ManifestReader
    unfolding resolve_path initialize
    open_manifest reader manifest = do
      full_path ← resolve_path context open_avro options path manifest.manifest_path
      scan ← open_avro full_path
      initialize scan reader

    -- The end of a round: the manifest is passed if its reader is at the end.
    abbrev pub store_round : Files → ManifestReader → List IcebergManifestEntry → Files
    store_round files reader data_files = record files {
      data_reader = reader;
      data_files = data_files;
      current_data = if is_finished reader then drop 1 files.current_data else files.current_data;
    }

    unfoldable pub read_round : ℕ → Files → ManifestReader → Result Files
    read_round file_id files reader = do
      out ←
          read_entries files.entry_format.produce_entries ((file_id + 1) - length files.data_files)
            reader files.data_files
      ok (store_round files (out.1) (out.2))

    -- A round that begins with the next manifest, if there is one, and what comes after it.
    abbrev pub next_manifest :
        (Files → Result Files) → ℕ → Files → List IcebergManifest → Result Files
    next_manifest again file_id files [] = ok files
    next_manifest again file_id files (manifest ∷ rest) =
        open_manifest files.data_reader manifest >>= λ reader.
        read_round file_id files reader >>= again

    -- `while (file_id >= data_files.size())`
    unfoldable pub get_file_loop : ℕ → ℕ → Files → Result Files
    get_file_loop zero file_id files = throw out_of_fuel
    get_file_loop (suc fuel) file_id files = elim (ltb file_id (length files.data_files)) [
      | true ↦ ok files
      | false ↦ elim (is_finished files.data_reader) [
        | false ↦ read_round file_id files files.data_reader >>= get_file_loop fuel file_id
        | true ↦ next_manifest (get_file_loop fuel file_id) file_id files files.current_data
      ]
    ]

    -- A round for each manifest, one that fills the files, and one that sees it.
    unfoldable pub expand_files : ℕ → Files → Result Files
    unfolding get_file_loop read_round open_manifest
    expand_files file_id files = get_file_loop (3 + length files.current_data) file_id files

    path_of : Option IcebergManifestEntry → Result String
    path_of none = ok ""
    path_of (some data_file) = resolve_path context open_avro options path data_file.file_path

    -- The empty text says that there is no such file.
    unfoldable pub get_file : ℕ → Files → Result (Files × String)
    unfolding expand_files path_of
    get_file file_id files = do
      files' ← expand_files file_id files
      file_path ← path_of (get_elem? files'.data_files file_id)
      ok (files', file_path)

    unfoldable pub get_expand_result : Files → Result (Files × FileExpandResult)
    unfolding get_file
    get_expand_result files = do
      out ← get_file 1 files
      let n = length (out.0).data_files
      ok (out.0, if ltb 1 n then multiple_files else if eqb n 1 then single_file else no_files)

    -- The loop of `GetTotalFileCount`.
    unfoldable pub count_files : ℕ → ℕ → Files → Result (Files × ℕ)
    unfolding get_file
    count_files zero i files = throw out_of_fuel
    count_files (suc fuel) i files = do
      out ← get_file i files
      elim (empty (out.1)) [
        | true ↦ ok (out.0, length (out.0).data_files)
        | false ↦ count_files fuel (suc i) (out.0)
      ]

    unfoldable pub get_total_file_count : ℕ → Files → Result (Files × ℕ)
    unfolding count_files
    get_total_file_count fuel files = count_files fuel (length files.data_files) files

    -- `open_parquet` answers the chunks of a delete file: a path and a row id in each row.
    module _ (open_parquet : String → Result (List (List (String × ℕ)))) where
      unfoldable pub scan_delete_file : String → DeleteData → Result DeleteData
      unfolding scan_delete_chunks
      scan_delete_file delete_file_path delete_data = do
        chunks ← open_parquet delete_file_path
        ok (scan_delete_chunks util chunks delete_data)

      unfoldable pub scan_delete_files : List IcebergManifestEntry → DeleteData → Result DeleteData
      unfolding scan_delete_file
      scan_delete_files [] delete_data = ok delete_data
      scan_delete_files (entry ∷ entries) delete_data = do
        delete_data' ← scan_delete_file entry.file_path delete_data
        scan_delete_files entries delete_data'

      abbrev pub Deletes : Type 0
      Deletes = ManifestReader × List IcebergManifestEntry

      abbrev pub delete_reader_of : ManifestReader → IcebergManifest → Result ManifestReader
      delete_reader_of reader manifest =
          if is_finished reader then open_manifest reader manifest else ok reader

      -- After a round the manifest is passed if its reader is at the end.
      abbrev pub next_delete_round :
          (List IcebergManifest → ManifestReader → List IcebergManifestEntry → Result Deletes)
          → IcebergManifest
          → List IcebergManifest
          → ℕ × ManifestReader × List IcebergManifestEntry
          → Result Deletes
      next_delete_round again manifest manifests (n, reader, delete_files) =
          elim (is_finished reader) [
            | true ↦ again manifests reader delete_files
            | false ↦ again (manifest ∷ manifests) reader delete_files
          ]

      -- The loop over the delete manifests, in rounds of STANDARD_VECTOR_SIZE.
      unfoldable pub delete_files_loop :
          Producer IcebergManifestEntry
          → ℕ
          → List IcebergManifest
          → ManifestReader
          → List IcebergManifestEntry
          → Result Deletes
      delete_files_loop produce zero manifests reader delete_files = throw out_of_fuel
      delete_files_loop produce (suc fuel) [] reader delete_files = ok (reader, delete_files)
      delete_files_loop produce (suc fuel) (manifest ∷ manifests) reader delete_files =
          delete_reader_of reader manifest >>= λ opened.
          read_entries produce standard_vector_size opened delete_files
          >>= next_delete_round (delete_files_loop produce fuel) manifest manifests

      -- The rounds are given: how many are needed depends on the files.
      unfoldable pub process_deletes : ℕ → Files → Result Files
      unfolding delete_files_loop scan_delete_files open_manifest
      process_deletes fuel files = do
        out ←
            delete_files_loop files.entry_format.produce_entries fuel files.current_delete
              files.delete_reader []
        delete_data ← scan_delete_files (out.1) files.delete_data
        ok (record files { delete_reader = out.0; current_delete = []; delete_data = delete_data })

      deleted_from : Option (List ℕ) → {A : Type 0} → List A → List ℕ → List A
      unfolding apply
      deleted_from none chunk row_ids = chunk
      deleted_from (some deletes) chunk row_ids = apply deletes chunk row_ids

      -- The deletes are processed unless the delete manifests are at their end.
      unfoldable pub read_deletes : ℕ → Files → List IcebergManifest → Result Files
      unfolding process_deletes
      read_deletes fuel files [] = ok files
      read_deletes fuel files (manifest ∷ rest) = process_deletes fuel files

      -- `FinalizeChunk`: all delete manifests are read before the first chunk is handed on.
      -- `row_ids` is the column `file_row_number` of the chunk.
      unfoldable pub finalize_chunk :
          {A : Type 0} → ℕ → ℕ → List A → List ℕ → Files → Result (Files × List A)
      unfolding read_deletes deleted_from get_deletes_for_file
      finalize_chunk fuel file_id chunk row_ids files = do
        data_file ← or_throw (get_elem? files.data_files file_id) undefined_behaviour
        files' ← read_deletes fuel files files.current_delete
        let deletes = get_deletes_for_file util files'.delete_data data_file.file_path
        ok (files', deleted_from deletes chunk row_ids)
