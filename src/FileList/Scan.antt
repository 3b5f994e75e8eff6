-- ===== src/FileList/Scan.antt =====
-- A scan of a table, from `InitializeFiles` on: the data files that are found, and the rows that
-- are handed on.
use duckdb_iceberg.Common.{
  ℕ, ◌≤◌, ◌<◌, ◌≡◌, refl, ap, ◌∙◌, inl, true, false, String, List, Result, ok, eqb, length, All,
}
use duckdb_iceberg.Common.{Option, none, some, [], ◌∷◌, filter_map, option_cons, if◌then◌else◌}
use duckdb_iceberg.Snapshot.Read.{AvroFormat}
use duckdb_iceberg.FileList.Initial.{is_data}
use duckdb_iceberg.Types.{
  IcebergManifest, IcebergManifestEntry, ManifestContentType, data_manifest, delete_manifest, other,
}
use duckdb_iceberg.Duckdb.{ClientContext}
use duckdb_iceberg.Reader.{AvroScan, new_reader, is_finished}
use duckdb_iceberg.Reader.Rows.{SameConfig}
use duckdb_iceberg.Snapshot.{IcebergOptions, IcebergSnapshot, invalid_index}
use duckdb_iceberg.Snapshot.MetadataPath.{get_metadata_path}
use duckdb_iceberg.Snapshot.Read.{manifest_v2, manifest_entry_v2, scan_avro_metadata, resolve_path}
use duckdb_iceberg.FileList.Initial.{
  Files, is_data, data_manifests_of, delete_manifests_of, entry_reader, files_of, list_files,
  select_snapshot, initialize_files,
}
use duckdb_iceberg.FileList.Listing.{Listing, Between-end, listed, left_in-end}
use duckdb_iceberg.FileList.Round.{Opened, IsReady, left}
use duckdb_iceberg.FileList.Counting.{Resolves, get_total_file_count-all}
use duckdb_iceberg.FileList.DeleteFiles.{Holds}
use duckdb_iceberg.FileList.AllDeletes.{Lists, rounds}
use duckdb_iceberg.FileList.Finalized.{
  IsOf, named_by, expected, finalize_all, finalize_all-expected,
}
use duckdb_iceberg.FileList.{get_total_file_count}

-- The manifests of data files in a list of manifests, and the others.
abbrev pub data_manifest_or_none : ManifestContentType → IcebergManifest → Option IcebergManifest
data_manifest_or_none data_manifest m = some m
data_manifest_or_none _ m = none

abbrev other_manifest_or_none : ManifestContentType → IcebergManifest → Option IcebergManifest
other_manifest_or_none data_manifest m = none
other_manifest_or_none _ m = some m

abbrev pub data_in : List IcebergManifest → List IcebergManifest
data_in = filter_map (λ m. data_manifest_or_none m.content m)

abbrev pub others_in : List IcebergManifest → List IcebergManifest
others_in = filter_map (λ m. other_manifest_or_none m.content m)

split_lem :
    (k : ManifestContentType) (m : IcebergManifest) (data_rest other_rest : List IcebergManifest)
    → ((if is_data k then m ∷ data_rest else data_rest)
        ≡ option_cons (data_manifest_or_none k m) data_rest)
      × ((if is_data k then other_rest else m ∷ other_rest)
          ≡ option_cons (other_manifest_or_none k m) other_rest)
split_lem data_manifest m data_rest other_rest = (refl, refl)
split_lem delete_manifest m data_rest other_rest = (refl, refl)
split_lem (other n) m data_rest other_rest = (refl, refl)

data_manifests_of-data_in :
    (manifests : List IcebergManifest)
    → (data_manifests_of manifests ≡ data_in manifests)
      × (delete_manifests_of manifests ≡ others_in manifests)
unfolding data_manifests_of delete_manifests_of
data_manifests_of-data_in [] = (refl, refl)
data_manifests_of-data_in (m ∷ manifests) =
    let (data_eq, other_eq) = data_manifests_of-data_in manifests in
    let (data_step, other_step) =
      split_lem m.content m (data_manifests_of manifests) (delete_manifests_of manifests) in
    (
      data_step ∙ ap (option_cons (data_manifest_or_none m.content m)) data_eq,
      other_step ∙ ap (option_cons (other_manifest_or_none m.content m)) other_eq,
    )

-- What `InitializeFiles` leaves, with the two lists given.
abbrev pub files_with :
    IcebergSnapshot
    → AvroFormat IcebergManifestEntry
    → List IcebergManifest
    → List IcebergManifest
    → Files
files_with snapshot format data_manifests delete_manifests = record {
  snapshot = snapshot;
  entry_format = format;
  data_reader = entry_reader format;
  delete_reader = entry_reader format;
  data_files = [];
  data_manifests = data_manifests;
  delete_manifests = delete_manifests;
  current_data = data_manifests;
  current_delete = delete_manifests;
  delete_data = [];
}

files_of-files_with :
    (snapshot : IcebergSnapshot) (format : AvroFormat IcebergManifestEntry)
    (manifests : List IcebergManifest)
    → files_of snapshot format manifests
      ≡ files_with snapshot format (data_in manifests) (others_in manifests)
unfolding files_of
files_of-files_with snapshot format manifests =
    let (data_eq, other_eq) = data_manifests_of-data_in manifests in rw (data_eq, other_eq)

module _ (context : ClientContext) (open_avro : String → Result AvroScan) (path : String)
    (options : IcebergOptions) where
  open context use {util}

  -- The snapshot that the options ask for is of version 2 and has the manifests in its list.
  pub record Selects (snapshot : IcebergSnapshot) (manifests : List IcebergManifest) : Type 0 where
    pub meta_path : String
    pub list_path : String
    pub is_found : get_metadata_path context path options ≡ ok meta_path
    pub is_selected :
        select_snapshot context open_avro meta_path options options.snapshot_source ≡ ok snapshot
    pub version : snapshot.iceberg_format_version ≡ 2
    pub has_list : eqb snapshot.snapshot_id invalid_index ≡ false
    pub is_resolved :
        resolve_path context open_avro options path snapshot.manifest_list ≡ ok list_path
    pub is_read : scan_avro_metadata context open_avro (manifest_v2 util) list_path ≡ ok manifests

  begun :
      (snapshot : IcebergSnapshot) (manifests : List IcebergManifest)
      → Selects snapshot manifests
      → initialize_files context open_avro path options
        ≡ ok (files_of snapshot (manifest_entry_v2 util) manifests)
  unfolding initialize_files list_files
  begun snapshot manifests h =
      rw (h.is_found, h.is_selected, h.version, h.has_list, h.is_resolved, h.is_read)

  fresh_reader : is_finished (entry_reader (manifest_entry_v2 util)) ≡ true
  unfolding is_finished entry_reader new_reader
  fresh_reader = refl

  module _ (open_parquet : String → Result (List (List (String × ℕ)))) (l : Listing)
      (size : IcebergManifest → ℕ) (content : String → List (List (String × ℕ))) where
    -- The manifests of a table, the data manifests and the delete manifests, can be read, and so can
    -- the delete files that they list.
    pub record IsTable (manifests : List IcebergManifest) : Type 0 where
      pub producer : (manifest_entry_v2 util).produce_entries ≡ l.produce
      pub same_config : SameConfig l.config (entry_reader (manifest_entry_v2 util))
      pub opens : All (Opened l context open_avro path options) (data_in manifests)
      pub resolves : All (Resolves l context open_avro path options) (listed l (data_in manifests))
      pub lists :
          All (Lists context open_avro path options open_parquet l size) (others_in manifests)
      pub holds :
          All
            (Holds context open_avro path options open_parquet content)
            (listed l (others_in manifests))

    begun-IsReady :
        (snapshot : IcebergSnapshot) (manifests : List IcebergManifest)
        → IsTable manifests
        → IsReady l context open_avro path options
            (files_with snapshot (manifest_entry_v2 util) (data_in manifests) (others_in manifests))
    begun-IsReady snapshot manifests h = record {
      producer = h.producer;
      same_config = h.same_config;
      between = Between-end l _ (data_in manifests) fresh_reader;
      opens = h.opens;
    }

    -- From the metadata file to the rows: if the snapshot that the options ask for is of version
    -- 2, the manifests in its list and the delete files can be read, the paths of the data files
    -- can be resolved and are not empty, and each delete manifest has at most a vector of rows,
    -- then, with rounds enough, `InitializeFiles` returns, and `GetTotalFileCount` finds after it
    -- the entries of the data manifests, all of them and in order. Of chunks of these data files,
    -- in whatever order, `FinalizeChunk` hands on the rows that no delete file of the other
    -- manifests names.
    pub initialize_files-scan :
        {A : Type 0} (fuel : ℕ) (snapshot : IcebergSnapshot) (manifests : List IcebergManifest)
        → IsTable manifests
        → Selects snapshot manifests
        → length (listed l (data_in manifests)) < fuel
        → rounds context open_avro path options open_parquet l size (others_in manifests) ≤ fuel
        → let entries = listed l (data_in manifests) in
          (files files' : Files) × (initialize_files context open_avro path options ≡ ok files)
          × (get_total_file_count context open_avro path options fuel files
              ≡ ok (files', length entries))
          × (files'.data_files ≡ entries)
          × ((calls : List (ℕ × List (A × ℕ)))
              → All (IsOf entries) calls
              → finalize_all context open_avro path options open_parquet fuel files' calls
                ≡ ok (
                    expected
                      (named_by context open_avro path options open_parquet l content
                        (others_in manifests))
                      entries
                      calls))
    initialize_files-scan fuel snapshot manifests h selects enough rounds_enough =
        let files =
          files_with snapshot (manifest_entry_v2 util) (data_in manifests) (others_in manifests) in
        let data_ms = data_in manifests in
        let same : left l context open_avro path options files ≡ listed l data_ms =
          left_in-end l _ data_ms fresh_reader in
        let (files', counted, grown, apart) =
          get_total_file_count-all l context open_avro path options fuel files
            (begun-IsReady snapshot manifests h) (rw same h.resolves) (rw same enough) in
        (
          files,
          files',
          begun snapshot manifests selects
              ∙ ap ok (files_of-files_with snapshot (manifest_entry_v2 util) manifests),
          counted ∙ ap (λ k. ok (files', length k)) same,
          grown ∙ same,
          λ calls found.
              finalize_all-expected context open_avro path options open_parquet l size content
                (others_in manifests) h.lists h.holds fuel files' calls
                (inl (record {
                  producer = rw apart.entry_format h.producer;
                  same_config = rw apart.delete_reader h.same_config;
                  at_end = rw apart.delete_reader fresh_reader;
                  unread = apart.current_delete;
                  unmarked = apart.delete_data;
                }))
                rounds_enough (rw (grown ∙ same) found)
              ∙ rw (grown ∙ same),
        )
