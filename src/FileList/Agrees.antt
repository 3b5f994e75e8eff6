-- ===== src/FileList/Agrees.antt =====
-- The files that `iceberg_scan` finds and the paths that the table, loaded as for `iceberg_metadata`,
-- answers for its data.
use duckdb_iceberg.Common.{
  ℕ, ◌≤◌, ◌<◌, ◌≡◌, refl, sym, ap, ◌∙◌, true, false, String, List, [], ◌∷◌, ◌++◌, Result, ok, throw,
  length, All, filter_map, option_cons, Bool-cases, inl, inr, if◌then◌else◌,
}
use duckdb_iceberg.Types.{
  IcebergManifest, IcebergManifestEntry, IcebergTableEntry, ManifestContentType, data_manifest,
  delete_manifest, other,
}
use duckdb_iceberg.Duckdb.{ClientContext}
use duckdb_iceberg.Manifest.Chunk.{Row}
use duckdb_iceberg.Manifest.Produce.{skips_entry, is_deleted}
use duckdb_iceberg.Manifest.Deliver.{visible, keep}
use duckdb_iceberg.Reader.{AvroScan}
use duckdb_iceberg.Snapshot.{IcebergOptions, IcebergSnapshot}
use duckdb_iceberg.Snapshot.Read.{live_entries, paths_of, same_content, get_paths, load}
use duckdb_iceberg.Snapshot.Loads.{IsLoaded, with_entries, load-with_entries}
use duckdb_iceberg.FileList.{get_total_file_count}
use duckdb_iceberg.FileList.Initial.{Files, initialize_files}
use duckdb_iceberg.FileList.Listing.{Listing, listed}
use duckdb_iceberg.FileList.AllDeletes.{rounds}
use duckdb_iceberg.FileList.Scan.{
  Selects, IsTable, data_in, others_in, data_manifest_or_none, initialize_files-scan,
}

-- An entry that is read is live, or it is passed over.
keep-live_entries :
    (read : Row → Result IcebergManifestEntry) (answer : Result IcebergManifestEntry)
    (rest rest' : List IcebergManifestEntry)
    → live_entries rest ≡ rest'
    → live_entries (option_cons (keep read (skips_entry false) answer) rest)
      ≡ option_cons (keep read (skips_entry true) answer) rest'
unfolding live_entries
keep-live_entries read (throw problem) rest rest' h = h
keep-live_entries read (ok entry) rest rest' h = elim (Bool-cases (is_deleted entry.status)) [
  | inl gone ↦ rw (gone, h)
  | inr live ↦ rw (live, h)
]

-- Of the entries of rows, those that a reader which passes over the deleted ones hands out are the
-- live ones.
visible-live_entries :
    (read : Row → Result IcebergManifestEntry) (rows : List Row)
    → live_entries (filter_map (visible read (skips_entry false)) rows)
      ≡ filter_map (visible read (skips_entry true)) rows
unfolding live_entries
visible-live_entries read [] = refl
visible-live_entries read (row ∷ rows) =
    keep-live_entries read (read row) _ _ (visible-live_entries read rows)

paths_of-append :
    (xs ys : List IcebergManifestEntry) → paths_of (xs ++ ys) ≡ paths_of xs ++ paths_of ys
paths_of-append [] ys = refl
paths_of-append (x ∷ xs) ys = rw (paths_of-append xs ys)

length-paths_of : (xs : List IcebergManifestEntry) → length (paths_of xs) ≡ length xs
length-paths_of [] = refl
length-paths_of (x ∷ xs) = rw (length-paths_of xs)

-- The two lists of entries of a manifest are of the same rows: one without the deleted entries, and
-- one with them.
pub record OfRows (l : Listing) (entries_of : IcebergManifest → List IcebergManifestEntry)
    (m : IcebergManifest) : Type 0 where
  pub read : Row → Result IcebergManifestEntry
  pub rows : List Row
  pub scanned : l.entries_of m ≡ filter_map (visible read (skips_entry true)) rows
  pub loaded : entries_of m ≡ filter_map (visible read (skips_entry false)) rows

live_entries-OfRows :
    (l : Listing) (entries_of : IcebergManifest → List IcebergManifestEntry) (m : IcebergManifest)
    → OfRows l entries_of m
    → live_entries (entries_of m) ≡ l.entries_of m
live_entries-OfRows l entries_of m h =
    ap live_entries h.loaded ∙ visible-live_entries h.read h.rows ∙ sym h.scanned

-- What a manifest adds to the paths.
one_manifest :
    (l : Listing) (k : ManifestContentType) (m : IcebergManifest)
    (entries : List IcebergManifestEntry) (ms : List IcebergManifest) (rest : List String)
    → live_entries entries ≡ l.entries_of m
    → rest ≡ paths_of (listed l ms)
    → (if same_content k data_manifest then paths_of (live_entries entries) else []) ++ rest
      ≡ paths_of (listed l (option_cons (data_manifest_or_none k m) ms))
one_manifest l data_manifest m entries ms rest h k = rw (h, k, paths_of-append)
one_manifest l delete_manifest m entries ms rest h k = k
one_manifest l (other n) m entries ms rest h k = k

module _ (context : ClientContext) (open_avro : String → Result AvroScan) (path : String)
    (options : IcebergOptions) (open_parquet : String → Result (List (List (String × ℕ))))
    (l : Listing) (size : IcebergManifest → ℕ) (content : String → List (List (String × ℕ)))
    (entries_of : IcebergManifest → List IcebergManifestEntry) where
  get_paths-with_entries :
      (manifests : List IcebergManifest)
      → All (OfRows l entries_of) manifests
      → get_paths data_manifest (with_entries context open_avro options path entries_of manifests)
        ≡ paths_of (listed l (data_in manifests))
  unfolding get_paths
  get_paths-with_entries [] h = refl
  get_paths-with_entries (m ∷ ms) (h, rest) =
      one_manifest l m.content m (entries_of m) (data_in ms) _
        (live_entries-OfRows l entries_of m h) (get_paths-with_entries ms rest)

  -- Two ways to the data files of a snapshot agree. If the snapshot that the options ask for is
  -- of version 2, the manifests in its list and the delete files can be read, the paths of the
  -- data files can be resolved and are not empty, each delete manifest and, for `Load`, each file
  -- has at most a vector of rows, and the two readers, one without the deleted entries, read the
  -- same rows of each manifest: `Load` returns a table, and with rounds enough the list of files
  -- that `InitializeFiles` begins and `GetTotalFileCount` fills holds the files whose paths
  -- `GetPaths` of that table answers for data, in the same order, and counts them.
  pub get_total_file_count-get_paths :
      (fuel : ℕ) (snapshot : IcebergSnapshot) (manifests : List IcebergManifest)
      → IsTable context open_avro path options open_parquet l size content manifests
      → Selects context open_avro path options snapshot manifests
      → IsLoaded context open_avro options path entries_of snapshot manifests
      → All (OfRows l entries_of) manifests
      → length (listed l (data_in manifests)) < fuel
      → rounds context open_avro path options open_parquet l size (others_in manifests) ≤ fuel
      → (table : List IcebergTableEntry) × (files files' : Files) × (load context open_avro path
            snapshot options
          ≡ ok table)
        × (initialize_files context open_avro path options ≡ ok files)
        × (get_total_file_count context open_avro path options fuel files
            ≡ ok (files', length (get_paths data_manifest table)))
        × (paths_of files'.data_files ≡ get_paths data_manifest table)
  get_total_file_count-get_paths fuel snapshot manifests h selects loaded same enough
        rounds_enough =
      let (files, files', begun, counted, found, rest) =
        initialize_files-scan context open_avro path options open_parquet l size content {A = ℕ}
          fuel snapshot manifests h selects enough rounds_enough in
      let paths = get_paths-with_entries manifests same in
      (
        with_entries context open_avro options path entries_of manifests,
        files,
        files',
        load-with_entries context open_avro options path entries_of snapshot manifests loaded,
        begun,
        counted
            ∙ ap (λ n. ok (files', n))
                (sym (length-paths_of (listed l (data_in manifests))) ∙ ap length (sym paths)),
        ap paths_of found ∙ sym paths,
      )
