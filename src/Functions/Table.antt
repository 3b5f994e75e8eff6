-- ===== src/Functions/Table.antt =====
-- `iceberg_metadata` from its bind function to its last call: what it lists of a table.
use duckdb_iceberg.Common.{
  drop-zero, ℕ, suc, ◌*◌, ◌≤◌, ◌<◌, ◌≡◌, refl, ◌∙◌, ap, String, Option, List, [], ◌∷◌, ◌++◌, Result,
  ok, map, map_result, length, ◌>>=◌,
}
use duckdb_iceberg.Types.{IcebergManifest, IcebergManifestEntry, IcebergTableEntry}
use duckdb_iceberg.Duckdb.{ClientContext}
use duckdb_iceberg.Reader.{AvroScan}
use duckdb_iceberg.Snapshot.{IcebergOptions, IcebergSnapshot}
use duckdb_iceberg.Snapshot.MetadataPath.{get_metadata_path}
use duckdb_iceberg.Snapshot.Loads.{IsLoaded, with_entries, load-with_entries}
use duckdb_iceberg.FileList.Options.{Value}
use duckdb_iceberg.Functions.Metadata.{
  initial_state, metadata_row, metadata_function, bind_parameters, snapshot_to_scan, metadata_bind,
}
use duckdb_iceberg.Functions.Cursor.{Listed, tag, entries_from, remaining, listed_row}
use duckdb_iceberg.Functions.Calls.{scan_calls, scan_calls-metadata_function}

module _ (entries_of : IcebergManifest → List IcebergManifestEntry) where
  -- The entries of manifests, each with its manifest, in order.
  abbrev pub all_entries : List IcebergManifest → List Listed
  all_entries [] = []
  all_entries (manifest ∷ manifests) =
      map (tag manifest) (entries_of manifest) ++ all_entries manifests

module _ (context : ClientContext) (open_avro : String → Result AvroScan) (iceberg_path : String)
    (argument : Option Value) (named_parameters : List (String × Value)) (defaults : IcebergOptions)
    (entries_of : IcebergManifest → List IcebergManifestEntry) where
  abbrev options : IcebergOptions
  options = bind_parameters context open_avro named_parameters defaults

  -- The snapshot that the arguments ask for, and the manifests in its list, which can be read.
  pub record Binds (manifests : List IcebergManifest) : Type 1 where
    pub meta_path : String
    pub snapshot : IcebergSnapshot
    pub is_found : get_metadata_path context iceberg_path options ≡ ok meta_path
    pub is_selected : snapshot_to_scan context open_avro meta_path argument options ≡ ok snapshot
    pub is_loaded : IsLoaded context open_avro options iceberg_path entries_of snapshot manifests

  abbrev table_of : List IcebergManifest → List IcebergTableEntry
  table_of = with_entries context open_avro options iceberg_path entries_of

  entries_from-table_of :
      (manifests : List IcebergManifest)
      → entries_from 0 (table_of manifests) ≡ all_entries entries_of manifests
  entries_from-table_of [] = refl
  entries_from-table_of (m ∷ ms) = rw (drop-zero (entries_of m), entries_from-table_of ms)

  remaining-table_of :
      (manifests : List IcebergManifest)
      → remaining (table_of manifests) initial_state ≡ all_entries entries_of manifests
  remaining-table_of manifests =
      ap (entries_from 0) (drop-zero (table_of manifests)) ∙ entries_from-table_of manifests

  -- If the snapshot that the arguments ask for is of version 1 or 2, and its list and the manifests
  -- in it are files of at most STANDARD_VECTOR_SIZE rows that can be read: the bind function
  -- returns, and with vectors of at least one row and calls enough, the calls together put out a row
  -- for each entry of each manifest, in order and once, or throw as the first of the rows that
  -- throws does.
  pub metadata_bind-scan_calls :
      (manifests : List IcebergManifest) (size calls : ℕ)
      → Binds manifests
      → 0 < size
      → length (all_entries entries_of manifests) ≤ calls * size
      → (table : List IcebergTableEntry) × (metadata_bind context open_avro iceberg_path argument
            named_parameters defaults
          ≡ ok table)
        × (scan_calls (suc calls) (metadata_function size metadata_row table) initial_state
            ≡ map_result (listed_row metadata_row) (all_entries entries_of manifests))
  unfolding metadata_bind
  metadata_bind-scan_calls manifests size calls h pos enough =
      let same = remaining-table_of manifests in
      (
        table_of manifests,
        rw (h.is_found, h.is_selected, ◌>>=◌)
            (load-with_entries context open_avro options iceberg_path entries_of h.snapshot
              manifests h.is_loaded),
        scan_calls-metadata_function metadata_row size (table_of manifests) calls initial_state pos
              (rw same enough)
            ∙ ap (map_result (listed_row metadata_row)) same,
      )
