-- ===== src/Snapshot/Loads.antt =====
-- `IcebergTable::Load`: a table whose files can be read is loaded in full.
use duckdb_iceberg.Common.{
  ℕ, ◌≤◌, ◌≡◌, refl, ◌∙◌, ap, false, String, Option, List, [], ◌∷◌, Result, ok, filter_map, map,
  All, eqb, throw, invalid_input, if◌then◌else◌, ◌>>=◌,
}
use duckdb_iceberg.Types.{IcebergManifest, IcebergManifestEntry, IcebergTableEntry}
use duckdb_iceberg.Duckdb.{ClientContext, StringUtil}
use duckdb_iceberg.Manifest.Chunk.{Row}
use duckdb_iceberg.Manifest.Produce.{ManifestReaderInput}
use duckdb_iceberg.Reader.{AvroScan, ManifestReader, initialize, new_reader, rows_left}
use duckdb_iceberg.Reader.Rounds.{Delivers}
use duckdb_iceberg.Reader.Rows.{pending, IsReading}
use duckdb_iceberg.Snapshot.{IcebergOptions, IcebergSnapshot}
use duckdb_iceberg.Snapshot.Read.{
  AvroFormat, manifest_v1, manifest_v2, manifest_entry_v1, manifest_entry_v2, scan_avro_metadata,
  resolve_path, read_manifest_entries, load_version, load, standard_vector_size,
}
use duckdb_iceberg.Snapshot.Scans.{scan_avro_metadata_exact}

-- The formats of the two versions.
pub data IsVersion (u : StringUtil)
    : ℕ → AvroFormat IcebergManifest → AvroFormat IcebergManifestEntry → Type 0 where
  version_1 : IsVersion u 1 (manifest_v1 u) (manifest_entry_v1 u)
  version_2 : IsVersion u 2 (manifest_v2 u) (manifest_entry_v2 u)

-- A file of at most STANDARD_VECTOR_SIZE rows that opens, with readable rows and a producer that
-- appends their entries: these are its entries.
pub record HoldsEntries {E : Type 0} (open_avro : String → Result AvroScan) (format : AvroFormat E)
    (path : String) (entries : List E) : Type 1 where
  pub decode : Row → Option E
  pub Good : Row → Type 0
  pub input : ManifestReaderInput
  pub delivers : Delivers decode format.produce_entries Good input
  pub scan : AvroScan
  pub reader : ManifestReader
  pub is_open : open_avro path ≡ ok scan
  pub begins :
      initialize scan (new_reader format.populate_name_mapping format.verify_schema false)
      ≡ ok reader
  pub is_reading : IsReading Good input reader
  pub more : reader.finished ≡ false
  pub fits : rows_left reader ≤ standard_vector_size
  pub holds : filter_map decode (pending reader) ≡ entries

module _ (context : ClientContext) (open_avro : String → Result AvroScan) where
  open context use {util}

  scan_avro_metadata-HoldsEntries :
      {E : Type 0} (format : AvroFormat E) (path : String) (entries : List E)
      → HoldsEntries open_avro format path entries
      → scan_avro_metadata context open_avro format path ≡ ok entries
  scan_avro_metadata-HoldsEntries format path entries h =
      scan_avro_metadata_exact context open_avro format path h.scan h.reader h.decode h.Good h.input
        h.delivers h.is_open h.begins h.is_reading h.more h.fits
      ∙ ap (λ es. ok es) h.holds

  module _ (options : IcebergOptions) (iceberg_path : String)
      (entries_of : IcebergManifest → List IcebergManifestEntry) where
    -- A manifest has a path that can be resolved, and its file holds its entries.
    pub record IsManifest (format : AvroFormat IcebergManifestEntry) (manifest : IcebergManifest)
        : Type 1 where
      pub full_path : String
      pub resolves :
          resolve_path context open_avro options iceberg_path manifest.manifest_path ≡ ok full_path
      pub file : HoldsEntries open_avro format full_path (entries_of manifest)

    abbrev pub with_entries : List IcebergManifest → List IcebergTableEntry
    with_entries = map (λ m. record { manifest = m; manifest_entries = entries_of m })

    read_manifest_entries-with_entries :
        (format : AvroFormat IcebergManifestEntry) (manifests : List IcebergManifest)
        → All (IsManifest format) manifests
        → read_manifest_entries context open_avro format options iceberg_path manifests
          ≡ ok (with_entries manifests)
    unfolding read_manifest_entries
    read_manifest_entries-with_entries format [] h = refl
    read_manifest_entries-with_entries format (m ∷ ms) (h, rest) = rw (
      h.resolves,
      ◌>>=◌,
      scan_avro_metadata-HoldsEntries format h.full_path (entries_of m) h.file,
      read_manifest_entries-with_entries format ms rest,
    )

    -- A snapshot of one of the two versions, with the manifests in its list.
    pub record IsLoaded (snapshot : IcebergSnapshot) (manifests : List IcebergManifest)
        : Type 1 where
      pub list_format : AvroFormat IcebergManifest
      pub entry_format : AvroFormat IcebergManifestEntry
      pub version : IsVersion util snapshot.iceberg_format_version list_format entry_format
      pub list_path : String
      pub resolves :
          resolve_path context open_avro options iceberg_path snapshot.manifest_list ≡ ok list_path
      pub list_file : HoldsEntries open_avro list_format list_path manifests
      pub files : All (IsManifest entry_format) manifests

    load_version-with_entries :
        (list_format : AvroFormat IcebergManifest) (entry_format : AvroFormat IcebergManifestEntry)
        (list_path : String) (manifests : List IcebergManifest)
        → HoldsEntries open_avro list_format list_path manifests
        → All (IsManifest entry_format) manifests
        → load_version context open_avro list_format entry_format options iceberg_path list_path
          ≡ ok (with_entries manifests)
    unfolding load_version
    load_version-with_entries list_format entry_format list_path manifests h files = rw (
      scan_avro_metadata-HoldsEntries list_format list_path manifests h,
      ◌>>=◌,
      read_manifest_entries-with_entries entry_format manifests files,
    )

    load_by_version :
        (n : ℕ) (list_format : AvroFormat IcebergManifest)
        (entry_format : AvroFormat IcebergManifestEntry) (list_path : String)
        → IsVersion util n list_format entry_format
        → (if eqb n 1
            then load_version context open_avro
                (manifest_v1 util)
                (manifest_entry_v1 util)
                options
                iceberg_path
                list_path
            else if eqb n 2
            then load_version context open_avro
                (manifest_v2 util)
                (manifest_entry_v2 util)
                options
                iceberg_path
                list_path
            else throw (invalid_input "iceberg_format_version not handled"))
          ≡ load_version context open_avro list_format entry_format options iceberg_path list_path
    load_by_version _ _ _ list_path version_1 = refl
    load_by_version _ _ _ list_path version_2 = refl

    -- `IcebergTable::Load` answers the manifests of the list, in order, with all of their entries.
    pub load-with_entries :
        (snapshot : IcebergSnapshot) (manifests : List IcebergManifest)
        → IsLoaded snapshot manifests
        → load context open_avro iceberg_path snapshot options ≡ ok (with_entries manifests)
    unfolding load
    load-with_entries snapshot manifests h =
        rw (h.resolves, ◌>>=◌)
          (load_by_version snapshot.iceberg_format_version h.list_format h.entry_format h.list_path
              h.version
            ∙ load_version-with_entries h.list_format h.entry_format h.list_path manifests
                h.list_file h.files)
