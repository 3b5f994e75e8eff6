-- ===== src/FileList/Listing.antt =====
-- The interface between the list of files and the manifests: what each manifest holds, and how its
-- rows are read.
use duckdb_iceberg.Common.{
  ◌≡◌, refl, ◌∙◌, ◌⊎◌, inl, true, false, Option, List, [], ◌∷◌, ◌++◌, Result, ok, filter_map,
  if◌then◌else◌,
}
use duckdb_iceberg.Types.{IcebergManifest, IcebergManifestEntry}
use duckdb_iceberg.Manifest.Chunk.{Row}
use duckdb_iceberg.Manifest.Produce.{ManifestReaderInput, Producer}
use duckdb_iceberg.Reader.{ManifestReader, is_finished}
use duckdb_iceberg.Reader.Rounds.{Delivers}
use duckdb_iceberg.Reader.Rows.{pending, IsReading, SameConfig}
use duckdb_iceberg.FileList.Initial.{Files}

-- The rows of a manifest that can be read, their entries, and the producer that appends them; the
-- members of a reader that stay; and the entries of each manifest.
pub record Listing : Type 1 where
  pub input : IcebergManifest → ManifestReaderInput
  pub decode : IcebergManifest → Row → Option IcebergManifestEntry
  pub Good : IcebergManifest → Row → Type 0
  pub produce : Producer IcebergManifestEntry
  pub delivers : (m : IcebergManifest) → Delivers (decode m) produce (Good m) (input m)
  pub config : ManifestReader
  pub entries_of : IcebergManifest → List IcebergManifestEntry

module _ (l : Listing)
    (open_manifest : ManifestReader → IcebergManifest → Result ManifestReader) where
  open l use {input, decode, Good, config, entries_of}

  -- The manifest can be opened, and the reader is before its rows, which can be read and hold its
  -- entries.
  abbrev pub Opens : IcebergManifest → Type 0
  Opens m =
      (r : ManifestReader)
      → SameConfig config r
      → (r' : ManifestReader) × (open_manifest r m ≡ ok r')
        × IsReading (Good m) (input m) r'
        × (r'.finished ≡ false)
        × SameConfig config r'
        × (filter_map (decode m) (pending r') ≡ entries_of m)

module _ (l : Listing) where
  open l use {input, decode, Good, entries_of}

  -- The reader is at the end of its file, or in the first of the manifests.
  abbrev pub Between : ManifestReader → List IcebergManifest → Type 0
  Between r [] = is_finished r ≡ true
  Between r (m ∷ ms) =
      (is_finished r ≡ true) ⊎ (IsReading (Good m) (input m) r × (r.finished ≡ false))

  pub Between-end :
      (r : ManifestReader) (ms : List IcebergManifest) → is_finished r ≡ true → Between r ms
  Between-end r [] e = e
  Between-end r (m ∷ ms) e = inl e

  -- The entries of manifests, in order.
  abbrev pub listed : List IcebergManifest → List IcebergManifestEntry
  listed [] = []
  listed (m ∷ ms) = entries_of m ++ listed ms

  -- The entries that are still to be found: those pending in the first manifest, if the reader is
  -- in it, and those of the others.
  abbrev pub left_in : ManifestReader → List IcebergManifest → List IcebergManifestEntry
  left_in r [] = []
  left_in r (m ∷ ms) =
      (if is_finished r then entries_of m else filter_map (decode m) (pending r)) ++ listed ms

  pub left_in-end :
      (r : ManifestReader) (ms : List IcebergManifest)
      → is_finished r ≡ true
      → left_in r ms ≡ listed ms
  left_in-end r [] e = refl
  left_in-end r (m ∷ ms) e = rw e

-- What `GetFile` leaves as it is: the members for the deletes.
pub record SameDeletes (files files' : Files) : Type 0 where
  pub entry_format : files'.entry_format ≡ files.entry_format
  pub delete_reader : files'.delete_reader ≡ files.delete_reader
  pub current_delete : files'.current_delete ≡ files.current_delete
  pub delete_data : files'.delete_data ≡ files.delete_data

pub SameDeletes-refl : (files : Files) → SameDeletes files files
SameDeletes-refl files = record {
  entry_format = refl;
  delete_reader = refl;
  current_delete = refl;
  delete_data = refl;
}

pub SameDeletes-trans : {a b c : Files} → SameDeletes a b → SameDeletes b c → SameDeletes a c
SameDeletes-trans h k = record {
  entry_format = k.entry_format ∙ h.entry_format;
  delete_reader = k.delete_reader ∙ h.delete_reader;
  current_delete = k.current_delete ∙ h.current_delete;
  delete_data = k.delete_data ∙ h.delete_data;
}
