-- ===== src/Types.antt =====
-- include/iceberg_types.hpp: the entries of manifest lists and manifests. Integers of a column are
-- kept as bit patterns; the cast to an `enum class : uint8_t` takes the low byte.
use duckdb_iceberg.Common.{
  ℕ, ◌%◌, String, List, [], ◌∷◌, eqb, if◌then◌else◌, Result, ok, throw, io_exception,
}
use duckdb_iceberg.Schema.ColumnTypes.{LogicalType, varchar, bigint}

pub data ManifestContentType : Type 0 where
  data_manifest delete_manifest : ManifestContentType
  other : ℕ → ManifestContentType

unfoldable pub content_of_int : ℕ → ManifestContentType
content_of_int n =
    if eqb (n % 256) 0
    then data_manifest
    else if eqb (n % 256) 1
    then delete_manifest
    else other (n % 256)

unfoldable pub content_to_string : ManifestContentType → Result String
content_to_string data_manifest = ok "DATA"
content_to_string delete_manifest = ok "DELETE"
content_to_string (other n) = throw (io_exception "Invalid Manifest Content Type")

pub data EntryStatusType : Type 0 where
  existing added deleted : EntryStatusType
  other : ℕ → EntryStatusType

unfoldable pub status_of_int : ℕ → EntryStatusType
status_of_int n =
    if eqb (n % 256) 0
    then existing
    else if eqb (n % 256) 1
    then added
    else if eqb (n % 256) 2
    then deleted
    else EntryStatusType.other (n % 256)

unfoldable pub status_to_string : EntryStatusType → Result String
status_to_string existing = ok "EXISTING"
status_to_string added = ok "ADDED"
status_to_string deleted = ok "DELETED"
status_to_string (EntryStatusType.other n) = throw (io_exception "Invalid matifest entry type")

pub data EntryContentType : Type 0 where
  data_file position_deletes equality_deletes : EntryContentType
  other : ℕ → EntryContentType

unfoldable pub entry_content_of_int : ℕ → EntryContentType
entry_content_of_int n =
    if eqb (n % 256) 0
    then data_file
    else if eqb (n % 256) 1
    then position_deletes
    else if eqb (n % 256) 2
    then equality_deletes
    else EntryContentType.other (n % 256)

-- The name of `data_file` is "EXISTING", as in the source.
unfoldable pub entry_content_to_string : EntryContentType → Result String
entry_content_to_string data_file = ok "EXISTING"
entry_content_to_string position_deletes = ok "POSITION_DELETES"
entry_content_to_string equality_deletes = ok "EQUALITY_DELETES"
entry_content_to_string (EntryContentType.other n) =
    throw (io_exception "Invalid Manifest Entry Content Type")

-- An entry in the manifest list file.
pub record IcebergManifest : Type 0 where
  pub manifest_path : String
  pub sequence_number : ℕ
  pub content : ManifestContentType

-- An entry in a manifest file.
pub record IcebergManifestEntry : Type 0 where
  pub status : EntryStatusType
  pub content : EntryContentType
  pub file_path : String
  pub file_format : String
  pub record_count : ℕ

pub record IcebergTableEntry : Type 0 where
  pub manifest : IcebergManifest
  pub manifest_entries : List IcebergManifestEntry

-- `Types` and `Names` of the two structs: the columns of `iceberg_metadata`.
unfoldable pub manifest_types : List LogicalType
manifest_types = varchar ∷ bigint ∷ varchar ∷ []

unfoldable pub manifest_names : List String
manifest_names = "manifest_path" ∷ "manifest_sequence_number" ∷ "manifest_content" ∷ []

unfoldable pub entry_types : List LogicalType
entry_types = varchar ∷ varchar ∷ varchar ∷ varchar ∷ bigint ∷ []

unfoldable pub entry_names : List String
entry_names = "status" ∷ "content" ∷ "file_path" ∷ "file_format" ∷ "record_count" ∷ []
