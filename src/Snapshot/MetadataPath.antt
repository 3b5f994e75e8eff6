-- ===== src/Snapshot/MetadataPath.antt =====
-- src/common/iceberg.cpp: where the metadata file of a table lies.
use duckdb_iceberg.Common.{
  ◌||◌, not, String, Bool, false, none, some, List, [], ◌∷◌, Result, ok, throw, io_exception, ◌>>=◌,
  ◌==◌, ◌+++◌, empty, ends_with, is_empty, if◌then◌else◌,
}
use duckdb_iceberg.Utils.{file_to_string}
use duckdb_iceberg.Duckdb.{ClientContext}
use duckdb_iceberg.Snapshot.{IcebergOptions}

-- `UNKNOWN_TABLE_VERSION` and `DEFAULT_VERSION_HINT_FILE` of src/include/iceberg_options.hpp
abbrev pub unknown_table_version : String
unknown_table_version = "?"

abbrev pub default_version_hint_file : String
default_version_hint_file = "version-hint.text"

abbrev pub compression_suffix : IcebergOptions → String
compression_suffix options = if options.metadata_compression_codec == "gzip" then ".gz" else ""

abbrev codec_and_formats : IcebergOptions → String
codec_and_formats options =
    options.metadata_compression_codec +++ "' compression and format(s): '"
    +++ options.version_name_format +++ "'"

abbrev not_found : String → IcebergOptions → String
not_found table_version options =
    "Iceberg metadata file not found for table version '"
    +++ table_version
    +++ "' using '"
    +++ codec_and_formats options

abbrev pub guessing_disabled : String
guessing_disabled =
    "Failed to read iceberg table. No version was provided and no version-hint could be found, globbing the "
    +++ "filesystem to locate the latest version is disabled by default as this is considered unsafe and could "
    +++ "result in reading uncommitted data. To enable this use 'SET unsafe_enable_version_guessing = true;'"

module _ (context : ClientContext) where
  open context use {fs, util, sort, version_guessing}

  -- The loop of `GenerateMetaDataUrl` over the formats.
  unfoldable pub try_formats : String → String → IcebergOptions → List String → Result String
  try_formats meta_path table_version options [] =
      throw (io_exception (not_found table_version options))
  try_formats meta_path table_version options (try_format ∷ formats) =
      let url =
        fs.join_path meta_path
          (util.format try_format table_version (compression_suffix options)) in
      let rest = try_formats meta_path table_version options formats in
      if fs.file_exists url then ok url else rest

  unfoldable pub generate_metadata_url : String → String → IcebergOptions → Result String
  generate_metadata_url meta_path table_version options =
      try_formats meta_path table_version options (util.split options.version_name_format ",")

  unfoldable pub get_table_version_from_hint : String → String → Result String
  unfolding file_to_string
  get_table_version_from_hint meta_path version_file =
      file_to_string fs (fs.join_path meta_path version_file)

  unfoldable pub unsafe_version_guessing_enabled : Bool
  unsafe_version_guessing_enabled = elim version_guessing [ none ↦ false | some b ↦ b ]

  last_or_empty : List String → String
  last_or_empty [] = ""
  last_or_empty (v ∷ []) = v
  last_or_empty (v ∷ w ∷ vs) = last_or_empty (w ∷ vs)

  unfoldable pub pick_table_version : List String → String
  unfolding last_or_empty
  pick_table_version found_metadata =
      if is_empty found_metadata then "" else last_or_empty (sort found_metadata)

  -- The loop of `GuessTableVersion` over the formats, with "*" for the version.
  unfoldable pub guess_formats : String → IcebergOptions → List String → Result String
  unfolding pick_table_version
  guess_formats meta_path options [] =
      throw (
        io_exception
          ("Could not guess Iceberg table version using '" +++ codec_and_formats options))
  guess_formats meta_path options (try_format ∷ formats) =
      let found_versions =
        fs.glob
          (fs.join_path meta_path (util.format try_format "*" (compression_suffix options))) in
      let selected_metadata = pick_table_version found_versions in
      let rest = guess_formats meta_path options formats in
      if is_empty found_versions || empty selected_metadata then rest else ok selected_metadata

  unfoldable pub guess_table_version : String → IcebergOptions → Result String
  guess_table_version meta_path options =
      guess_formats meta_path options (util.split options.version_name_format ",")

  from_hint : String → String → IcebergOptions → Result String
  from_hint meta_path version_file options = do
    version_hint ← get_table_version_from_hint meta_path version_file
    generate_metadata_url meta_path version_hint options

  unfoldable pub get_metadata_path : String → IcebergOptions → Result String
  unfolding from_hint
  get_metadata_path path options =
      let meta_path = fs.join_path path "metadata" in
      let table_version = options.table_version in
      if ends_with path ".json"
      then ok path
      else if ends_with table_version ".text" || ends_with table_version ".txt"
      then from_hint meta_path table_version options
      else if not (table_version == unknown_table_version)
      then generate_metadata_url meta_path table_version options
      else if fs.file_exists (fs.join_path meta_path default_version_hint_file)
      then from_hint meta_path default_version_hint_file options
      else if not unsafe_version_guessing_enabled
      then throw (io_exception guessing_disabled)
      else guess_table_version meta_path options
