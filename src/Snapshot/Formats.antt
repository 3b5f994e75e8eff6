-- ===== src/Snapshot/Formats.antt =====
-- Which file `GetMetaDataPath` chooses.
use duckdb_iceberg.Common.{
  ◌≡◌, String, true, false, List, [], ◌∷◌, ◌++◌, All, ok, throw, io_exception, ◌==◌, ends_with,
}
use duckdb_iceberg.Duckdb.{ClientContext}
use duckdb_iceberg.Snapshot.{IcebergOptions}
use duckdb_iceberg.Snapshot.MetadataPath.{
  compression_suffix, try_formats, generate_metadata_url, get_metadata_path, guessing_disabled,
  unsafe_version_guessing_enabled, unknown_table_version, default_version_hint_file,
}

module _ (context : ClientContext) (meta_path version : String) (options : IcebergOptions) where
  open context use {fs, util}

  -- The metadata file that a format names.
  abbrev pub url_of : String → String
  url_of format = fs.join_path meta_path (util.format format version (compression_suffix options))

  try_formats_first :
      (before : List String) (format : String) (after : List String)
      → All (λ f. fs.file_exists (url_of f) ≡ false) before
      → fs.file_exists (url_of format) ≡ true
      → try_formats context meta_path version options (before ++ format ∷ after)
        ≡ ok (url_of format)
  unfolding try_formats
  try_formats_first [] format after h e = rw e
  try_formats_first (f ∷ before) format after (n, h) e =
      rw n (try_formats_first before format after h e)

  -- Of the files that the formats name for a version, the first that exists is the metadata file.
  pub generate_metadata_url_first :
      (before : List String) (format : String) (after : List String)
      → util.split options.version_name_format "," ≡ before ++ format ∷ after
      → All (λ f. fs.file_exists (url_of f) ≡ false) before
      → fs.file_exists (url_of format) ≡ true
      → generate_metadata_url context meta_path version options ≡ ok (url_of format)
  unfolding generate_metadata_url
  generate_metadata_url_first before format after split h e =
      rw split (try_formats_first before format after h e)

module _ (context : ClientContext) (path : String) (options : IcebergOptions)
    (folder : ends_with path ".json" ≡ false) where
  open context use {fs}

  -- For a path that is no metadata file itself, a version that is given and is not the name of a
  -- hint file decides on its own: neither the hint file nor the setting that allows a guess is
  -- looked at.
  pub get_metadata_path_version :
      ends_with options.table_version ".text" ≡ false
      → ends_with options.table_version ".txt" ≡ false
      → (options.table_version == unknown_table_version) ≡ false
      → get_metadata_path context path options
        ≡ generate_metadata_url context (fs.join_path path "metadata") options.table_version options
  unfolding get_metadata_path
  get_metadata_path_version text txt known = rw (folder, text, txt, known)

  -- For a path that is no metadata file itself, with neither a version nor a hint file and no leave
  -- to guess, no metadata file is chosen: the read ends in an exception.
  pub get_metadata_path_disabled :
      options.table_version ≡ unknown_table_version
      → fs.file_exists (fs.join_path (fs.join_path path "metadata") default_version_hint_file)
        ≡ false
      → unsafe_version_guessing_enabled context ≡ false
      → get_metadata_path context path options ≡ throw (io_exception guessing_disabled)
  unfolding get_metadata_path ends_with
  get_metadata_path_disabled unknown no_hint disabled = rw (folder, unknown, no_hint, disabled)
