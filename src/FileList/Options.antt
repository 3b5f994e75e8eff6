-- ===== src/FileList/Options.antt =====
-- `IcebergMultiFileReader`: the options of `iceberg_scan`.
use duckdb_iceberg.Common.{
  ℕ, ◌≡◌, ◌≢◌, String, Bool, true, false, not, Option, none, some, Result, ok, throw, invalid_input,
  ◌>>=◌, ◌==◌, if◌then◌else◌, arith,
}
use duckdb_iceberg.Duckdb.{StringUtil}
use duckdb_iceberg.Snapshot.{IcebergOptions, SnapshotSource, latest, from_timestamp, from_id}

-- The value of an option, by the type that its reader asks for.
pub data Value : Type 0 where
  boolean : Bool → Value
  string : String → Value
  unsigned : ℕ → Value
  timestamp : ℕ → Value

abbrev is_latest : SnapshotSource → Bool
is_latest latest = true
is_latest _ = false

abbrev pub conflict : String
conflict = "Can't use 'snapshot_from_id' in combination with 'snapshot_from_timestamp'"

-- What DuckDB's values give to `ParseOption`: `BooleanValue::Get`, `StringValue::Get` and the two
-- `GetValue`. They throw where the value cannot be read so.
pub record ValueAccess (V : Type 0) : Type 0 where
  pub boolean_get : V → Result Bool
  pub string_get : V → Result String
  pub get_uint64 : V → Result ℕ
  pub get_timestamp : V → Result ℕ

abbrev pub set_source :
    IcebergOptions → (ℕ → SnapshotSource) → Result ℕ → Result (Option IcebergOptions)
set_source options source value =
    if not (is_latest options.snapshot_source)
    then throw (invalid_input conflict)
    else value >>= λ n. ok (some (record options { snapshot_source = source n }))

module _ {V : Type 0} (access : ValueAccess V) where
  open access use {boolean_get, string_get, get_uint64, get_timestamp}

  -- Told apart by the option's name in lower case alone. What is not named here the base class
  -- looks at: `none`.
  abbrev pub set_option : String → V → IcebergOptions → Result (Option IcebergOptions)
  set_option loption val options =
      if loption == "allow_moved_paths"
      then (boolean_get val >>= λ b. ok (some (record options { allow_moved_paths = b })))
      else if loption == "metadata_compression_codec"
      then (string_get val >>= λ s. ok (some (record options { metadata_compression_codec = s })))
      else if loption == "skip_schema_inference"
      then (boolean_get val >>= λ b. ok (some (record options { skip_schema_inference = b })))
      else if loption == "version"
      then (string_get val >>= λ s. ok (some (record options { table_version = s })))
      else if loption == "version_name_format"
      then (string_get val >>= λ s. ok (some (record options { version_name_format = s })))
      else if loption == "snapshot_from_id"
      then set_source options from_id (get_uint64 val)
      else if loption == "snapshot_from_timestamp"
      then set_source options from_timestamp (get_timestamp val)
      else ok none

set_source_lem :
    (options : IcebergOptions) (source : ℕ → SnapshotSource) (value : Result ℕ)
    → options.snapshot_source ≢ latest
    → set_source options source value ≡ throw (invalid_input conflict)
set_source_lem options source value h = ground arith

module _ (u : StringUtil) {V : Type 0} (access : ValueAccess V) where
  open u use {lower}

  -- `ParseOption`: the new options, or `none` for an option that the base class looks at. Where
  -- it throws, the options are of no use any more.
  unfoldable pub parse_option : String → V → IcebergOptions → Result (Option IcebergOptions)
  parse_option key val options = set_option access (lower key) val options

  -- Once a snapshot is asked for by its id or by a time, `snapshot_from_id` is refused, whatever
  -- its value.
  pub parse_option_id_conflict :
      (key : String) (val : V) (options : IcebergOptions)
      → lower key ≡ "snapshot_from_id"
      → options.snapshot_source ≢ latest
      → parse_option key val options ≡ throw (invalid_input conflict)
  unfolding parse_option
  parse_option_id_conflict key val options e h =
      rw (e, set_source_lem options from_id (access.get_uint64 val) h)

  -- Then `snapshot_from_timestamp` is refused as well.
  pub parse_option_timestamp_conflict :
      (key : String) (val : V) (options : IcebergOptions)
      → lower key ≡ "snapshot_from_timestamp"
      → options.snapshot_source ≢ latest
      → parse_option key val options ≡ throw (invalid_input conflict)
  unfolding parse_option
  parse_option_timestamp_conflict key val options e h =
      rw (e, set_source_lem options from_timestamp (access.get_timestamp val) h)
