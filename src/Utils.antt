-- ===== src/Utils.antt =====
-- src/common/utils.cpp: reading files, typed access to JSON fields, and the path of a moved table.
pub mod Paths
use Prim.Native.String
use duckdb_iceberg.Common.{
  ℕ, String, Bool, true, false, Option, none, some, Result, ok, throw, io_exception, ◌>>=◌, ◌+++◌,
  if◌then◌else◌, rfind_suffix, first_some,
}
use duckdb_iceberg.Json.{Json, bool, num, str, obj_get}
use duckdb_iceberg.Duckdb.{FileSystem}

unfoldable pub file_to_string : FileSystem → String → Result String
file_to_string fs path = fs.read_file path

unfoldable pub gz_file_to_string : FileSystem → String → Result String
unfolding file_to_string
gz_file_to_string fs path = do fs.uncompress (← file_to_string fs path)

abbrev invalid_field {ℓ} : {A : Type ℓ} → String → Result A
invalid_field field = throw (io_exception ("Invalid field found while parsing field: " +++ field))

-- The type test of each accessor, with the value that it then reads.
abbrev pub as_num : Option Json → Option ℕ
as_num (some (num n)) = some n
as_num _ = none

abbrev pub as_bool : Option Json → Option Bool
as_bool (some (bool b)) = some b
as_bool _ = none

abbrev pub as_str : Option Json → Option String
as_str (some (str s)) = some s
as_str _ = none

abbrev or_invalid {ℓ} : {A : Type ℓ} → String → Option A → Result A
or_invalid field none = invalid_field field
or_invalid field (some a) = ok a

unfoldable pub try_get_num : Option Json → String → Result ℕ
try_get_num v field = or_invalid field (as_num (obj_get v field))

unfoldable pub try_get_bool : Option Json → String → Result Bool
try_get_bool v field = or_invalid field (as_bool (obj_get v field))

unfoldable pub try_get_str : Option Json → String → Result String
try_get_str v field = or_invalid field (as_str (obj_get v field))

-- `TemplatedTryGetYYJson`: a field that is missing or of another type gives the default, unless
-- `fail_on_missing`.
unfoldable pub templated_try_get {ℓ} :
    {A : Type ℓ} → (Option Json → Option A) → Option Json → String → A → Bool → Result A
templated_try_get get v field default fail_on_missing = elim (get (obj_get v field)) [
  | some a ↦ ok a
  | none ↦ if fail_on_missing then invalid_field field else ok default
]

unfoldable pub try_get_str_or : Option Json → String → Bool → String → Result String
unfolding templated_try_get
try_get_str_or v field fail_on_missing default =
    templated_try_get as_str v field default fail_on_missing

-- `substr(found + 1)`, of the suffix that begins at `found`.
abbrev pub after_slash : String → String
after_slash String.[] = String.[]
after_slash (String.◌∷◌ c s) = s

abbrev pub below_root : FileSystem → String → Option String → Result String
below_root fs iceberg_path none = throw (io_exception "Did not recognize iceberg path")
below_root fs iceberg_path (some found) = ok (fs.join_path iceberg_path (after_slash found))

-- "/metadata/" is looked for first.
unfoldable pub get_full_path : FileSystem → String → String → Result String
get_full_path fs iceberg_path relative_file_path = below_root fs iceberg_path (
    first_some (rfind_suffix "/metadata/" relative_file_path)
      (rfind_suffix "/data/" relative_file_path))
