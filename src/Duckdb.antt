-- ===== src/Duckdb.antt =====
-- What the extension calls of DuckDB and of the operating system: parameters of the model, of
-- which nothing more is assumed; and its maps with keys that are compared without their case.
pub mod Maps
use duckdb_iceberg.Common.{
  ℕ, String, Bool, List, Option, Result, ◌==◌, if◌then◌else◌, [], ◌∷◌, none, some,
}
use duckdb_iceberg.Json.{Json}

-- `FileSystem`, on a file system that does not change while a table is read, and `GZipFileSystem`.
pub record FileSystem : Type 0 where
  pub join_path : String → String → String
  pub file_exists : String → Bool
  pub read_file : String → Result String
  pub uncompress : String → Result String
  pub glob : String → List String

-- `StringUtil`: `lower` maps a text to the representative of its case-insensitive class, and
-- `format` fills the two places of a version format.
pub record StringUtil : Type 0 where
  pub lower : String → String
  pub split : String → String → List String
  pub format : String → String → String → String

-- What else the extension asks of DuckDB, of yyjson and of the C++ library: the parser of JSON
-- texts, `Timestamp::FromEpochMs`, `Timestamp::GetEpochMs` (as the `uint64_t` it is compared as),
-- the two `to_string`, `std::sort` on texts, and the setting that allows a guess of the
-- version.
pub record ClientContext : Type 0 where
  pub fs : FileSystem
  pub util : StringUtil
  pub yyjson_read : String → Option Json
  pub from_epoch_ms : ℕ → Result ℕ
  pub epoch_ms : ℕ → ℕ
  pub timestamp_to_string : ℕ → String
  pub to_string : ℕ → String
  pub sort : List String → List String
  pub version_guessing : Option Bool

-- `case_insensitive_map_t`: keys are compared by their lower-case texts. `map[key] = v` replaces
-- the value of a present key.
module _ (u : StringUtil) where
  open u use {lower}

  unfoldable pub ci_find {ℓ} : {V : Type ℓ} → List (String × V) → String → Option V
  ci_find [] key = none
  ci_find ((k, v) ∷ m) key = if lower k == lower key then some v else ci_find m key

  unfoldable pub ci_set {ℓ} : {V : Type ℓ} → List (String × V) → String → V → List (String × V)
  ci_set [] key v = (key, v) ∷ []
  ci_set ((k, w) ∷ m) key v = if lower k == lower key then (k, v) ∷ m else (k, w) ∷ ci_set m key v

  unfoldable pub ci_erase {ℓ} : {V : Type ℓ} → List (String × V) → String → List (String × V)
  ci_erase [] key = []
  ci_erase ((k, v) ∷ m) key = if lower k == lower key then m else (k, v) ∷ ci_erase m key

  -- One assignment `map[key] = v` after the other.
  unfoldable pub ci_set_all {ℓ} :
      {V : Type ℓ} → List (String × V) → List (String × V) → List (String × V)
  unfolding ci_set
  ci_set_all m [] = m
  ci_set_all m ((k, v) ∷ entries) = ci_set_all (ci_set m k v) entries
