-- ===== src/Manifest/Mapping.antt =====
-- `PopulateNameMapping` and `VerifySchema` of the four formats.
use duckdb_iceberg.Common.{
  ℕ, suc, String, List, [], ◌∷◌, none, some, Bool, true, false, ◌&&◌, Result, ok, throw,
  invalid_input, ◌==◌, if◌then◌else◌,
}
use duckdb_iceberg.Duckdb.{StringUtil, ci_find, ci_set}
use duckdb_iceberg.Manifest.Chunk.{ColumnType, scalar, struct, NameMap}

module _ (u : StringUtil) where
  open u use {lower}

  abbrev pub count : NameMap → String → Bool
  count m name = elim (ci_find u m name) [ none ↦ false | some i ↦ true ]

  unfoldable pub manifest_name_mapping : ℕ → ColumnType → String → NameMap → Result NameMap
  unfolding ci_set
  manifest_name_mapping column_id type name name_to_vec =
      ok (ci_set u name_to_vec name (record { primary = column_id; child = none }))

  -- The loop over the children of 'data_file', from `child_idx` on.
  unfoldable pub map_children : ℕ → ℕ → List String → NameMap → NameMap
  unfolding ci_set
  map_children column_id child_idx [] m = m
  map_children column_id child_idx (child ∷ children) m =
      map_children column_id (suc child_idx) children
        (ci_set u m (lower child) (record { primary = column_id; child = some child_idx }))

  abbrev map_data_file : ℕ → ColumnType → NameMap → Result NameMap
  map_data_file column_id scalar m =
      throw (invalid_input "The 'data_file' of the manifest should be a STRUCT")
  map_data_file column_id (struct children) m = ok (map_children column_id 0 children m)

  unfoldable pub entry_name_mapping : ℕ → ColumnType → String → NameMap → Result NameMap
  unfolding ci_set map_children
  entry_name_mapping column_id type name name_to_vec =
      if lower name == "data_file"
      then map_data_file column_id type name_to_vec
      else ok (ci_set u name_to_vec (lower name) (record { primary = column_id; child = none }))

  unfoldable pub verify_manifest_v1 : NameMap → Bool
  verify_manifest_v1 m = count m "manifest_path"

  unfoldable pub verify_manifest_v2 : NameMap → Bool
  unfolding verify_manifest_v1
  verify_manifest_v2 m = verify_manifest_v1 m && count m "content"

  unfoldable pub verify_entry_v1 : NameMap → Bool
  verify_entry_v1 m =
      count m "status" && count m "file_path" && count m "file_format" && count m "record_count"

  unfoldable pub verify_entry_v2 : NameMap → Bool
  unfolding verify_entry_v1
  verify_entry_v2 m = verify_entry_v1 m && count m "content"
