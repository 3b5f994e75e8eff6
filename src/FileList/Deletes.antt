-- ===== src/FileList/Deletes.antt =====
-- src/include/iceberg_multi_file_reader.hpp and src/iceberg_functions/iceberg_multi_file_reader.cpp:
-- the rows that position delete files remove. A row id is kept as its bit pattern.
use duckdb_iceberg.Common.{
  ℕ, suc, String, Bool, false, ◌||◌, Option, none, some, List, [], ◌∷◌, ◌==◌, eqb, if◌then◌else◌,
  is_empty, get_elem?, option_cons,
}
use duckdb_iceberg.Duckdb.{StringUtil, ci_find, ci_set}

abbrev pub has_row : ℕ → List ℕ → Bool
has_row row [] = false
has_row row (r ∷ rows) = eqb r row || has_row row rows

-- `IcebergDeleteData::AddRow`, into a set.
unfoldable pub add_row : ℕ → List ℕ → List ℕ
add_row row temp_invalid_rows =
    if has_row row temp_invalid_rows then temp_invalid_rows else row ∷ temp_invalid_rows

-- The loop of `Apply`: the selection of the rows, from `tuple_idx` on, that are not deleted.
unfoldable pub select_rows : List ℕ → ℕ → List ℕ → List ℕ
select_rows temp_invalid_rows tuple_idx [] = []
select_rows temp_invalid_rows tuple_idx (row_id ∷ row_ids) =
    let rest = select_rows temp_invalid_rows (suc tuple_idx) row_ids in
    if has_row row_id temp_invalid_rows then rest else tuple_idx ∷ rest

-- `DataChunk::Slice` by a selection.
abbrev pub slice {ℓ} : {A : Type ℓ} → List A → List ℕ → List A
slice chunk [] = []
slice chunk (i ∷ result) = option_cons (get_elem? chunk i) (slice chunk result)

unfoldable pub apply {ℓ} : {A : Type ℓ} → List ℕ → List A → List ℕ → List A
unfolding select_rows
apply temp_invalid_rows chunk row_ids =
    if is_empty chunk then chunk else slice chunk (select_rows temp_invalid_rows 0 row_ids)

abbrev pub DeleteData : Type 0
DeleteData = List (String × List ℕ)

abbrev pub rows_or_empty : Option (List ℕ) → List ℕ
rows_or_empty none = []
rows_or_empty (some rows) = rows

module _ (u : StringUtil) where
  -- `delete_data[file_path].AddRow(row_id)`
  unfoldable pub mark_row : DeleteData → String → ℕ → DeleteData
  unfolding add_row
  mark_row delete_data file_path row_id =
      ci_set u delete_data file_path
        (add_row row_id (rows_or_empty (ci_find u delete_data file_path)))

  -- The rows of a chunk, with the path that the reference stands at.
  unfoldable pub mark_rows : String → List (String × ℕ) → DeleteData → DeleteData
  unfolding mark_row
  mark_rows current_file_path [] delete_data = delete_data
  mark_rows current_file_path ((name, row_id) ∷ rows) delete_data =
      let current = if name == current_file_path then current_file_path else name in
      mark_rows current rows (mark_row delete_data current row_id)

  -- The chunks of a delete file, up to the first empty one.
  unfoldable pub scan_delete_chunks : List (List (String × ℕ)) → DeleteData → DeleteData
  unfolding mark_rows
  scan_delete_chunks [] delete_data = delete_data
  scan_delete_chunks ([] ∷ chunks) delete_data = delete_data
  scan_delete_chunks (((name, row_id) ∷ rows) ∷ chunks) delete_data =
      scan_delete_chunks chunks (mark_rows name ((name, row_id) ∷ rows) delete_data)

  unfoldable pub get_deletes_for_file : DeleteData → String → Option (List ℕ)
  get_deletes_for_file delete_data file_path = ci_find u delete_data file_path
