-- ===== src/FileList/Placed.antt =====
-- Where `file_row_number` stands among the columns that are read.
use duckdb_iceberg.Common.{
  ℕ, suc, ◌+◌, ◌<◌, ◌≡◌, refl, sym, ap, ◌∙◌, ◌⊎◌, inl, inr, String, true, false, Option, none, some,
  List, [], ◌∷◌, ◌++◌, ok, ◌>>=◌, ◌==◌, eq_iff, All, length, arith, ltb_of_lt, ltb_refl, le_or_lt,
  get_elem?_of_length-le,
}
use duckdb_iceberg.Duckdb.{StringUtil, ci_find, ci_set}
use duckdb_iceberg.Duckdb.Maps.{ci_find_congr, ci_find-ci_set_self, ci_find-ci_set_other}
use duckdb_iceberg.FileList.Columns.{
  ColumnDefinition, initialize_global_state, name_map, create_column_mapping,
}
use duckdb_iceberg.FileList.Projection.{row_number, HasColumn, IsOther, IsAt, select_columns-First}

module _ (u : StringUtil) where
  open u use {lower}

  -- None of the columns has a name.
  abbrev pub NoneNamed : String → List ColumnDefinition → Type 0
  NoneNamed key = All (λ column. (lower column.name == lower key) ≡ false)

  name_map_other :
      (key : String) (i : ℕ) (columns : List ColumnDefinition) (m : List (String × ℕ))
      → NoneNamed key columns
      → ci_find u (name_map u i columns m) key ≡ ci_find u m key
  unfolding name_map
  name_map_other key i [] m h = refl
  name_map_other key i (column ∷ columns) m (other, others) =
      name_map_other key (suc i) columns (ci_set u m column.name i) others
      ∙ ci_find-ci_set_other u m column.name key i other

  -- The last of the columns with a name.
  name_map_last :
      (key : String) (i : ℕ) (before : List ColumnDefinition) (column : ColumnDefinition)
      (after : List ColumnDefinition) (m : List (String × ℕ))
      → (lower column.name == lower key) ≡ true
      → NoneNamed key after
      → ci_find u (name_map u i (before ++ (column ∷ after)) m) key ≡ some (i + length before)
  unfolding name_map
  name_map_last key i [] column after m same others =
      name_map_other key (suc i) after (ci_set u m column.name i) others
      ∙ ci_find_congr u (ci_set u m column.name i) key column.name
          (sym ((eq_iff (lower column.name) (lower key)).0 same))
      ∙ ci_find-ci_set_self u m column.name i
      ∙ ap some (omega arith)
  name_map_last key i (first ∷ before) column after m same others =
      name_map_last key (suc i) before column after (ci_set u m first.name i) same others
      ∙ ap some (omega arith)

  IsAt-length :
      (columns : List ColumnDefinition) (key : String) (ids : List (Option ℕ)) (i : ℕ)
      → IsAt u columns key ids i
      → i < length ids
  IsAt-length columns key ids i (global_id, column, found, has, same) =
      elim (le_or_lt (length ids) i) [
        | inr below ↦ below
        | inl beyond ↦ let none_there = get_elem?_of_length-le ids i beyond in cc
      ]

  -- What `CreateColumnMapping` adds, with the column of the file that it is read from.
  abbrev pub MapsRowNumber :
      List ColumnDefinition → ℕ → List ColumnDefinition → List (Option ℕ) → ℕ × ℕ → Type 0
  MapsRowNumber local col_idx columns ids (position, extra) =
      ((extra ≡ 0)
        × IsAt u columns row_number ids position
        × (create_column_mapping u local ids position ≡ ok none))
      ⊎ ((extra ≡ 1)
          × (position ≡ length ids)
          × All (IsOther u columns row_number) ids
          × (create_column_mapping u local ids position ≡ ok (some (col_idx, position))))

  -- If the columns of the projection are there, and the file has a column `file_row_number`, the
  -- last of that name if there are more: either the projection has a column of that name, then
  -- `InitializeGlobalState` takes a position of it, adds no column, and `CreateColumnMapping` maps none;
  -- or it has none, then one column is added behind the projection, and that of the file is mapped
  -- to it. Names are compared without their case.
  pub initialize_global_state-create_column_mapping :
      (columns : List ColumnDefinition) (ids : List (Option ℕ)) (before : List ColumnDefinition)
      (column : ColumnDefinition) (after : List ColumnDefinition)
      → All (HasColumn columns) ids
      → (lower column.name == lower row_number) ≡ true
      → NoneNamed row_number after
      → (placed : ℕ × ℕ) × (initialize_global_state u columns ids ≡ ok placed)
        × MapsRowNumber (before ++ (column ∷ after)) (length before) columns ids placed
  unfolding initialize_global_state create_column_mapping ci_find
  initialize_global_state-create_column_mapping columns ids before column after known same others =
      let (selected, returns, first) =
        select_columns-First u columns row_number 0 ids [] known refl in
      elim first [
        | inl (absent, apart) ↦
            let mapped : ci_find u (name_map u 0 (before ++ (column ∷ after)) []) row_number
                ≡ some (length before) =
              name_map_last row_number 0 before column after [] same others
              ∙ ap some (omega arith) in
            (
              (length ids, 1),
              rw (returns, ◌>>=◌, absent),
              inr (refl, refl, apart, rw (ltb_refl (length ids), mapped)),
            )
        | inr (d, found, at) ↦
            let there : ci_find u selected row_number ≡ some d = found ∙ ap some (omega arith) in
            (
              (d, 0),
              rw (returns, ◌>>=◌, there),
              inl (
                refl,
                at,
                rw (ltb_of_lt d (length ids) (IsAt-length columns row_number ids d at)),
              ),
            )
      ]
