-- ===== src/FileList/Projection.antt =====
-- The columns of a projection, and the first of a name among them.
use duckdb_iceberg.Common.{
  ℕ, suc, ◌+◌, ◌≡◌, refl, sym, ap, ◌∙◌, ◌⊎◌, inl, inr, String, true, false, Option, none, some,
  List, [], ◌∷◌, ok, ◌>>=◌, ◌==◌, eq_iff, Bool-cases, Option-cases, All, get_elem?, arith,
}
use duckdb_iceberg.Duckdb.{StringUtil, ci_find, ci_set}
use duckdb_iceberg.Duckdb.Maps.{ci_find_congr, ci_find-ci_set_self, ci_find-ci_set_other}
use duckdb_iceberg.FileList.Columns.{ColumnDefinition, insert_column, select_columns}

abbrev pub row_number : String
row_number = "file_row_number"

-- A position of the projection is the row id, or that of a column.
abbrev pub HasColumn : List ColumnDefinition → Option ℕ → Type 0
HasColumn columns none = Unit {0}
HasColumn columns (some global_id) =
    (column : ColumnDefinition) × (get_elem? columns global_id ≡ some column)

module _ (u : StringUtil) where
  open u use {lower}

  insert_column_kept :
      (selected : List (String × ℕ)) (name key : String) (i j : ℕ)
      → ci_find u selected key ≡ some j
      → ci_find u (insert_column u selected name i) key ≡ some j
  insert_column_kept selected name key i j h = elim (Option-cases (ci_find u selected name)) [
    | inr (k, present) ↦ rw (present, h)
    | inl absent ↦ elim (Bool-cases (lower name == lower key)) [
      | inr other ↦ rw absent (ci_find-ci_set_other u selected name key i other ∙ h)
      | inl same ↦
          let e = ci_find_congr u selected name key ((eq_iff (lower name) (lower key)).0 same) in
          let clash : none ≡ some j = sym absent ∙ e ∙ h in cc
    ]
  ]

  insert_column_new :
      (selected : List (String × ℕ)) (name key : String) (i : ℕ)
      → ci_find u selected key ≡ none
      → (lower name == lower key) ≡ true
      → ci_find u (insert_column u selected name i) key ≡ some i
  insert_column_new selected name key i h same =
      let e = (eq_iff (lower name) (lower key)).0 same in
      let absent : ci_find u selected name ≡ none = ci_find_congr u selected name key e ∙ h in
      rw absent (
        ci_find_congr u (ci_set u selected name i) key name (sym e)
        ∙ ci_find-ci_set_self u selected name i)

  insert_column_other :
      (selected : List (String × ℕ)) (name key : String) (i : ℕ)
      → ci_find u selected key ≡ none
      → (lower name == lower key) ≡ false
      → ci_find u (insert_column u selected name i) key ≡ none
  insert_column_other selected name key i h other = elim (Option-cases (ci_find u selected name)) [
    | inr (k, present) ↦ rw (present, h)
    | inl absent ↦ rw absent (ci_find-ci_set_other u selected name key i other ∙ h)
  ]

  -- Not the column of a name, and the column that has it at a position of the projection.
  abbrev pub IsOther : List ColumnDefinition → String → Option ℕ → Type 0
  IsOther columns key none = Unit {0}
  IsOther columns key (some global_id) =
      (column : ColumnDefinition) × (get_elem? columns global_id ≡ some column)
      × ((lower column.name == lower key) ≡ false)

  abbrev pub IsAt : List ColumnDefinition → String → List (Option ℕ) → ℕ → Type 0
  IsAt columns key ids i =
      (global_id : ℕ) × (column : ColumnDefinition) × (get_elem? ids i ≡ some (some global_id))
      × (get_elem? columns global_id ≡ some column)
      × ((lower column.name == lower key) ≡ true)

  abbrev pub SelectsAt :
      List ColumnDefinition
      → ℕ
      → List (Option ℕ)
      → List (String × ℕ)
      → (List (String × ℕ) → Type 0)
      → Type 0
  SelectsAt columns i ids selected P =
      (selected' : List (String × ℕ)) × (select_columns u columns i ids selected ≡ ok selected')
      × P selected'

  select_columns_kept :
      (columns : List ColumnDefinition) (key : String) (j i : ℕ) (ids : List (Option ℕ))
      (selected : List (String × ℕ))
      → All (HasColumn columns) ids
      → ci_find u selected key ≡ some j
      → SelectsAt columns i ids selected (λ selected'. ci_find u selected' key ≡ some j)
  unfolding select_columns
  select_columns_kept columns key j i [] selected known h = (selected, refl, h)
  select_columns_kept columns key j i (none ∷ ids) selected (_, known) h =
      select_columns_kept columns key j (suc i) ids selected known h
  select_columns_kept columns key j i (some global_id ∷ ids) selected ((column, has), known) h =
      let (selected', returns, same) =
        select_columns_kept columns key j (suc i) ids (insert_column u selected column.name i) known
          (insert_column_kept selected column.name key i j h) in
      (selected', rw (has, ◌>>=◌) returns, same)

  abbrev pub First : List ColumnDefinition → String → ℕ → List (Option ℕ) → Option ℕ → Type 0
  First columns key i ids found =
      ((found ≡ none) × All (IsOther columns key) ids)
      ⊎ ((d : ℕ) × (found ≡ some (i + d)) × IsAt columns key ids d)

  First-cons :
      (columns : List ColumnDefinition) (key : String) (i : ℕ) (id : Option ℕ)
      (ids : List (Option ℕ)) (found : Option ℕ)
      → IsOther columns key id
      → First columns key (suc i) ids found
      → First columns key i (id ∷ ids) found
  First-cons columns key i id ids found other (inl (absent, others)) = inl (absent, (other, others))
  First-cons columns key i id ids found other (inr (d, e, at)) =
      inr (suc d, e ∙ ap some (omega arith), at)

  pub select_columns-First :
      (columns : List ColumnDefinition) (key : String) (i : ℕ) (ids : List (Option ℕ))
      (selected : List (String × ℕ))
      → All (HasColumn columns) ids
      → ci_find u selected key ≡ none
      → SelectsAt columns i ids selected
          (λ selected'. First columns key i ids (ci_find u selected' key))
  unfolding select_columns
  select_columns-First columns key i [] selected known h = (selected, refl, inl (h, tt))
  select_columns-First columns key i (none ∷ ids) selected (_, known) h =
      let (selected', returns, first) =
        select_columns-First columns key (suc i) ids selected known h in
      (selected', returns, First-cons columns key i none ids _ tt first)
  select_columns-First columns key i (some global_id ∷ ids) selected ((column, has), known) h =
      elim (Bool-cases (lower column.name == lower key)) [
        | inl same ↦
            let (selected', returns, found) =
              select_columns_kept columns key i (suc i) ids (insert_column u selected column.name i)
                known (insert_column_new selected column.name key i h same) in
            (
              selected',
              rw (has, ◌>>=◌) returns,
              inr (0, found ∙ ap some (omega arith), (global_id, column, refl, has, same)),
            )
        | inr other ↦
            let (selected', returns, first) =
              select_columns-First columns key (suc i) ids (insert_column u selected column.name i)
                known (insert_column_other selected column.name key i h other) in
            (
              selected',
              rw (has, ◌>>=◌) returns,
              First-cons columns key i (some global_id) ids _ (column, has, other) first,
            )
      ]
