-- ===== src/FileList/Deletions.antt =====
-- The rows that are deleted are those that the delete files name, and no others are taken out.
use mathlib.Core.List.{append_assoc}
use duckdb_iceberg.Common.{
  ℕ, suc, ◌≡◌, refl, sym, ap, ◌∙◌, String, Bool, true, false, ◌||◌, ◌&&◌, some, List, [], ◌∷◌, ◌++◌,
  ◌==◌, eq_iff, eqb, if◌then◌else◌, length, length-append, get_elem?, Bool-cases, inl, inr, arith,
}
use duckdb_iceberg.Duckdb.{StringUtil, ci_find}
use duckdb_iceberg.Duckdb.Maps.{ci_find_congr, ci_find-ci_set_self, ci_find-ci_set_other}
use duckdb_iceberg.FileList.Deletes.{
  has_row, add_row, select_rows, slice, apply, DeleteData, rows_or_empty, mark_row, mark_rows,
  scan_delete_chunks, get_deletes_for_file,
}

-- The rows of a chunk whose ids are not among those deleted, in their order.
abbrev pub surviving {ℓ} : {A : Type ℓ} → List ℕ → List (A × ℕ) → List A
surviving deleted [] = []
surviving deleted ((row, id) ∷ rows) =
    if has_row id deleted then surviving deleted rows else row ∷ surviving deleted rows

abbrev pub rows_of {ℓ} : {A : Type ℓ} → List (A × ℕ) → List A
rows_of [] = []
rows_of ((row, id) ∷ rows) = row ∷ rows_of rows

abbrev pub ids_of {ℓ} : {A : Type ℓ} → List (A × ℕ) → List ℕ
ids_of [] = []
ids_of ((row, id) ∷ rows) = id ∷ ids_of rows

get_elem?-append {ℓ} :
    {A : Type ℓ} (xs : List A) (y : A) (ys : List A) → get_elem? (xs ++ y ∷ ys) (length xs) ≡ some y
get_elem?-append [] y ys = refl
get_elem?-append (x ∷ xs) y ys = get_elem?-append xs y ys

slice-select_rows {ℓ} :
    {A : Type ℓ} (deleted : List ℕ) (before : List A) (rows : List (A × ℕ)) (n : ℕ)
    → n ≡ length before
    → slice (before ++ rows_of rows) (select_rows deleted n (ids_of rows)) ≡ surviving deleted rows
unfolding select_rows
slice-select_rows deleted before [] n e = refl
slice-select_rows deleted before ((row, id) ∷ rows) n e =
    let ih = rw append_assoc at (
      slice-select_rows deleted (before ++ row ∷ []) rows (suc n)
        (omega (arith, e, length-append before (row ∷ [])))) in
    elim (Bool-cases (has_row id deleted)) [
      | inl gone ↦ rw gone ih
      | inr kept ↦
          rw kept
            (rw (e, get_elem?-append before row (rows_of rows)) (rw e at (ap (λ xs. row ∷ xs) ih)))
    ]

-- `Apply` keeps exactly the rows of the chunk whose ids are not deleted, in their order.
pub apply-eq-surviving {ℓ} :
    {A : Type ℓ} (deleted : List ℕ) (rows : List (A × ℕ))
    → apply deleted (rows_of rows) (ids_of rows) ≡ surviving deleted rows
unfolding apply
apply-eq-surviving deleted [] = refl
apply-eq-surviving deleted (r ∷ rows) = slice-select_rows deleted [] (r ∷ rows) 0 refl

module _ (u : StringUtil) where
  open u use {lower}

  -- The row of the file is among those to delete.
  abbrev pub is_marked : DeleteData → String → ℕ → Bool
  is_marked delete_data file_path row =
      has_row row (rows_or_empty (get_deletes_for_file u delete_data file_path))

  -- A row of a delete file names this row of this file, by paths compared without their case.
  abbrev pub names_row : String → ℕ → List (String × ℕ) → Bool
  names_row file_path row [] = false
  names_row file_path row ((name, row_id) ∷ rows) =
      lower name == lower file_path && eqb row_id row || names_row file_path row rows

  has_row-add_row :
      (row x : ℕ) (rows : List ℕ) → has_row x (add_row row rows) ≡ (eqb row x || has_row x rows)
  unfolding add_row
  has_row-add_row row x rows = elim (Bool-cases (has_row row rows)) [
    | inl present ↦ rw present (known x present)
    | inr absent ↦ rw absent
  ]
    where
      known : (x : ℕ) → has_row row rows ≡ true → has_row x rows ≡ (eqb row x || has_row x rows)
      known x present = elim (Bool-cases (eqb row x)) [
        | inl same ↦ let e : row ≡ x = ground arith in rw (same, ← e, present)
        | inr other ↦ rw other
      ]

  mark_row-marks :
      (m : DeleteData) (f p : String) (row x : ℕ)
      → is_marked (mark_row u m f row) p x ≡ (lower f == lower p && eqb row x || is_marked m p x)
  unfolding mark_row get_deletes_for_file
  mark_row-marks m f p row x = elim (Bool-cases (lower f == lower p)) [
    | inl near ↦
        let e = (eq_iff (lower f) (lower p)).0 near in
        rw
          (
            near,
            ← ci_find_congr u _ f p e,
            ci_find-ci_set_self u m f (add_row row (rows_or_empty (ci_find u m f))),
            ← ci_find_congr u m f p e,
          )
          (has_row-add_row row x (rows_or_empty (ci_find u m f)))
    | inr far ↦
        rw (far, ci_find-ci_set_other u m f p (add_row row (rows_or_empty (ci_find u m f))) far)
  ]

  current-name : (name current : String) → (if name == current then current else name) ≡ name
  current-name name current = elim (Bool-cases (name == current)) [
    | inl same ↦ rw same (sym ((eq_iff name current).0 same))
    | inr other ↦ rw other
  ]

  pub or_swap : (a b c : Bool) → (a || (b || c)) ≡ (b || (a || c))
  or_swap true true c = refl
  or_swap true false c = refl
  or_swap false b c = refl

  pub or_assoc : (a b c : Bool) → ((a || b) || c) ≡ (a || (b || c))
  or_assoc true b c = refl
  or_assoc false b c = refl

  mark_rows-marks :
      (current : String) (rows : List (String × ℕ)) (m : DeleteData) (p : String) (x : ℕ)
      → is_marked (mark_rows u current rows m) p x ≡ (names_row p x rows || is_marked m p x)
  unfolding mark_rows
  mark_rows-marks current [] m p x = refl
  mark_rows-marks current ((name, row) ∷ rows) m p x =
      rw
        (
          current-name name current,
          mark_rows-marks name rows (mark_row u m name row) p x,
          mark_row-marks m name p row x,
          or_swap (names_row p x rows) (lower name == lower p && eqb row x) (is_marked m p x),
        )
        (sym (or_assoc (lower name == lower p && eqb row x) (names_row p x rows) (is_marked m p x)))

  -- The rows that a delete file delivers: an empty chunk is the end.
  abbrev pub delivered : List (List (String × ℕ)) → List (String × ℕ)
  delivered [] = []
  delivered ([] ∷ chunks) = []
  delivered ((row ∷ rows) ∷ chunks) = row ∷ rows ++ delivered chunks

  pub names_row-append :
      (p : String) (x : ℕ) (xs ys : List (String × ℕ))
      → names_row p x (xs ++ ys) ≡ (names_row p x xs || names_row p x ys)
  names_row-append p x [] ys = refl
  names_row-append p x ((name, row) ∷ xs) ys =
      rw (names_row-append p x xs ys)
        (sym (or_assoc (lower name == lower p && eqb row x) (names_row p x xs) (names_row p x ys)))

  -- After a delete file is scanned, a row of a data file is deleted if it was before, or if a row
  -- of the delete file names it. File paths are compared without their case.
  pub scan_delete_chunks-marks :
      (chunks : List (List (String × ℕ))) (m : DeleteData) (p : String) (x : ℕ)
      → is_marked (scan_delete_chunks u chunks m) p x
        ≡ (names_row p x (delivered chunks) || is_marked m p x)
  unfolding scan_delete_chunks
  scan_delete_chunks-marks [] m p x = refl
  scan_delete_chunks-marks ([] ∷ chunks) m p x = refl
  scan_delete_chunks-marks (((name, row) ∷ rows) ∷ chunks) m p x =
      let now = (name, row) ∷ rows in
      scan_delete_chunks-marks chunks (mark_rows u name now m) p x
      ∙ ap (λ b. names_row p x (delivered chunks) || b) (mark_rows-marks name now m p x)
      ∙ or_swap (names_row p x (delivered chunks)) (names_row p x now) (is_marked m p x)
      ∙ sym (or_assoc (names_row p x now) (names_row p x (delivered chunks)) (is_marked m p x))
      ∙ ap (λ b. b || is_marked m p x) (sym (names_row-append p x now (delivered chunks)))
