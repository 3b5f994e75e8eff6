-- ===== src/Manifest/Deliver.antt =====
-- `ProduceEntries` appends the entries of the rows that it is given, which are in the
-- chunk, less those it passes over.
use mathlib.Core.List.{append_assoc, append-nil}
use duckdb_iceberg.Common.{
  ◌-◌, ◌≤◌, arith, ltb, false, ℕ, ◌≡◌, Bool, Option, none, some, List, [], ◌∷◌, ◌++◌, snoc, Result,
  ok, throw, if◌then◌else◌, Bool-cases, inl, inr, length, take, drop, filter_map, All, All-take,
  All-drop,
}
use duckdb_iceberg.Types.{IcebergManifest, IcebergManifestEntry}
use duckdb_iceberg.Duckdb.{StringUtil}
use duckdb_iceberg.Manifest.Chunk.{Row, DataChunk, ColumnIndex}
use duckdb_iceberg.Manifest.Produce.{
  ManifestReaderInput, produce_rows, slice_rows, skips_entry, EntryColumns, entry_columns,
  read_entry_v1, read_entry_v2, never, read_manifest_v1, read_manifest_v2, produce_manifest_v1,
  produce_manifest_v2, produce_entry_v1, produce_entry_v2, at,
}

slice_rows_lem :
    (chunk : DataChunk) (offset count : ℕ)
    → count ≤ length chunk - offset
    → slice_rows chunk offset count ≡ ok (take count (drop offset chunk))
unfolding slice_rows
slice_rows_lem chunk offset count within =
    let e : ltb (length chunk - offset) count ≡ false = ground arith in rw e

module _ {E : Type 0} (read : Row → Result E) (skips : E → Bool) where
  abbrev pub keep : Result E → Option E
  keep (ok e) = if skips e then none else some e
  keep (throw x) = none

  -- The entry that a row contributes.
  abbrev pub visible : Row → Option E
  visible row = keep (read row)

  -- The row can be read.
  abbrev pub IsReadable : Row → Type 0
  IsReadable row = (e : E) × (read row ≡ ok e)

  pub produce_rows_lem :
      (rows : List Row) (result : List E)
      → All IsReadable rows
      → produce_rows read skips rows result
        ≡ ok (length (filter_map visible rows), result ++ filter_map visible rows)
  unfolding produce_rows
  produce_rows_lem [] result h = rw append-nil
  produce_rows_lem (row ∷ rows) result ((e, q), h) = elim (Bool-cases (skips e)) [
    | inl skipped ↦ rw (q, skipped) (rw (produce_rows_lem rows result h))
    | inr kept ↦ rw (q, kept) (rw (produce_rows_lem rows (snoc result e) h) (rw append_assoc))
  ]

module _ (u : StringUtil) (input : ManifestReaderInput) (cols : EntryColumns) where
  -- If the columns are found and the rows can be read, the version 1 producer appends the entries of
  -- a slice inside the chunk that are not passed over, and answers how many.
  pub produce_entry_v1_appends :
      entry_columns u input.name_to_vec ≡ ok cols
      → (chunk : DataChunk) (offset count : ℕ) (result : List IcebergManifestEntry)
      → count ≤ length chunk - offset
      → All (IsReadable (read_entry_v1 cols) (skips_entry input.skip_deleted)) chunk
      → produce_entry_v1 u chunk offset count input result
        ≡ ok (
          length (
              filter_map
                (visible (read_entry_v1 cols) (skips_entry input.skip_deleted))
                (take count (drop offset chunk))),
          result
              ++ filter_map
                  (visible (read_entry_v1 cols) (skips_entry input.skip_deleted))
                  (take count (drop offset chunk)),
        )
  unfolding produce_entry_v1
  produce_entry_v1_appends found chunk offset count result within h =
      rw (found, slice_rows_lem chunk offset count within)
        (produce_rows_lem (read_entry_v1 cols) (skips_entry input.skip_deleted) _ result
          (All-take _ count _ (All-drop _ offset chunk h)))

  -- So does the version 2 producer, which also needs the child `content` of `data_file`.
  pub produce_entry_v2_appends :
      (content : ColumnIndex) (j : ℕ)
      → entry_columns u input.name_to_vec ≡ ok cols
      → at u input.name_to_vec "content" ≡ ok content
      → content.child ≡ some j
      → (chunk : DataChunk) (offset count : ℕ) (result : List IcebergManifestEntry)
      → count ≤ length chunk - offset
      → All (IsReadable (read_entry_v2 cols j) (skips_entry input.skip_deleted)) chunk
      → produce_entry_v2 u chunk offset count input result
        ≡ ok (
          length (
              filter_map
                (visible (read_entry_v2 cols j) (skips_entry input.skip_deleted))
                (take count (drop offset chunk))),
          result
              ++ filter_map
                  (visible (read_entry_v2 cols j) (skips_entry input.skip_deleted))
                  (take count (drop offset chunk)),
        )
  unfolding produce_entry_v2
  produce_entry_v2_appends content j found has_content is_child chunk offset count result within h =
      rw (found, has_content, is_child, slice_rows_lem chunk offset count within)
        (produce_rows_lem (read_entry_v2 cols j) (skips_entry input.skip_deleted) _ result
          (All-take _ count _ (All-drop _ offset chunk h)))

module _ (u : StringUtil) (input : ManifestReaderInput) where
  -- The version 1 producer of the manifest list appends an entry for every row of the slice, if the
  -- column is found and the rows can be read.
  pub produce_manifest_v1_appends :
      (path : ColumnIndex)
      → at u input.name_to_vec "manifest_path" ≡ ok path
      → (chunk : DataChunk) (offset count : ℕ) (result : List IcebergManifest)
      → count ≤ length chunk - offset
      → All (IsReadable (read_manifest_v1 path.primary) never) chunk
      → produce_manifest_v1 u chunk offset count input result
        ≡ ok (
          length (
              filter_map
                (visible (read_manifest_v1 path.primary) never)
                (take count (drop offset chunk))),
          result
              ++ filter_map
                  (visible (read_manifest_v1 path.primary) never)
                  (take count (drop offset chunk)),
        )
  unfolding produce_manifest_v1
  produce_manifest_v1_appends path found chunk offset count result within h =
      rw (found, slice_rows_lem chunk offset count within)
        (produce_rows_lem (read_manifest_v1 path.primary) never _ result
          (All-take _ count _ (All-drop _ offset chunk h)))

  -- So does the version 2 producer, with its three columns.
  pub produce_manifest_v2_appends :
      (path content number : ColumnIndex)
      → at u input.name_to_vec "manifest_path" ≡ ok path
      → at u input.name_to_vec "content" ≡ ok content
      → at u input.name_to_vec "sequence_number" ≡ ok number
      → (chunk : DataChunk) (offset count : ℕ) (result : List IcebergManifest)
      → count ≤ length chunk - offset
      → All (IsReadable (read_manifest_v2 path.primary content.primary number.primary) never) chunk
      → produce_manifest_v2 u chunk offset count input result
        ≡ ok (
          length (
              filter_map
                (visible (read_manifest_v2 path.primary content.primary number.primary) never)
                (take count (drop offset chunk))),
          result
              ++ filter_map
                  (visible (read_manifest_v2 path.primary content.primary number.primary) never)
                  (take count (drop offset chunk)),
        )
  unfolding produce_manifest_v2
  produce_manifest_v2_appends path content number found has_content has_number chunk offset count
        result within h =
      rw (found, has_content, has_number, slice_rows_lem chunk offset count within)
        (produce_rows_lem (read_manifest_v2 path.primary content.primary number.primary) never _
          result (All-take _ count _ (All-drop _ offset chunk h)))
