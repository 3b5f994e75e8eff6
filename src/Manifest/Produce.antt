-- ===== src/Manifest/Produce.antt =====
-- `ProduceEntries` of the four formats: resolve the columns, then turn `count` rows from `offset`
-- on into entries that are pushed onto the result. The number of entries pushed is returned.
use duckdb_iceberg.Common.{
  ℕ, suc, String, List, [], ◌∷◌, snoc, Bool, true, false, ◌&&◌, Result, ok, out_of_range,
  undefined_behaviour, ◌>>=◌, or_throw, if◌then◌else◌, take, drop, ltb, length, ◌-◌, throw,
}
use duckdb_iceberg.Types.{
  data_manifest, content_of_int, EntryStatusType, deleted, status_of_int, data_file,
  entry_content_of_int, IcebergManifest, IcebergManifestEntry,
}
use duckdb_iceberg.Duckdb.{StringUtil, ci_find}
use duckdb_iceberg.Manifest.Chunk.{
  Row, DataChunk, ColumnIndex, NameMap, leaf_str, leaf_int, column_of, child_of,
}

pub record ManifestReaderInput : Type 0 where
  pub name_to_vec : NameMap
  pub skip_deleted : Bool

abbrev pub Producer : Type 0 → Type 0
Producer E = DataChunk → ℕ → ℕ → ManifestReaderInput → List E → Result (ℕ × List E)

-- The loop: `skips` tells the entries that are passed over.
unfoldable pub produce_rows {ℓ} :
    {E : Type ℓ} → (Row → Result E) → (E → Bool) → List Row → List E → Result (ℕ × List E)
produce_rows read skips [] result = ok (0, result)
produce_rows read skips (row ∷ rows) result = do
  entry ← read row
  (n, result') ← produce_rows read skips rows (if skips entry then result else snoc result entry)
  ok (if skips entry then n else suc n, result')

-- The rows that the loop goes over: past the end of the chunk it reads what is no row.
unfoldable pub slice_rows : DataChunk → ℕ → ℕ → Result (List Row)
slice_rows chunk offset count =
    if ltb (length chunk - offset) count
    then throw undefined_behaviour
    else ok (take count (drop offset chunk))

abbrev pub is_deleted : EntryStatusType → Bool
is_deleted deleted = true
is_deleted _ = false

abbrev pub skips_entry : Bool → IcebergManifestEntry → Bool
skips_entry skip_deleted entry = skip_deleted && is_deleted entry.status

-- `GetChildIndex(0)`
abbrev pub child_index : ColumnIndex → Result ℕ
child_index c = or_throw c.child undefined_behaviour

-- The columns of a manifest entry: `status` at the top, the others in the struct `data_file`.
pub record EntryColumns : Type 0 where
  pub status : ℕ
  pub data_file : ℕ
  pub file_path : ℕ
  pub file_format : ℕ
  pub record_count : ℕ

unfoldable pub read_manifest_v1 : ℕ → Row → Result IcebergManifest
read_manifest_v1 manifest_path row = do
  path ← leaf_str (column_of manifest_path row)
  ok (record { manifest_path = path; sequence_number = 0; content = data_manifest })

unfoldable pub read_manifest_v2 : ℕ → ℕ → ℕ → Row → Result IcebergManifest
read_manifest_v2 manifest_path content sequence_number row = do
  path ← leaf_str (column_of manifest_path row)
  c ← leaf_int (column_of content row)
  n ← leaf_int (column_of sequence_number row)
  ok (record { manifest_path = path; sequence_number = n; content = content_of_int c })

unfoldable pub read_entry_v1 : EntryColumns → Row → Result IcebergManifestEntry
read_entry_v1 cols row = do
  s ← leaf_int (column_of cols.status row)
  path ← leaf_str (child_of cols.data_file cols.file_path row)
  format ← leaf_str (child_of cols.data_file cols.file_format row)
  n ← leaf_int (child_of cols.data_file cols.record_count row)
  ok (record {
    status = status_of_int s;
    content = data_file;
    file_path = path;
    file_format = format;
    record_count = n;
  })

unfoldable pub read_entry_v2 : EntryColumns → ℕ → Row → Result IcebergManifestEntry
unfolding read_entry_v1
read_entry_v2 cols content row = do
  s ← leaf_int (column_of cols.status row)
  c ← leaf_int (child_of cols.data_file content row)
  path ← leaf_str (child_of cols.data_file cols.file_path row)
  format ← leaf_str (child_of cols.data_file cols.file_format row)
  n ← leaf_int (child_of cols.data_file cols.record_count row)
  ok (record {
    status = status_of_int s;
    content = entry_content_of_int c;
    file_path = path;
    file_format = format;
    record_count = n;
  })

abbrev pub never {ℓ} : {E : Type ℓ} → E → Bool
never entry = false

module _ (u : StringUtil) where
  -- `name_to_vec.at(name)`
  abbrev pub at : NameMap → String → Result ColumnIndex
  at m name = or_throw (ci_find u m name) (out_of_range name)

  unfoldable pub produce_manifest_v1 : Producer IcebergManifest
  unfolding slice_rows produce_rows read_manifest_v1
  produce_manifest_v1 chunk offset count input result = do
    path ← at input.name_to_vec "manifest_path"
    rows ← slice_rows chunk offset count
    produce_rows (read_manifest_v1 path.primary) never rows result

  unfoldable pub produce_manifest_v2 : Producer IcebergManifest
  unfolding slice_rows produce_rows read_manifest_v2
  produce_manifest_v2 chunk offset count input result = do
    path ← at input.name_to_vec "manifest_path"
    content ← at input.name_to_vec "content"
    sequence_number ← at input.name_to_vec "sequence_number"
    rows ← slice_rows chunk offset count
    produce_rows (read_manifest_v2 path.primary content.primary sequence_number.primary) never rows
        result

  unfoldable pub entry_columns : NameMap → Result EntryColumns
  entry_columns m = do
    status ← at m "status"
    path ← at m "file_path"
    path_child ← child_index path
    format ← at m "file_format"
    format_child ← child_index format
    count ← at m "record_count"
    count_child ← child_index count
    ok (record {
      status = status.primary;
      data_file = path.primary;
      file_path = path_child;
      file_format = format_child;
      record_count = count_child;
    })

  unfoldable pub produce_entry_v1 : Producer IcebergManifestEntry
  unfolding slice_rows produce_rows read_entry_v1 entry_columns
  produce_entry_v1 chunk offset count input result = do
    cols ← entry_columns input.name_to_vec
    rows ← slice_rows chunk offset count
    produce_rows (read_entry_v1 cols) (skips_entry input.skip_deleted) rows result

  unfoldable pub produce_entry_v2 : Producer IcebergManifestEntry
  unfolding slice_rows produce_rows read_entry_v2 entry_columns
  produce_entry_v2 chunk offset count input result = do
    cols ← entry_columns input.name_to_vec
    content ← at input.name_to_vec "content"
    content_child ← child_index content
    rows ← slice_rows chunk offset count
    produce_rows (read_entry_v2 cols content_child) (skips_entry input.skip_deleted) rows result
