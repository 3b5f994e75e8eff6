-- ===== src/Manifest/Verify.antt =====
-- What `VerifySchema` guarantees to `ProduceEntries`: the columns that `name_to_vec.at` looks up.
use duckdb_iceberg.Common.{
  ◌>>=◌, ℕ, ◌≡◌, inl, inr, true, false, List, ok, throw, out_of_range, String, arith, Option-cases,
}
use duckdb_iceberg.Types.{IcebergManifest}
use duckdb_iceberg.Duckdb.{StringUtil, ci_find}
use duckdb_iceberg.Manifest.Chunk.{DataChunk, ColumnIndex, NameMap}
use duckdb_iceberg.Manifest.Mapping.{count, verify_manifest_v1, verify_manifest_v2, verify_entry_v1}
use duckdb_iceberg.Manifest.Produce.{
  ManifestReaderInput, at, entry_columns, produce_manifest_v1, produce_manifest_v2, produce_rows,
  slice_rows, read_manifest_v1, never,
}

module _ (u : StringUtil) where
  at_of_count :
      (m : NameMap) (name : String)
      → count u m name ≡ true
      → (c : ColumnIndex) × (at u m name ≡ ok c)
  at_of_count m name h = elim (Option-cases (ci_find u m name)) [
    | inl missing ↦ cc
    | inr (c, found) ↦ (c, rw found)
  ]

  at_of_no_count :
      (m : NameMap) (name : String)
      → count u m name ≡ false
      → at u m name ≡ throw (out_of_range name)
  at_of_no_count m name h = elim (Option-cases (ci_find u m name)) [
    | inl missing ↦ rw missing
    | inr (c, found) ↦ cc
  ]

  -- A verified version 1 manifest list is turned into manifests by its column `manifest_path`.
  pub verify_manifest_v1-produce :
      (chunk : DataChunk) (offset n : ℕ) (input : ManifestReaderInput)
      (result : List IcebergManifest)
      → verify_manifest_v1 u input.name_to_vec ≡ true
      → (path : ColumnIndex) × (produce_manifest_v1 u chunk offset n input result ≡ (
          slice_rows chunk offset n >>= λ rows.
          produce_rows (read_manifest_v1 path.primary) never rows result))
  unfolding verify_manifest_v1 produce_manifest_v1
  verify_manifest_v1-produce chunk offset n input result h =
      let (path, found) = at_of_count input.name_to_vec "manifest_path" h in (path, rw found)

  -- A version 2 manifest list passes `VerifySchema` without the column `sequence_number`, and every
  -- call of `ProduceEntries` on it then throws `out_of_range`, whatever the chunk.
  pub verify_manifest_v2-out_of_range :
      (chunk : DataChunk) (offset n : ℕ) (input : ManifestReaderInput)
      (result : List IcebergManifest)
      → verify_manifest_v2 u input.name_to_vec ≡ true
      → count u input.name_to_vec "sequence_number" ≡ false
      → produce_manifest_v2 u chunk offset n input result ≡ throw (out_of_range "sequence_number")
  unfolding verify_manifest_v2 verify_manifest_v1 produce_manifest_v2
  verify_manifest_v2-out_of_range chunk offset n input result h missing =
      let (path, p) = at_of_count input.name_to_vec "manifest_path" (ground arith) in
      let (content, c) = at_of_count input.name_to_vec "content" (ground arith) in
      rw (p, c, at_of_no_count input.name_to_vec "sequence_number" missing)

  -- After `VerifySchema` the columns of a manifest entry are found, or one of those that should
  -- lie in the struct `data_file` is a column of its own. No lookup throws `out_of_range`.
  pub verify_entry_v1-columns :
      (m : NameMap) (name : String)
      → verify_entry_v1 u m ≡ true
      → ¬ (entry_columns u m ≡ throw (out_of_range name))
  unfolding verify_entry_v1 entry_columns
  verify_entry_v1-columns m name h = ground arith
