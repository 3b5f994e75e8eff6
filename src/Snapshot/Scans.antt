-- ===== src/Snapshot/Scans.antt =====
-- `ScanAvroMetadata` reads a file to its end.
use mathlib.Core.List.{Sublist}
use duckdb_iceberg.Common.{
  ◌+◌, ◌≤◌, ◌≡◌, ap, ◌∙◌, ◌⊎◌, inl, inr, false, String, Option, List, [], Result, ok, filter_map,
  arith,
}
use duckdb_iceberg.Duckdb.{ClientContext}
use duckdb_iceberg.Manifest.Chunk.{Row}
use duckdb_iceberg.Manifest.Produce.{ManifestReaderInput}
use duckdb_iceberg.Reader.{AvroScan, ManifestReader, initialize, new_reader, read_all, rows_left}
use duckdb_iceberg.Reader.Rounds.{Delivers}
use duckdb_iceberg.Reader.Rows.{pending, IsReading}
use duckdb_iceberg.Reader.Batches.{any_order, exact_order}
use duckdb_iceberg.Reader.Whole.{read_all-ReadsAll}
use duckdb_iceberg.Snapshot.Read.{AvroFormat, scan_avro_metadata, standard_vector_size}

module _ {E : Type 0} (context : ClientContext) (open_avro : String → Result AvroScan)
    (format : AvroFormat E) (path : String) (scan : AvroScan) (reader : ManifestReader)
    (decode : Row → Option E) (Good : Row → Type 0) (input : ManifestReaderInput)
    (delivers : Delivers decode format.produce_entries Good input) where
  from_reader :
      (es : List E) (after : ManifestReader)
      → open_avro path ≡ ok scan
      → initialize scan (new_reader format.populate_name_mapping format.verify_schema false)
        ≡ ok reader
      → read_all format.produce_entries (2 + rows_left reader) standard_vector_size reader []
        ≡ ok (after, es)
      → scan_avro_metadata context open_avro format path ≡ ok es
  unfolding scan_avro_metadata
  from_reader es after is_open begun read = rw (is_open, begun, read)

  -- A file that opens, with readable rows and a producer that appends their entries, is read to its
  -- end: the result is entries of the file, in their order and once.
  pub scan_avro_metadata_sound :
      open_avro path ≡ ok scan
      → initialize scan (new_reader format.populate_name_mapping format.verify_schema false)
        ≡ ok reader
      → IsReading Good input reader
      → reader.finished ≡ false
      → (es : List E) × (scan_avro_metadata context open_avro format path ≡ ok es)
        × Sublist es (filter_map decode (pending reader))
  scan_avro_metadata_sound is_open begun h more =
      let all =
        read_all-ReadsAll decode format.produce_entries Good input delivers standard_vector_size
          (omega arith) Sublist (λ n. Unit {0}) (any_order decode standard_vector_size)
          (2 + rows_left reader) reader [] h (inr (omega arith)) tt in
      (all.es, from_reader all.es all.after is_open begun all.returns, all.order)

  -- Under the same conditions, a file of at most STANDARD_VECTOR_SIZE rows is read in full.
  pub scan_avro_metadata_exact :
      open_avro path ≡ ok scan
      → initialize scan (new_reader format.populate_name_mapping format.verify_schema false)
        ≡ ok reader
      → IsReading Good input reader
      → reader.finished ≡ false
      → rows_left reader ≤ standard_vector_size
      → scan_avro_metadata context open_avro format path ≡ ok (filter_map decode (pending reader))
  scan_avro_metadata_exact is_open begun h more fits =
      let all =
        read_all-ReadsAll decode format.produce_entries Good input delivers standard_vector_size
          (omega arith) ◌≡◌ (λ m. (m ≤ standard_vector_size) ⊎ (standard_vector_size ≡ 1))
          (exact_order decode standard_vector_size) (2 + rows_left reader) reader [] h
          (inr (omega arith)) (inl fits) in
      from_reader all.es all.after is_open begun all.returns ∙ ap (λ es. ok es) all.order
