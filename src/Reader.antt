-- ===== src/Reader.antt =====
-- src/manifest_reader.cpp and the scan of src/iceberg_manifest.cpp: a reader that hands out the
-- rows of an Avro file in batches. The file is the list of chunks that `read_avro` will deliver.
pub mod Rows
mod Slices
pub mod Rounds
pub mod Batches
pub mod Loss
pub mod Whole
use duckdb_iceberg.Common.{
  ℕ, zero, suc, ◌+◌, ◌-◌, min, String, Bool, true, false, not, ◌||◌, Option, none, some, List, [],
  ◌∷◌, Result, ok, throw, out_of_fuel, invalid_input, ◌>>=◌, ◌>>◌, throw_if, ltb, if◌then◌else◌,
  length, concat, is_empty, drop,
}
use duckdb_iceberg.Manifest.Chunk.{DataChunk, ColumnType, NameMap}
use duckdb_iceberg.Manifest.Produce.{Producer}

pub record AvroScan : Type 0 where
  pub returns : List (ColumnType × String)
  pub chunks : List DataChunk
  pub finished : Bool

abbrev take_chunk : AvroScan → List DataChunk → AvroScan × DataChunk
take_chunk scan [] = (record scan { finished = true }, [])
take_chunk scan (c ∷ cs) = (record scan { chunks = cs; finished = scan.finished || is_empty c }, c)

-- `AvroScan::GetNext`: the next chunk, empty at the end.
unfoldable pub get_next : AvroScan → AvroScan × DataChunk
get_next scan = take_chunk scan scan.chunks

pub record ManifestReader : Type 0 where
  pub scan : Option AvroScan
  pub chunk : DataChunk
  pub offset : ℕ
  pub finished : Bool
  pub name_to_vec : NameMap
  pub name_mapping : ℕ → ColumnType → String → NameMap → Result NameMap
  pub schema_validation : NameMap → Bool
  pub skip_deleted : Bool

-- The constructor, with the initial values of the members.
unfoldable pub new_reader :
    (ℕ → ColumnType → String → NameMap → Result NameMap) → (NameMap → Bool) → Bool → ManifestReader
new_reader mapping validation skip_deleted = record {
  scan = none;
  chunk = [];
  offset = 0;
  finished = true;
  name_to_vec = [];
  name_mapping = mapping;
  schema_validation = validation;
  skip_deleted = skip_deleted;
}

-- The loop of `Initialize` over the columns, from column `i` on.
unfoldable pub map_columns :
    (ℕ → ColumnType → String → NameMap → Result NameMap)
    → ℕ
    → List (ColumnType × String)
    → NameMap
    → Result NameMap
map_columns mapping i [] m = ok m
map_columns mapping i ((type, name) ∷ rest) m = do
  m' ← mapping i type name m
  map_columns mapping (suc i) rest m'

-- The chunk is empty afterwards: it is new, or it is reset. A chunk is its rows here; the types of
-- its columns, which stay those of the first scan, are left to DuckDB.
unfoldable pub initialize : AvroScan → ManifestReader → Result ManifestReader
unfolding map_columns
initialize scan r = do
  m ← map_columns r.name_mapping 0 scan.returns []
  throw_if (not (r.schema_validation m))
      (invalid_input "Invalid schema detected in a manifest/manifest entry")
  ok (record r { scan = some scan; chunk = []; offset = 0; finished = false; name_to_vec = m })

abbrev store_chunk : ManifestReader → AvroScan × DataChunk → ManifestReader
store_chunk r (scan, chunk) = record r {
  scan = some scan;
  chunk = chunk;
  offset = if is_empty chunk then r.offset else 0;
  finished = is_empty chunk;
}

abbrev next_chunk : ManifestReader → Option AvroScan → ManifestReader
next_chunk r none = r
next_chunk r (some scan) = store_chunk r (get_next scan)

-- The head of a round: a chunk that is used up is replaced by the next.
unfoldable pub refill : ManifestReader → ManifestReader
unfolding get_next
refill r = if ltb r.offset (length r.chunk) then r else next_chunk r r.scan

module _ {E : Type 0} (callback : Producer E) (count : ℕ) where
  -- `while (scanned < count)`. The offset grows by `count`, whatever was scanned.
  unfoldable pub read_loop : ℕ → ℕ → ManifestReader → List E → Result (ℕ × ManifestReader × List E)
  read_loop zero scanned r result = throw out_of_fuel
  read_loop (suc fuel) scanned r result =
      let r' = refill r in
      let rest =
        callback r'.chunk r'.offset (min (length r'.chunk - r'.offset) (count - scanned))
          (record { name_to_vec = r'.name_to_vec; skip_deleted = r'.skip_deleted }) result
        >>= λ out.
            read_loop fuel (scanned + out.0) (record r' { offset = r'.offset + count }) out.1 in
      if ltb scanned count
      then (if r'.finished then ok (scanned, r', result) else rest)
      else ok (scanned, r, result)

abbrev pub chunks_of : Option AvroScan → List DataChunk
chunks_of none = []
chunks_of (some scan) = scan.chunks

-- One round more than the rows that are left: each round but the last uses up a row.
abbrev pub rows_left : ManifestReader → ℕ
rows_left r = length (drop r.offset r.chunk) + length (concat (chunks_of r.scan))

unfoldable pub read_entries :
    {E : Type 0} → Producer E → ℕ → ManifestReader → List E → Result (ℕ × ManifestReader × List E)
read_entries callback count r result =
    let entries = read_loop callback count (suc (rows_left r)) 0 r result in
    elim r.scan [
      | none ↦ ok (0, r, result)
      | some scan ↦ if r.finished then ok (0, r, result) else entries
    ]

unfoldable pub is_finished : ManifestReader → Bool
is_finished r = elim r.scan [ none ↦ true | some scan ↦ scan.finished ]

module _ {E : Type 0} (produce : Producer E) where
  -- `while (!manifest_reader.Finished())`, reading in batches of STANDARD_VECTOR_SIZE.
  unfoldable pub read_all : ℕ → ℕ → ManifestReader → List E → Result (ManifestReader × List E)
  read_all zero batch r result = throw out_of_fuel
  read_all (suc fuel) batch r result =
      let rest =
        read_entries produce batch r result >>= λ out. read_all fuel batch (out.1) (out.2) in
      if is_finished r then ok (r, result) else rest
