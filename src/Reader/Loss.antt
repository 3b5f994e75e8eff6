-- ===== src/Reader/Loss.antt =====
-- `offset += count` in `ReadEntries`: where a batch takes a second round, the offset runs past rows
-- that were not scanned.
use mathlib.Core.List.{append_assoc}
use duckdb_iceberg.Common.{
  ◌||◌, ℕ, suc, ◌+◌, ◌-◌, min, ◌<◌, ◌≡◌, refl, ap, ◌∙◌, false, true, Option, none, some, List, [],
  ◌∷◌, ◌++◌, arith, ltb, length, concat, drop-zero, drop, take, filter_map, All, ok,
}
use duckdb_iceberg.Manifest.Chunk.{Row, DataChunk}
use duckdb_iceberg.Manifest.Produce.{ManifestReaderInput, Producer}
use duckdb_iceberg.Reader.{AvroScan, ManifestReader, refill, rows_left, read_loop, read_entries}
use duckdb_iceberg.Reader.Batches.{read_entries-eq-read_loop}
use duckdb_iceberg.Reader.Rounds.{Delivers}
use duckdb_iceberg.Reader.Rows.{pending}

two-lt : (n : ℕ) → ltb 2 (suc (suc (suc (suc n)))) ≡ true
two-lt n = ground arith

module _ {E : Type 0} (decode : Row → Option E) (callback : Producer E) (Good : Row → Type 0)
    (input : ManifestReaderInput) (delivers : Delivers decode callback Good input) where
  module _ (count : ℕ) where
    loop_round :
        (fuel scanned n : ℕ) (r r' : ManifestReader) (result : List E)
        → scanned < count
        → refill r ≡ r'
        → r'.finished ≡ false
        → ◌≡◌ {A = ManifestReaderInput}
            (record { name_to_vec = r'.name_to_vec; skip_deleted = r'.skip_deleted })
            input
        → All Good r'.chunk
        → min (length r'.chunk - r'.offset) (count - scanned) ≡ n
        → read_loop callback count (suc fuel) scanned r result
          ≡ read_loop callback count fuel
              (scanned + length (filter_map decode (take n (drop r'.offset r'.chunk))))
              (record r' { offset = r'.offset + count })
              (result ++ filter_map decode (take n (drop r'.offset r'.chunk)))
    unfolding read_loop
    loop_round fuel scanned n r r' result lt e f same good size =
        let more : ltb scanned count ≡ true = ground arith in
        rw (more, e, f, same, size, delivers r'.chunk r'.offset n result (omega arith) good)

  module _ (r : ManifestReader) (scan : AvroScan) (a b c d : Row) (later : List Row)
      (cs : List DataChunk) where
    abbrev first_chunk : DataChunk
    first_chunk = a ∷ b ∷ c ∷ d ∷ later

    -- A reader of a file with more than three rows in its first chunk, as `Initialize` leaves it.
    abbrev pub opened : ManifestReader
    opened = record r {
      scan = some (record scan { chunks = first_chunk ∷ cs });
      chunk = [];
      offset = 0;
      finished = false;
    }

    -- The same, with the first chunk loaded and the offset at `o`.
    abbrev pub loaded : ℕ → ManifestReader
    loaded o = record r {
      scan = some (record scan { chunks = cs; finished = scan.finished || false });
      chunk = first_chunk;
      offset = o;
      finished = false;
    }

    -- A batch of two, for a callback that appends the entries of the rows it is given, on a new
    -- reader whose first chunk has four readable rows or more, of which the first is passed over
    -- and the next two are not: their entries are handed out, and the fourth row is neither handed
    -- out nor pending afterwards.
    pub read_entries_loses :
        (eb ec : E) (result : List E)
        → ◌≡◌ {A = ManifestReaderInput}
            (record { name_to_vec = r.name_to_vec; skip_deleted = r.skip_deleted })
            input
        → All Good first_chunk
        → decode a ≡ none
        → decode b ≡ some eb
        → decode c ≡ some ec
        → (read_entries callback 2 opened result ≡ ok (2, loaded 4, result ++ eb ∷ ec ∷ []))
          × (pending opened ≡ a ∷ b ∷ c ∷ d ∷ pending (loaded 4))
    unfolding refill read_loop
    read_entries_loses eb ec result same good da db dc =
        let k = length (later ++ concat cs) + 2 in
        let fuel : suc (rows_left opened) ≡ suc (suc (suc k)) = omega arith in
        let first : read_loop callback 2 (suc (suc (suc k))) 0 opened result
            ≡ read_loop callback 2 (suc (suc k)) 1 (loaded 2) (result ++ eb ∷ []) =
          rw (da, db) at
            (loop_round 2 (suc (suc k)) 0 2 opened (loaded 0) result (omega arith) refl refl same
              good (omega arith)) in
        let inside : ltb 2 (length first_chunk) ≡ true = two-lt (length later) in
        let within : refill (loaded 2) ≡ loaded 2 = rw inside in
        let second : read_loop callback 2 (suc (suc k)) 1 (loaded 2) (result ++ eb ∷ [])
            ≡ read_loop callback 2 (suc k) 2 (loaded 4) ((result ++ eb ∷ []) ++ ec ∷ []) =
          rw dc at (
            loop_round 2 (suc k) 1 1 (loaded 2) (loaded 2) (result ++ eb ∷ []) (omega arith) within
              refl same good (omega arith)) in
        (
          read_entries-eq-read_loop callback 2 opened result (λ p. cc) refl
              ∙ ap (λ (n : ℕ). read_loop callback 2 n 0 opened result) fuel
              ∙ first
              ∙ second
              ∙ rw append_assoc,
          rw (drop-zero later),
        )
