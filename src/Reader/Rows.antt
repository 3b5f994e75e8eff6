-- ===== src/Reader/Rows.antt =====
-- The rows that a reader has not handed out yet, and the step from one chunk to the next.
use mathlib.Core.Path.{subst}
use duckdb_iceberg.Common.{
  ◌∙◌, sym, ◌≤◌, ◌<◌, ◌≡◌, ◌≢◌, refl, ◌⊎◌, inl, inr, true, false, none, some, List, [], ◌∷◌, ◌++◌,
  arith, ltb, if◌then◌else◌, Bool-cases, Option-cases, length-append, length, concat, drop, All,
  drop_of_length-le,
}
use duckdb_iceberg.Manifest.Chunk.{Row, DataChunk}
use duckdb_iceberg.Manifest.Produce.{ManifestReaderInput}
use duckdb_iceberg.Reader.{
  AvroScan, ManifestReader, take_chunk, store_chunk, next_chunk, refill, chunks_of, rows_left,
  is_finished,
}

-- The rows of the chunks that will be delivered: an empty chunk is the end.
abbrev pub fresh_rows : List DataChunk → List Row
fresh_rows [] = []
fresh_rows ([] ∷ cs) = []
fresh_rows ((row ∷ c) ∷ cs) = row ∷ c ++ fresh_rows cs

-- The rows not handed out yet.
abbrev pub pending : ManifestReader → List Row
pending r = if r.finished then [] else drop r.offset r.chunk ++ fresh_rows (chunks_of r.scan)

-- The members that `Initialize` and `ReadEntries` leave as they are.
abbrev pub SameConfig : ManifestReader → ManifestReader → Type 0
SameConfig r r' =
    (r'.name_mapping ≡ r.name_mapping)
    × (r'.schema_validation ≡ r.schema_validation)
    × (r'.skip_deleted ≡ r.skip_deleted)

pub SameConfig-trans : (r s t : ManifestReader) → SameConfig r s → SameConfig s t → SameConfig r t
SameConfig-trans r s t (a, b, c) (d, e, f) = (d ∙ a, e ∙ b, f ∙ c)

module _ (Good : Row → Type 0) (input : ManifestReaderInput) where
  -- A reader between two calls: a scan is open, all its rows are readable.
  pub record IsReading (r : ManifestReader) : Type 0 where
    pub is_open : r.scan ≢ none
    pub good_chunk : All Good r.chunk
    pub good_rest : All (All Good) (chunks_of r.scan)
    pub same_map : r.name_to_vec ≡ input.name_to_vec
    pub same_skip : r.skip_deleted ≡ input.skip_deleted
    pub same_end : is_finished r ≡ r.finished

  -- What a refill of `r` to `r'` has done.
  pub record Refills (r r' : ManifestReader) : Type 0 where
    pub reading : IsReading r'
    pub fewer : rows_left r' ≤ rows_left r
    pub kept : SameConfig r r'
    pub rows :
        ((r'.finished ≡ false) × (r'.offset < length r'.chunk) × (pending r' ≡ pending r))
        ⊎ ((r'.finished ≡ true) × (pending r ≡ []))

  store_chunk-Refills :
      (r : ManifestReader) (scan : AvroScan) (cs : List DataChunk)
      → r.scan ≡ some scan
      → scan.chunks ≡ cs
      → IsReading r
      → r.finished ≡ false
      → length r.chunk ≤ r.offset
      → Refills r (store_chunk r (take_chunk scan cs))
  unfolding is_finished
  store_chunk-Refills r scan [] e k h f l =
      let used = drop_of_length-le r.offset r.chunk l in
      record {
        reading = record {
          is_open = λ p. cc;
          good_chunk = tt;
          good_rest = rw (k) tt;
          same_map = h.same_map;
          same_skip = h.same_skip;
          same_end = refl;
        };
        fewer = rw (e, k) (omega arith);
        kept = (refl, refl, refl);
        rows = inr (refl, rw (f, used, e, k) refl);
      }
  store_chunk-Refills r scan ([] ∷ cs) e k h f l =
      let used = drop_of_length-le r.offset r.chunk l in
      let good = rw (e, k) at h.good_rest in
      record {
        reading = record {
          is_open = λ p. cc;
          good_chunk = tt;
          good_rest = good.1;
          same_map = h.same_map;
          same_skip = h.same_skip;
          same_end = ground arith;
        };
        fewer = rw (e, k) (omega arith);
        kept = (refl, refl, refl);
        rows = inr (refl, rw (f, used, e, k) refl);
      }
  store_chunk-Refills r scan ((row ∷ c) ∷ cs) e k h f l =
      let used = drop_of_length-le r.offset r.chunk l in
      let good = rw (e, k) at h.good_rest in
      let open_end : scan.finished ≡ false = rw (e, f) at h.same_end in
      record {
        reading = record {
          is_open = λ p. cc;
          good_chunk = good.0;
          good_rest = good.1;
          same_map = h.same_map;
          same_skip = h.same_skip;
          same_end = ground arith;
        };
        fewer = rw (e, k) (omega (arith, length-append {0} (row ∷ c) (concat cs)));
        kept = (refl, refl, refl);
        rows = inl (refl, omega arith, rw (f, used, e, k) refl);
      }

  -- A refill moves to the next chunk if the chunk is used up. It ends the reading only if no row
  -- is pending, and changes no pending row.
  pub refill-Refills :
      (r : ManifestReader) → IsReading r → r.finished ≡ false → Refills r (refill r)
  unfolding refill
  refill-Refills r h f = elim (Bool-cases (ltb r.offset (length r.chunk))) [
    | inl more ↦ rw (more) (record {
      reading = h;
      fewer = omega arith;
      kept = (refl, refl, refl);
      rows = inl (f, ground arith, refl);
    })
    | inr used ↦ rw (used) (elim (Option-cases r.scan) [
      | inl closed ↦ absurd (h.is_open closed)
      | inr (scan, e) ↦
          subst (λ s. Refills r (next_chunk r s)) (sym e)
            (store_chunk-Refills r scan scan.chunks e refl h f (ground arith))
    ])
  ]
