-- ===== src/Reader/Rounds.antt =====
-- What a call of `ReadEntries` hands out, for a callback that appends the entries of the rows.
use mathlib.Core.List.{append_assoc, append-nil}
use duckdb_iceberg.Common.{
  refl, ℕ, zero, suc, ◌+◌, ◌-◌, min, ◌≤◌, ◌<◌, ◌≡◌, ap, ◌∙◌, inl, inr, false, Option, List, [],
  ◌++◌, arith, ltb, if◌then◌else◌, Bool-cases, if-true, if-false, length-append, length-drop,
  length, drop, take, filter_map, length-filter_map-take, All, Result, ok, ◌>>=◌,
}
use duckdb_iceberg.Manifest.Chunk.{Row, DataChunk}
use duckdb_iceberg.Manifest.Produce.{ManifestReaderInput, Producer}
use duckdb_iceberg.Reader.{ManifestReader, refill, chunks_of, rows_left, is_finished, read_loop}
use duckdb_iceberg.Reader.Rows.{
  fresh_rows, pending, IsReading, Refills, refill-Refills, SameConfig, SameConfig-trans,
}

module _ {E : Type 0} (decode : Row → Option E) where
  -- How the entries handed out, with those still pending, may relate to those pending before.
  -- `Fits` bounds the entries scanned and the rows left, in the calls that the relation covers.
  pub record Order (count : ℕ) (Rel : List E → List E → Type 0) (Fits : ℕ → Type 0) : Type 0 where
    pub rel_refl : (xs : List E) → Rel xs xs
    pub rel_trans : (xs ys zs : List E) → Rel xs ys → Rel ys zs → Rel xs zs
    pub rel_append : (es xs ys : List E) → Rel xs ys → Rel (es ++ xs) (es ++ ys)
    pub rel_round :
        (scanned o : ℕ) (chunk later : List Row)
        → o < length chunk
        → scanned < count
        → Fits (scanned + (length chunk - o))
        → Rel
            (filter_map decode (take (min (length chunk - o) (count - scanned)) (drop o chunk))
              ++ filter_map decode (drop (o + count) chunk ++ later))
            (filter_map decode (drop o chunk ++ later))
    pub fits_down : (m n : ℕ) → m ≤ n → Fits n → Fits m

  module _ (callback : Producer E) (Good : Row → Type 0) (input : ManifestReaderInput) where
    -- The callback appends the entries of the slice that it is given, if that ends inside the chunk,
    -- and counts them. A row for which `decode` is `none` is passed over.
    abbrev pub Delivers : Type 0
    Delivers =
        (chunk : DataChunk) (offset count : ℕ) (result : List E)
        → count ≤ length chunk - offset
        → All Good chunk
        → callback chunk offset count input result
          ≡ ok (
            length (filter_map decode (take count (drop offset chunk))),
            result ++ filter_map decode (take count (drop offset chunk)),
          )

  module _ (Good : Row → Type 0) (input : ManifestReaderInput)
      (Rel : List E → List E → Type 0) where
    -- A successful call: `es` are the entries handed out, of those that were pending in `r`.
    pub record Reads (count scanned : ℕ) (r : ManifestReader) (result : List E)
        (outcome : Result (ℕ × ManifestReader × List E)) : Type 0 where
      pub after : ManifestReader
      pub es : List E
      pub returns : outcome ≡ ok (scanned + length es, after, result ++ es)
      pub reading : IsReading Good input after
      pub kept : SameConfig r after
      pub shrinks : rows_left after + length es ≤ rows_left r
      pub order : Rel (es ++ filter_map decode (pending after)) (filter_map decode (pending r))
      pub enough : after.finished ≡ false → count ≤ scanned + length es

move-IsReading :
    {Good : Row → Type 0} {input : ManifestReaderInput} (r : ManifestReader) (k : ℕ)
    → IsReading Good input r
    → IsReading Good input (record r { offset = k })
unfolding is_finished
move-IsReading r k h = record {
  is_open = h.is_open;
  good_chunk = h.good_chunk;
  good_rest = h.good_rest;
  same_map = h.same_map;
  same_skip = h.same_skip;
  same_end = h.same_end;
}

module _ {E : Type 0} (decode : Row → Option E) (callback : Producer E) (Good : Row → Type 0)
    (input : ManifestReaderInput) (Rel : List E → List E → Type 0) (Fits : ℕ → Type 0) (count : ℕ)
    (delivers : Delivers decode callback Good input) (o : Order decode count Rel Fits)
    (positive : 1 ≤ count) where
  -- The rest of a loop from every reader with fewer rows left than `r`.
  abbrev Rest :
      ManifestReader
      → ℕ
      → (ℕ → ManifestReader → List E → Result (ℕ × ManifestReader × List E))
      → Type 0
  Rest r scanned rest =
      (n : ℕ) (next : ManifestReader) (result : List E)
      → IsReading Good input next
      → next.finished ≡ false
      → rows_left next < rows_left r
      → n + rows_left next ≤ scanned + rows_left r
      → Reads decode Good input Rel count n next result (rest n next result)

  abbrev call :
      (ℕ → ManifestReader → List E → Result (ℕ × ManifestReader × List E))
      → ℕ
      → ManifestReader
      → List E
      → Result (ℕ × ManifestReader × List E)
  call rest scanned r result =
      callback r.chunk r.offset (min (length r.chunk - r.offset) (count - scanned))
        (record { name_to_vec = r.name_to_vec; skip_deleted = r.skip_deleted }) result
      >>= λ out. rest (scanned + out.0) (record r { offset = r.offset + count }) out.1

  -- One round, from a reader that has been refilled, and then the rest of the loop.
  round-Reads :
      (scanned : ℕ) (r : ManifestReader) (result : List E)
      (rest : ℕ → ManifestReader → List E → Result (ℕ × ManifestReader × List E))
      → IsReading Good input r
      → r.finished ≡ false
      → r.offset < length r.chunk
      → scanned < count
      → Fits (scanned + rows_left r)
      → Rest r scanned rest
      → Reads decode Good input Rel count scanned r result (call rest scanned r result)
  round-Reads scanned r result rest h f lt more fits go =
      let n = min (length r.chunk - r.offset) (count - scanned) in
      let es = filter_map decode (take n (drop r.offset r.chunk)) in
      let moved = record r { offset = r.offset + count } in
      let called = delivers r.chunk r.offset n result (omega arith) h.good_chunk in
      let same : ◌≡◌ {A = ManifestReaderInput}
          (record { name_to_vec = r.name_to_vec; skip_deleted = r.skip_deleted }) input =
        λ i. record { name_to_vec = h.same_map i; skip_deleted = h.same_skip i } in
      let here = length-drop {0} r.offset r.chunk in
      let there = length-drop {0} (r.offset + count) r.chunk in
      let few = length-filter_map-take decode n (drop r.offset r.chunk) in
      let ih =
        go (scanned + length es) moved (result ++ es) (move-IsReading r (r.offset + count) h) f
          (omega (arith, here, there)) (omega (arith, here, there, few)) in
      let order =
        o.rel_round scanned r.offset r.chunk (fresh_rows (chunks_of r.scan)) lt more
          (o.fits_down _ _ (omega (arith, here)) fits) in
      record {
        after = ih.after;
        es = es ++ ih.es;
        returns =
            rw (same, called)
              (rw (ih.returns, append_assoc)
                (ap (λ (m : ℕ). ok (m, ih.after, result ++ (es ++ ih.es)))
                  (omega (arith, length-append {0} es ih.es))));
        reading = ih.reading;
        kept = ih.kept;
        shrinks = let s = ih.shrinks in omega (arith, here, there, few, length-append {0} es ih.es);
        order = rw append_assoc (o.rel_trans _ _ _ (o.rel_append es _ _ ih.order) (rw f order));
        enough = λ e. omega (arith, ih.enough e, length-append {0} es ih.es);
      }

  refilled-Reads :
      (scanned : ℕ) (r r' : ManifestReader) (result : List E)
      (rest : ℕ → ManifestReader → List E → Result (ℕ × ManifestReader × List E))
      → Refills Good input r r'
      → scanned < count
      → Fits (scanned + rows_left r)
      → Rest r' scanned rest
      → Reads decode Good input Rel count scanned r result
          (if r'.finished then ok (scanned, r', result) else call rest scanned r' result)
  refilled-Reads scanned r r' result rest refills more fits go = elim refills.rows [
    | inl (f, lt, same) ↦
        let fits' = o.fits_down _ _ (let fewer = refills.fewer in omega arith) fits in
        let reads = round-Reads scanned r' result rest refills.reading f lt more fits' go in
        record {
          after = reads.after;
          es = reads.es;
          returns = if-false _ _ f ∙ reads.returns;
          reading = reads.reading;
          kept = SameConfig-trans r r' reads.after refills.kept reads.kept;
          shrinks = let s = reads.shrinks in let t = refills.fewer in omega arith;
          order = rw (← same) reads.order;
          enough = reads.enough;
        }
    | inr (f, none_pending) ↦ record {
      after = r';
      es = [];
      returns = if-true _ _ f ∙ rw append-nil (ap (λ (m : ℕ). ok (m, r', result)) (omega arith));
      reading = refills.reading;
      kept = refills.kept;
      shrinks = let t = refills.fewer in omega arith;
      order = rw (none_pending, f) (o.rel_refl []);
      enough = λ e. cc;
    }
  ]

  -- With a round more than the rows left, the loop ends, and hands out entries in order.
  pub read_loop-Reads :
      (fuel scanned : ℕ) (r : ManifestReader) (result : List E)
      → IsReading Good input r
      → r.finished ≡ false
      → rows_left r < fuel
      → Fits (scanned + rows_left r)
      → Reads decode Good input Rel count scanned r result
          (read_loop callback count fuel scanned r result)
  unfolding read_loop
  read_loop-Reads zero scanned r result h f m fits = absurd (omega arith)
  read_loop-Reads (suc fuel) scanned r result h f m fits =
      let refills = refill-Refills Good input r h f in
      elim (Bool-cases (ltb scanned count)) [
        | inl more ↦ rw more (
            refilled-Reads scanned r (refill r) result (read_loop callback count fuel) refills
              (ground arith) fits
              (λ n next result' h' f' m' k.
                let fewer = refills.fewer in
                read_loop-Reads fuel n next result' h' f' (omega arith)
                  (o.fits_down _ _ (omega arith) fits)))
        | inr done ↦ rw done (record {
          after = r;
          es = [];
          returns = rw append-nil (ap (λ (m : ℕ). ok (m, r, result)) (omega arith));
          reading = h;
          kept = (refl, refl, refl);
          shrinks = omega arith;
          order = o.rel_refl _;
          enough = λ e. ground arith;
        })
      ]
