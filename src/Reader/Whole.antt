-- ===== src/Reader/Whole.antt =====
-- Reading a whole file, in batches: `while (!manifest_reader.Finished())`.
use mathlib.Core.List.{append_assoc, append-nil}
use duckdb_iceberg.Common.{
  ℕ, zero, suc, ◌+◌, ◌≤◌, ◌≡◌, ap, ◌∙◌, ◌⊎◌, inl, inr, true, false, Option, List, [], ◌++◌, Result,
  ok, ◌>>=◌, filter_map, Bool-cases, arith,
}
use duckdb_iceberg.Manifest.Chunk.{Row}
use duckdb_iceberg.Manifest.Produce.{ManifestReaderInput, Producer}
use duckdb_iceberg.Reader.{ManifestReader, is_finished, read_all, rows_left}
use duckdb_iceberg.Reader.Rounds.{Order, Delivers, Reads}
use duckdb_iceberg.Reader.Rows.{pending, IsReading}
use duckdb_iceberg.Reader.Batches.{read_entries-Reads}

module _ {E : Type 0} (decode : Row → Option E) (callback : Producer E) (Good : Row → Type 0)
    (input : ManifestReaderInput) (delivers : Delivers decode callback Good input) (batch : ℕ)
    (positive : 1 ≤ batch) (Rel : List E → List E → Type 0) (Fits : ℕ → Type 0)
    (o : Order decode batch Rel Fits) where
  -- The reading of the rest of a file: `es` are the entries found, of those that were pending.
  pub record ReadsAll (r : ManifestReader) (result : List E)
      (outcome : Result (ManifestReader × List E)) : Type 0 where
    pub after : ManifestReader
    pub es : List E
    pub returns : outcome ≡ ok (after, result ++ es)
    pub order : Rel es (filter_map decode (pending r))
    pub ended : is_finished after ≡ true

  -- Rounds enough: one at the end, or two more than the rows that are left.
  abbrev Fueled : ℕ → ManifestReader → Type 0
  Fueled fuel r = ((r.finished ≡ true) × (1 ≤ fuel)) ⊎ (rows_left r + 2 ≤ fuel)

  at_end :
      (r : ManifestReader) (result : List E)
      → r.finished ≡ true
      → is_finished r ≡ true
      → ReadsAll r result (ok (r, result))
  at_end r result f e = record {
    after = r;
    es = [];
    returns = rw append-nil;
    order = rw f (o.rel_refl []);
    ended = e;
  }

  -- A batch, and then the rest.
  batch-ReadsAll :
      (r : ManifestReader) (result : List E) (outcome : Result (ℕ × ManifestReader × List E))
      (rest : ManifestReader → List E → Result (ManifestReader × List E))
      (reads : Reads decode Good input Rel batch 0 r result outcome)
      → ReadsAll reads.after (result ++ reads.es) (rest reads.after (result ++ reads.es))
      → ReadsAll r result (outcome >>= λ out. rest (out.1) (out.2))
  batch-ReadsAll r result outcome rest reads ih = record {
    after = ih.after;
    es = reads.es ++ ih.es;
    returns =
        ap (λ m. m >>= λ out. rest (out.1) (out.2)) reads.returns ∙ ih.returns ∙ rw append_assoc;
    order = o.rel_trans _ _ _ (o.rel_append reads.es _ _ ih.order) reads.order;
    ended = ih.ended;
  }

  pub read_all-ReadsAll :
      (fuel : ℕ) (r : ManifestReader) (result : List E)
      → IsReading Good input r
      → Fueled fuel r
      → Fits (rows_left r)
      → ReadsAll r result (read_all callback fuel batch r result)
  unfolding read_all
  read_all-ReadsAll zero r result h fueled fits = absurd (omega arith)
  read_all-ReadsAll (suc fuel) r result h fueled fits = elim (Bool-cases r.finished) [
    | inl over ↦ rw (h.same_end ∙ over) (at_end r result over (h.same_end ∙ over))
    | inr more ↦
        let reads =
          read_entries-Reads decode callback Good input delivers batch positive Rel Fits r result o
            h more fits in
        let few = reads.shrinks in
        let bound : rows_left r + 2 ≤ suc fuel = fueled_more r fuel more fueled in
        let fueled' : Fueled fuel reads.after = elim (Bool-cases reads.after.finished) [
          | inl ended ↦ inl (ended, omega arith)
          | inr goes ↦ inr (let n = reads.enough goes in omega (arith, n, few))
        ] in
        rw (h.same_end ∙ more) (
          batch-ReadsAll r result _ (read_all callback fuel batch) reads (
            read_all-ReadsAll fuel reads.after (result ++ reads.es) reads.reading fueled'
              (o.fits_down _ _ (omega (arith, few)) fits)))
  ]
    where
      fueled_more :
          (r : ManifestReader) (fuel : ℕ)
          → r.finished ≡ false
          → Fueled (suc fuel) r
          → rows_left r + 2 ≤ suc fuel
      fueled_more r fuel more (inl (over, n)) = cc
      fueled_more r fuel more (inr bound) = bound
