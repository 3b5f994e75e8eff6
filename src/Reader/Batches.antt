-- ===== src/Reader/Batches.antt =====
-- `ReadEntries` by the size of the batch that is asked for.
use mathlib.Core.List.{Sublist}
use mathlib.Core.List.Sublist
use duckdb_iceberg.Common.{
  ℕ, suc, ◌+◌, ◌≤◌, ◌≡◌, ◌≢◌, refl, ap, ◌∙◌, ◌⊎◌, inl, inr, Bool, false, true, Option, none, List,
  ◌++◌, arith, length, filter_map, ok,
}
use duckdb_iceberg.Manifest.Chunk.{Row}
use duckdb_iceberg.Manifest.Produce.{ManifestReaderInput, Producer}
use duckdb_iceberg.Reader.{ManifestReader, rows_left, read_loop, read_entries}
use duckdb_iceberg.Reader.Slices.{round_order, round_exact}
use duckdb_iceberg.Reader.Rounds.{Order, Delivers, Reads, read_loop-Reads}
use duckdb_iceberg.Reader.Rows.{pending, IsReading}

module _ {E : Type 0} (decode : Row → Option E) where
  pub any_order : (count : ℕ) → Order decode count Sublist (λ m. Unit {0})
  any_order count = record {
    rel_refl = λ xs. Sublist.refl xs;
    rel_trans = λ xs ys zs h k. Sublist.trans h k;
    rel_append = λ es xs ys h. Sublist.append (Sublist.refl es) h;
    rel_round = λ scanned o chunk later lt more fits.
        round_order decode o _ count chunk later (omega arith);
    fits_down = λ m n h u. u;
  }

  pub exact_order : (count : ℕ) → Order decode count ◌≡◌ (λ m. (m ≤ count) ⊎ (count ≡ 1))
  exact_order count = record {
    rel_refl = λ xs. refl;
    rel_trans = λ xs ys zs h k. h ∙ k;
    rel_append = λ es xs ys h. ap (λ zs. es ++ zs) h;
    rel_round = λ scanned o chunk later lt more fits.
        round_exact decode o _ count chunk later (omega arith) (omega arith);
    fits_down = λ m n h u. omega arith;
  }

-- What a batch of any size keeps, and what a batch of a single entry keeps.
abbrev pub Kept : {E : Type 0} → ℕ → List E → List E → Type 0
Kept count xs ys = Sublist xs ys × (count ≡ 1 → xs ≡ ys)

pub Kept-order :
    {E : Type 0} (decode : Row → Option E) (count : ℕ)
    → Order decode count (Kept count) (λ m. Unit {0})
Kept-order decode count = record {
  rel_refl = λ xs. (Sublist.refl xs, λ one. refl);
  rel_trans = λ xs ys zs h k. (Sublist.trans (h.0) (k.0), λ one. h.1 one ∙ k.1 one);
  rel_append =
      λ es xs ys h. (Sublist.append (Sublist.refl es) (h.0), λ one. ap (λ zs. es ++ zs) (h.1 one));
  rel_round = λ scanned o chunk later lt more fits. (
    round_order decode o _ count chunk later (omega arith),
    λ one. round_exact decode o _ count chunk later (omega arith) (omega arith),
  );
  fits_down = λ m n h u. u;
}

pub read_entries-eq-read_loop :
    {E : Type 0} (callback : Producer E) (count : ℕ) (r : ManifestReader) (result : List E)
    → r.scan ≢ none
    → r.finished ≡ false
    → read_entries callback count r result ≡ read_loop callback count (suc (rows_left r)) 0 r result
unfolding read_entries
read_entries-eq-read_loop callback count r result h f = ground arith

module _ {E : Type 0} (decode : Row → Option E) (callback : Producer E) (Good : Row → Type 0)
    (input : ManifestReaderInput) (delivers : Delivers decode callback Good input) (count : ℕ)
    (positive : 1 ≤ count) where
  pub read_entries-Reads :
      (Rel : List E → List E → Type 0) (Fits : ℕ → Type 0) (r : ManifestReader) (result : List E)
      → Order decode count Rel Fits
      → IsReading Good input r
      → r.finished ≡ false
      → Fits (rows_left r)
      → Reads decode Good input Rel count 0 r result (read_entries callback count r result)
  read_entries-Reads Rel Fits r result o h f fits =
      rw (read_entries-eq-read_loop callback count r result h.is_open f) (
        read_loop-Reads decode callback Good input Rel Fits count delivers o positive
          (suc (rows_left r)) 0 r result h f (omega arith) (o.fits_down _ _ (omega arith) fits))

  pub ended_or_full : {n : ℕ} (b : Bool) → (b ≡ false → count ≤ 0 + n) → (b ≡ true) ⊎ (count ≤ n)
  ended_or_full true h = inl refl
  ended_or_full false h = let q = h refl in inr (omega arith)

  -- For a callback that appends the entries of the rows it is given, a positive batch and a reader
  -- on readable rows that is not at its end, a call returns. It hands out entries that are pending,
  -- in their order and once: with those still pending they are a sublist of those pending before.
  -- If the scan has not ended, the batch is full.
  pub read_entries_sound :
      (r : ManifestReader) (result : List E)
      → IsReading Good input r
      → r.finished ≡ false
      → (r' : ManifestReader) × (es : List E) × (read_entries callback count r result
          ≡ ok (length es, r', result ++ es))
        × Sublist (es ++ filter_map decode (pending r')) (filter_map decode (pending r))
        × ((r'.finished ≡ true) ⊎ (count ≤ length es))
        × IsReading Good input r'
  read_entries_sound r result h f =
      let reads =
        read_entries-Reads Sublist (λ m. Unit {0}) r result (any_order decode count) h f tt in
      (
        reads.after,
        reads.es,
        reads.returns ∙ ap (λ (m : ℕ). ok (m, reads.after, result ++ reads.es)) (omega arith),
        reads.order,
        ended_or_full reads.after.finished reads.enough,
        reads.reading,
      )

  -- Under the same conditions, if the batch is a single entry or as long as the rows that are left,
  -- nothing is lost: the entries handed out and those still pending are those pending before.
  pub read_entries_exact :
      (r : ManifestReader) (result : List E)
      → IsReading Good input r
      → r.finished ≡ false
      → (rows_left r ≤ count) ⊎ (count ≡ 1)
      → (r' : ManifestReader) × (es : List E) × (read_entries callback count r result
          ≡ ok (length es, r', result ++ es))
        × (es ++ filter_map decode (pending r') ≡ filter_map decode (pending r))
        × ((r'.finished ≡ true) ⊎ (count ≤ length es))
        × IsReading Good input r'
  read_entries_exact r result h f fits =
      let reads =
        read_entries-Reads ◌≡◌ (λ m. (m ≤ count) ⊎ (count ≡ 1)) r result (exact_order decode count)
          h f fits in
      (
        reads.after,
        reads.es,
        reads.returns ∙ ap (λ (m : ℕ). ok (m, reads.after, result ++ reads.es)) (omega arith),
        reads.order,
        ended_or_full reads.after.finished reads.enough,
        reads.reading,
      )
