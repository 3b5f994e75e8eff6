-- ===== src/Functions/Range.antt =====
-- How many rows a call of `iceberg_metadata` puts out, and where its position stands.
use mathlib.Core.Path.{subst}
use duckdb_iceberg.Common.{
  length-map_result, drop-suc, length-take, below_length, ℕ, suc, ◌+◌, ◌≤◌, ◌<◌, ◌≡◌, refl, sym, ap,
  ◌∙◌, none, some, List, [], ◌∷◌, Result, ok, >>=-eq-ok, leb, Bool-cases, inl, inr, length, take,
  drop, map_result, arith, min, if-true, if-false, length-drop, Option,
}
use duckdb_iceberg.Types.{IcebergManifest, IcebergManifestEntry, IcebergTableEntry}
use duckdb_iceberg.Functions.Metadata.{
  MetadataState, entries_loop, after_entries, manifests_loop, metadata_function,
}
use duckdb_iceberg.Functions.Cursor.{remaining, listed_row, metadata_function_refines}

-- The entries of the manifest that a scan stands at.
abbrev pub width : List IcebergTableEntry → ℕ
width [] = 0
width (table_entry ∷ manifests) = length table_entry.manifest_entries

-- A position within the table: its manifest or the end, and within that manifest.
pub record IsInRange (table : List IcebergTableEntry) (state : MetadataState) : Type 0 where
  pub manifest_in : state.current_manifest_idx ≤ length table
  pub entry_in : state.current_manifest_entry_idx ≤ width (drop state.current_manifest_idx table)

module _ {R : Type 0} (size : ℕ) where
  entries_loop-stop :
      (f : IcebergManifestEntry → Result R) (out e : ℕ) (xs : List IcebergManifestEntry)
      {rows : List R} {stop : ℕ}
      → entries_loop size f out e xs ≡ ok (rows, some stop)
      → stop < e + length xs
  unfolding entries_loop
  entries_loop-stop f out e [] h = cc
  entries_loop-stop f out e (x ∷ xs) {rows} {stop} h = elim (Bool-cases (leb size out)) [
    | inl full ↦
        let k : ◌≡◌ {A = Result (List R × Option ℕ)} (ok ([], some e)) (ok (rows, some stop)) =
          sym (if-true _ _ full) ∙ h in
        let j : e ≡ stop = cc in omega arith
    | inr fits ↦
        let (row, r, h') = >>=-eq-ok (f x) _ (sym (if-false _ _ fits) ∙ h) in
        let (tail, l, h'') = >>=-eq-ok (entries_loop size f (suc out) (suc e) xs) _ h' in
        let k : tail.1 ≡ some stop = cc in
        let j : tail ≡ (tail.0, some stop) = ap (λ o. (tail.0, o)) k in
        omega (arith, entries_loop-stop f (suc out) (suc e) xs (l ∙ ap ok j))
  ]

module _ {R : Type 0} (row : IcebergManifest → IcebergManifestEntry → Result R) (size : ℕ)
    (table : List IcebergTableEntry) where
  -- Whether the inner loop ran to its end or found the output full.
  after_entries-IsInRange :
      (next : ℕ → Result (List R × MetadataState)) (m : ℕ) (written : List R) (stop : Option ℕ)
      {rows : List R} {after : MetadataState}
      → m ≤ length table
      → after_entries size next m (written, stop) ≡ ok (rows, after)
      → ((last : ℕ) → stop ≡ some last → last ≤ width (drop m table))
      → ((n : ℕ) (rest : List R × MetadataState) → next n ≡ ok rest → IsInRange table rest.1)
      → IsInRange table after
  unfolding after_entries
  after_entries-IsInRange next m written (some last) {rows} {after} hm h full below =
      let k : record { current_manifest_idx = m; current_manifest_entry_idx = last } ≡ after = cc in
      subst (IsInRange table) k (record { manifest_in = hm; entry_in = full last refl })
  after_entries-IsInRange next m written none {rows} {after} hm h full below =
      let (rest, g, done) = >>=-eq-ok (next (length written)) _ h in
      let k : rest.1 ≡ after = cc in subst (IsInRange table) k (below (length written) rest g)

  manifests_loop-IsInRange :
      (ts : List IcebergTableEntry) (out m e : ℕ) {rows : List R} {after : MetadataState}
      → drop m table ≡ ts
      → m ≤ length table
      → e ≤ width ts
      → manifests_loop size row out m e ts ≡ ok (rows, after)
      → IsInRange table after
  unfolding manifests_loop
  manifests_loop-IsInRange [] out m e {rows} {after} at hm he h =
      let k : record { current_manifest_idx = m; current_manifest_entry_idx = e } ≡ after = cc in
      subst (IsInRange table) k (record { manifest_in = hm; entry_in = rw at he })
  manifests_loop-IsInRange (t ∷ ts) out m e {rows} {after} at hm he h =
      let (inner, i, h') =
        >>=-eq-ok (entries_loop size (row t.manifest) out e (drop e t.manifest_entries)) _ h in
      after_entries-IsInRange _ m inner.0 inner.1 hm h'
        (λ last k.
          let j : inner ≡ (inner.0, some last) = ap (λ o. (inner.0, o)) k in
          let stop =
            entries_loop-stop size (row t.manifest) out e (drop e t.manifest_entries)
              (i ∙ ap ok j) in
          rw at (omega (arith, length-drop {0} e t.manifest_entries, stop)))
        (λ n rest g.
          manifests_loop-IsInRange ts (out + n) (suc m) 0 (drop-suc m table at)
            (below_length m table at) (omega arith) g)

  -- What a refined call that answers is made of.
  call_answers :
      (state : MetadataState) {rows : List R} {after : MetadataState}
      → metadata_function size row table state ≡ ok (rows, after)
      → (map_result (listed_row row) (take size (remaining table state)) ≡ ok rows)
        × (remaining table after ≡ drop size (remaining table state))
  call_answers state {rows} {after} h =
      let whole = rw h at (metadata_function_refines row size table state) in
      let (us, k, done) =
        >>=-eq-ok (map_result (listed_row row) (take size (remaining table state))) _ (sym whole) in
      let e : us ≡ rows = cc in
      let f : drop size (remaining table state) ≡ remaining table after = cc in (k ∙ ap ok e, sym f)

  -- Bounds: a call that answers from a position in range puts out as many rows as fit in a vector
  -- and are left to be listed, whichever is less, and its position stays in range.
  pub metadata_function_bounds :
      (state : MetadataState) {rows : List R} {after : MetadataState}
      → IsInRange table state
      → metadata_function size row table state ≡ ok (rows, after)
      → (length rows ≡ min size (length (remaining table state))) × IsInRange table after
  unfolding metadata_function
  metadata_function_bounds state h call =
      let (k, left) = call_answers state call in
      (
        length-map_result (listed_row row) (take size (remaining table state)) _ k
            ∙ length-take size (remaining table state),
        manifests_loop-IsInRange (drop state.current_manifest_idx table) 0
            state.current_manifest_idx state.current_manifest_entry_idx refl h.manifest_in
            h.entry_in call,
      )
