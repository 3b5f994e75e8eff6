-- ===== src/Functions/Cursor.antt =====
-- `iceberg_metadata` as a cursor: the position that a call leaves stands for the rows that are still
-- to be put out.
use duckdb_iceberg.Common.{
  >>=-assoc, >>=-congr, >>=-chain, length-map_result, map_result-append, take-append_short,
  drop-append_short, take-append_long, drop-append_long, drop-suc, length-map, take-map, drop-map,
  le_or_lt, ℕ, zero, suc, ◌+◌, ◌-◌, ◌≤◌, ◌<◌, ◌≡◌, refl, sym, ◌∙◌, inl, inr, none, some, List, [],
  ◌∷◌, ◌++◌, map, Result, ok, throw, ◌>>=◌, leb, if-true, if-false, length, take, drop, map_result,
  arith, true, false, drop-drop,
}
use duckdb_iceberg.Types.{IcebergManifest, IcebergManifestEntry, IcebergTableEntry}
use duckdb_iceberg.Functions.Metadata.{
  MetadataState, entries_loop, after_entries, manifests_loop, metadata_function,
}

-- An entry of a manifest with its manifest: what a row is made of.
abbrev pub Listed : Type 0
Listed = IcebergManifest × IcebergManifestEntry

abbrev pub tag : IcebergManifest → IcebergManifestEntry → Listed
tag manifest entry = (manifest, entry)

abbrev pub listed : IcebergTableEntry → ℕ → List Listed
listed table_entry idx = map (tag table_entry.manifest) (drop idx table_entry.manifest_entries)

-- All entries of the manifests, the first one from `idx` on.
abbrev pub entries_from : ℕ → List IcebergTableEntry → List Listed
entries_from idx [] = []
entries_from idx (table_entry ∷ manifests) = listed table_entry idx ++ entries_from 0 manifests

-- What a position leaves to be listed.
abbrev pub remaining : List IcebergTableEntry → MetadataState → List Listed
remaining table state =
    entries_from state.current_manifest_entry_idx (drop state.current_manifest_idx table)

room_left : (size out n : ℕ) → size - out ≡ suc n → leb size out ≡ false
room_left size out n s = ground arith

no_room : (size out : ℕ) → size - out ≡ 0 → leb size out ≡ true
no_room size out s = ground arith

module _ {R : Type 0} (size : ℕ) where
  -- The inner loop ends where the entries fit.
  entries_loop-fits :
      (f : IcebergManifestEntry → Result R) (out e n : ℕ) (xs : List IcebergManifestEntry)
      → size - out ≡ n
      → length xs ≤ n
      → entries_loop size f out e xs ≡ (map_result f xs >>= λ rows. ok (rows, none))
  unfolding entries_loop
  entries_loop-fits f out e n [] s h = refl
  entries_loop-fits f out e zero (x ∷ xs) s h = absurd (omega arith)
  entries_loop-fits f out e (suc n) (x ∷ xs) s h =
      if-false _ _ (room_left size out n s)
      ∙ rw (entries_loop-fits f (suc out) (suc e) n xs (omega arith) (omega arith)) (
          >>=-congr (f x) _ _
            (λ y fx. >>=-assoc (map_result f xs) _ _ ∙ sym (>>=-assoc (map_result f xs) _ _))
          ∙ sym (>>=-assoc (f x) _ _))

  -- It comes back with the position of the first entry that does not fit.
  entries_loop-full :
      (f : IcebergManifestEntry → Result R) (out e n : ℕ) (xs : List IcebergManifestEntry)
      → size - out ≡ n
      → n < length xs
      → entries_loop size f out e xs
        ≡ (map_result f (take n xs) >>= λ rows. ok (rows, some (e + n)))
  unfolding entries_loop
  entries_loop-full f out e n [] s h = absurd (omega arith)
  entries_loop-full f out e zero (x ∷ xs) s h =
      let k : e + 0 ≡ e = omega arith in rw k (if-true _ _ (no_room size out s))
  entries_loop-full f out e (suc n) (x ∷ xs) s h =
      let k : suc e + n ≡ e + suc n = omega arith in
      if-false _ _ (room_left size out n s)
      ∙ rw (entries_loop-full f (suc out) (suc e) n xs (omega arith) (omega arith), k)
          (>>=-congr (f x) _ _ (λ y fx.
              >>=-assoc (map_result f (take n xs)) _ _
              ∙ sym (>>=-assoc (map_result f (take n xs)) _ _))
            ∙ sym (>>=-assoc (f x) _ _))

module _ {R : Type 0} (row : IcebergManifest → IcebergManifestEntry → Result R) where
  abbrev pub listed_row : Listed → Result R
  listed_row p = row p.0 p.1

  map_result-map :
      (manifest : IcebergManifest) (xs : List IcebergManifestEntry)
      → map_result listed_row (map (tag manifest) xs) ≡ map_result (row manifest) xs
  map_result-map manifest [] = refl
  map_result-map manifest (x ∷ xs) = rw (map_result-map manifest xs)

  module _ (size : ℕ) (table : List IcebergTableEntry) where
    -- The rows of a call, with what the position after it leaves to be listed.
    abbrev pub shown : Result (List R × MetadataState) → Result (List R × List Listed)
    shown m = m >>= λ r. ok (r.0, remaining table r.1)

    -- The rows that fit of those that are to be listed, and what is left of them.
    abbrev pub delivered : ℕ → List Listed → Result (List R × List Listed)
    delivered n todo = map_result listed_row (take n todo) >>= λ rows. ok (rows, drop n todo)

    shown-prefix :
        (rows : List R) (m : Result (List R × MetadataState)) (w : Result (List R))
        (rest : List Listed)
        → shown m ≡ (w >>= λ vs. ok (vs, rest))
        → shown (m >>= λ r. ok (rows ++ r.0, r.1)) ≡ (w >>= λ vs. ok (rows ++ vs, rest))
    shown-prefix rows (throw a) (throw b) rest h = cc
    shown-prefix rows (throw a) (ok vs) rest h = cc
    shown-prefix rows (ok r) (throw b) rest h = cc
    shown-prefix rows (ok r) (ok vs) rest h = cc

    step_full :
        (out m e n : ℕ) (t : IcebergTableEntry) (ts : List IcebergTableEntry)
        → size - out ≡ n
        → drop m table ≡ t ∷ ts
        → n < length (drop e t.manifest_entries)
        → shown (manifests_loop size row out m e (t ∷ ts)) ≡ delivered n (entries_from e (t ∷ ts))
    unfolding manifests_loop after_entries
    step_full out m e n t ts s at full =
        let xs : List IcebergManifestEntry = drop e t.manifest_entries in
        let L : n < length (listed t e) = rw (length-map (tag t.manifest) xs) full in
        rw
          (
            entries_loop-full size (row t.manifest) out e n xs s full,
            take-append_long n (listed t e) (entries_from 0 ts) L,
            drop-append_long n (listed t e) (entries_from 0 ts) L,
            take-map (tag t.manifest) n xs,
            drop-map (tag t.manifest) n xs,
            drop-drop n e t.manifest_entries,
            map_result-map t.manifest (take n xs),
          )
          (>>=-chain (map_result (row t.manifest) (take n xs)) _ _ _ _ (λ rows h. rw at))

    step_fits :
        (out m e n : ℕ) (t : IcebergTableEntry) (ts : List IcebergTableEntry)
        → size - out ≡ n
        → length (drop e t.manifest_entries) ≤ n
        → ((written : ℕ)
            → written ≡ length (drop e t.manifest_entries)
            → shown (manifests_loop size row (out + written) (suc m) 0 ts)
              ≡ delivered (n - length (drop e t.manifest_entries)) (entries_from 0 ts))
        → shown (manifests_loop size row out m e (t ∷ ts)) ≡ delivered n (entries_from e (t ∷ ts))
    unfolding manifests_loop after_entries
    step_fits out m e n t ts s fits below =
        let xs : List IcebergManifestEntry = drop e t.manifest_entries in
        let L : length (listed t e) ≤ n = rw (length-map (tag t.manifest) xs) fits in
        rw
          (
            entries_loop-fits size (row t.manifest) out e n xs s fits,
            take-append_short n (listed t e) (entries_from 0 ts) L,
            drop-append_short n (listed t e) (entries_from 0 ts) L,
            map_result-append listed_row (listed t e)
                (take (n - length (listed t e)) (entries_from 0 ts)),
            length-map (tag t.manifest) xs,
            map_result-map t.manifest xs,
          )
          (>>=-chain (map_result (row t.manifest) xs) _ _ _
              (λ us. map_result listed_row (take (n - length xs) (entries_from 0 ts)) >>= λ vs.
                ok (us ++ vs, drop (n - length xs) (entries_from 0 ts)))
              (λ rows h.
                let written = length-map_result (row t.manifest) xs rows h in
                shown-prefix rows (manifests_loop size row (out + length rows) (suc m) 0 ts)
                  (map_result listed_row (take (n - length xs) (entries_from 0 ts)))
                  (drop (n - length xs) (entries_from 0 ts)) (below (length rows) written))
            ∙ >>=-congr (map_result (row t.manifest) xs) _ _ (λ us h.
              sym
                (>>=-assoc (map_result listed_row (take (n - length xs) (entries_from 0 ts))) _ _))
            ∙ sym (>>=-assoc (map_result (row t.manifest) xs) _ _))

    -- From any position, with room for `n` rows.
    manifests_loop-lists :
        (ts : List IcebergTableEntry) (out m e n : ℕ)
        → size - out ≡ n
        → drop m table ≡ ts
        → shown (manifests_loop size row out m e ts) ≡ delivered n (entries_from e ts)
    manifests_loop-lists [] out m e n s at = unfold manifests_loop in rw at
    manifests_loop-lists (t ∷ ts) out m e n s at =
        elim (le_or_lt (length (drop e t.manifest_entries)) n) [
          | inl fits ↦ step_fits out m e n t ts s fits (λ written w.
              manifests_loop-lists ts (out + written) (suc m) 0
                (n - length (drop e t.manifest_entries)) (omega arith) (drop-suc m table at))
          | inr full ↦ step_full out m e n t ts s at full
        ]

    -- Refinement: a call of `iceberg_metadata` puts out the rows of the first entries that its
    -- position leaves to be listed, as many as fit in a vector, or throws as their rows do; the
    -- position after it leaves exactly the others.
    pub metadata_function_refines :
        (state : MetadataState)
        → shown (metadata_function size row table state) ≡ delivered size (remaining table state)
    unfolding metadata_function
    metadata_function_refines state =
        manifests_loop-lists (drop state.current_manifest_idx table) 0 state.current_manifest_idx
          state.current_manifest_entry_idx size (omega arith) refl
