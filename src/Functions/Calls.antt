-- ===== src/Functions/Calls.antt =====
-- What the calls of a scan with `iceberg_metadata` put out together.
use duckdb_iceberg.Common.{
  length-map_result, map_result-append, length-take, empty_of_length-le, ℕ, zero, suc, ◌-◌, ◌*◌,
  ◌≤◌, ◌<◌, ◌≡◌, refl, sym, ap, ◌∙◌, List, [], ◌∷◌, ◌++◌, Result, ok, throw, out_of_fuel, ◌>>=◌,
  length, take, drop, map_result, arith, length-drop, take-append-drop,
}
use duckdb_iceberg.Types.{IcebergManifest, IcebergManifestEntry, IcebergTableEntry}
use duckdb_iceberg.Functions.Metadata.{MetadataState, metadata_function}
use duckdb_iceberg.Functions.Cursor.{
  Listed, remaining, listed_row, shown, metadata_function_refines,
}

-- What the engine does with the rows of a call: it stops at none, or appends them and goes on.
unfoldable pub go_on {ℓ} :
    {R : Type ℓ} → (MetadataState → Result (List R)) → List R × MetadataState → Result (List R)
go_on next ([], after) = ok []
go_on next (row ∷ rows, after) = next after >>= λ rest. ok ((row ∷ rows) ++ rest)

-- A scan, as the engine runs it: it calls until no row comes back.
unfoldable pub scan_calls {ℓ} :
    {R : Type ℓ}
    → ℕ
    → (MetadataState → Result (List R × MetadataState))
    → MetadataState
    → Result (List R)
unfolding go_on
scan_calls zero call state = throw out_of_fuel
scan_calls (suc calls) call state = call state >>= go_on (λ after. scan_calls calls call after)

rest_fits : (calls size m n : ℕ) → m ≤ suc calls * size → n ≡ m - size → n ≤ calls * size
rest_fits calls size m n h e = grind arith

module _ {R : Type 0} (row : IcebergManifest → IcebergManifestEntry → Result R) (size : ℕ)
    (table : List IcebergTableEntry) where
  resume :
      (m : Result (List R × MetadataState)) (w : Result (List R)) (rest : List Listed)
      (next : MetadataState → Result (List R))
      → shown row size table m ≡ (w >>= λ vs. ok (vs, rest))
      → ((vs : List R) (after : MetadataState)
          → w ≡ ok vs
          → remaining table after ≡ rest
          → go_on next (vs, after) ≡ (map_result (listed_row row) rest >>= λ us. ok (vs ++ us)))
      → (m >>= go_on next) ≡ (w >>= λ vs. map_result (listed_row row) rest >>= λ us. ok (vs ++ us))
  resume (throw a) (throw b) rest next h k = cc
  resume (throw a) (ok vs) rest next h k = cc
  resume (ok r) (throw b) rest next h k = cc
  resume (ok r) (ok vs) rest next h k =
      let e : r.0 ≡ vs = cc in let f : remaining table r.1 ≡ rest = cc in rw e (k vs r.1 refl f)

  go_on-rest :
      (next : MetadataState → Result (List R)) (todo : List Listed) (vs : List R)
      (after : MetadataState)
      → 0 < size
      → map_result (listed_row row) (take size todo) ≡ ok vs
      → (0 < length todo → next after ≡ map_result (listed_row row) (drop size todo))
      → go_on next (vs, after)
        ≡ (map_result (listed_row row) (drop size todo) >>= λ us. ok (vs ++ us))
  unfolding go_on
  go_on-rest next todo [] after pos h k =
      let none_left : todo ≡ [] = empty_of_length-le todo (
        omega (
          arith,
          length-map_result (listed_row row) (take size todo) [] h,
          length-take size todo,
        )) in
      rw none_left
  go_on-rest next todo (v ∷ vs) after pos h k = rw (
      k (
        omega (
          arith,
          length-map_result (listed_row row) (take size todo) (v ∷ vs) h,
          length-take size todo,
        )))

  -- One call, and then whatever serves the position after it.
  scan_calls-step :
      (calls : ℕ) (state : MetadataState)
      → 0 < size
      → ((after : MetadataState)
          → remaining table after ≡ drop size (remaining table state)
          → 0 < length (remaining table state)
          → scan_calls calls (metadata_function size row table) after
            ≡ map_result (listed_row row) (remaining table after))
      → scan_calls (suc calls) (metadata_function size row table) state
        ≡ map_result (listed_row row) (remaining table state)
  unfolding scan_calls
  scan_calls-step calls state pos serve =
      let todo = remaining table state in
      resume (metadata_function size row table state) (map_result (listed_row row) (take size todo))
        (drop size todo) _ (metadata_function_refines row size table state)
        (λ vs after h left.
          go_on-rest _ todo vs after pos h
            (λ some_left. serve after left some_left ∙ ap (map_result (listed_row row)) left))
      ∙ sym (map_result-append (listed_row row) (take size todo) (drop size todo))
      ∙ ap (map_result (listed_row row)) (take-append-drop size todo)

  -- Liveness: with a vector of at least one row, a scan whose position leaves at most `calls`
  -- vectors full of rows to be listed ends by `calls` + 1 calls, and its calls together put out
  -- the rows of all of them, in order and none twice, or throw as the first row that throws does.
  pub scan_calls-metadata_function :
      (calls : ℕ) (state : MetadataState)
      → 0 < size
      → length (remaining table state) ≤ calls * size
      → scan_calls (suc calls) (metadata_function size row table) state
        ≡ map_result (listed_row row) (remaining table state)
  scan_calls-metadata_function zero state pos enough =
      scan_calls-step zero state pos (λ after left some_left. absurd (omega arith))
  scan_calls-metadata_function (suc calls) state pos enough =
      scan_calls-step (suc calls) state pos (λ after left some_left.
        scan_calls-metadata_function calls after pos (
          rest_fits calls size (length (remaining table state)) _ enough
            (ap length left ∙ length-drop size (remaining table state))))
