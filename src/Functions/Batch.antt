-- ===== src/Functions/Batch.antt =====
-- What a call of `iceberg_snapshots` puts out, and which snapshots are left.
use duckdb_iceberg.Common.{
  ℕ, suc, ◌-◌, ◌≡◌, refl, ◌∙◌, List, [], ◌∷◌, Result, ok, map_result, >>=-eq-ok, leb, Bool-cases,
  inl, inr, take, drop, drop-zero, arith, true, false, if-true, if-false,
}
use duckdb_iceberg.Json.{Json}
use duckdb_iceberg.Functions.Snapshots.{snapshots_loop}

-- The number of rows that there is still room for.
room : (size i : ℕ) → leb size i ≡ false → size - i ≡ suc (size - suc i)
room size i h = ground arith

full : (size i : ℕ) → leb size i ≡ true → size - i ≡ 0
full size i h = ground arith

take_zero {ℓ} : {A : Type ℓ} (xs : List A) → take 0 xs ≡ []
take_zero [] = refl
take_zero (x ∷ xs) = refl

module _ {R : Type 0} (size : ℕ) (row_of : Json → Result R) where
  loop_takes :
      (i : ℕ) (snapshots : List Json) (rows : List R)
      → map_result row_of snapshots ≡ ok rows
      → snapshots_loop size row_of i snapshots
        ≡ ok (take (size - i) rows, drop (suc (size - i)) snapshots)
  unfolding snapshots_loop
  loop_takes i [] rows h = let g : rows ≡ [] = cc in rw g
  loop_takes i (s ∷ snapshots) rows h =
      let (row, e, h') = >>=-eq-ok (row_of s) _ h in
      let (rest, f, h'') = >>=-eq-ok (map_result row_of snapshots) _ h' in
      let g : rows ≡ row ∷ rest = cc in
      elim (Bool-cases (leb size i)) [
        | inl ends ↦ if-true _ _ ends ∙ rw (full size i ends, take_zero rows, drop-zero snapshots)
        | inr goes ↦
            if-false _ _ goes ∙ rw (e, loop_takes (suc i) snapshots rest f, room size i goes, g)
      ]

  -- A call puts out as many rows as fit, in the order of the snapshots, and drops one snapshot
  -- more than that: a full call loses the snapshot after its last.
  pub snapshots_loop-takes :
      (snapshots : List Json) (rows : List R)
      → map_result row_of snapshots ≡ ok rows
      → snapshots_loop size row_of 0 snapshots ≡ ok (take size rows, drop (suc size) snapshots)
  snapshots_loop-takes snapshots rows h =
      let e : size - 0 ≡ size = omega arith in rw e at (loop_takes 0 snapshots rows h)
