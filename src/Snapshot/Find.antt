-- ===== src/Snapshot/Find.antt =====
-- src/common/iceberg.cpp: the three searches in the array of snapshots of the metadata.
use duckdb_iceberg.Common.{
  ℕ, ◌&&◌, Option, none, some, List, [], ◌∷◌, Result, ok, ◌>>=◌, eqb, leb, if◌then◌else◌,
}
use duckdb_iceberg.Json.{Json, arr_items}
use duckdb_iceberg.Utils.{try_get_num}

-- The loop of `FindLatestSnapshotInternal`, with `max_timestamp` and `max_snapshot`.
unfoldable pub latest_loop : ℕ → Option Json → List Json → Result (Option Json)
latest_loop max_timestamp max_snapshot [] = ok max_snapshot
latest_loop max_timestamp max_snapshot (snapshot ∷ snapshots) = do
  timestamp ← try_get_num (some snapshot) "timestamp-ms"
  let newer = leb max_timestamp timestamp
  latest_loop (if newer then timestamp else max_timestamp)
      (if newer then some snapshot else max_snapshot) snapshots

unfoldable pub find_latest : Option Json → Result (Option Json)
find_latest snapshots = latest_loop 0 none (arr_items snapshots)

unfoldable pub by_id_loop : ℕ → List Json → Result (Option Json)
by_id_loop target_id [] = ok none
by_id_loop target_id (snapshot ∷ snapshots) = do
  snapshot_id ← try_get_num (some snapshot) "snapshot-id"
  if eqb snapshot_id target_id then ok (some snapshot) else by_id_loop target_id snapshots

unfoldable pub find_by_id : Option Json → ℕ → Result (Option Json)
find_by_id snapshots target_id = by_id_loop target_id (arr_items snapshots)

-- `timestamp_millis` is the bound as the comparison with a `uint64_t` takes it.
unfoldable pub by_timestamp_loop : ℕ → ℕ → Option Json → List Json → Result (Option Json)
by_timestamp_loop timestamp_millis max_millis max_snapshot [] = ok max_snapshot
by_timestamp_loop timestamp_millis max_millis max_snapshot (snapshot ∷ snapshots) = do
  curr_millis ← try_get_num (some snapshot) "timestamp-ms"
  let better = leb curr_millis timestamp_millis && leb max_millis curr_millis
  by_timestamp_loop timestamp_millis (if better then curr_millis else max_millis)
      (if better then some snapshot else max_snapshot) snapshots

unfoldable pub find_by_timestamp : Option Json → ℕ → Result (Option Json)
find_by_timestamp snapshots timestamp_millis =
    by_timestamp_loop timestamp_millis 0 none (arr_items snapshots)
