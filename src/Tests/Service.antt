-- ===== src/Tests/Service.antt =====
-- Options, table functions and the catalog of a service.
use duckdb_iceberg.Common.{
  arith, ℕ, ◌≡◌, refl, String, true, false, Option, some, List, [], ◌∷◌, Result, ok, All,
}
use duckdb_iceberg.Json.{Json, num, str, obj, no_props, property}
use duckdb_iceberg.Utils.{try_get_str_or, templated_try_get}
use duckdb_iceberg.Snapshot.{IcebergOptions, from_id}
use duckdb_iceberg.Functions.Snapshots.{snapshots_loop}
use duckdb_iceberg.Functions.Batch.{snapshots_loop-takes}
use duckdb_iceberg.Catalog.Config.{
  Configuration, api_result_to_doc, read_config, read_config-prefix,
}
use duckdb_iceberg.Catalog.Cache.{
  MetadataCache, set_cached_value, get_cached_value, has_cached_value,
  get_cached_value-set_cached_value,
}
use duckdb_iceberg.Catalog.Transactions.{
  Transactions, done, starts, commits, start_transaction, commit_transaction, IsStill,
  Reaches-IsStill,
}
use duckdb_iceberg.Tests.Fixtures.{default_options}

abbrev by_id : IcebergOptions
by_id = record default_options { snapshot_source = from_id 4 }

abbrev row_of : Json → Result ℕ
row_of (num n) = ok n
row_of _ = ok 0

-- Three snapshots and room for one: the second is never put out.
snapshots_loop-takes_example :
    snapshots_loop 1 row_of 0 (num 1 ∷ num 2 ∷ num 3 ∷ []) ≡ ok (1 ∷ [], num 3 ∷ [])
snapshots_loop-takes_example =
    snapshots_loop-takes 1 row_of (num 1 ∷ num 2 ∷ num 3 ∷ []) (1 ∷ 2 ∷ 3 ∷ []) refl

abbrev config : Option Json
config = some (
    obj (
      property "defaults" (obj (property "prefix" (str "d") no_props))
        (property "overrides" (obj (property "prefix" (str "o") no_props)) no_props)))

read_config-prefix_example :
    (c : Configuration) × (read_config (λ s. s) config ≡ ok c) × (c.prefix ≡ "o")
read_config-prefix_example =
    read_config-prefix (λ s. s) config (("prefix", "d") ∷ []) (("prefix", "o") ∷ []) refl refl

abbrev answer : Option Json
answer = some (
    obj (
      property "config" (obj (property "s3.session-token-expires-at-ms" (str "50") no_props))
        no_props))

get_cached_value-set_cached_value_example :
    (cache' : MetadataCache) × (set_cached_value (λ s. answer) (λ s. ok 50) [] "url" "{}"
      ≡ ok (cache', false))
    × (get_cached_value 40 cache' "url" ≡ ok "{}")
    × (has_cached_value 40 cache' "url" ≡ true)
unfolding api_result_to_doc try_get_str_or templated_try_get
get_cached_value-set_cached_value_example =
    get_cached_value-set_cached_value (λ s. answer) (λ s. ok 50) [] "url" "{}" "50" answer 50 40
      refl refl refl refl refl (omega arith)

abbrev numbered : List (String × ℕ)
numbered = ("a", 1) ∷ ("b", 2) ∷ []

abbrev table : Transactions
table = commit_transaction 1 (start_transaction 2 (start_transaction 1 []))

Reaches-IsStill_example : All IsStill table
Reaches-IsStill_example =
    Reaches-IsStill {ts = []} {us = table} (starts 1 (starts 2 (commits 1 done))) tt
