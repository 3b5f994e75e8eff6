-- ===== src/Schema/Choice.antt =====
-- `ParseSchema` parses the first schema with the id that is asked for.
use duckdb_iceberg.Common.{
  ℕ, ◌≡◌, ◌≢◌, List, [], ◌∷◌, ◌++◌, some, All, ok, throw, io_exception, refl, eqb_refl, eqb_of_ne,
}
use duckdb_iceberg.Json.{Json}
use duckdb_iceberg.Utils.{try_get_num}
use duckdb_iceberg.Duckdb.{StringUtil}
use duckdb_iceberg.Schema.{parse_schema, parse_schema_from_json}

-- The schema carries an id, and another one.
abbrev pub HasOtherId : ℕ → Json → Type 0
HasOtherId id schema = (n : ℕ) × (try_get_num (some schema) "schema-id" ≡ ok n) × (n ≢ id)

-- Of the schemas that carry ids, the first with the id that is asked for is parsed, whatever
-- follows it, and none before it is.
pub parse_schema_first :
    (u : StringUtil) (id : ℕ) (before : List Json) (schema : Json) (after : List Json)
    → All (HasOtherId id) before
    → try_get_num (some schema) "schema-id" ≡ ok id
    → parse_schema u (before ++ schema ∷ after) id ≡ parse_schema_from_json u schema
unfolding parse_schema
parse_schema_first u id [] schema after h k = rw (k, eqb_refl id)
parse_schema_first u id (s ∷ before) schema after ((n, e, ne), h) k =
    rw (e, eqb_of_ne n id ne) (parse_schema_first u id before schema after h k)

-- If no schema has the id that is asked for, and each carries one, the read ends in an exception.
pub parse_schema_missing :
    (u : StringUtil) (id : ℕ) (schemas : List Json)
    → All (HasOtherId id) schemas
    → parse_schema u schemas id ≡ throw (io_exception "Iceberg schema was not found!")
unfolding parse_schema
parse_schema_missing u id [] h = refl
parse_schema_missing u id (s ∷ schemas) ((n, e, ne), h) =
    rw (e, eqb_of_ne n id ne) (parse_schema_missing u id schemas h)
