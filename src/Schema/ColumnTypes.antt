-- ===== src/Schema/ColumnTypes.antt =====
-- DuckDB's column types, as far as the extension names them.
use duckdb_iceberg.Common.{ℕ, String}

mutual
  pub data LogicalType : Type 0 where
    boolean tinyint utinyint smallint usmallint integer uinteger bigint ubigint : LogicalType
    float double date time timestamp timestamp_tz varchar uuid blob : LogicalType
    decimal : (width scale : ℕ) → LogicalType
    list : LogicalType → LogicalType
    map : LogicalType → LogicalType → LogicalType
    struct : Children → LogicalType

  pub data Children : Type 0 where
    nil : Children
    child : String → LogicalType → Children → Children
