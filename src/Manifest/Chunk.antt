-- ===== src/Manifest/Chunk.antt =====
-- The values that `read_avro` delivers, and `ColumnIndex`. `FlatVector::GetData` is not checked:
-- reading a value of another type, or a column that is not there, is undefined behaviour.
use duckdb_iceberg.Common.{
  ℕ, String, List, [], Option, none, some, Result, ok, throw, undefined_behaviour, get_elem?,
}

pub data Leaf : Type 0 where
  str : String → Leaf
  int : ℕ → Leaf

pub data Cell : Type 0 where
  leaf : Leaf → Cell
  struct : List Leaf → Cell

abbrev pub Row : Type 0
Row = List Cell

abbrev pub DataChunk : Type 0
DataChunk = List Row

-- The type of a column, as far as it is read: a struct has the names of its children.
pub data ColumnType : Type 0 where
  scalar : ColumnType
  struct : List String → ColumnType

-- `ColumnIndex(column_id)` and `ColumnIndex(column_id, {ColumnIndex(child_idx)})`
pub record ColumnIndex : Type 0 where
  pub primary : ℕ
  pub child : Option ℕ

abbrev pub NameMap : Type 0
NameMap = List (String × ColumnIndex)

abbrev pub as_leaf : Option Cell → Option Leaf
as_leaf (some (leaf l)) = some l
as_leaf _ = none

abbrev pub as_struct : Option Cell → List Leaf
as_struct (some (struct ls)) = ls
as_struct _ = []

abbrev pub leaf_str : Option Leaf → Result String
leaf_str (some (str s)) = ok s
leaf_str _ = throw undefined_behaviour

abbrev pub leaf_int : Option Leaf → Result ℕ
leaf_int (some (int n)) = ok n
leaf_int _ = throw undefined_behaviour

-- A value of a top-level column, and one of a struct column.
abbrev pub column_of : ℕ → Row → Option Leaf
column_of i row = as_leaf (get_elem? row i)

abbrev pub child_of : ℕ → ℕ → Row → Option Leaf
child_of i j row = get_elem? (as_struct (get_elem? row i)) j
