-- ===== src/Schema/Primitive.antt =====
-- The type names of `ParseTypeValue`, and the width and scale of a decimal.
use Prim.Native.Char.{Char, code}
use Prim.Native.String.{String, [], ◌∷◌}
use text.Mathlib.Text.{starts_with}
use duckdb_iceberg.Common.{
  ℕ, ◌+◌, ◌-◌, ◌*◌, ◌%◌, Bool, false, ◌&&◌, ◌||◌, Result, ok, throw, io_exception, out_of_range,
  logic_error, undefined_behaviour, ◌>>=◌, or_throw, ◌==◌, eqb, leb, ◌+++◌, if◌then◌else◌,
  get_elem?, drop_text, take_text, find_char, rfind_char, ltb, Option, none, some, suc,
}
use duckdb_iceberg.Duckdb.{StringUtil}
use duckdb_iceberg.Schema.ColumnTypes.{
  LogicalType, boolean, integer, bigint, float, double, date, time, timestamp, timestamp_tz,
  varchar, uuid, blob, decimal,
}

abbrev is_digit : Char → Bool
is_digit c = leb b'0' (code c) && leb (code c) b'9'

abbrev is_space : Char → Bool
is_space c = eqb (code c) 32 || leb 9 (code c) && leb (code c) 13

-- The digits at the head of a text, after those read as `n`.
read_digits : ℕ → String → ℕ
read_digits n [] = n
read_digits n (c ∷ s) =
    let rest = read_digits (10 * n + (code c - b'0')) s in if is_digit c then rest else n

abbrev starts_with_digit : String → Bool
starts_with_digit [] = false
starts_with_digit (c ∷ s) = is_digit c

-- `std::stoi` after the blanks and the sign, up to `limit`.
unfoldable pub read_number : ℕ → String → Result ℕ
unfolding read_digits
read_number limit s =
    if starts_with_digit s
    then (if leb (read_digits 0 s) limit then ok (read_digits 0 s) else throw (out_of_range "stoi"))
    else throw logic_error

-- `std::stoi`, cut to the eight bits that `LogicalType::DECIMAL` takes.
unfoldable pub stoi_uint8 : String → Result ℕ
unfolding read_number
stoi_uint8 [] = throw logic_error
stoi_uint8 (c ∷ s) =
    let skipped = stoi_uint8 s in
    if is_space c
    then skipped
    else if eqb (code c) b'-'
    then (do n ← read_number 2_147_483_648 s; ok ((256 - n % 256) % 256))
    else if eqb (code c) b'+'
    then (do n ← read_number 2_147_483_647 s; ok (n % 256))
    else (do n ← read_number 2_147_483_647 (c ∷ s); ok (n % 256))

-- `substr(start + 1, end - start)`, which holds the last parenthesis, where `std::stoi` stops. Both
-- are computed in 64 bits: `npos + 1` is 0, and a length below zero goes to the end of the text.
unfoldable pub raw_digits : Option ℕ → Option ℕ → String → String
raw_digits none none s = ""
raw_digits none (some last) s = take_text (suc last) s
raw_digits (some start) none s = drop_text (suc start) s
raw_digits (some start) (some last) s =
    if ltb last start
    then drop_text (suc start) s
    else take_text (last - start) (drop_text (suc start) s)

-- The assertions stand in a debug build only, and are left out; a missing part of the digits is read
-- out of range.
unfoldable pub parse_decimal : StringUtil → String → Result LogicalType
unfolding stoi_uint8 raw_digits
parse_decimal u type_str = do
  let digits =
      u.split (raw_digits (find_char b'(' type_str) (rfind_char b')' type_str) type_str) ","
  width ← (or_throw (get_elem? digits 0) undefined_behaviour >>= stoi_uint8)
  scale ← (or_throw (get_elem? digits 1) undefined_behaviour >>= stoi_uint8)
  ok (decimal width scale)

unfoldable pub parse_primitive : StringUtil → String → Result LogicalType
unfolding parse_decimal
parse_primitive u type_str =
    if type_str == "boolean"
    then ok boolean
    else if type_str == "int"
    then ok integer
    else if type_str == "long"
    then ok bigint
    else if type_str == "float"
    then ok float
    else if type_str == "double"
    then ok double
    else if type_str == "date"
    then ok date
    else if type_str == "time"
    then ok time
    else if type_str == "timestamp"
    then ok timestamp
    else if type_str == "timestamptz"
    then ok timestamp_tz
    else if type_str == "string"
    then ok varchar
    else if type_str == "uuid"
    then ok uuid
    else if starts_with type_str "fixed"
    then ok blob
    else if type_str == "binary"
    then ok blob
    else if starts_with type_str "decimal"
    then parse_decimal u type_str
    else throw (io_exception ("Encountered an unrecognized type in JSON schema: " +++ type_str))
