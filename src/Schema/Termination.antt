-- ===== src/Schema/Termination.antt =====
-- `ParseTypeValue` follows the fields of a JSON value, and comes to an end in each.
use text.Mathlib.Text.{starts_with}
use duckdb_iceberg.Common.{
  find_char, rfind_char, ◌+++◌, ℕ, zero, suc, ◌≤◌, ◌<◌, String, Bool, true, false, Option, none,
  some, List, [], ◌∷◌, All, arith, Result, throw, io_exception, HasFuel, >>=-HasFuel, ok-HasFuel,
  if◌then◌else◌, or_throw, ◌>>=◌, get_elem?, undefined_behaviour, ◌==◌,
}
use duckdb_iceberg.Json.{Json, str, obj, obj_get, arr_items}
use duckdb_iceberg.Json.Depth.{depth, depth?, obj_get-depth, arr_items-depth}
use duckdb_iceberg.Utils.{try_get_str}
use duckdb_iceberg.Duckdb.{StringUtil}
use duckdb_iceberg.Schema.{
  parse_children, parse_struct, parse_list, parse_map, parse_complex_type, parse_by_kind,
  parse_type_value_on, parse_type_value,
}
use duckdb_iceberg.Schema.ColumnTypes.{
  LogicalType, boolean, integer, bigint, float, double, date, time, timestamp, timestamp_tz,
  varchar, uuid, blob,
}
use duckdb_iceberg.Schema.Primitive.{
  read_number, stoi_uint8, raw_digits, parse_decimal, parse_primitive,
}

All-le : {m n : ℕ} (vs : List Json) → All (λ v. depth v ≤ m) vs → m ≤ n → All (λ v. depth v ≤ n) vs
All-le [] h k = tt
All-le (v ∷ vs) (p, h) k = (omega arith, All-le vs h k)

if-HasFuel {ℓ} :
    {A : Type ℓ} (b : Bool) {x y : Result A} → HasFuel x → HasFuel y → HasFuel (if b then x else y)
if-HasFuel true h k = h
if-HasFuel false h k = k

try_get_str-HasFuel : (v : Option Json) (field : String) → HasFuel (try_get_str v field)
unfolding try_get_str
try_get_str-HasFuel v field = ground arith

read_number-HasFuel : (limit : ℕ) (s : String) → HasFuel (read_number limit s)
unfolding read_number
read_number-HasFuel limit s = ground arith

stoi_uint8-HasFuel : (s : String) → HasFuel (stoi_uint8 s)
unfolding stoi_uint8
stoi_uint8-HasFuel String.[] = λ p. cc
stoi_uint8-HasFuel (String.◌∷◌ c s) = ground (arith, stoi_uint8-HasFuel s)

io-HasFuel {ℓ} : {A : Type ℓ} (text : String) → HasFuel {A = A} (throw (io_exception text))
io-HasFuel text = λ p. cc

or_throw-HasFuel {ℓ} : {A : Type ℓ} (o : Option A) → HasFuel (or_throw o undefined_behaviour)
or_throw-HasFuel none = λ p. cc
or_throw-HasFuel (some a) = λ p. cc

digits-HasFuel : (o : Option String) → HasFuel (or_throw o undefined_behaviour >>= stoi_uint8)
digits-HasFuel o = >>=-HasFuel _ stoi_uint8 (or_throw-HasFuel o) stoi_uint8-HasFuel

parse_decimal-HasFuel : (u : StringUtil) (s : String) → HasFuel (parse_decimal u s)
unfolding parse_decimal
parse_decimal-HasFuel u s =
    let digits = u.split (raw_digits (find_char b'(' s) (rfind_char b')' s) s) "," in
    >>=-HasFuel _ _ (digits-HasFuel (get_elem? digits 0))
      λ width. >>=-HasFuel _ _ (digits-HasFuel (get_elem? digits 1)) λ scale. ok-HasFuel _

parse_primitive-HasFuel : (u : StringUtil) (s : String) → HasFuel (parse_primitive u s)
unfolding parse_primitive
parse_primitive-HasFuel u s = if-HasFuel (s == "boolean") (ok-HasFuel boolean) (
    if-HasFuel (s == "int") (ok-HasFuel integer) (
      if-HasFuel (s == "long") (ok-HasFuel bigint) (
        if-HasFuel (s == "float") (ok-HasFuel float) (
          if-HasFuel (s == "double") (ok-HasFuel double) (
            if-HasFuel (s == "date") (ok-HasFuel date) (
              if-HasFuel (s == "time") (ok-HasFuel time) (
                if-HasFuel (s == "timestamp") (ok-HasFuel timestamp) (
                  if-HasFuel (s == "timestamptz") (ok-HasFuel timestamp_tz) (
                    if-HasFuel (s == "string") (ok-HasFuel varchar) (
                      if-HasFuel (s == "uuid") (ok-HasFuel uuid) (
                        if-HasFuel (starts_with s "fixed") (ok-HasFuel blob) (
                          if-HasFuel (s == "binary") (ok-HasFuel blob) (
                            if-HasFuel (starts_with s "decimal") (parse_decimal-HasFuel u s) (
                              io-HasFuel (
                                "Encountered an unrecognized type in JSON schema: "
                                +++ s)))))))))))))))

module _ (u : StringUtil) (parse : Option Json → Result LogicalType) (bound : ℕ)
    (ends : (v : Option Json) → depth? v < bound → HasFuel (parse v)) where
  field-HasFuel :
      (v : Json) (key : String)
      → depth v ≤ bound
      → 0 < bound
      → HasFuel (parse (obj_get (some v) key))
  field-HasFuel v key h pos = ends _ (omega (arith, obj_get-depth v key))

  parse_children-HasFuel :
      (fields : List Json)
      → 0 < bound
      → All (λ v. depth v ≤ bound) fields
      → HasFuel (parse_children parse fields)
  unfolding parse_children
  parse_children-HasFuel [] pos h = λ p. cc
  parse_children-HasFuel (field ∷ fields) pos (p, h) =
      >>=-HasFuel (try_get_str (some field) "name") _ (try_get_str-HasFuel (some field) "name")
        λ name.
          >>=-HasFuel (parse (obj_get (some field) "type")) _ (field-HasFuel field "type" p pos)
            λ type.
              >>=-HasFuel (parse_children parse fields) _ (parse_children-HasFuel fields pos h)
                λ rest. ok-HasFuel _

  parse_struct-HasFuel : (v : Json) → depth v ≤ bound → 0 < bound → HasFuel (parse_struct parse v)
  unfolding parse_struct
  parse_struct-HasFuel v h pos =
      >>=-HasFuel (parse_children parse (arr_items (obj_get (some v) "fields"))) _
        (parse_children-HasFuel _ pos (
          All-le _ (arr_items-depth (obj_get (some v) "fields"))
            (omega (arith, obj_get-depth v "fields"))))
        λ c. ok-HasFuel _

  parse_list-HasFuel : (v : Json) → depth v ≤ bound → 0 < bound → HasFuel (parse_list parse v)
  unfolding parse_list
  parse_list-HasFuel v h pos =
      >>=-HasFuel (parse (obj_get (some v) "element")) _ (field-HasFuel v "element" h pos)
        λ e. ok-HasFuel _

  parse_map-HasFuel : (v : Json) → depth v ≤ bound → 0 < bound → HasFuel (parse_map parse v)
  unfolding parse_map
  parse_map-HasFuel v h pos =
      >>=-HasFuel (parse (obj_get (some v) "key")) _ (field-HasFuel v "key" h pos) λ k.
        >>=-HasFuel (parse (obj_get (some v) "value")) _ (field-HasFuel v "value" h pos)
          λ w. ok-HasFuel _

  parse_complex_type-HasFuel :
      (v : Json) → depth v ≤ bound → 0 < bound → HasFuel (parse_complex_type parse v)
  unfolding parse_complex_type
  parse_complex_type-HasFuel v h pos =
      >>=-HasFuel (try_get_str (some v) "type") _ (try_get_str-HasFuel (some v) "type") λ t.
        if-HasFuel _ (parse_struct-HasFuel v h pos) (
          if-HasFuel _ (parse_list-HasFuel v h pos)
            (if-HasFuel _ (parse_map-HasFuel v h pos) (io-HasFuel _)))

  parse_by_kind-HasFuel : (v : Option Json) → depth? v ≤ bound → HasFuel (parse_by_kind parse u v)
  unfolding parse_by_kind depth
  parse_by_kind-HasFuel none h = io-HasFuel _
  parse_by_kind-HasFuel (some (obj ps)) h = parse_complex_type-HasFuel (obj ps) h (omega arith)
  parse_by_kind-HasFuel (some (str s)) h = parse_primitive-HasFuel u s
  parse_by_kind-HasFuel (some _) h = io-HasFuel _

parse_type_value_on-HasFuel :
    (u : StringUtil) (fuel : ℕ) (v : Option Json)
    → depth? v < fuel
    → HasFuel (parse_type_value_on u fuel v)
unfolding parse_type_value_on
parse_type_value_on-HasFuel u zero v h = absurd (omega arith)
parse_type_value_on-HasFuel u (suc fuel) v h =
    parse_by_kind-HasFuel u (parse_type_value_on u fuel) fuel (parse_type_value_on-HasFuel u fuel) v
      (omega arith)

-- The recursion of `ParseTypeValue` ends on every value, a null pointer included: the fuel that
-- the model gives it, one more than the depth of the value, is never used up.
pub parse_type_value-HasFuel : (u : StringUtil) (v : Option Json) → HasFuel (parse_type_value u v)
unfolding parse_type_value
parse_type_value-HasFuel u v = parse_type_value_on-HasFuel u (suc (depth? v)) v (omega arith)
