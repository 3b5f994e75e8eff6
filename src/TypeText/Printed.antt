-- ===== src/TypeText/Printed.antt =====
-- What `LogicalToIcebergType` prints, `TypeToLogicalType` reads.
use duckdb_iceberg.Common.{
  append-eq-join, drop_text-join, find_char-join, join, take_text-join, ℕ, suc, ◌+◌, ◌-◌, ◌<◌, ◌≡◌,
  refl, ap, ◌∙◌, String, true, none, some, Result, ok, arith, ◌+++◌, ltb, text_length, find_char,
  strip_prefix,
}
use duckdb_iceberg.Schema.ColumnTypes.{
  LogicalType, boolean, tinyint, utinyint, smallint, usmallint, integer, uinteger, bigint, ubigint,
  float, double, date, timestamp, timestamp_tz, varchar, blob, decimal,
}
use duckdb_iceberg.TypeText.Names.{logical_to_iceberg_type}
use duckdb_iceberg.TypeText.Parser.{
  decimal_digits, parse_decimal_spec, parse_nested, parse_text, type_to_logical_type,
}
use duckdb_iceberg.TypeText.Reads.{plain_type-none, no_parenthesis}

decimal_comma :
    (p q : String)
    → find_char b',' p ≡ none
    → find_char b',' (join p (join ", " (join q ")"))) ≡ some (text_length p)
unfolding find_char
decimal_comma p q h =
    find_char-join b',' 0 p (join ", " (join q ")")) h refl ∙ ap some (omega arith)

decimal_bracket :
    (p q : String)
    → find_char b')' p ≡ none
    → find_char b')' q ≡ none
    → find_char b')' (join p (join ", " (join q ")")))
      ≡ some (text_length p + suc (suc (text_length q)))
unfolding find_char
decimal_bracket p q h k =
    let last : find_char b')' (join q ")") ≡ some (text_length q + 0) =
      find_char-join b')' 0 q ")" k refl in
    let e : text_length q + 0 ≡ text_length q = omega arith in
    find_char-join b')' (suc (suc (text_length q))) p (join ", " (join q ")")) h (rw (last, e))

-- The digits before the ',', and those after it with a blank.
decimal_digits-join :
    (p q : String)
    → decimal_digits
        (join p (join ", " (join q ")")))
        (text_length p + suc (suc (text_length q)))
        (some (text_length p))
      ≡ (p, " " +++ q)
unfolding decimal_digits
decimal_digits-join p q =
    let within : ltb (text_length p) (text_length p + suc (suc (text_length q))) ≡ true =
      ground arith in
    let e : text_length p + suc (suc (text_length q)) - text_length p - 1 ≡ suc (text_length q) =
      omega arith in
    rw (
      within,
      e,
      take_text-join p (join ", " (join q ")")),
      drop_text-join p "," (join " " (join q ")")),
      take_text-join q ")",
      append-eq-join " " q,
    )

-- The signed type that an unsigned one is stored as.
abbrev pub stored_type : LogicalType → LogicalType
stored_type utinyint = tinyint
stored_type usmallint = smallint
stored_type uinteger = integer
stored_type ubigint = bigint
stored_type t = t

-- The width and the scale are of type `uint8_t`.
abbrev pub FitsBytes : LogicalType → Type 0
FitsBytes (decimal precision scale) = (precision < 256) × (scale < 256)
FitsBytes _ = Unit

module _ (cast : String → Result ℕ) (to_string : ℕ → String)
    (no_comma : (n : ℕ) → find_char b',' (to_string n) ≡ none)
    (no_bracket : (n : ℕ) → find_char b')' (to_string n) ≡ none)
    (reads : (n : ℕ) → n < 256 → cast (to_string n) ≡ ok n)
    (reads_blank : (n : ℕ) → n < 256 → cast (" " +++ to_string n) ≡ ok n) where
  decimal-reads :
      (type_text : String) (precision scale : ℕ)
      → precision < 256
      → scale < 256
      → parse_decimal_spec cast type_text
          (join (to_string precision) (join ", " (join (to_string scale) ")")))
        ≡ ok (decimal precision scale)
  unfolding parse_decimal_spec
  decimal-reads type_text precision scale hp hs =
      let p : String = to_string precision in
      let q : String = to_string scale in
      rw (
        decimal_bracket p q (no_bracket precision) (no_bracket scale),
        decimal_comma p q (no_comma precision),
        ap (λ digits. digits.0) (decimal_digits-join p q),
        ap (λ digits. digits.1) (decimal_digits-join p q),
        reads precision hp,
        reads_blank scale hs,
      )

  decimal_printed :
      (precision scale : ℕ)
      → "decimal(" +++ to_string precision +++ ", " +++ to_string scale +++ ")"
        ≡ join "decimal(" (join (to_string precision) (join ", " (join (to_string scale) ")")))
  decimal_printed precision scale =
      let p : String = to_string precision in
      let q : String = to_string scale in
      rw (
        append-eq-join q ")",
        append-eq-join ", " (join q ")"),
        append-eq-join p (join ", " (join q ")")),
        append-eq-join "decimal(" (join p (join ", " (join q ")"))),
      )

  parse_decimal-reads :
      (precision scale : ℕ)
      → precision < 256
      → scale < 256
      → type_to_logical_type cast
          (join "decimal(" (join (to_string precision) (join ", " (join (to_string scale) ")"))))
        ≡ ok (decimal precision scale)
  unfolding type_to_logical_type parse_text parse_nested strip_prefix find_char
  parse_decimal-reads precision scale hp hs =
      let rest : String = join (to_string precision) (join ", " (join (to_string scale) ")")) in
      rw (plain_type-none b'(' 7 (join "decimal(" rest) refl no_parenthesis)
        (decimal-reads (join "decimal(" rest) precision scale hp hs)

  named :
      (name text : String) (type : LogicalType)
      → type_to_logical_type cast name ≡ ok type
      → ok name ≡ ok text
      → type_to_logical_type cast text ≡ ok type
  named name text type h e = let same : name ≡ text = cc in rw (← same) h

  -- Round trip: the text that `LogicalToIcebergType` gives a type, if it gives one, is read by
  -- `TypeToLogicalType` as that type, or as the signed type for an unsigned one. Of a decimal the
  -- width and the scale are bytes; the conversions write and read bytes, the second one with a
  -- blank before it, and print neither ',' nor ')'.
  pub type_to_logical_type-logical_to_iceberg_type :
      (t : LogicalType) (text : String)
      → FitsBytes t
      → logical_to_iceberg_type to_string t ≡ ok text
      → type_to_logical_type cast text ≡ ok (stored_type t)
  unfolding logical_to_iceberg_type type_to_logical_type
  type_to_logical_type-logical_to_iceberg_type tinyint text f h = named "tinyint" text _ refl h
  type_to_logical_type-logical_to_iceberg_type utinyint text f h = named "tinyint" text _ refl h
  type_to_logical_type-logical_to_iceberg_type smallint text f h = named "smallint" text _ refl h
  type_to_logical_type-logical_to_iceberg_type usmallint text f h = named "smallint" text _ refl h
  type_to_logical_type-logical_to_iceberg_type integer text f h = named "int" text _ refl h
  type_to_logical_type-logical_to_iceberg_type uinteger text f h = named "int" text _ refl h
  type_to_logical_type-logical_to_iceberg_type bigint text f h = named "long" text _ refl h
  type_to_logical_type-logical_to_iceberg_type ubigint text f h = named "long" text _ refl h
  type_to_logical_type-logical_to_iceberg_type varchar text f h = named "string" text _ refl h
  type_to_logical_type-logical_to_iceberg_type double text f h = named "double" text _ refl h
  type_to_logical_type-logical_to_iceberg_type float text f h = named "float" text _ refl h
  type_to_logical_type-logical_to_iceberg_type boolean text f h = named "boolean" text _ refl h
  type_to_logical_type-logical_to_iceberg_type timestamp text f h = named "timestamp" text _ refl h
  type_to_logical_type-logical_to_iceberg_type timestamp_tz text f h =
      named "timestamptz" text _ refl h
  type_to_logical_type-logical_to_iceberg_type blob text f h = named "binary" text _ refl h
  type_to_logical_type-logical_to_iceberg_type date text f h = named "date" text _ refl h
  type_to_logical_type-logical_to_iceberg_type (decimal precision scale) text f h =
      named _ text _
        (rw (decimal_printed precision scale) (parse_decimal-reads precision scale f.0 f.1)) h
  type_to_logical_type-logical_to_iceberg_type _ text f h = cc
