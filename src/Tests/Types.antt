-- ===== src/Tests/Types.antt =====
-- The texts of types.
use Prim.Native.Char.{code}
use text.Mathlib.TextLemmas.{nil-append, cons-append}
use duckdb_iceberg.Common.{
  undefined_behaviour, ℕ, zero, suc, ◌<◌, ◌≡◌, refl, ap, arith, String, none, Result, ok, throw,
  not_implemented, ◌+++◌, eqb, if◌then◌else◌, find_char,
}
use duckdb_iceberg.Schema.ColumnTypes.{
  LogicalType, integer, bigint, varchar, decimal, list, map, struct, nil, child,
}
use duckdb_iceberg.TypeText.Names.{logical_to_iceberg_type}
use duckdb_iceberg.TypeText.Parser.{type_to_logical_type}
use duckdb_iceberg.TypeText.Written.{type_text}
use duckdb_iceberg.TypeText.Completion.{Completes, type_to_logical_type-Completes}
use duckdb_iceberg.TypeText.RoundTrip.{type_to_logical_type-type_text}
use duckdb_iceberg.TypeText.Printed.{type_to_logical_type-logical_to_iceberg_type}
use duckdb_iceberg.TypeText.Trailing.{type_to_logical_type_trailing}
use duckdb_iceberg.TypeText.Decimals.{type_to_logical_type_decimal}

-- Numbers written with strokes, which are read past a blank.
strokes : ℕ → String
strokes zero = ""
strokes (suc n) = String.◌∷◌ "1" (strokes n)

count_strokes : String → ℕ
count_strokes String.[] = 0
count_strokes (String.◌∷◌ c s) =
    if eqb (code c) b'1' then suc (count_strokes s) else count_strokes s

read_strokes : String → Result ℕ
unfolding count_strokes
read_strokes s = ok (count_strokes s)

strokes-comma : (n : ℕ) → find_char b',' (strokes n) ≡ none
unfolding strokes find_char
strokes-comma zero = refl
strokes-comma (suc n) = rw (strokes-comma n)

strokes-bracket : (n : ℕ) → find_char b')' (strokes n) ≡ none
unfolding strokes find_char
strokes-bracket zero = refl
strokes-bracket (suc n) = rw (strokes-bracket n)

count_strokes-strokes : (n : ℕ) → count_strokes (strokes n) ≡ n
unfolding strokes count_strokes
count_strokes-strokes zero = refl
count_strokes-strokes (suc n) = ap suc (count_strokes-strokes n)

strokes-reads : (n : ℕ) → n < 256 → read_strokes (strokes n) ≡ ok n
unfolding read_strokes
strokes-reads n h = ap (λ m. ok m) (count_strokes-strokes n)

strokes-blank : (n : ℕ) → n < 256 → read_strokes (" " +++ strokes n) ≡ ok n
unfolding read_strokes
strokes-blank n h = rw (cons-append " " "" (strokes n), nil-append (strokes n)) (strokes-reads n h)

abbrev nested : LogicalType
nested = map varchar (list (struct (child "a" integer (child "b" (map bigint varchar) nil))))

-- The text that is read.
nested_text : type_text nested ≡ "map<string,array<struct<a:int,b:map<long,string>>>>"
nested_text = refl

type_to_logical_type-type_text_example :
    type_to_logical_type read_strokes (type_text nested) ≡ ok nested
type_to_logical_type-type_text_example =
    type_to_logical_type-type_text read_strokes nested (tt, (refl, tt, (refl, (tt, tt), tt)))

type_to_logical_type-Completes_example :
    Completes (type_to_logical_type read_strokes "struct<a:int,b:map<long,string>>")
unfolding read_strokes
type_to_logical_type-Completes_example =
    type_to_logical_type-Completes read_strokes (λ t. tt) "struct<a:int,b:map<long,string>>"
      (
        refl,
        (
          refl,
          (
            refl,
            (
              refl,
              (
                refl,
                (
                  refl,
                  (
                    refl,
                    (
                      refl,
                      (
                        refl,
                        (
                          refl,
                          (
                            refl,
                            (
                              refl,
                              (
                                refl,
                                (
                                  refl,
                                  (
                                    refl,
                                    (
                                      refl,
                                      (
                                        refl,
                                        (
                                          refl,
                                          (
                                            refl,
                                            (
                                              refl,
                                              (
                                                refl,
                                                (
                                                  refl,
                                                  (
                                                    refl,
                                                    (
                                                      refl,
                                                      (
                                                        refl,
                                                        (
                                                          refl,
                                                          (
                                                            refl,
                                                            (
                                                            refl,
                                                            (refl, (refl, (refl, (refl, tt)))),
                                                            ),
                                                          ),
                                                        ),
                                                      ),
                                                    ),
                                                  ),
                                                ),
                                              ),
                                            ),
                                          ),
                                        ),
                                      ),
                                    ),
                                  ),
                                ),
                              ),
                            ),
                          ),
                        ),
                      ),
                    ),
                  ),
                ),
              ),
            ),
          ),
        ),
      )

type_to_logical_type-logical_to_iceberg_type_example :
    type_to_logical_type read_strokes "decimal(111, 1)" ≡ ok (decimal 3 1)
unfolding logical_to_iceberg_type strokes
type_to_logical_type-logical_to_iceberg_type_example =
    type_to_logical_type-logical_to_iceberg_type read_strokes strokes strokes-comma strokes-bracket
      strokes-reads strokes-blank (decimal 3 1) "decimal(111, 1)" (omega arith) refl

type_to_logical_type_decimal_example :
    type_to_logical_type read_strokes "map<int,decimal(10, 2)>"
    ≡ throw (not_implemented "Tried to fallback to unknown type for '%s'")
unfolding find_char
type_to_logical_type_decimal_example =
    type_to_logical_type_decimal read_strokes integer "10" " 2)" tt refl refl

type_to_logical_type_trailing_example :
    type_to_logical_type read_strokes "map<int,>" ≡ throw undefined_behaviour
type_to_logical_type_trailing_example = type_to_logical_type_trailing read_strokes integer tt
