-- ===== src/TypeText/Decimals.antt =====
-- A decimal as the value of a map: its ',' stands in no angle brackets, and is taken for the end of
-- a child.
use duckdb_iceberg.Common.{
  join, join_assoc, length-join, ℕ, suc, ◌+◌, ◌-◌, ◌≡◌, refl, ap, ◌∙◌, String, true, none, Result,
  ok, throw, not_implemented, arith, ◌>>=◌, text_length, find_char, strip_prefix,
}
use duckdb_iceberg.Schema.ColumnTypes.{LogicalType}
use duckdb_iceberg.TypeText.Segments.{children_loop}
use duckdb_iceberg.TypeText.Parser.{
  unknown_type, key_and_value, parse_decimal_spec, parse_map_types, parse_nested, parse_text,
  type_to_logical_type,
}
use duckdb_iceberg.TypeText.Written.{bracketed, type_text, IsWritten, is_plain}
use duckdb_iceberg.TypeText.Balanced.{brackets, is_plain-IsWalked, type_text-IsWalked}
use duckdb_iceberg.TypeText.Loops.{children_loop-more}
use duckdb_iceberg.TypeText.Reads.{plain_type-none, no_parenthesis, rfind_char-body}
use duckdb_iceberg.TypeText.RoundTrip.{nested-reads, opened_map, type_text-reads}

abbrev pub decimal_value : String → String → String
decimal_value precision scale = join (join "decimal(" precision) (join "," scale)

-- The child that ends at the ',' of the decimal.
half_decimal :
    (cast : String → Result ℕ) (f : ℕ) (precision : String)
    → find_char b')' precision ≡ none
    → parse_text cast (suc f) (join "decimal(" precision) ≡ unknown_type (join "decimal(" precision)
unfolding parse_text parse_nested parse_decimal_spec strip_prefix find_char
half_decimal cast f precision h =
    rw (plain_type-none b'(' 7 (join "decimal(" precision) refl no_parenthesis, h)

module _ (parse : String → Result LogicalType) (key : LogicalType)
    (precision scale type_text' : String) (written : IsWritten key)
    (plain : is_plain precision ≡ true) (key_reads : parse (type_text key) ≡ ok key)
    (value_fails : parse (join "decimal(" precision)
      ≡ unknown_type (join "decimal(" precision)) where
  loop_fails :
      (rounds : ℕ) (rest : String)
      → let body = join (type_text key) (join "," (decimal_value precision scale)) in
        children_loop (suc (suc rounds)) parse (text_length body) 0 0 (join body rest)
        ≡ throw (not_implemented "Tried to fallback to unknown type for '%s'")
  loop_fails rounds rest =
      let half : String = join "decimal(" precision in
      let (sk, opens_k, closes_k) = type_text-IsWalked key written 0 0 (omega arith) in
      let (sh, opens_h, closes_h) =
        is_plain-IsWalked half plain (0 + brackets key) (0 + brackets key) (omega arith) in
      let l = length-join (type_text key) (join "," (decimal_value precision scale)) in
      let m = length-join half (join "," scale) in
      rw
        (
          l,
          m,
          join_assoc (type_text key) (join "," (decimal_value precision scale)) rest,
          join_assoc half (join "," scale) rest,
        )
        (children_loop-more parse (suc rounds) (text_length half + suc (text_length scale)) 0 0 _ _
            (type_text key) (join half (join "," (join scale rest))) sk opens_k closes_k
            (omega arith)
          ∙ rw (
            key_reads,
            children_loop-more parse rounds (text_length scale) (0 + brackets key)
                (0 + brackets key) _ _ half (join scale rest) sh opens_h closes_h (omega arith),
            value_fails,
          ))

  parse_map_types-fails :
      let body = join (type_text key) (join "," (decimal_value precision scale)) in
      parse_map_types parse type_text' (join body ">")
      ≡ throw (not_implemented "Tried to fallback to unknown type for '%s'")
  unfolding parse_map_types
  parse_map_types-fails =
      let body : String = join (type_text key) (join "," (decimal_value precision scale)) in
      let n : ℕ = text_length (join body ">") in
      let e : n ≡ suc (n - 1) = omega (arith, length-join body ">") in
      rw (rfind_char-body body) (
        ap
          (λ m.
            children_loop (suc m) parse (text_length body) 0 0 (join body ">") >>= key_and_value)
          e
        ∙ rw (loop_fails (n - 1) ">"))

-- Error: a map whose key is a written type and whose value is a decimal throws, if the text of the
-- precision holds no separator and no ')': the decimal's ',' is taken for the end of a child.
pub type_to_logical_type_decimal :
    (cast : String → Result ℕ) (key : LogicalType) (precision scale : String)
    → IsWritten key
    → is_plain precision ≡ true
    → find_char b')' precision ≡ none
    → type_to_logical_type cast
        (bracketed "map<" (join (type_text key) (join "," (decimal_value precision scale))))
      ≡ throw (not_implemented "Tried to fallback to unknown type for '%s'")
unfolding type_to_logical_type find_char
type_to_logical_type_decimal cast key precision scale w p h =
    let value : String = decimal_value precision scale in
    let body : String = join (type_text key) (join "," value) in
    let text : String = bracketed "map<" body in
    let inner = length-join (type_text key) (join "," value) in
    let outer = length-join body ">" in
    let n : ℕ = text_length text - 1 in
    let e : text_length text ≡ suc n = omega arith in
    ap (λ m. parse_text cast (suc m) text) e
    ∙ nested-reads cast 3 (suc n) text refl
    ∙ opened_map cast (parse_text cast (suc n)) body
    ∙ parse_map_types-fails (parse_text cast (suc n)) key precision scale text w p
        (type_text-reads cast key w (suc n) (omega (arith, inner, outer)))
        (half_decimal cast n precision h)
