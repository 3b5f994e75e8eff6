-- ===== src/TypeText/Trailing.antt =====
-- A map that ends in ',': the search for the end of its second child starts on the closing bracket,
-- and so never meets it.
use duckdb_iceberg.Common.{
  join, join_assoc, length-join, ℕ, suc, ◌+◌, ◌-◌, ◌≡◌, refl, ap, ◌∙◌, String, Result, ok, throw,
  undefined_behaviour, arith, ◌>>=◌, text_length, find_char,
}
use duckdb_iceberg.Schema.ColumnTypes.{LogicalType}
use duckdb_iceberg.TypeText.Segments.{next_separator, children_loop}
use duckdb_iceberg.TypeText.Parser.{
  key_and_value, parse_map_types, parse_text, type_to_logical_type,
}
use duckdb_iceberg.TypeText.Written.{bracketed, type_text, IsWritten}
use duckdb_iceberg.TypeText.Balanced.{brackets, type_text-IsWalked}
use duckdb_iceberg.TypeText.Loops.{children_loop-more}
use duckdb_iceberg.TypeText.Reads.{rfind_char-body}
use duckdb_iceberg.TypeText.RoundTrip.{nested-reads, opened_map, type_text-reads}

module _ (parse : String → Result LogicalType) (key : LogicalType) (written : IsWritten key)
    (key_reads : parse (type_text key) ≡ ok key) where
  children_loop-past :
      (rounds opens closes : ℕ)
      → children_loop (suc rounds) parse 0 opens closes ">" ≡ throw undefined_behaviour
  unfolding children_loop next_separator
  children_loop-past rounds opens closes = refl

  loop_runs_past :
      (rounds : ℕ)
      → let body = join (type_text key) "," in
        children_loop (suc (suc rounds)) parse (text_length body) 0 0 (join body ">")
        ≡ throw undefined_behaviour
  loop_runs_past rounds =
      let (sk, opens_k, closes_k) = type_text-IsWalked key written 0 0 (omega arith) in
      rw (length-join (type_text key) ",", join_assoc (type_text key) "," ">")
        (children_loop-more parse (suc rounds) 0 0 0 _ _ (type_text key) ">" sk opens_k closes_k
            (omega arith)
          ∙ rw (key_reads, children_loop-past rounds (0 + brackets key) (0 + brackets key)))

  parse_map_types-past :
      (text : String)
      → parse_map_types parse text (join (join (type_text key) ",") ">") ≡ throw undefined_behaviour
  unfolding parse_map_types
  parse_map_types-past text =
      let body : String = join (type_text key) "," in
      let n : ℕ = text_length (join body ">") in
      let e : n ≡ suc (n - 1) = omega (arith, length-join body ">") in
      rw (rfind_char-body body) (
        ap
          (λ m.
            children_loop (suc m) parse (text_length body) 0 0 (join body ">") >>= key_and_value)
          e
        ∙ rw (loop_runs_past (n - 1)))

-- Error: on a map with a written type as its key and an empty text as its value, the search for the
-- end of the value starts on the closing bracket, and runs past the end of the text.
pub type_to_logical_type_trailing :
    (cast : String → Result ℕ) (key : LogicalType)
    → IsWritten key
    → type_to_logical_type cast (bracketed "map<" (join (type_text key) ","))
      ≡ throw undefined_behaviour
unfolding type_to_logical_type find_char
type_to_logical_type_trailing cast key w =
    let body : String = join (type_text key) "," in
    let text : String = bracketed "map<" body in
    let inner = length-join (type_text key) "," in
    let outer = length-join body ">" in
    let n : ℕ = text_length text - 1 in
    let e : text_length text ≡ suc n = omega arith in
    ap (λ m. parse_text cast (suc m) text) e
    ∙ nested-reads cast 3 (suc n) text refl
    ∙ opened_map cast (parse_text cast (suc n)) body
    ∙ parse_map_types-past (parse_text cast (suc n)) key w
        (type_text-reads cast key w (suc n) (omega (arith, inner, outer))) text
