-- ===== src/TypeText/Parser.antt =====
-- src/catalog_utils.cpp: `TypeToLogicalType`, the parser of type texts.
use duckdb_iceberg.TypeText.Names.{plain_type}
use duckdb_iceberg.TypeText.Segments.{children_loop}
use duckdb_iceberg.Common.{
  if_found, ℕ, zero, suc, ◌-◌, String, Option, none, some, List, [], ◌∷◌, Result, ok, throw,
  not_implemented, out_of_fuel, ◌>>=◌, ltb, if◌then◌else◌, ◌+++◌, text_length, take_text, drop_text,
  strip_prefix, find_char, rfind_char,
}
use duckdb_iceberg.Schema.ColumnTypes.{
  LogicalType, Children, decimal, list, map, struct, nil, child,
}

abbrev pub unknown_type : String → Result LogicalType
unknown_type type_text = throw (not_implemented "Tried to fallback to unknown type for '%s'")

abbrev pub key_and_value : List LogicalType → Result LogicalType
key_and_value (key ∷ value ∷ []) = ok (map key value)
key_and_value _ = throw (not_implemented "Invalid map specification with %i types")

abbrev pub to_children : List (String × LogicalType) → Children
to_children [] = nil
to_children ((name, type) ∷ cs) = child name type (to_children cs)

-- The width and the scale, whether or not a ',' stands before the ')'. A length that is computed
-- below zero goes to the end of the text.
unfoldable pub decimal_digits : String → ℕ → Option ℕ → String × String
decimal_digits s spec_end none = (s, "decimal(" +++ take_text spec_end s)
decimal_digits s spec_end (some sep) = (
  take_text sep s,
  if ltb sep spec_end
      then take_text (spec_end - sep - 1) (drop_text (suc sep) s)
      else drop_text (suc sep) s,
)

-- The body of `array<…>`, up to the last '>'.
unfoldable pub parse_array : (String → Result LogicalType) → String → String → Result LogicalType
parse_array parse type_text s =
    if_found (rfind_char b'>' s) (unknown_type type_text)
      λ type_end. parse (take_text type_end s) >>= λ child_type. ok (list child_type)

unfoldable pub parse_map_types :
    (String → Result LogicalType) → String → String → Result LogicalType
unfolding children_loop
parse_map_types parse type_text s =
    if_found (rfind_char b'>' s) (unknown_type type_text)
      λ type_end. children_loop (suc (text_length s)) parse type_end 0 0 s >>= key_and_value

unfoldable pub parse_field : (String → Result LogicalType) → String → Result (String × LogicalType)
parse_field parse child_str =
    if_found (find_char b':' child_str)
      (throw (not_implemented "Invalid struct child type specifier: %s"))
      λ type_sep. parse (drop_text (suc type_sep) child_str) >>= λ child_type.
        ok (take_text type_sep child_str, child_type)

unfoldable pub parse_struct_types :
    (String → Result LogicalType) → String → String → Result LogicalType
unfolding children_loop parse_field
parse_struct_types parse type_text s =
    if_found (rfind_char b'>' s) (unknown_type type_text) λ type_end.
      children_loop (suc (text_length s)) (parse_field parse) type_end 0 0 s >>= λ children.
      ok (struct (to_children children))

-- `Cast::Operation<string_t, uint8_t>` is `cast`.
module _ (cast : String → Result ℕ) where
  unfoldable pub parse_decimal_spec : String → String → Result LogicalType
  unfolding decimal_digits
  parse_decimal_spec type_text s = if_found (find_char b')' s) (unknown_type type_text) λ spec_end.
      do
        let digits = decimal_digits s spec_end (find_char b',' s)
        precision ← cast digits.0
        scale ← cast digits.1
        ok (decimal precision scale)

  -- The texts that hold others, told apart by how they begin.
  unfoldable pub parse_nested : (String → Result LogicalType) → String → Result LogicalType
  unfolding parse_decimal_spec parse_array parse_map_types parse_struct_types
  parse_nested parse type_text =
      if_found (strip_prefix "decimal(" type_text)
        (if_found (strip_prefix "array<" type_text)
          (if_found (strip_prefix "map<" type_text)
            (if_found (strip_prefix "struct<" type_text) (unknown_type type_text)
              (parse_struct_types parse type_text))
            (parse_map_types parse type_text))
          (parse_array parse type_text))
        (parse_decimal_spec type_text)

  -- `TypeToLogicalType`, by the rounds that its recursion may take.
  unfoldable pub parse_text : ℕ → String → Result LogicalType
  unfolding plain_type parse_nested
  parse_text zero type_text = throw out_of_fuel
  parse_text (suc rounds) type_text =
      if_found (plain_type type_text) (parse_nested (parse_text rounds) type_text) (λ type. ok type)

  -- A text is longer than each that stands in it.
  unfoldable pub type_to_logical_type : String → Result LogicalType
  unfolding parse_text
  type_to_logical_type type_text = parse_text (suc (text_length type_text)) type_text
