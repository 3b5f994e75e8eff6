-- ===== src/TypeText/RoundTrip.antt =====
-- `TypeToLogicalType` reads what a type is written as.
use duckdb_iceberg.Common.{
  join, length-join, ℕ, zero, suc, ◌<◌, ◌≡◌, refl, ◌∙◌, String, some, Result, ok, arith,
  text_length, find_char, strip_prefix,
}
use duckdb_iceberg.Schema.ColumnTypes.{
  LogicalType, Children, boolean, tinyint, smallint, integer, bigint, float, double, date,
  timestamp, timestamp_tz, varchar, blob, list, map, struct, nil, child,
}
use duckdb_iceberg.TypeText.Names.{plain_type}
use duckdb_iceberg.TypeText.Parser.{
  parse_array, parse_map_types, parse_struct_types, parse_nested, parse_text, type_to_logical_type,
}
use duckdb_iceberg.TypeText.Written.{bracketed, type_text, fields_text, IsWritten, AreWritten}
use duckdb_iceberg.TypeText.Loops.{AreRead}
use duckdb_iceberg.TypeText.Reads.{
  plain_type-none, no_angle, parse_array-reads, parse_map_types-reads, parse_struct_types-reads,
}

module _ (cast : String → Result ℕ) where
  plain-reads :
      (t : LogicalType) (rounds : ℕ)
      → plain_type (type_text t) ≡ some t
      → text_length (type_text t) < rounds
      → parse_text cast rounds (type_text t) ≡ ok t
  unfolding parse_text
  plain-reads t zero h l = absurd (omega arith)
  plain-reads t (suc f) h l = rw h

  -- A text with a '<' is read by its first word.
  pub nested-reads :
      (i f : ℕ) (text : String)
      → find_char b'<' text ≡ some i
      → parse_text cast (suc f) text ≡ parse_nested cast (parse_text cast f) text
  unfolding parse_text find_char
  nested-reads i f text h = rw (plain_type-none b'<' i text h no_angle)

  opened_array :
      (parse : String → Result LogicalType) (body : String)
      → let text = bracketed "array<" body in
        parse_nested cast parse text ≡ parse_array parse text (join body ">")
  unfolding parse_nested strip_prefix
  opened_array parse body = refl

  pub opened_map :
      (parse : String → Result LogicalType) (body : String)
      → let text = bracketed "map<" body in
        parse_nested cast parse text ≡ parse_map_types parse text (join body ">")
  unfolding parse_nested strip_prefix
  opened_map parse body = refl

  opened_struct :
      (parse : String → Result LogicalType) (body : String)
      → let text = bracketed "struct<" body in
        parse_nested cast parse text ≡ parse_struct_types parse text (join body ">")
  unfolding parse_nested strip_prefix
  opened_struct parse body = refl

  mutual
    unfolding plain_type find_char

    pub type_text-reads :
        (t : LogicalType)
        → IsWritten t
        → (rounds : ℕ) → text_length (type_text t) < rounds
        → parse_text cast rounds (type_text t) ≡ ok t
    type_text-reads tinyint h rounds l = plain-reads tinyint rounds refl l
    type_text-reads smallint h rounds l = plain-reads smallint rounds refl l
    type_text-reads integer h rounds l = plain-reads integer rounds refl l
    type_text-reads bigint h rounds l = plain-reads bigint rounds refl l
    type_text-reads varchar h rounds l = plain-reads varchar rounds refl l
    type_text-reads double h rounds l = plain-reads double rounds refl l
    type_text-reads float h rounds l = plain-reads float rounds refl l
    type_text-reads boolean h rounds l = plain-reads boolean rounds refl l
    type_text-reads timestamp h rounds l = plain-reads timestamp rounds refl l
    type_text-reads timestamp_tz h rounds l = plain-reads timestamp_tz rounds refl l
    type_text-reads blob h rounds l = plain-reads blob rounds refl l
    type_text-reads date h rounds l = plain-reads date rounds refl l
    type_text-reads (list type) h zero l = absurd (omega arith)
    type_text-reads (list type) h (suc f) l =
        nested-reads 5 f (type_text (list type)) refl
        ∙ opened_array (parse_text cast f) (type_text type)
        ∙ parse_array-reads (parse_text cast f) _ type
            (type_text-reads type h f (omega (arith, length-join (type_text type) ">")))
    type_text-reads (map key value) h zero l = absurd (omega arith)
    type_text-reads (map key value) h (suc f) l =
        let inner = length-join (type_text key) (join "," (type_text value)) in
        let outer = length-join (join (type_text key) (join "," (type_text value))) ">" in
        nested-reads 3 f (type_text (map key value)) refl
        ∙ opened_map (parse_text cast f) (join (type_text key) (join "," (type_text value)))
        ∙ parse_map_types-reads (parse_text cast f) _ key value h.0 h.1
            (type_text-reads key h.0 f (omega (arith, inner, outer)))
            (type_text-reads value h.1 f (omega (arith, inner, outer)))
    type_text-reads (struct cs) h zero l = absurd (omega arith)
    type_text-reads (struct (child name type cs)) h (suc f) l =
        nested-reads 6 f (type_text (struct (child name type cs))) refl
        ∙ opened_struct (parse_text cast f) (fields_text (child name type cs))
        ∙ parse_struct_types-reads (parse_text cast f) _ name type cs h (
            fields_text-AreRead (child name type cs) h f
              (omega (arith, length-join (fields_text (child name type cs)) ">")))
    type_text-reads _ h rounds l = absurd h

    fields_text-AreRead :
        (cs : Children)
        → AreWritten cs
        → (rounds : ℕ) → text_length (fields_text cs) < rounds
        → AreRead (parse_text cast rounds) cs
    fields_text-AreRead nil h rounds l = tt
    fields_text-AreRead (child name type nil) h rounds l =
        let field = length-join name (join ":" (type_text type)) in
        (type_text-reads type h.1 rounds (omega (arith, field)), tt)
    fields_text-AreRead (child name type (child n t cs)) h rounds l =
        let field = length-join name (join ":" (type_text type)) in
        let both =
          length-join (join name (join ":" (type_text type)))
            (join "," (fields_text (child n t cs))) in
        (
          type_text-reads type h.1 rounds (omega (arith, field, both)),
          fields_text-AreRead (child n t cs) h.2 rounds (omega (arith, field, both)),
        )

  -- Round trip: `TypeToLogicalType` reads a type that is written with its brackets as that type:
  -- every type of names, arrays, maps and structs of one field at least, nested at will, if the
  -- names of fields hold no ',', ':', '<' or '>'.
  pub type_to_logical_type-type_text :
      (t : LogicalType) → IsWritten t → type_to_logical_type cast (type_text t) ≡ ok t
  unfolding type_to_logical_type
  type_to_logical_type-type_text t h =
      type_text-reads t h (suc (text_length (type_text t))) (omega arith)
