-- ===== src/TypeText/Reads.antt =====
-- What the parsers of names, arrays, maps and structs come back with on a written type.
use duckdb_iceberg.Common.{
  join, length-join, rfind_char-join, take_text-join, ℕ, suc, ◌-◌, All, ◌<◌, ◌≡◌, refl, ap, ◌∙◌,
  String, false, inl, inr, none, some, List, [], ◌∷◌, Result, ok, ◌>>=◌, arith, ◌==◌, eq_iff,
  Bool-cases, text_length, find_char, rfind_char,
}
use duckdb_iceberg.Schema.ColumnTypes.{LogicalType, Children, list, map, struct, child}
use duckdb_iceberg.TypeText.Names.{plain_type}
use duckdb_iceberg.TypeText.Segments.{children_loop}
use duckdb_iceberg.TypeText.Parser.{parse_array, parse_map_types, parse_struct_types, key_and_value}
use duckdb_iceberg.TypeText.Written.{type_text, fields_text, IsWritten, AreWritten}
use duckdb_iceberg.TypeText.Loops.{children_loop-pair, fields_loop, to_children-entries, AreRead}

-- A text with a '<' is none without.
pub other_text :
    (wanted i : ℕ) (text name : String)
    → find_char wanted text ≡ some i
    → find_char wanted name ≡ none
    → (text == name) ≡ false
other_text wanted i text name h k = elim (Bool-cases (text == name)) [
  | inl e ↦ let same = (eq_iff text name).0 e in cc
  | inr e ↦ e
]

abbrev pub plain_names : List String
plain_names =
    "tinyint" ∷ "smallint" ∷ "bigint" ∷ "int" ∷ "long" ∷ "string" ∷ "double" ∷ "float" ∷ "boolean"
    ∷ "timestamp" ∷ "timestamptz" ∷ "binary" ∷ "date" ∷ []

pub plain_type-none :
    (wanted i : ℕ) (text : String)
    → find_char wanted text ≡ some i
    → All (λ name. find_char wanted name ≡ none) plain_names
    → plain_type text ≡ none
unfolding plain_type
plain_type-none wanted i text h k = rw (
  other_text wanted i text "tinyint" h k.0,
  other_text wanted i text "smallint" h k.1.0,
  other_text wanted i text "bigint" h k.1.1.0,
  other_text wanted i text "int" h k.1.1.1.0,
  other_text wanted i text "long" h k.1.1.1.1.0,
  other_text wanted i text "string" h k.1.1.1.1.1.0,
  other_text wanted i text "double" h k.1.1.1.1.1.1.0,
  other_text wanted i text "float" h k.1.1.1.1.1.1.1.0,
  other_text wanted i text "boolean" h k.1.1.1.1.1.1.1.1.0,
  other_text wanted i text "timestamp" h k.1.1.1.1.1.1.1.1.1.0,
  other_text wanted i text "timestamptz" h k.1.1.1.1.1.1.1.1.1.1.0,
  other_text wanted i text "binary" h k.1.1.1.1.1.1.1.1.1.1.1.0,
  other_text wanted i text "date" h k.1.1.1.1.1.1.1.1.1.1.1.1.0,
)

pub rfind_char-body : (body : String) → rfind_char b'>' (join body ">") ≡ some (text_length body)
unfolding rfind_char
rfind_char-body body = rfind_char-join b'>' 0 body ">" refl ∙ ap some (omega arith)

pub type_text-nonempty : (t : LogicalType) → IsWritten t → 0 < text_length (type_text t)
type_text-nonempty (list type) h = omega arith
type_text-nonempty (map key value) h = omega arith
type_text-nonempty (struct cs) h = omega arith
type_text-nonempty _ h = ground arith

module _ (parse : String → Result LogicalType) (type_text' : String) where
  pub parse_array-reads :
      (type : LogicalType)
      → parse (type_text type) ≡ ok type
      → parse_array parse type_text' (join (type_text type) ">") ≡ ok (list type)
  unfolding parse_array
  parse_array-reads type h =
      rw (rfind_char-body (type_text type), take_text-join (type_text type) ">", h)

  pub parse_map_types-reads :
      (key value : LogicalType)
      → IsWritten key
      → IsWritten value
      → parse (type_text key) ≡ ok key
      → parse (type_text value) ≡ ok value
      → parse_map_types parse type_text'
          (join (join (type_text key) (join "," (type_text value))) ">")
        ≡ ok (map key value)
  unfolding parse_map_types
  parse_map_types-reads key value wk wv h k =
      let body : String = join (type_text key) (join "," (type_text value)) in
      let some_left : 0 < text_length (join body ">") = omega (arith, length-join body ">") in
      let e : text_length (join body ">") ≡ suc (text_length (join body ">") - 1) = omega arith in
      rw (rfind_char-body body) (
        ap
          (λ m.
            children_loop (suc m) parse (text_length body) 0 0 (join body ">") >>= key_and_value)
          e
        ∙ rw (
            children_loop-pair parse key value (text_length (join body ">") - 1) ">" wk wv h k
              (type_text-nonempty value wv)))

  pub parse_struct_types-reads :
      (name : String) (type : LogicalType) (cs : Children)
      → AreWritten (child name type cs)
      → AreRead parse (child name type cs)
      → parse_struct_types parse type_text' (join (fields_text (child name type cs)) ">")
        ≡ ok (struct (child name type cs))
  unfolding parse_struct_types
  parse_struct_types-reads name type cs w r =
      let body : String = fields_text (child name type cs) in
      rw (
        rfind_char-body body,
        fields_loop parse name type cs (suc (text_length (join body ">"))) 0 0 ">" w r refl
            (omega (arith, length-join body ">")),
        to_children-entries (child name type cs),
      )

-- No name holds a bracket.
pub no_angle : All (λ name. find_char b'<' name ≡ none) plain_names
unfolding find_char
no_angle = (
  refl,
  (
    refl,
    (refl, (refl, (refl, (refl, (refl, (refl, (refl, (refl, (refl, (refl, (refl, tt))))))))))),
  ),
)

pub no_parenthesis : All (λ name. find_char b'(' name ≡ none) plain_names
unfolding find_char
no_parenthesis = (
  refl,
  (
    refl,
    (refl, (refl, (refl, (refl, (refl, (refl, (refl, (refl, (refl, (refl, (refl, tt))))))))))),
  ),
)
