-- ===== src/TypeText/Loops.antt =====
-- What the loops over the children of a written map or struct come back with.
use duckdb_iceberg.Common.{
  drop_text-join, join, join_assoc, length-join, take_text-join, ℕ, zero, suc, ◌+◌, ◌≤◌, ◌<◌, ◌≡◌,
  refl, ap, ◌∙◌, String, true, not, some, List, [], ◌∷◌, Result, ok, ◌>>=◌, arith, text_length,
  find_char,
}
use duckdb_iceberg.Schema.ColumnTypes.{LogicalType, Children, nil, child}
use duckdb_iceberg.TypeText.Segments.{children_loop}
use duckdb_iceberg.TypeText.Parser.{parse_field, to_children}
use duckdb_iceberg.TypeText.Written.{
  type_text, fields_text, is_plain, is_separator, IsWritten, AreWritten,
}
use duckdb_iceberg.TypeText.Walk.{
  opens_after, closes_after, skips, &&-true, next_separator-walks, next_separator-ends,
  next_separator-comma,
}
use duckdb_iceberg.TypeText.Balanced.{brackets, field-IsWalked, type_text-IsWalked}

join_nil : (s : String) → join s "" ≡ s
join_nil String.[] = refl
join_nil (String.◌∷◌ c s) = ap (String.◌∷◌ c) (join_nil s)

module _ {A : Type 0} (parse_child : String → Result A) where
  pub children_loop-last :
      (rounds opens closes : ℕ) (s rest : String)
      → 0 < text_length s
      → skips opens closes s ≡ true
      → children_loop (suc rounds) parse_child (text_length s) opens closes (join s rest)
        ≡ (parse_child s >>= λ parsed. ok (parsed ∷ []))
  unfolding children_loop
  children_loop-last rounds opens closes String.[] rest h k = absurd (omega arith)
  children_loop-last rounds opens closes (String.◌∷◌ c s) rest h k =
      rw (next_separator-ends c s opens closes rest k)

  pub children_loop-more :
      (rounds left opens closes opens' closes' : ℕ) (s rest : String)
      → skips opens closes s ≡ true
      → opens_after opens s ≡ opens'
      → closes_after closes s ≡ closes'
      → opens' ≤ closes'
      → children_loop
          (suc rounds)
          parse_child
          (text_length s + suc left)
          opens
          closes
          (join s (join "," rest))
        ≡ (parse_child s >>= λ parsed.
            children_loop rounds parse_child left opens' closes' rest >>= λ others.
            ok (parsed ∷ others))
  unfolding children_loop
  children_loop-more rounds left opens closes opens' closes' s rest k o c h = rw (
    next_separator-walks s left opens closes (join "," rest) k,
    o,
    c,
    next_separator-comma left opens' closes' rest h,
    join_nil s,
  )

-- The two children of a map.
pub children_loop-pair :
    (parse : String → Result LogicalType) (key value : LogicalType) (rounds : ℕ) (rest : String)
    → IsWritten key
    → IsWritten value
    → parse (type_text key) ≡ ok key
    → parse (type_text value) ≡ ok value
    → 0 < text_length (type_text value)
    → let body = join (type_text key) (join "," (type_text value)) in
      children_loop (suc (suc rounds)) parse (text_length body) 0 0 (join body rest)
      ≡ ok (key ∷ value ∷ [])
children_loop-pair parse key value rounds rest wk wv h k pos =
    let (sk, ok_, ck) = type_text-IsWalked key wk 0 0 (omega arith) in
    let (sv, ov, cv) =
      type_text-IsWalked value wv (0 + brackets key) (0 + brackets key) (omega arith) in
    let l = length-join (type_text key) (join "," (type_text value)) in
    rw (l, join_assoc (type_text key) (join "," (type_text value)) rest)
      (children_loop-more parse (suc rounds) (text_length (type_text value)) 0 0 _ _ (type_text key)
          (join (type_text value) rest) sk ok_ ck (omega arith)
        ∙ rw (
          h,
          children_loop-last parse rounds (0 + brackets key) (0 + brackets key) (type_text value)
              rest pos sv,
          k,
        ))

-- A field's name ends at the first ':'.
find_char-colon :
    (name rest : String)
    → is_plain name ≡ true
    → find_char b':' (join name (join ":" rest)) ≡ some (text_length name)
unfolding find_char
find_char-colon String.[] rest h = refl
find_char-colon (String.◌∷◌ c name) rest h =
    let (here, later) = &&-true (not (is_separator c)) (is_plain name) h in
    rw (find_char-colon name rest later) (ground arith)

pub parse_field-reads :
    (parse : String → Result LogicalType) (name : String) (type : LogicalType)
    → is_plain name ≡ true
    → parse (type_text type) ≡ ok type
    → parse_field parse (join name (join ":" (type_text type))) ≡ ok (name, type)
unfolding parse_field
parse_field-reads parse name type h k = rw (
  find_char-colon name (type_text type) h,
  drop_text-join name ":" (type_text type),
  take_text-join name (join ":" (type_text type)),
  k,
)

abbrev pub entries : Children → List (String × LogicalType)
entries nil = []
entries (child name type cs) = (name, type) ∷ entries cs

pub to_children-entries : (cs : Children) → to_children (entries cs) ≡ cs
to_children-entries nil = refl
to_children-entries (child name type cs) = ap (child name type) (to_children-entries cs)

-- Each type is read from its own text.
abbrev pub AreRead : (String → Result LogicalType) → Children → Type 0
AreRead parse nil = Unit
AreRead parse (child name type cs) = (parse (type_text type) ≡ ok type) × AreRead parse cs

-- The fields of a struct, from a position where no bracket is open.
pub fields_loop :
    (parse : String → Result LogicalType) (name : String) (type : LogicalType) (cs : Children)
    (rounds opens closes : ℕ) (rest : String)
    → AreWritten (child name type cs)
    → AreRead parse (child name type cs)
    → opens ≡ closes
    → text_length (fields_text (child name type cs)) ≤ rounds
    → children_loop rounds
        (parse_field parse)
        (text_length (fields_text (child name type cs)))
        opens
        closes
        (join (fields_text (child name type cs)) rest)
      ≡ ok (entries (child name type cs))
fields_loop parse name type nil zero opens closes rest w r e h =
    absurd (omega (arith, length-join name (join ":" (type_text type))))
fields_loop parse name type nil (suc rounds) opens closes rest w r e h =
    let field : String = join name (join ":" (type_text type)) in
    let (k, o, c) =
      field-IsWalked name type w.0 (type_text-IsWalked type w.1) opens closes (omega arith) in
    children_loop-last (parse_field parse) rounds opens closes field rest
      (omega (arith, length-join name (join ":" (type_text type)))) k
    ∙ rw (parse_field-reads parse name type w.0 r.0)
fields_loop parse name type (child n t cs) zero opens closes rest w r e h = absurd (
    omega (
      arith,
      length-join (join name (join ":" (type_text type))) (join "," (fields_text (child n t cs))),
    ))
fields_loop parse name type (child n t cs) (suc rounds) opens closes rest w r e h =
    let field : String = join name (join ":" (type_text type)) in
    let others : String = fields_text (child n t cs) in
    let (k, o, c) =
      field-IsWalked name type w.0 (type_text-IsWalked type w.1) opens closes (omega arith) in
    let l = length-join field (join "," others) in
    rw (l, join_assoc field (join "," others) rest)
      (children_loop-more (parse_field parse) rounds (text_length others) opens closes _ _ field
          (join others rest) k o c (omega arith)
        ∙ rw (
          parse_field-reads parse name type w.0 r.0,
          fields_loop parse n t cs rounds (opens + (0 + (0 + brackets type)))
              (closes + (0 + (0 + brackets type))) rest w.2 r.1 (omega arith) (omega (arith, l)),
        ))
