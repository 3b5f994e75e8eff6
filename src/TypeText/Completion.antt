-- ===== src/TypeText/Completion.antt =====
-- `TypeToLogicalType` on texts without empty children: its loops end inside the text.
use duckdb_iceberg.Common.{
  ℕ, zero, suc, ◌≤◌, ◌<◌, ◌≡◌, refl, String, Bool, true, false, Option, none, some, List, [], ◌∷◌,
  Result, ok, throw, not_implemented, out_of_fuel, undefined_behaviour, arith, text_length,
  take_text, drop_text, strip_prefix, find_char, rfind_char, if_found, ◌>>=◌,
}
use duckdb_iceberg.Schema.ColumnTypes.{LogicalType}
use duckdb_iceberg.TypeText.Lengths.{length-take_text, length-drop_text, length-strip_prefix}
use duckdb_iceberg.TypeText.Names.{plain_type}
use duckdb_iceberg.TypeText.Segments.{Segment, next_separator, children_loop}
use duckdb_iceberg.TypeText.Children.{
  HasNoEmptyChild, ClosesAt, HasNoEmptyChild-take_text, HasNoEmptyChild-drop_text,
  HasNoEmptyChild-strip_prefix, ClosesAt-rfind_char, not_first, starts_with_close, IsGoodSplit,
  next_separator-IsGoodSplit,
}
use duckdb_iceberg.TypeText.Parser.{
  key_and_value, parse_decimal_spec, parse_array, parse_map_types, parse_field, parse_struct_types,
  parse_nested, parse_text, type_to_logical_type, decimal_digits,
}

-- A call that answers or throws an exception: its loops come to an end, and it reads no memory that
-- is not the text's.
abbrev pub Completes {ℓ} : {A : Type ℓ} → Result A → Type 0
Completes (ok a) = Unit {0}
Completes (throw e) = (¬ (e ≡ out_of_fuel)) × (¬ (e ≡ undefined_behaviour))

>>=-Completes {ℓ κ} :
    {A : Type ℓ} {B : Type κ} (m : Result A) (f : A → Result B)
    → Completes m
    → ((a : A) → Completes (f a))
    → Completes (m >>= f)
>>=-Completes (ok a) f h k = k a
>>=-Completes (throw e) f h k = h

if_found-Completes {ℓ κ} :
    {A : Type ℓ} {B : Type κ} (o : Option B) (x : Result A) (f : B → Result A)
    → Completes x
    → ((b : B) → o ≡ some b → Completes (f b))
    → Completes (if_found o x f)
if_found-Completes none x f h k = h
if_found-Completes (some b) x f h k = k b refl

Bool-case-Completes {ℓ} :
    {A : Type ℓ} (b : Bool) (x y : Result A)
    → Completes x
    → (b ≡ false → Completes y)
    → Completes (elim b [ true ↦ x | false ↦ y ])
Bool-case-Completes true x y h k = h
Bool-case-Completes false x y h k = k refl

not_implemented-Completes :
    (s : String)
    → (¬ (not_implemented s ≡ out_of_fuel)) × (¬ (not_implemented s ≡ undefined_behaviour))
not_implemented-Completes s = (λ p. cc, λ p. cc)

-- What a split of a text goes on to.
split-Completes {ℓ} :
    {A : Type ℓ} (s : String) (m : Result Segment) (next : Segment → Result A)
    → IsGoodSplit s m
    → ((segment : Segment) → IsGoodSplit s (ok segment) → Completes (next segment))
    → Completes (m >>= next)
split-Completes s (throw e) next h k = cc
split-Completes s (ok segment) next h k = k segment h

-- A parser that completes on the texts up to a length.
abbrev CompletesUpTo {ℓ} : {A : Type ℓ} → ℕ → (String → Result A) → Type 0
CompletesUpTo n parse = (t : String) → text_length t ≤ n → HasNoEmptyChild t → Completes (parse t)

children_loop-Completes :
    {A : Type 0} (rounds : ℕ) (parse_child : String → Result A) (left opens closes : ℕ) (s : String)
    → text_length s < rounds
    → ClosesAt left s
    → 1 ≤ left
    → HasNoEmptyChild s
    → CompletesUpTo (text_length s) parse_child
    → Completes (children_loop rounds parse_child left opens closes s)
unfolding children_loop
children_loop-Completes zero parse_child left opens closes s h at_left positive safe k =
    absurd (omega arith)
children_loop-Completes (suc rounds) parse_child left opens closes s h at_left positive safe k =
    split-Completes s (next_separator left opens closes s) _
      (next_separator-IsGoodSplit left opens closes s at_left positive safe)
      λ segment split.
        let n = (split.0).0 in
        let same = (split.0).1 in
        let short = length-take_text n s in
        let child_safe : HasNoEmptyChild segment.child_str =
          rw same (HasNoEmptyChild-take_text n s safe) in
        let child_short : text_length segment.child_str ≤ text_length s = rw same short in
        >>=-Completes (parse_child segment.child_str) _ (k segment.child_str child_short child_safe)
          λ parsed. Bool-case-Completes segment.at_end _ _ tt λ more.
            let (positive', at_left', safe', shorter) = split.1 more in
            >>=-Completes
              (children_loop rounds parse_child segment.left segment.opens segment.closes
                segment.rest)
              _
              (children_loop-Completes rounds parse_child segment.left segment.opens segment.closes
                segment.rest (omega arith) at_left' positive' safe' (λ t l. k t (omega arith)))
              λ others. tt

key_and_value-Completes : (types : List LogicalType) → Completes (key_and_value types)
key_and_value-Completes [] = not_implemented-Completes _
key_and_value-Completes (k ∷ []) = not_implemented-Completes _
key_and_value-Completes (k ∷ v ∷ []) = tt
key_and_value-Completes (k ∷ v ∷ t ∷ ts) = not_implemented-Completes _

-- The nested parsers complete if the parser of their parts does. The texts of a map and
-- of a struct do not begin with '>'.
module _ (parse : String → Result LogicalType) (type_text s : String)
    (completes : CompletesUpTo (text_length s) parse) (safe : HasNoEmptyChild s) where
  parse_array-Completes : Completes (parse_array parse type_text s)
  unfolding parse_array
  parse_array-Completes =
      if_found-Completes (rfind_char b'>' s) _ _ (not_implemented-Completes _) λ type_end found.
        >>=-Completes (parse (take_text type_end s)) _
          (completes (take_text type_end s) (length-take_text type_end s)
            (HasNoEmptyChild-take_text type_end s safe))
          λ child_type. tt

  parse_field-Completes : CompletesUpTo (text_length s) (parse_field parse)
  unfolding parse_field
  parse_field-Completes t l child_safe =
      if_found-Completes (find_char b':' t) _ _ (not_implemented-Completes _) λ type_sep found.
        >>=-Completes (parse (drop_text (suc type_sep) t)) _
          (completes (drop_text (suc type_sep) t) (omega (arith, length-drop_text (suc type_sep) t))
            (HasNoEmptyChild-drop_text (suc type_sep) t child_safe))
          λ child_type. tt

  module _ (begins : starts_with_close s ≡ false) where
    loop-Completes :
        {A : Type 0} (parse_child : String → Result A) (type_end : ℕ)
        → rfind_char b'>' s ≡ some type_end
        → CompletesUpTo (text_length s) parse_child
        → Completes (children_loop (suc (text_length s)) parse_child type_end 0 0 s)
    loop-Completes parse_child type_end found k =
        let at_end = ClosesAt-rfind_char s type_end found in
        children_loop-Completes (suc (text_length s)) parse_child type_end 0 0 s (omega arith)
          at_end (not_first type_end s begins at_end) safe k

    parse_map_types-Completes : Completes (parse_map_types parse type_text s)
    unfolding parse_map_types
    parse_map_types-Completes =
        if_found-Completes (rfind_char b'>' s) _ _ (not_implemented-Completes _) λ type_end found.
          >>=-Completes (children_loop (suc (text_length s)) parse type_end 0 0 s) _
            (loop-Completes parse type_end found completes) key_and_value-Completes

    parse_struct_types-Completes : Completes (parse_struct_types parse type_text s)
    unfolding parse_struct_types
    parse_struct_types-Completes =
        if_found-Completes (rfind_char b'>' s) _ _ (not_implemented-Completes _) λ type_end found.
          >>=-Completes (children_loop (suc (text_length s)) (parse_field parse) type_end 0 0 s) _
            (loop-Completes (parse_field parse) type_end found parse_field-Completes) λ children. tt

module _ (cast : String → Result ℕ) (casts : (t : String) → Completes (cast t)) where
  parse_decimal_spec-Completes :
      (type_text s : String) → Completes (parse_decimal_spec cast type_text s)
  unfolding parse_decimal_spec
  parse_decimal_spec-Completes type_text s =
      if_found-Completes (find_char b')' s) _ _ (not_implemented-Completes _) λ spec_end found.
        let digits : String × String = decimal_digits s spec_end (find_char b',' s) in
        >>=-Completes (cast digits.0) _ (casts digits.0)
          λ precision. >>=-Completes (cast digits.1) _ (casts digits.1) λ scale. tt

  parse_nested-Completes :
      (parse : String → Result LogicalType) (text : String)
      → ((t : String) → text_length t < text_length text → HasNoEmptyChild t → Completes (parse t))
      → HasNoEmptyChild text
      → Completes (parse_nested cast parse text)
  unfolding parse_nested
  parse_nested-Completes parse text completes safe =
      if_found-Completes (strip_prefix "decimal(" text) _ _
        (if_found-Completes (strip_prefix "array<" text) _ _
          (if_found-Completes (strip_prefix "map<" text) _ _
            (if_found-Completes (strip_prefix "struct<" text) _ _ (not_implemented-Completes _)
              λ s h.
                let (begins, s_safe) = HasNoEmptyChild-strip_prefix "struct<" text s h refl safe in
                parse_struct_types-Completes parse text s
                  (λ t l. completes t (omega (arith, length-strip_prefix "struct<" text s h)))
                  s_safe begins)
            λ s h.
              let (begins, s_safe) = HasNoEmptyChild-strip_prefix "map<" text s h refl safe in
              parse_map_types-Completes parse text s
                (λ t l. completes t (omega (arith, length-strip_prefix "map<" text s h))) s_safe
                begins)
          λ s h.
            let (begins, s_safe) = HasNoEmptyChild-strip_prefix "array<" text s h refl safe in
            parse_array-Completes parse text s
              (λ t l. completes t (omega (arith, length-strip_prefix "array<" text s h))) s_safe)
        λ s h. parse_decimal_spec-Completes text s

  parse_text-Completes :
      (rounds : ℕ) (text : String)
      → text_length text < rounds
      → HasNoEmptyChild text
      → Completes (parse_text cast rounds text)
  unfolding parse_text
  parse_text-Completes zero text h safe = absurd (omega arith)
  parse_text-Completes (suc rounds) text h safe =
      if_found-Completes (plain_type text) _ _
        (parse_nested-Completes (parse_text cast rounds) text
          (λ t l. parse_text-Completes rounds t (omega arith)) safe)
        λ type found. tt

  -- Termination: if the conversion of digits answers or throws an exception on every text, so does
  -- `TypeToLogicalType` on every text in which neither a '<' nor a ',' stands right before a '>':
  -- none of its loops runs past the '>' that it looks for, and it calls itself on shorter texts
  -- only, which are such texts again.
  pub type_to_logical_type-Completes :
      (text : String) → HasNoEmptyChild text → Completes (type_to_logical_type cast text)
  unfolding type_to_logical_type
  type_to_logical_type-Completes text safe =
      parse_text-Completes (suc (text_length text)) text (omega arith) safe
