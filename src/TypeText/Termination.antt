-- ===== src/TypeText/Termination.antt =====
-- The rounds of `TypeToLogicalType`: it recurs on shorter texts only, and each round of its loops
-- over the children of a map or a struct uses up a character.
use duckdb_iceberg.Common.{
  ok-HasFuel, Bool-case-HasFuel, Option-case-HasFuel, ℕ, zero, suc, ◌≤◌, ◌<◌, String, List, [], ◌∷◌,
  Result, ok, throw, not_implemented, HasFuel, >>=-HasFuel, arith, text_length, take_text,
  drop_text, strip_prefix, find_char, rfind_char, ◌>>=◌,
}
use duckdb_iceberg.Schema.ColumnTypes.{LogicalType, map, list, struct, decimal}
use duckdb_iceberg.TypeText.Lengths.{
  length-take_text, length-drop_text, length-strip_prefix, IsSplitOf, next_separator-IsSplitOf,
}
use duckdb_iceberg.TypeText.Names.{plain_type}
use duckdb_iceberg.TypeText.Segments.{Segment, next_separator, children_loop}
use duckdb_iceberg.TypeText.Parser.{
  key_and_value, parse_decimal_spec, parse_array, parse_map_types, parse_field, parse_struct_types,
  parse_nested, parse_text, type_to_logical_type, to_children, decimal_digits,
}

not_implemented-HasFuel {ℓ} :
    {A : Type ℓ} (s : String) → HasFuel {A = A} (throw (not_implemented s))
not_implemented-HasFuel s = λ p. cc

-- What a split of a text goes on to.
next_separator-HasFuel {ℓ} :
    {A : Type ℓ} (s : String) (m : Result Segment) (next : Segment → Result A)
    → IsSplitOf s m
    → ((segment : Segment)
        → text_length segment.child_str ≤ text_length s
        → text_length segment.rest < text_length s
        → HasFuel (next segment))
    → HasFuel (m >>= next)
next_separator-HasFuel s (throw e) next h k = λ p. h (cc)
next_separator-HasFuel s (ok segment) next h k = k segment h.0 h.1

-- Each round uses up a character at least.
children_loop-HasFuel :
    {A : Type 0} (rounds : ℕ) (parse_child : String → Result A) (left opens closes : ℕ) (s : String)
    → text_length s < rounds
    → ((t : String) → text_length t ≤ text_length s → HasFuel (parse_child t))
    → HasFuel (children_loop rounds parse_child left opens closes s)
unfolding children_loop
children_loop-HasFuel zero parse_child left opens closes s h k = absurd (omega arith)
children_loop-HasFuel (suc rounds) parse_child left opens closes s h k =
    next_separator-HasFuel s (next_separator left opens closes s) _
      (next_separator-IsSplitOf left opens closes s)
      λ segment short rest.
        >>=-HasFuel (parse_child segment.child_str) _ (k segment.child_str short) λ parsed.
          Bool-case-HasFuel segment.at_end _ _ (ok-HasFuel (parsed ∷ [])) (
            >>=-HasFuel
              (children_loop rounds parse_child segment.left segment.opens segment.closes
                segment.rest)
              _
              (children_loop-HasFuel rounds parse_child segment.left segment.opens segment.closes
                segment.rest (omega arith) (λ t l. k t (omega arith)))
              λ others. ok-HasFuel (parsed ∷ others))

key_and_value-HasFuel : (types : List LogicalType) → HasFuel (key_and_value types)
key_and_value-HasFuel [] = not_implemented-HasFuel _
key_and_value-HasFuel (k ∷ []) = not_implemented-HasFuel _
key_and_value-HasFuel (k ∷ v ∷ []) = ok-HasFuel (map k v)
key_and_value-HasFuel (k ∷ v ∷ t ∷ ts) = not_implemented-HasFuel _

-- The nested parsers end if the parser of their parts does on texts up to a length.
module _ (parse : String → Result LogicalType) (type_text s : String)
    (ends : (t : String) → text_length t ≤ text_length s → HasFuel (parse t)) where
  parse_array-HasFuel : HasFuel (parse_array parse type_text s)
  unfolding parse_array
  parse_array-HasFuel =
      Option-case-HasFuel (rfind_char b'>' s) _ _ (not_implemented-HasFuel _) λ type_end found.
        >>=-HasFuel (parse (take_text type_end s)) _
          (ends (take_text type_end s) (length-take_text type_end s))
          λ child_type. ok-HasFuel (list child_type)

  parse_map_types-HasFuel : HasFuel (parse_map_types parse type_text s)
  unfolding parse_map_types
  parse_map_types-HasFuel =
      Option-case-HasFuel (rfind_char b'>' s) _ _ (not_implemented-HasFuel _) λ type_end found.
        >>=-HasFuel (children_loop (suc (text_length s)) parse type_end 0 0 s) _
          (children_loop-HasFuel (suc (text_length s)) parse type_end 0 0 s (omega arith) ends)
          key_and_value-HasFuel

  parse_field-HasFuel : (t : String) → text_length t ≤ text_length s → HasFuel (parse_field parse t)
  unfolding parse_field
  parse_field-HasFuel t l =
      Option-case-HasFuel (find_char b':' t) _ _ (not_implemented-HasFuel _) λ type_sep found.
        >>=-HasFuel (parse (drop_text (suc type_sep) t)) _
          (ends (drop_text (suc type_sep) t) (omega (arith, length-drop_text (suc type_sep) t)))
          λ child_type. ok-HasFuel (take_text type_sep t, child_type)

  parse_struct_types-HasFuel : HasFuel (parse_struct_types parse type_text s)
  unfolding parse_struct_types
  parse_struct_types-HasFuel =
      Option-case-HasFuel (rfind_char b'>' s) _ _ (not_implemented-HasFuel _) λ type_end found.
        >>=-HasFuel (children_loop (suc (text_length s)) (parse_field parse) type_end 0 0 s) _
          (children_loop-HasFuel (suc (text_length s)) (parse_field parse) type_end 0 0 s
            (omega arith) parse_field-HasFuel)
          λ children. ok-HasFuel (struct (to_children children))

module _ (cast : String → Result ℕ) (casts : (t : String) → HasFuel (cast t)) where
  parse_decimal_spec-HasFuel :
      (type_text s : String) → HasFuel (parse_decimal_spec cast type_text s)
  unfolding parse_decimal_spec
  parse_decimal_spec-HasFuel type_text s =
      Option-case-HasFuel (find_char b')' s) _ _ (not_implemented-HasFuel _) λ spec_end found.
        let digits : String × String = decimal_digits s spec_end (find_char b',' s) in
        >>=-HasFuel (cast digits.0) _ (casts digits.0) λ precision.
          >>=-HasFuel (cast digits.1) _ (casts digits.1)
            λ scale. ok-HasFuel (decimal precision scale)

  parse_nested-HasFuel :
      (parse : String → Result LogicalType) (text : String)
      → ((t : String) → text_length t < text_length text → HasFuel (parse t))
      → HasFuel (parse_nested cast parse text)
  unfolding parse_nested
  parse_nested-HasFuel parse text ends =
      Option-case-HasFuel (strip_prefix "decimal(" text) _ _
        (Option-case-HasFuel (strip_prefix "array<" text) _ _
          (Option-case-HasFuel (strip_prefix "map<" text) _ _
            (Option-case-HasFuel (strip_prefix "struct<" text) _ _ (not_implemented-HasFuel _)
              λ s h.
                parse_struct_types-HasFuel parse text s
                  (λ t l. ends t (omega (arith, length-strip_prefix "struct<" text s h))))
            λ s h.
              parse_map_types-HasFuel parse text s
                (λ t l. ends t (omega (arith, length-strip_prefix "map<" text s h))))
          λ s h.
            parse_array-HasFuel parse text s
              (λ t l. ends t (omega (arith, length-strip_prefix "array<" text s h))))
        λ s h. parse_decimal_spec-HasFuel text s

  parse_text-HasFuel :
      (rounds : ℕ) (text : String)
      → text_length text < rounds
      → HasFuel (parse_text cast rounds text)
  unfolding parse_text
  parse_text-HasFuel zero text h = absurd (omega arith)
  parse_text-HasFuel (suc rounds) text h =
      Option-case-HasFuel (plain_type text) _ _
        (parse_nested-HasFuel (parse_text cast rounds) text
          (λ t l. parse_text-HasFuel rounds t (omega arith)))
        λ type found. ok-HasFuel type

  -- The rounds that the loops of `TypeToLogicalType` and its calls of itself are given are never
  -- used up, on any text: it answers, throws, or runs past the end of the text, which is undefined
  -- behaviour.
  pub type_to_logical_type-HasFuel : (text : String) → HasFuel (type_to_logical_type cast text)
  unfolding type_to_logical_type
  type_to_logical_type-HasFuel text = parse_text-HasFuel (suc (text_length text)) text (omega arith)
