-- ===== src/TypeText/Lengths.antt =====
-- How long the parts are that `TypeToLogicalType` takes of a text.
use Prim.Native.Char.{Char, code}
use duckdb_iceberg.Common.{
  ℕ, zero, suc, ◌+◌, ◌-◌, ◌≤◌, ◌<◌, ◌≡◌, String, Bool, true, false, not, ◌&&◌, some, Result, ok,
  throw, HasFuel, arith, eqb, ltb, if◌then◌else◌, text_length, take_text, drop_text, strip_prefix,
  ◌>>=◌,
}
use duckdb_iceberg.TypeText.Segments.{Segment, prepend, next_separator}

pub length-take_text : (n : ℕ) (s : String) → text_length (take_text n s) ≤ text_length s
length-take_text n String.[] = omega arith
length-take_text zero (String.◌∷◌ c s) = omega arith
length-take_text (suc n) (String.◌∷◌ c s) = omega (arith, length-take_text n s)

pub length-drop_text : (n : ℕ) (s : String) → text_length (drop_text n s) ≤ text_length s
length-drop_text n String.[] = omega arith
length-drop_text zero (String.◌∷◌ c s) = omega arith
length-drop_text (suc n) (String.◌∷◌ c s) = omega (arith, length-drop_text n s)

pub length-strip_prefix :
    (p t s : String) → strip_prefix p t ≡ some s → text_length s + text_length p ≡ text_length t
unfolding strip_prefix
length-strip_prefix String.[] t s h = ground arith
length-strip_prefix (String.◌∷◌ c p) String.[] s h = cc
length-strip_prefix (String.◌∷◌ c p) (String.◌∷◌ d t) s h =
    ground (arith, length-strip_prefix p t s)

-- What the end of a child leaves is shorter, and the child is no longer than the text.
abbrev pub IsSplitOf : String → Result Segment → Type 0
IsSplitOf s (throw e) = HasFuel {A = Segment} (throw e)
IsSplitOf s (ok segment) =
    (text_length segment.child_str ≤ text_length s) × (text_length segment.rest < text_length s)

pub further-IsSplitOf :
    (c : Char) (s : String) (m : Result Segment)
    → IsSplitOf s m
    → IsSplitOf (String.◌∷◌ c s) (m >>= λ segment. ok (prepend c segment))
further-IsSplitOf c s (throw e) h = h
further-IsSplitOf c s (ok segment) h = omega arith

pub if-IsSplitOf :
    (s : String) (b : Bool) (x y : Result Segment)
    → IsSplitOf s x
    → IsSplitOf s y
    → IsSplitOf s (if b then x else y)
if-IsSplitOf s true x y h k = h
if-IsSplitOf s false x y h k = k

pub next_separator-IsSplitOf :
    (left opens closes : ℕ) (s : String) → IsSplitOf s (next_separator left opens closes s)
unfolding next_separator
next_separator-IsSplitOf left opens closes String.[] = λ p. cc
next_separator-IsSplitOf left opens closes (String.◌∷◌ c s) =
    let opened = if eqb (code c) b'<' then suc opens else opens in
    let closed = if eqb (code c) b'>' then suc closes else closes in
    if-IsSplitOf (String.◌∷◌ c s) (eqb (code c) b',' && not (ltb closes opens)) _ _ (omega arith) (
      if-IsSplitOf (String.◌∷◌ c s) (eqb left 1) _ _ (omega arith)
        (further-IsSplitOf c s _ (next_separator-IsSplitOf (left - 1) opened closed s)))
