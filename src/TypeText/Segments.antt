-- ===== src/TypeText/Segments.antt =====
-- src/catalog_utils.cpp: the loops over the children of a map or a struct. What is left of the text
-- and the distance to its closing bracket stand for the positions of the source.
use Prim.Native.Char.{Char, code}
use duckdb_iceberg.Common.{
  ℕ, zero, suc, ◌-◌, String, Bool, true, false, not, ◌&&◌, List, [], ◌∷◌, Result, ok, throw,
  undefined_behaviour, out_of_fuel, ◌>>=◌, eqb, ltb, if◌then◌else◌,
}

-- A child of a map or a struct: its text, and where its end leaves the loop.
pub record Segment : Type 0 where
  pub child_str : String
  pub rest : String
  pub left : ℕ
  pub opens : ℕ
  pub closes : ℕ
  pub at_end : Bool

abbrev pub prepend : Char → Segment → Segment
prepend c segment = record segment { child_str = String.◌∷◌ c segment.child_str }

-- The inner loop: up to the next ',' outside brackets, or to `type_end`, which is `left` characters
-- away; from a position at or past it there is no end. `nested_opens` is `opens` - `closes`.
-- Where the source goes on past the end of the text, and reads what it finds there, the answer is
-- `undefined_behaviour`.
unfoldable pub next_separator : ℕ → ℕ → ℕ → String → Result Segment
next_separator left opens closes String.[] = throw undefined_behaviour
next_separator left opens closes (String.◌∷◌ c s) =
    let opened = if eqb (code c) b'<' then suc opens else opens in
    let closed = if eqb (code c) b'>' then suc closes else closes in
    let further = next_separator (left - 1) opened closed s in
    if eqb (code c) b',' && not (ltb closes opens)
    then ok (record {
      child_str = "";
      rest = s;
      left = left - 1;
      opens = opens;
      closes = closes;
      at_end = false;
    })
    else if eqb left 1
    then ok (record {
      child_str = String.◌∷◌ c "";
      rest = s;
      left = 0;
      opens = opened;
      closes = closed;
      at_end = true;
    })
    else further >>= λ segment. ok (prepend c segment)

-- The outer loop, one child a round.
unfoldable pub children_loop {ℓ} :
    {A : Type ℓ} → ℕ → (String → Result A) → ℕ → ℕ → ℕ → String → Result (List A)
unfolding next_separator
children_loop zero parse_child left opens closes s = throw out_of_fuel
children_loop (suc rounds) parse_child left opens closes s = do
  segment ← next_separator left opens closes s
  parsed ← parse_child segment.child_str
  elim segment.at_end [
    | true ↦ ok (parsed ∷ [])
    | false ↦
        children_loop rounds parse_child segment.left segment.opens segment.closes segment.rest
        >>= λ others. ok (parsed ∷ others)
  ]
