-- ===== src/TypeText/Walk.antt =====
-- How the search for a separator walks over a text that holds none outside brackets.
use Prim.Native.Char.{Char, code}
use duckdb_iceberg.Common.{
  join, >>=-ok, >>=-assoc, ℕ, suc, ◌+◌, ◌-◌, ◌≤◌, ◌≡◌, refl, sym, ◌∙◌, String, Bool, true, false,
  not, ◌&&◌, arith, eqb, ltb, if◌then◌else◌, if-false, text_length, ok, ◌>>=◌,
}
use duckdb_iceberg.TypeText.Segments.{Segment, prepend, next_separator}

abbrev pub opened : ℕ → Char → ℕ
opened opens c = if eqb (code c) b'<' then suc opens else opens

abbrev pub closed : ℕ → Char → ℕ
closed closes c = if eqb (code c) b'>' then suc closes else closes

-- The brackets of a text, added to those before it.
abbrev pub opens_after : ℕ → String → ℕ
opens_after opens String.[] = opens
opens_after opens (String.◌∷◌ c s) = opens_after (opened opens c) s

abbrev pub closes_after : ℕ → String → ℕ
closes_after closes String.[] = closes
closes_after closes (String.◌∷◌ c s) = closes_after (closed closes c) s

-- A ',' that stands in no brackets.
abbrev pub separates : ℕ → ℕ → Char → Bool
separates opens closes c = eqb (code c) b',' && not (ltb closes opens)

abbrev pub skips : ℕ → ℕ → String → Bool
skips opens closes String.[] = true
skips opens closes (String.◌∷◌ c s) =
    not (separates opens closes c) && skips (opened opens c) (closed closes c) s

abbrev pub prepend_all : String → Segment → Segment
prepend_all s segment = record segment { child_str = join s segment.child_str }

abbrev pub segment_at : String → String → ℕ → ℕ → ℕ → Bool → Segment
segment_at child_str rest left opens closes at_end = record {
  child_str = child_str;
  rest = rest;
  left = left;
  opens = opens;
  closes = closes;
  at_end = at_end;
}

not_one : (left : ℕ) → eqb (suc (suc left)) 1 ≡ false
not_one left = ground arith

-- The parts of a conjunction.
pub &&-true : (a b : Bool) → (a && b) ≡ true → (a ≡ true) × (b ≡ true)
&&-true true b h = (refl, h)
&&-true false b h = cc

pub not-true : (a : Bool) → not a ≡ true → a ≡ false
not-true true h = cc
not-true false h = refl

next_separator-char :
    (left opens closes : ℕ) (c : Char) (s : String)
    → separates opens closes c ≡ false
    → next_separator (suc (suc left)) opens closes (String.◌∷◌ c s) ≡ (
        next_separator (suc left) (opened opens c) (closed closes c) s >>= λ segment.
        ok (prepend c segment))
unfolding next_separator
next_separator-char left opens closes c s h =
    let e : suc (suc left) - 1 ≡ suc left = omega arith in
    if-false _ _ h ∙ if-false _ _ (not_one left) ∙ rw e

next_separator-last :
    (opens closes : ℕ) (c : Char) (s : String)
    → separates opens closes c ≡ false
    → next_separator 1 opens closes (String.◌∷◌ c s)
      ≡ ok (segment_at (String.◌∷◌ c "") s 0 (opened opens c) (closed closes c) true)
unfolding next_separator
next_separator-last opens closes c s h = if-false _ _ h

-- At a separator outside brackets.
pub next_separator-comma :
    (left opens closes : ℕ) (s : String)
    → opens ≤ closes
    → next_separator (suc left) opens closes (String.◌∷◌ "," s)
      ≡ ok (segment_at "" s left opens closes false)
unfolding next_separator
next_separator-comma left opens closes s h =
    let e : suc left - 1 ≡ left = omega arith in
    let outside : ltb closes opens ≡ false = ground arith in rw (outside, e)

-- Over a text without separators, on to what follows it.
pub next_separator-walks :
    (p : String) (left opens closes : ℕ) (rest : String)
    → skips opens closes p ≡ true
    → next_separator (text_length p + suc left) opens closes (join p rest) ≡ (
        next_separator (suc left) (opens_after opens p) (closes_after closes p) rest >>= λ segment.
        ok (prepend_all p segment))
next_separator-walks String.[] left opens closes rest h =
    let e : 0 + suc left ≡ suc left = omega arith in
    rw e (sym (>>=-ok (next_separator (suc left) opens closes rest)))
next_separator-walks (String.◌∷◌ c p) left opens closes rest h =
    let (here, later) = &&-true (not (separates opens closes c)) _ h in
    let e : suc (text_length p) + suc left ≡ suc (suc (text_length p + left)) = omega arith in
    let f : suc (text_length p + left) ≡ text_length p + suc left = omega arith in
    rw e (
      next_separator-char (text_length p + left) opens closes c (join p rest) (not-true _ here)
      ∙ rw (f, next_separator-walks p left (opened opens c) (closed closes c) rest later)
          (>>=-assoc (next_separator (suc left) _ _ rest) _ _))

-- Up to the closing bracket, which follows it.
pub next_separator-ends :
    (c : Char) (p : String) (opens closes : ℕ) (rest : String)
    → skips opens closes (String.◌∷◌ c p) ≡ true
    → next_separator (text_length (String.◌∷◌ c p)) opens closes (join (String.◌∷◌ c p) rest)
      ≡ ok (
          segment_at
            (String.◌∷◌ c p)
            rest
            0
            (opens_after opens (String.◌∷◌ c p))
            (closes_after closes (String.◌∷◌ c p))
            true)
next_separator-ends c String.[] opens closes rest h =
    next_separator-last opens closes c rest
      (not-true _ (&&-true (not (separates opens closes c)) _ h).0)
next_separator-ends c (String.◌∷◌ d p) opens closes rest h =
    let (here, later) = &&-true (not (separates opens closes c)) _ h in
    next_separator-char (text_length p) opens closes c (join (String.◌∷◌ d p) rest)
      (not-true _ here)
    ∙ rw (next_separator-ends d p (opened opens c) (closed closes c) rest later)

-- The three functions over a concatenation.
pub opens_after-join :
    (p q : String) (opens : ℕ) → opens_after opens (join p q) ≡ opens_after (opens_after opens p) q
opens_after-join String.[] q opens = refl
opens_after-join (String.◌∷◌ c p) q opens = opens_after-join p q (opened opens c)

pub closes_after-join :
    (p q : String) (closes : ℕ)
    → closes_after closes (join p q) ≡ closes_after (closes_after closes p) q
closes_after-join String.[] q closes = refl
closes_after-join (String.◌∷◌ c p) q closes = closes_after-join p q (closed closes c)

pub skips-join :
    (p q : String) (opens closes : ℕ)
    → skips opens closes p ≡ true
    → skips (opens_after opens p) (closes_after closes p) q ≡ true
    → skips opens closes (join p q) ≡ true
skips-join String.[] q opens closes h k = k
skips-join (String.◌∷◌ c p) q opens closes h k =
    let (here, later) = &&-true (not (separates opens closes c)) _ h in
    rw here (skips-join p q (opened opens c) (closed closes c) later k)
