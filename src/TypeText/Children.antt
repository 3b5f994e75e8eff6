-- ===== src/TypeText/Children.antt =====
-- Texts in which neither a '<' nor a ',' stands right before a '>': the loops over the children of
-- a map or a struct find the end of each child.
use Prim.Native.Char.{Char, code}
use duckdb_iceberg.Common.{
  ℕ, zero, suc, ◌-◌, ◌≤◌, ◌<◌, ◌≡◌, refl, sym, ap, String, Bool, true, false, not, ◌&&◌, ◌||◌,
  Option, none, some, Result, ok, throw, arith, eqb, ltb, if◌then◌else◌, text_length, take_text,
  drop_text, strip_prefix, rfind_char, ◌>>=◌, Bool-cases, Option-cases, inl, inr,
}
use duckdb_iceberg.TypeText.Segments.{Segment, prepend, next_separator}

abbrev pub opens_child : Char → Bool
opens_child c = eqb (code c) b'<' || eqb (code c) b','

abbrev pub starts_with_close : String → Bool
starts_with_close String.[] = false
starts_with_close (String.◌∷◌ c s) = eqb (code c) b'>'

abbrev pub HasNoEmptyChild : String → Type 0
HasNoEmptyChild String.[] = Unit {0}
HasNoEmptyChild (String.◌∷◌ c s) =
    ((opens_child c && starts_with_close s) ≡ false) × HasNoEmptyChild s

-- A '>' stands at the position.
abbrev pub ClosesAt : ℕ → String → Type 0
ClosesAt left s = starts_with_close (drop_text left s) ≡ true

take_text-zero : (s : String) → take_text 0 s ≡ ""
take_text-zero String.[] = refl
take_text-zero (String.◌∷◌ c s) = refl

drop_text-zero : (s : String) → drop_text 0 s ≡ s
drop_text-zero String.[] = refl
drop_text-zero (String.◌∷◌ c s) = refl

starts_with_close-take_text :
    (n : ℕ) (s : String) → starts_with_close s ≡ false → starts_with_close (take_text n s) ≡ false
starts_with_close-take_text n String.[] h = refl
starts_with_close-take_text zero (String.◌∷◌ c s) h = refl
starts_with_close-take_text (suc n) (String.◌∷◌ c s) h = h

and_weakens : (a b b' : Bool) → (b ≡ false → b' ≡ false) → (a && b) ≡ false → (a && b') ≡ false
and_weakens false b b' h k = refl
and_weakens true b b' h k = h k

pub HasNoEmptyChild-take_text :
    (n : ℕ) (s : String) → HasNoEmptyChild s → HasNoEmptyChild (take_text n s)
HasNoEmptyChild-take_text n String.[] h = tt
HasNoEmptyChild-take_text zero (String.◌∷◌ c s) h = tt
HasNoEmptyChild-take_text (suc n) (String.◌∷◌ c s) (p, h) = (
  and_weakens (opens_child c) _ _ (starts_with_close-take_text n s) p,
  HasNoEmptyChild-take_text n s h,
)

pub HasNoEmptyChild-drop_text :
    (n : ℕ) (s : String) → HasNoEmptyChild s → HasNoEmptyChild (drop_text n s)
HasNoEmptyChild-drop_text n String.[] h = tt
HasNoEmptyChild-drop_text zero (String.◌∷◌ c s) h = h
HasNoEmptyChild-drop_text (suc n) (String.◌∷◌ c s) (p, h) = HasNoEmptyChild-drop_text n s h

-- Whether a prefix ends in '<'.
abbrev pub ends_open : String → Bool
ends_open String.[] = false
ends_open (String.◌∷◌ c String.[]) = eqb (code c) b'<'
ends_open (String.◌∷◌ c (String.◌∷◌ d p)) = ends_open (String.◌∷◌ d p)

after_open :
    (c d : Char) (s : String)
    → eqb (code c) (code d) ≡ true
    → eqb (code c) b'<' ≡ true
    → (opens_child d && starts_with_close s) ≡ false
    → starts_with_close s ≡ false
after_open c d s same opens h = ground arith

-- What stands behind a prefix that ends in '<' does not begin with '>'.
pub HasNoEmptyChild-strip_prefix :
    (p t s : String)
    → strip_prefix p t ≡ some s
    → ends_open p ≡ true
    → HasNoEmptyChild t
    → (starts_with_close s ≡ false) × HasNoEmptyChild s
unfolding strip_prefix
HasNoEmptyChild-strip_prefix String.[] t s h opens safe = cc
HasNoEmptyChild-strip_prefix (String.◌∷◌ c p) String.[] s h opens safe = cc
HasNoEmptyChild-strip_prefix (String.◌∷◌ c String.[]) (String.◌∷◌ d t) s h opens (q, safe) =
    elim (Bool-cases (eqb (code c) (code d))) [
      | inl same ↦
          let g : t ≡ s = let k : some t ≡ some s = rw same at h in cc in
          rw (sym g) (after_open c d t same opens q, safe)
      | inr apart ↦ let k : ◌≡◌ {A = Option String} none (some s) = rw apart at h in cc
    ]
HasNoEmptyChild-strip_prefix (String.◌∷◌ c (String.◌∷◌ e p)) (String.◌∷◌ d t) s h opens (q, safe) =
    elim (Bool-cases (eqb (code c) (code d))) [
      | inl same ↦ HasNoEmptyChild-strip_prefix (String.◌∷◌ e p) t s (rw same at h) opens safe
      | inr apart ↦ let k : ◌≡◌ {A = Option String} none (some s) = rw apart at h in cc
    ]

-- `rfind('>')` answers with the position of a '>'.
pub ClosesAt-rfind_char : (s : String) (i : ℕ) → rfind_char b'>' s ≡ some i → ClosesAt i s
unfolding rfind_char
ClosesAt-rfind_char String.[] i h = cc
ClosesAt-rfind_char (String.◌∷◌ c s) i h = elim (Option-cases (rfind_char b'>' s)) [
  | inl missing ↦ elim (Bool-cases (eqb (code c) b'>')) [
    | inl here ↦
        let g : i ≡ 0 = let k : some 0 ≡ some i = rw (missing, here) at h in cc in rw (g, here)
    | inr there ↦ let k : ◌≡◌ {A = Option ℕ} none (some i) = rw (missing, there) at h in cc
  ]
  | inr (j, found) ↦
      let g : i ≡ suc j = let k : some (suc j) ≡ some i = rw found at h in cc in
      rw g (ClosesAt-rfind_char s j found)
]

-- That position is not the first, if the text begins with another character.
pub not_first : (left : ℕ) (s : String) → starts_with_close s ≡ false → ClosesAt left s → 1 ≤ left
not_first zero s h at_zero = let e = drop_text-zero s in cc
not_first (suc left) s h at_left = omega arith

-- The end of a child: its text is the first of what is left, and if it is not the last child, what
-- follows is shorter and has its '>' further on.
abbrev pub IsGoodSplit : String → Result Segment → Type 0
IsGoodSplit s (throw e) = true ≡ false
IsGoodSplit s (ok segment) =
    ((k : ℕ) × (segment.child_str ≡ take_text k s))
    × (segment.at_end ≡ false
        → (1 ≤ segment.left)
          × ClosesAt segment.left segment.rest
          × HasNoEmptyChild segment.rest
          × (text_length segment.rest < text_length s))

further-IsGoodSplit :
    (c : Char) (s : String) (m : Result Segment)
    → IsGoodSplit s m
    → IsGoodSplit (String.◌∷◌ c s) (m >>= λ segment. ok (prepend c segment))
further-IsGoodSplit c s (throw e) h = h
further-IsGoodSplit c s (ok segment) ((k, e), goes_on) = (
  (suc k, ap (String.◌∷◌ c) e),
  λ more.
      let (positive, closes, safe, shorter) = goes_on more in (positive, closes, safe, omega arith),
)

comma_opens :
    (c : Char) (b : Bool) (s : String)
    → (eqb (code c) b',' && b) ≡ true
    → (opens_child c && starts_with_close s) ≡ false
    → starts_with_close s ≡ false
comma_opens c b s h k = ground arith

pub next_separator-IsGoodSplit :
    (left opens closes : ℕ) (s : String)
    → ClosesAt left s
    → 1 ≤ left
    → HasNoEmptyChild s
    → IsGoodSplit s (next_separator left opens closes s)
unfolding next_separator
next_separator-IsGoodSplit zero opens closes s at_left positive safe = absurd (omega arith)
next_separator-IsGoodSplit (suc left) opens closes String.[] at_left positive safe = cc
next_separator-IsGoodSplit (suc left) opens closes (String.◌∷◌ c s) at_left positive (p, safe) =
    let opened = if eqb (code c) b'<' then suc opens else opens in
    let closed = if eqb (code c) b'>' then suc closes else closes in
    let down : suc left - 1 ≡ left = omega arith in
    elim (Bool-cases (eqb (code c) b',' && not (ltb closes opens))) [
      | inl ends ↦
          rw (ends, down)
            (
              (0, refl),
              λ more.
                  (not_first left s (comma_opens c _ s ends p) at_left, at_left, safe, omega arith),
            )
      | inr goes_on ↦ elim (Bool-cases (eqb (suc left) 1)) [
        | inl last ↦
            rw (goes_on, last) ((1, ap (String.◌∷◌ c) (sym (take_text-zero s))), λ more. cc)
        | inr further ↦
            rw (goes_on, further, down)
              (further-IsGoodSplit c s _
                (next_separator-IsGoodSplit left opened closed s at_left (ground arith) safe))
      ]
    ]
