-- ===== src/Common/Text.antt =====
-- `std::string` operations on native texts, searched by character.
use Prim.Native.Nat.{ℕ, zero, suc}
use Prim.Native.String
use Prim.Native.String.{String, [], ◌∷◌}
use mathlib.Core.Bool.{Bool, true, false}
use mathlib.Core.Option.{Option, none, some}
use mathlib.Core.List.{List}
use Prim.Native.Char.{Char, code}
use duckdb_iceberg.Common.Tests.{if◌then◌else◌, eqb}
use text.Mathlib.Text.{starts_with, ◌==◌}

-- String concatenation, `+` in the source.
infixr 65 ◌+++◌
abbrev pub ◌+++◌ : String → String → String
s +++ t = String.◌++◌ s t

abbrev pub empty : String → Bool
empty [] = true
empty (c ∷ s) = false

-- The concatenation of a list of pieces.
abbrev pub join_all : List String → String
join_all List.[] = ""
join_all (List.◌∷◌ s ss) = s +++ join_all ss

abbrev pub first_some {ℓ} : {A : Type ℓ} → Option A → Option A → Option A
first_some (some a) o = some a
first_some none o = o

-- `s.rfind(needle)` and `s.substr(found)` in one: the suffix that begins at the last occurrence.
unfoldable pub rfind_suffix : String → String → Option String
rfind_suffix needle [] = if starts_with [] needle then some [] else none
rfind_suffix needle (c ∷ s) =
    first_some (rfind_suffix needle s) (if starts_with (c ∷ s) needle then some (c ∷ s) else none)

-- `s.substr(n)` in characters.
abbrev pub drop_text : ℕ → String → String
drop_text n [] = []
drop_text zero (c ∷ s) = c ∷ s
drop_text (suc n) (c ∷ s) = drop_text n s

-- `StringUtil::EndsWith`.
unfoldable pub ends_with : String → String → Bool
ends_with [] suffix = empty suffix
ends_with (c ∷ s) suffix =
    let below = ends_with s suffix in if (c ∷ s) == suffix then true else below

-- The number of characters.
abbrev pub text_length : String → ℕ
text_length [] = zero
text_length (c ∷ s) = suc (text_length s)

-- `s.substr(0, n)`.
abbrev pub take_text : ℕ → String → String
take_text n [] = []
take_text zero (c ∷ s) = []
take_text (suc n) (c ∷ s) = c ∷ take_text n s

-- `s.find(needle) == 0`, with the text after it.
unfoldable pub strip_prefix : String → String → Option String
strip_prefix [] s = some s
strip_prefix (c ∷ needle) [] = none
strip_prefix (c ∷ needle) (d ∷ s) =
    let rest = strip_prefix needle s in if eqb (code c) (code d) then rest else none

abbrev later_position : Option ℕ → Option ℕ
later_position none = none
later_position (some i) = some (suc i)

-- `s.find(c)` and `s.rfind(c)`; none is `npos`.
unfoldable pub find_char : ℕ → String → Option ℕ
find_char wanted [] = none
find_char wanted (c ∷ s) =
    let below = find_char wanted s in if eqb (code c) wanted then some 0 else later_position below

unfoldable pub rfind_char : ℕ → String → Option ℕ
rfind_char wanted [] = none
rfind_char wanted (c ∷ s) =
    first_some (later_position (rfind_char wanted s)) (if eqb (code c) wanted then some 0 else none)

abbrev with_char : Char → Option String → Option String
with_char c none = none
with_char c (some s) = some (c ∷ s)

-- `s.find(needle)` and `s.substr(0, found)` in one: what stands before the first occurrence.
unfoldable pub before_text : String → String → Option String
before_text needle [] = if starts_with [] needle then some [] else none
before_text needle (c ∷ s) =
    let later = with_char c (before_text needle s) in
    if starts_with (c ∷ s) needle then some [] else later
