-- ===== src/Common/Join.antt =====
-- Concatenation of texts by the characters of the first one, which computes where `+++` waits.
use Prim.Native.Nat.{ℕ, suc, ◌+◌}
use Prim.Native.Char.{Char}
use Prim.Native.String.{String}
use mathlib.Core.Path.{◌≡◌, refl, ap, ◌∙◌}
use mathlib.Core.Option.{none, some}
use native.Mathlib.Omega.{arith}
use text.Mathlib.TextLemmas.{nil-append, cons-append}
use duckdb_iceberg.Common.Text.{◌+++◌, text_length, take_text, drop_text, find_char, rfind_char}

-- Concatenation by the characters of the first text.
abbrev pub join : String → String → String
join String.[] t = t
join (String.◌∷◌ c s) t = String.◌∷◌ c (join s t)

pub length-join : (s t : String) → text_length (join s t) ≡ text_length s + text_length t
length-join String.[] t = omega arith
length-join (String.◌∷◌ c s) t = omega (arith, length-join s t)

pub join_assoc : (s t u : String) → join (join s t) u ≡ join s (join t u)
join_assoc String.[] t u = refl
join_assoc (String.◌∷◌ c s) t u = ap (String.◌∷◌ c) (join_assoc s t u)

pub take_text-join : (s t : String) → take_text (text_length s) (join s t) ≡ s
take_text-join String.[] String.[] = refl
take_text-join String.[] (String.◌∷◌ c t) = refl
take_text-join (String.◌∷◌ c s) t = ap (String.◌∷◌ c) (take_text-join s t)

pub drop_text-join :
    (s : String) (c : Char) (t : String)
    → drop_text (suc (text_length s)) (join s (String.◌∷◌ c t)) ≡ t
drop_text-join String.[] c String.[] = refl
drop_text-join String.[] c (String.◌∷◌ d t) = refl
drop_text-join (String.◌∷◌ d s) c t = drop_text-join s c t

pub rfind_char-join :
    (wanted i : ℕ) (s t : String)
    → rfind_char wanted t ≡ some i
    → rfind_char wanted (join s t) ≡ some (text_length s + i)
unfolding rfind_char
rfind_char-join wanted i String.[] t h = rw h (ap some (omega arith))
rfind_char-join wanted i (String.◌∷◌ c s) t h =
    rw (rfind_char-join wanted i s t h) (ap some (omega arith))

pub append-eq-join : (s t : String) → s +++ t ≡ join s t
append-eq-join String.[] t = nil-append t
append-eq-join (String.◌∷◌ c s) t = cons-append c s t ∙ ap (String.◌∷◌ c) (append-eq-join s t)

pub find_char-join :
    (wanted i : ℕ) (s t : String)
    → find_char wanted s ≡ none
    → find_char wanted t ≡ some i
    → find_char wanted (join s t) ≡ some (text_length s + i)
unfolding find_char
find_char-join wanted i String.[] t h k = k ∙ ap some (omega arith)
find_char-join wanted i (String.◌∷◌ c s) t h k = ground (arith, find_char-join wanted i s t)
