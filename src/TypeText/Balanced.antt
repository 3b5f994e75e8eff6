-- ===== src/TypeText/Balanced.antt =====
-- The text of a type opens as many brackets as it closes, and has a ',' in brackets only.
use Prim.Native.Char.{Char}
use duckdb_iceberg.Common.{join, ℕ, suc, ◌+◌, ◌≤◌, ◌≡◌, refl, String, true, arith, not, ◌∙◌}
use duckdb_iceberg.Schema.ColumnTypes.{
  LogicalType, Children, boolean, tinyint, smallint, integer, bigint, float, double, date,
  timestamp, timestamp_tz, varchar, blob, list, map, struct, nil, child,
}
use duckdb_iceberg.TypeText.Written.{
  bracketed, type_text, fields_text, is_plain, IsWritten, AreWritten,
}
use duckdb_iceberg.TypeText.Walk.{
  opens_after, closes_after, skips, opens_after-join, closes_after-join, skips-join, &&-true,
}

-- Inside `depth` brackets or more, the text is walked over, and it opens and closes `k` brackets.
abbrev pub IsWalked : ℕ → String → ℕ → Type 0
IsWalked depth s k =
    (opens closes : ℕ)
    → closes + depth ≤ opens
    → (skips opens closes s ≡ true)
      × (opens_after opens s ≡ opens + k)
      × (closes_after closes s ≡ closes + k)

deeper-IsWalked : (s : String) (k : ℕ) → IsWalked 0 s k → IsWalked 1 s k
deeper-IsWalked s k w opens closes h = w opens closes (omega arith)

join-IsWalked :
    (depth : ℕ) (p q : String) (k l : ℕ)
    → IsWalked depth p k
    → IsWalked depth q l
    → IsWalked depth (join p q) (k + l)
join-IsWalked depth p q k l v w opens closes h =
    let (sp, op, cp) = v opens closes h in
    let (sq, oq, cq) = w (opens + k) (closes + k) (omega arith) in
    (
      skips-join p q opens closes sp (rw (op, cp) sq),
      opens_after-join p q opens ∙ rw op (oq ∙ omega arith),
      closes_after-join p q closes ∙ rw cp (cq ∙ omega arith),
    )

-- A word with its opening bracket.
abbrev IsOpening : String → Type 0
IsOpening s =
    (opens closes : ℕ)
    → (skips opens closes s ≡ true)
      × (opens_after opens s ≡ suc opens)
      × (closes_after closes s ≡ closes)

bracketed-IsWalked :
    (opening body : String) (k : ℕ)
    → IsOpening opening
    → IsWalked 1 body k
    → IsWalked 0 (bracketed opening body) (suc k)
bracketed-IsWalked opening body k start w opens closes h =
    let (so, oo, co) = start opens closes in
    let (sb, ob, cb) = w (suc opens) closes (omega arith) in
    let inner = skips-join body ">" (suc opens) closes sb refl in
    (
      skips-join opening (join body ">") opens closes so (rw (oo, co) inner),
      opens_after-join opening (join body ">") opens
          ∙ rw (oo, opens_after-join body ">" (suc opens), ob) (omega arith),
      closes_after-join opening (join body ">") closes
          ∙ rw (co, closes_after-join body ">" closes, cb) (omega arith),
    )

plain_char :
    (c : Char) (s : String) → is_plain (String.◌∷◌ c s) ≡ true → IsWalked 0 (String.◌∷◌ c "") 0
plain_char c s h opens closes g = ground arith

pub is_plain-IsWalked : (s : String) → is_plain s ≡ true → IsWalked 0 s 0
is_plain-IsWalked String.[] h = λ opens closes g. (refl, omega arith, omega arith)
is_plain-IsWalked (String.◌∷◌ c s) h =
    join-IsWalked 0 (String.◌∷◌ c "") s 0 0 (plain_char c s h)
      (is_plain-IsWalked s (&&-true (not _) _ h).1)

comma-IsWalked : IsWalked 1 "," 0
comma-IsWalked opens closes h = ground arith

-- The brackets that a type is written with.
abbrev mutual
  pub brackets : LogicalType → ℕ
  brackets (list type) = suc (brackets type)
  brackets (map key value) = suc (brackets key + (0 + brackets value))
  brackets (struct cs) = suc (field_brackets cs)
  brackets _ = 0

  pub field_brackets : Children → ℕ
  field_brackets nil = 0
  field_brackets (child name type nil) = 0 + (0 + brackets type)
  field_brackets (child name type (child n t cs)) =
      0 + (0 + brackets type) + (0 + field_brackets (child n t cs))

colon-IsWalked : IsWalked 0 ":" 0
colon-IsWalked opens closes h = (refl, omega arith, omega arith)

pub field-IsWalked :
    (name : String) (t : LogicalType)
    → is_plain name ≡ true
    → IsWalked 0 (type_text t) (brackets t)
    → IsWalked 0 (join name (join ":" (type_text t))) (0 + (0 + brackets t))
field-IsWalked name t h w =
    join-IsWalked 0 name (join ":" (type_text t)) 0 _ (is_plain-IsWalked name h)
      (join-IsWalked 0 ":" (type_text t) 0 _ colon-IsWalked w)

mutual
  pub type_text-IsWalked : (t : LogicalType) → IsWritten t → IsWalked 0 (type_text t) (brackets t)
  type_text-IsWalked tinyint h = is_plain-IsWalked "tinyint" refl
  type_text-IsWalked smallint h = is_plain-IsWalked "smallint" refl
  type_text-IsWalked integer h = is_plain-IsWalked "int" refl
  type_text-IsWalked bigint h = is_plain-IsWalked "long" refl
  type_text-IsWalked varchar h = is_plain-IsWalked "string" refl
  type_text-IsWalked double h = is_plain-IsWalked "double" refl
  type_text-IsWalked float h = is_plain-IsWalked "float" refl
  type_text-IsWalked boolean h = is_plain-IsWalked "boolean" refl
  type_text-IsWalked timestamp h = is_plain-IsWalked "timestamp" refl
  type_text-IsWalked timestamp_tz h = is_plain-IsWalked "timestamptz" refl
  type_text-IsWalked blob h = is_plain-IsWalked "binary" refl
  type_text-IsWalked date h = is_plain-IsWalked "date" refl
  type_text-IsWalked (list type) h =
      bracketed-IsWalked "array<" (type_text type) (brackets type) (λ o c. (refl, refl, refl))
        (deeper-IsWalked (type_text type) _ (type_text-IsWalked type h))
  type_text-IsWalked (map key value) h =
      bracketed-IsWalked "map<" (join (type_text key) (join "," (type_text value)))
        (brackets key + (0 + brackets value)) (λ o c. (refl, refl, refl))
        (join-IsWalked 1 (type_text key) _ _ _
          (deeper-IsWalked (type_text key) _ (type_text-IsWalked key h.0))
          (join-IsWalked 1 "," (type_text value) 0 _ comma-IsWalked
            (deeper-IsWalked (type_text value) _ (type_text-IsWalked value h.1))))
  type_text-IsWalked (struct (child name type cs)) h =
      bracketed-IsWalked "struct<" (fields_text (child name type cs))
        (field_brackets (child name type cs)) (λ o c. (refl, refl, refl))
        (fields_text-IsWalked (child name type cs) h)
  type_text-IsWalked _ h = absurd h

  fields_text-IsWalked :
      (cs : Children) → AreWritten cs → IsWalked 1 (fields_text cs) (field_brackets cs)
  fields_text-IsWalked nil h = deeper-IsWalked "" 0 (is_plain-IsWalked "" refl)
  fields_text-IsWalked (child name type nil) h =
      deeper-IsWalked (join name (join ":" (type_text type))) _
        (field-IsWalked name type h.0 (type_text-IsWalked type h.1))
  fields_text-IsWalked (child name type (child n t cs)) h =
      join-IsWalked 1 (join name (join ":" (type_text type))) _ _ _
        (deeper-IsWalked (join name (join ":" (type_text type))) _
          (field-IsWalked name type h.0 (type_text-IsWalked type h.1)))
        (join-IsWalked 1 "," (fields_text (child n t cs)) 0 _ comma-IsWalked
          (fields_text-IsWalked (child n t cs) h.2))
