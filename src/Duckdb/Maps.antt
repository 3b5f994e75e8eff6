-- ===== src/Duckdb/Maps.antt =====
-- The laws of maps whose keys are compared without their case.
use duckdb_iceberg.Common.{
  ◌≡◌, refl, sym, ap, ◌∙◌, String, false, Option, none, some, List, [], ◌∷◌, ◌==◌, eq_refl, eq_iff,
  Bool-cases, inl, inr, if◌then◌else◌,
}
use duckdb_iceberg.Duckdb.{StringUtil, ci_find, ci_set, ci_set_all}

abbrev pub or_else {ℓ} : {V : Type ℓ} → Option V → Option V → Option V
or_else none before = before
or_else (some v) before = some v

module _ {ℓ} {V : Type ℓ} (u : StringUtil) where
  open u use {lower}

  pub ci_find_congr :
      (m : List (String × V)) (j k : String) → lower j ≡ lower k → ci_find u m j ≡ ci_find u m k
  unfolding ci_find
  ci_find_congr [] j k e = refl
  ci_find_congr ((l, v) ∷ m) j k e = rw (e, ci_find_congr m j k e)

  pub ci_find-ci_set_self :
      (m : List (String × V)) (j : String) (v : V) → ci_find u (ci_set u m j v) j ≡ some v
  unfolding ci_find ci_set
  ci_find-ci_set_self [] j v = rw (eq_refl (lower j))
  ci_find-ci_set_self ((l, w) ∷ m) j v = elim (Bool-cases (lower l == lower j)) [
    | inl here ↦ rw (here, here)
    | inr there ↦ rw (there, there, ci_find-ci_set_self m j v)
  ]

  pub ci_find-ci_set_other :
      (m : List (String × V)) (j k : String) (v : V)
      → (lower j == lower k) ≡ false
      → ci_find u (ci_set u m j v) k ≡ ci_find u m k
  unfolding ci_find ci_set
  ci_find-ci_set_other [] j k v e = rw e
  ci_find-ci_set_other ((l, w) ∷ m) j k v e = elim (Bool-cases (lower l == lower j)) [
    | inl here ↦
        let same = (eq_iff (lower l) (lower j)).0 here in
        let far = rw (← same) at e in rw (here, far)
    | inr there ↦ rw (there, ci_find-ci_set_other m j k v e)
  ]

  -- A value that is there already.
  pub ci_set-ci_find_self :
      (m : List (String × V)) (j : String) (v : V) → ci_find u m j ≡ some v → ci_set u m j v ≡ m
  unfolding ci_find ci_set
  ci_set-ci_find_self [] j v h = cc
  ci_set-ci_find_self ((l, w) ∷ m) j v h = elim (Bool-cases (lower l == lower j)) [
    | inl here ↦ let k : some w ≡ some v = rw here at h in let e : w ≡ v = cc in rw (here, e)
    | inr there ↦ rw (there, ci_set-ci_find_self m j v (rw there at h))
  ]

  -- The last of the entries with a name, or else what was there.
  abbrev pub last_entry : List (String × V) → String → Option V
  last_entry [] key = none
  last_entry ((k, v) ∷ entries) key =
      or_else (last_entry entries key) (if lower k == lower key then some v else none)

  or_else_assoc : (x y z : Option V) → or_else x (or_else y z) ≡ or_else (or_else x y) z
  or_else_assoc none y z = refl
  or_else_assoc (some v) y z = refl

  ci_find-ci_set :
      (m : List (String × V)) (j k : String) (v : V)
      → ci_find u (ci_set u m j v) k
        ≡ or_else (if lower j == lower k then some v else none) (ci_find u m k)
  ci_find-ci_set m j k v = elim (Bool-cases (lower j == lower k)) [
    | inl same ↦
        let e = (eq_iff (lower j) (lower k)).0 same in
        ci_find_congr (ci_set u m j v) k j (sym e) ∙ ci_find-ci_set_self m j v ∙ rw same
    | inr other ↦ ci_find-ci_set_other m j k v other ∙ rw other
  ]

  pub ci_find-ci_set_all :
      (m entries : List (String × V)) (key : String)
      → ci_find u (ci_set_all u m entries) key ≡ or_else (last_entry entries key) (ci_find u m key)
  unfolding ci_set_all
  ci_find-ci_set_all m [] key = refl
  ci_find-ci_set_all m ((k, v) ∷ entries) key =
      ci_find-ci_set_all (ci_set u m k v) entries key
      ∙ ap (or_else (last_entry entries key)) (ci_find-ci_set m k key v)
      ∙ or_else_assoc (last_entry entries key) _ (ci_find u m key)
