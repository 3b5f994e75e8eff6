-- ===== src/Json/Depth.antt =====
-- How deep a JSON value is nested: the bound on every recursion that follows its fields.
use Prim.Native.Nat.{max}
use duckdb_iceberg.Common.{
  ℕ, suc, ◌-◌, ◌≤◌, String, Option, none, some, All, arith, ◌==◌, Bool-cases, inl, inr,
}
use duckdb_iceberg.Json.{
  Json, null, bool, num, str, arr, obj, Elems, no_elems, element, Props, no_props, property, elems,
  find_prop, obj_get, arr_items,
}

unfoldable mutual
  pub depth : Json → ℕ
  depth null = 0
  depth (bool b) = 0
  depth (num n) = 0
  depth (str s) = 0
  depth (arr vs) = suc (depth_elems vs)
  depth (obj ps) = suc (depth_props ps)

  pub depth_elems : Elems → ℕ
  depth_elems no_elems = 0
  depth_elems (element v vs) = max (depth v) (depth_elems vs)

  pub depth_props : Props → ℕ
  depth_props no_props = 0
  depth_props (property k v ps) = max (depth v) (depth_props ps)

-- A null pointer has no depth.
abbrev pub depth? : Option Json → ℕ
depth? none = 0
depth? (some v) = depth v

find_prop-depth : (ps : Props) (key : String) → depth? (find_prop ps key) ≤ depth_props ps
unfolding depth
find_prop-depth no_props key = omega arith
find_prop-depth (property k v ps) key = elim (Bool-cases (k == key)) [
  | inl here ↦ rw here (omega arith)
  | inr there ↦ rw there (omega (arith, find_prop-depth ps key))
]

-- A field lies less deep than its object; what is no object has no fields.
pub obj_get-depth : (v : Json) (key : String) → depth? (obj_get (some v) key) ≤ depth v - 1
unfolding depth
obj_get-depth (obj ps) key = omega (arith, find_prop-depth ps key)
obj_get-depth _ key = omega arith

elems-depth : (n : ℕ) (vs : Elems) → depth_elems vs ≤ n → All (λ v. depth v ≤ n) (elems vs)
unfolding depth
elems-depth n no_elems h = tt
elems-depth n (element v vs) h = (omega arith, elems-depth n vs (omega arith))

pub arr_items-depth : (v : Option Json) → All (λ item. depth item ≤ depth? v - 1) (arr_items v)
unfolding depth
arr_items-depth (some (arr vs)) = elems-depth _ vs (omega arith)
arr_items-depth _ = tt
