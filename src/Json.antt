-- ===== src/Json.antt =====
-- The JSON values that yyjson hands out, as include/iceberg_utils.hpp and its callers read them. The
-- parser is yyjson's and stays a parameter. A null pointer is `none`.
pub mod Depth
use duckdb_iceberg.Common.{ℕ, String, Bool, Option, none, some, List, [], ◌∷◌, ◌==◌, if◌then◌else◌}

-- `num` holds what `yyjson_get_uint` answers for the number.
mutual
  pub data Props : Type 0 where
    no_props : Props
    property : String → Json → Props → Props

  pub data Elems : Type 0 where
    no_elems : Elems
    element : Json → Elems → Elems

  pub data Json : Type 0 where
    obj : Props → Json
    arr : Elems → Json
    str : String → Json
    num : ℕ → Json
    bool : Bool → Json
    null : Json

abbrev pub props : Props → List (String × Json)
props no_props = []
props (property key val more) = (key, val) ∷ props more

abbrev pub elems : Elems → List Json
elems no_elems = []
elems (element val more) = val ∷ elems more

-- The first property of the name.
abbrev pub find_prop : Props → String → Option Json
find_prop no_props key = none
find_prop (property k v ps) key = if k == key then some v else find_prop ps key

-- `yyjson_obj_get`: null for a null pointer, and for what is no object.
abbrev pub obj_get : Option Json → String → Option Json
obj_get (some (obj ps)) key = find_prop ps key
obj_get _ key = none

-- What `yyjson_arr_foreach` runs through: nothing, unless it is an array.
abbrev pub arr_items : Option Json → List Json
arr_items (some (arr vs)) = elems vs
arr_items _ = []

-- What `yyjson_obj_iter` runs through.
abbrev pub obj_items : Option Json → List (String × Json)
obj_items (some (obj ps)) = props ps
obj_items _ = []

-- The value is a string.
abbrev pub get_str : Option Json → Option String
get_str (some (str s)) = some s
get_str _ = none
