-- ===== src/Catalog/Config.antt =====
-- `GetConfig` of src/storage/irc_catalog.cpp and `api_result_to_doc` of src/catalog_utils.cpp: the
-- service's configuration, and the prefix that the endpoints get from it.
use duckdb_iceberg.Common.{
  ◌≡◌, refl, String, Option, none, some, List, [], ◌∷◌, Result, ok, throw, logic_error,
  undefined_behaviour, invalid_input, ◌>>=◌, or_throw, ◌==◌, if◌then◌else◌,
}
use duckdb_iceberg.Json.{Json, str, obj_get, obj_items, get_str}
use duckdb_iceberg.Utils.{try_get_str}
use duckdb_iceberg.Catalog.Endpoint.{set_key}

pub record Configuration : Type 0 where
  pub defaults : List (String × String)
  pub overrides : List (String × String)
  pub prefix : String

-- A null document has no root, and no error.
unfoldable pub api_result_to_doc : (String → Option Json) → String → Result (Option Json)
unfolding try_get_str
api_result_to_doc yyjson_read api_result =
    let root = yyjson_read api_result in
    elim (obj_get root "error") [
      | none ↦ ok root
      | some error ↦ try_get_str (some error) "message" >>= λ err_msg. throw (invalid_input err_msg)
    ]

module _ (url_decode : String → String) where
  abbrev store_default : Configuration → String → String → Configuration
  store_default c key value = record c {
    defaults = set_key c.defaults key value;
    prefix = if key == "prefix" then url_decode value else c.prefix;
  }

  abbrev store_override : Configuration → String → String → Configuration
  store_override c key value = record c {
    overrides = set_key c.overrides key value;
    prefix = if key == "prefix" then url_decode value else c.prefix;
  }

  -- A value that is no string is a null pointer.
  unfoldable pub read_defaults : List (String × Json) → Configuration → Result Configuration
  read_defaults [] c = ok c
  read_defaults ((key, val) ∷ items) c = do
    value ← or_throw (get_str (some val)) undefined_behaviour
    read_defaults items (store_default c key value)

  unfoldable pub read_overrides : List (String × Json) → Configuration → Result Configuration
  read_overrides [] c = ok c
  read_overrides ((key, val) ∷ items) c = do
    value ←
        or_throw (get_str (some val)) (if key == "prefix" then logic_error else undefined_behaviour)
    read_overrides items (store_override c key value)

  -- The part of `GetConfig` after the answer of the service.
  unfoldable pub read_config : Option Json → Result Configuration
  unfolding read_defaults read_overrides
  read_config root = do
    c ←
        read_defaults (obj_items (obj_get root "defaults"))
          (record { defaults = []; overrides = []; prefix = "" })
    read_overrides (obj_items (obj_get root "overrides")) c

  -- The last prefix that the properties name, or else the one given.
  abbrev pub last_prefix : List (String × String) → String → String
  last_prefix [] prefix = prefix
  last_prefix ((key, value) ∷ items) prefix =
      last_prefix items (if key == "prefix" then url_decode value else prefix)

  -- Properties whose values are strings.
  abbrev pub as_items : List (String × String) → List (String × Json)
  as_items [] = []
  as_items ((key, value) ∷ items) = (key, str value) ∷ as_items items

  read_defaults-prefix :
      (items : List (String × String)) (c : Configuration)
      → (c' : Configuration) × (read_defaults (as_items items) c ≡ ok c')
        × (c'.prefix ≡ last_prefix items c.prefix)
  unfolding read_defaults
  read_defaults-prefix [] c = (c, refl, refl)
  read_defaults-prefix ((key, value) ∷ items) c =
      read_defaults-prefix items (store_default c key value)

  read_overrides-prefix :
      (items : List (String × String)) (c : Configuration)
      → (c' : Configuration) × (read_overrides (as_items items) c ≡ ok c')
        × (c'.prefix ≡ last_prefix items c.prefix)
  unfolding read_overrides
  read_overrides-prefix [] c = (c, refl, refl)
  read_overrides-prefix ((key, value) ∷ items) c =
      read_overrides-prefix items (store_override c key value)

  -- A configuration of strings is read, and its prefix is the last one of the overrides if they
  -- have one, or else the last one of the defaults, or else empty.
  pub read_config-prefix :
      (root : Option Json) (defaults overrides : List (String × String))
      → obj_items (obj_get root "defaults") ≡ as_items defaults
      → obj_items (obj_get root "overrides") ≡ as_items overrides
      → (c : Configuration) × (read_config root ≡ ok c)
        × (c.prefix ≡ last_prefix overrides (last_prefix defaults ""))
  unfolding read_config
  read_config-prefix root defaults overrides d o =
      let start : Configuration = record { defaults = []; overrides = []; prefix = "" } in
      let (c, e, p) = read_defaults-prefix defaults start in
      let (c', e', p') = read_overrides-prefix overrides c in (c', rw (d, e, o, e'), rw p at p')
