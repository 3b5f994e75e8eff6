-- ===== src/Catalog/Cache.antt =====
-- The cache of table metadata in src/storage/irc_catalog.cpp. The clock is an argument, in
-- milliseconds of the epoch; a time before it is left out. A `time_point` of the system's clock is
-- a signed count of 64 bits, of nanoseconds.
use duckdb_iceberg.Common.{
  ℕ, ◌≡◌, inl, inr, String, Bool, false, Option, none, some, List, [], ◌∷◌, Result, ok, throw,
  internal_exception, undefined_behaviour, ◌>>=◌, ◌<◌, ◌*◌, ltb_of_lt, ltb, ◌==◌, eq_refl, empty,
  is_empty, if◌then◌else◌, Bool-cases,
}
use duckdb_iceberg.Json.{Json, obj_get, obj_items}
use duckdb_iceberg.Utils.{try_get_str_or}
use duckdb_iceberg.Catalog.Config.{api_result_to_doc}

pub record MetadataCacheValue : Type 0 where
  pub cached_data : String
  pub expires_at : ℕ

abbrev pub MetadataCache : Type 0
MetadataCache = List (String × MetadataCacheValue)

abbrev pub find_value : MetadataCache → String → Option MetadataCacheValue
find_value [] url = none
find_value ((k, v) ∷ m) url = if k == url then some v else find_value m url

abbrev pub store_value : MetadataCache → String → MetadataCacheValue → MetadataCache
store_value [] url v = (url, v) ∷ []
store_value ((k, w) ∷ m) url v = if k == url then (k, v) ∷ m else (k, w) ∷ store_value m url v

abbrev is_fresh : ℕ → Option MetadataCacheValue → Bool
is_fresh now none = false
is_fresh now (some value) = ltb now value.expires_at

unfoldable pub has_cached_value : ℕ → MetadataCache → String → Bool
has_cached_value now cache url = is_fresh now (find_value cache url)

abbrev fresh_data : ℕ → Option MetadataCacheValue → Result String
fresh_data now none = throw (internal_exception "Cached value does not exist")
fresh_data now (some value) =
    if ltb now value.expires_at
    then ok value.cached_data
    else throw (internal_exception "Cached value does not exist")

unfoldable pub get_cached_value : ℕ → MetadataCache → String → Result String
get_cached_value now cache url = fresh_data now (find_value cache url)

-- `time_point(milliseconds(epochMillis))`: a count of nanoseconds that is no signed 64-bit integer
-- overflows, which is undefined.
unfoldable pub to_time_point : ℕ → Result ℕ
to_time_point epoch_millis =
    if ltb (epoch_millis * 1000000) 9223372036854775808
    then ok epoch_millis
    else throw undefined_behaviour

module _ (yyjson_read : String → Option Json) (stoll : String → Result ℕ) where
  store_until : MetadataCache → String → String → String → Result (MetadataCache × Bool)
  unfolding to_time_point
  store_until cache url value expires_at =
      if empty expires_at
      then ok (cache, false)
      else stoll expires_at >>= λ epoch_millis. to_time_point epoch_millis >>= λ expired_time.
          ok (
            store_value cache url (record { cached_data = value; expires_at = expired_time }),
            false,
          )

  -- The answer is false in every case.
  unfoldable pub set_cached_value : MetadataCache → String → String → Result (MetadataCache × Bool)
  unfolding store_until api_result_to_doc try_get_str_or
  set_cached_value cache url value = do
    root ← api_result_to_doc yyjson_read value
    let credentials = obj_get root "config"
    if is_empty (obj_items credentials) then ok (cache, false) else (do
      expires_at ← try_get_str_or credentials "s3.session-token-expires-at-ms" false ""
      store_until cache url value expires_at)

  find_value-store_value :
      (cache : MetadataCache) (url : String) (v : MetadataCacheValue)
      → find_value (store_value cache url v) url ≡ some v
  find_value-store_value [] url v = rw (eq_refl url)
  find_value-store_value ((k, w) ∷ cache) url v = elim (Bool-cases (k == url)) [
    | inl here ↦ rw (here, here)
    | inr there ↦ rw (there, there, find_value-store_value cache url v)
  ]

  -- An answer with credentials that expire at a time, which has a count of nanoseconds in 64 bits,
  -- is what the cache gives for the URL before that time, and not from then on.
  pub get_cached_value-set_cached_value :
      (cache : MetadataCache) (url value expires : String) (root : Option Json) (millis now : ℕ)
      → api_result_to_doc yyjson_read value ≡ ok root
      → is_empty (obj_items (obj_get root "config")) ≡ false
      → try_get_str_or (obj_get root "config") "s3.session-token-expires-at-ms" false ""
        ≡ ok expires
      → empty expires ≡ false
      → stoll expires ≡ ok millis
      → millis * 1000000 < 9223372036854775808
      → (cache' : MetadataCache) × (set_cached_value cache url value ≡ ok (cache', false))
        × (get_cached_value now cache' url ≡ (
            if ltb now millis
            then ok value
            else throw (internal_exception "Cached value does not exist")))
        × (has_cached_value now cache' url ≡ ltb now millis)
  unfolding set_cached_value get_cached_value has_cached_value to_time_point
  get_cached_value-set_cached_value cache url value expires root millis now doc full read given time
        small =
      let v : MetadataCacheValue = record { cached_data = value; expires_at = millis } in
      (
        store_value cache url v,
        rw (doc, full, read, given, time, ltb_of_lt (millis * 1000000) 9223372036854775808 small),
        rw (find_value-store_value cache url v),
        rw (find_value-store_value cache url v),
      )
