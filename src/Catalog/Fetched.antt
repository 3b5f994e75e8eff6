-- ===== src/Catalog/Fetched.antt =====
-- The metadata of a table that was fetched, asked for again.
use duckdb_iceberg.Common.{
  ℕ, ◌≡◌, ◌∷◌, String, false, Option, ok, throw, internal_exception, ltb, ◌<◌, ◌*◌, is_empty, empty,
  if◌then◌else◌, Bool-cases, inl, inr,
}
use duckdb_iceberg.Json.{Json, obj_get, obj_items}
use duckdb_iceberg.Utils.{try_get_str_or}
use duckdb_iceberg.Catalog.Endpoint.{get_url}
use duckdb_iceberg.Catalog.Config.{api_result_to_doc}
use duckdb_iceberg.Catalog.Cache.{get_cached_value-set_cached_value}
use duckdb_iceberg.Catalog.Requests.{IrcCatalog, Session, table_url}
use duckdb_iceberg.Catalog.Tables.{
  Service, ask, metadata_request, get_table_metadata, get_table_metadata_cached,
}

module _ (service : Service) (catalog : IrcCatalog) where
  open service use {get_request, yyjson_read, stoll, url_encode}

  -- Safety: after the metadata of a table was fetched, with credentials that expire at a time,
  -- which has a count of nanoseconds in 64 bits, asking for it again before that time gives the same answer, with no request and the session as
  -- it was; from that time on it is fetched again. If the time passes between the two readings of
  -- the clock, the call throws.
  pub get_table_metadata_cached-get_table_metadata :
      (session : Session) (schema table secret_name answer expires : String) (root : Option Json)
      (millis now later : ℕ)
      → get_request session.requests (metadata_request service catalog schema table secret_name)
        ≡ ok answer
      → api_result_to_doc yyjson_read answer ≡ ok root
      → is_empty (obj_items (obj_get root "config")) ≡ false
      → try_get_str_or (obj_get root "config") "s3.session-token-expires-at-ms" false ""
        ≡ ok expires
      → empty expires ≡ false
      → stoll expires ≡ ok millis
      → millis * 1000000 < 9223372036854775808
      → (session' : Session) × (get_table_metadata service catalog session schema table secret_name
          ≡ ok (answer, session'))
        × (get_table_metadata_cached service catalog now later session' schema table secret_name ≡ (
            if ltb now millis
            then (if ltb later millis
                then ok (answer, session')
                else throw (internal_exception "Cached value does not exist"))
            else get_table_metadata service catalog session' schema table secret_name))
  unfolding get_table_metadata get_table_metadata_cached ask
  get_table_metadata_cached-get_table_metadata session schema table secret_name answer expires root
        millis now later asked doc full read given time small =
      let url : String = get_url url_encode (table_url catalog schema table) in
      let (cache', stored, value, fresh) =
        get_cached_value-set_cached_value yyjson_read stoll session.metadata_cache url answer
          expires root millis now doc full read given time small in
      let (other, stored', value', fresh') =
        get_cached_value-set_cached_value yyjson_read stoll session.metadata_cache url answer
          expires root millis later doc full read given time small in
      let same : other ≡ cache' = cc in
      (
        record {
          metadata_cache = cache';
          requests = metadata_request service catalog schema table secret_name ∷ session.requests;
        },
        rw (asked, stored),
        rw (fresh, rw same at value')
            (elim (Bool-cases (ltb later millis)) [ inl e ↦ rw e | inr e ↦ rw e ]),
      )
