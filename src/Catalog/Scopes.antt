-- ===== src/Catalog/Scopes.antt =====
-- The scopes of the secrets that a scan of a table creates.
use duckdb_iceberg.Common.{
  ℕ, ◌≡◌, sym, ap, Bool-cases, eq_iff, ◌∙◌, inl, inr, String, true, false, Option, List, ◌++◌, ok,
  map, >>=-eq-ok, ok-injective, throw_if-eq-ok, not, ◌==◌, ◌+++◌,
}
use mathlib.Core.Path.{subst}
use duckdb_iceberg.Json.{Json, obj_get, arr_items}
use duckdb_iceberg.Duckdb.{StringUtil}
use duckdb_iceberg.Catalog.Config.{api_result_to_doc}
use duckdb_iceberg.Catalog.Requests.{ApiTable, IrcCatalog, Session}
use duckdb_iceberg.Catalog.Tables.{Service, get_table_metadata_cached}
use duckdb_iceberg.Catalog.Credentials.{
  SecretLibrary, Options, CreateSecretInfo, TableCredentials, get_secret, parse_config_options,
  credentials_loop, config_secret, read_credentials,
}
use duckdb_iceberg.Catalog.TableScan.{config_secrets, get_table_credentials, scan_secrets}
use duckdb_iceberg.Catalog.Prefixes.{
  single, scopes, AreOf, credentials_loop-scopes, AreScoped, scoped_together,
}

abbrev secret_base_name : ApiTable → String
secret_base_name table =
    "__internal_ic_" +++ table.table_id +++ "__" +++ table.schema_name +++ "__" +++ table.name

module _ (library : SecretLibrary) (u : StringUtil) where
  module _ (tolower : String → String) where
    module _ (service : Service) (catalog : IrcCatalog) (now later : ℕ) (session : Session)
        (table : ApiTable) where
      -- What `GetTableCredentials` answers, by the root of the metadata of the table.
      abbrev Credentials : String → Option Json → TableCredentials library u → Type 0
      Credentials name root credentials =
          (prefixes : List String) × (options : Options library u) × AreOf
            (arr_items (obj_get root "storage-credentials")) prefixes
          × (scopes library u credentials.storage_credentials ≡ map single prefixes)
          × (config_secret library u name options credentials.storage_credentials
              ≡ credentials.config)

      read_credentials-Credentials :
          (name : String) (root : Option Json) (credentials : TableCredentials library u)
          → read_credentials library u catalog.secret_name name root ≡ ok credentials
          → Credentials name root credentials
      unfolding read_credentials
      read_credentials-Credentials name root credentials h =
          let (secret, got, h1) = >>=-eq-ok (get_secret library u catalog.secret_name) _ h in
          let (options, parsed, h2) =
            >>=-eq-ok (parse_config_options library u (obj_get root "config") _) _ h1 in
          let (storage, looped, h3) =
            >>=-eq-ok
              (credentials_loop library u name options 0
                (arr_items (obj_get root "storage-credentials")))
              _ h2 in
          let same = ok-injective h3 in
          let (prefixes, are_of, scoped) =
            credentials_loop-scopes library u name options 0 _ storage looped in
          (
            prefixes,
            options,
            are_of,
            ap (λ c. scopes library u c.storage_credentials) (sym same) ∙ scoped,
            ap (λ c. config_secret library u name options c.storage_credentials) (sym same)
                ∙ ap (λ c. c.config) same,
          )

      -- The metadata that the service answered, or the cache held, and its root.
      abbrev pub IsMetadata : String → Option Json → Session → Type 0
      IsMetadata metadata root after =
          (get_table_metadata_cached service catalog now later session table.schema_name table.name
              catalog.secret_name
            ≡ ok (metadata, after))
          × (api_result_to_doc service.yyjson_read metadata ≡ ok root)

      answered_scoped :
          (name : String) (answer : TableCredentials library u × Session)
          → get_table_credentials library u tolower service catalog now later session
              table.schema_name table.name name
            ≡ ok answer
          → (metadata : String) × (root : Option Json) × IsMetadata metadata root answer.1
            × Credentials name root answer.0
      unfolding get_table_credentials
      answered_scoped name answer h =
          let (fetched, is_fetched, h1) =
            >>=-eq-ok
              (get_table_metadata_cached service catalog now later session table.schema_name
                table.name catalog.secret_name)
              _ h in
          let (root, parsed, h2) =
            >>=-eq-ok (api_result_to_doc service.yyjson_read fetched.0) _ h1 in
          let (credentials, given, h3) =
            >>=-eq-ok (read_credentials library u catalog.secret_name name root) _ h2 in
          let same : (credentials, fetched.1) ≡ answer = ok-injective h3 in
          (
            fetched.0,
            root,
            (is_fetched ∙ ap (λ p. ok (fetched.0, p.1)) same, parsed),
            subst (λ p. Credentials name root p.0) same
                (read_credentials-Credentials name root credentials given),
          )

      is_iceberg : (format : String) → not (format == "ICEBERG") ≡ false → format ≡ "ICEBERG"
      is_iceberg format h = elim (Bool-cases (format == "ICEBERG")) [
        | inl same ↦ (eq_iff format "ICEBERG").0 same
        | inr other ↦ let g : true ≡ false = rw other at h in cc
      ]

      -- If `GetScanFunction` comes to the scan of a table, the table is of the format ICEBERG, the
      -- path scanned is its location, and every secret that was created has one scope: if the
      -- metadata that the service answered, or the cache held, has storage credentials, there is a
      -- secret for each of them, in order, whose scope is its prefix; or else there is at most one,
      -- whose scope is what comes before "metadata" in the location of the table in lower case.
      pub scan_secrets-AreScoped :
          (warehouse : String) (secrets : List (CreateSecretInfo library u)) (path : String)
          (session' : Session)
          → scan_secrets library u tolower service catalog now later session warehouse table
            ≡ ok ((secrets, path), session')
          → (metadata : String) × (root : Option Json) × IsMetadata metadata root session'
            × (table.data_source_format ≡ "ICEBERG")
            × (path ≡ table.storage_location)
            × AreScoped library u tolower root table secrets
      unfolding scan_secrets get_table_credentials
      scan_secrets-AreScoped warehouse secrets path session' h =
          let (format, h1) = throw_if-eq-ok (not (table.data_source_format == "ICEBERG")) _ _ h in
          let (answer, answered, h2) =
            >>=-eq-ok
              (get_table_credentials library u tolower service catalog now later session
                table.schema_name table.name (secret_base_name table))
              _ h1 in
          let (made, returns, h3) =
            >>=-eq-ok
              (config_secrets library u tolower catalog.host warehouse catalog.secret_name table
                answer.0.config)
              _ h2 in
          let (metadata, root, (fetched, parsed), (prefixes, opts, are_of, scoped, config)) =
            answered_scoped (secret_base_name table) answer answered in
          let same : ((made ++ answer.0.storage_credentials, table.storage_location), answer.1)
              ≡ ((secrets, path), session') =
            ok-injective h3 in
          (
            metadata,
            root,
            (fetched ∙ ap (λ p. ok (metadata, p.1)) same, parsed),
            is_iceberg table.data_source_format format,
            sym (ap (λ p. p.0.1) same),
            subst (λ p. AreScoped library u tolower root table p.0.0) same
                (scoped_together library u tolower catalog.host warehouse catalog.secret_name
                  (secret_base_name table) table root opts answer.0.config
                  answer.0.storage_credentials made prefixes are_of scoped config returns),
          )
