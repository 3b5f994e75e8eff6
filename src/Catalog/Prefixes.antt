-- ===== src/Catalog/Prefixes.antt =====
-- The scopes of secrets, by the prefixes of the storage credentials of a table.
use duckdb_iceberg.Common.{
  ℕ, suc, ◌≡◌, refl, sym, ap, ◌∙◌, ◌⊎◌, inl, inr, String, Option, none, some, List, [], ◌∷◌, ◌++◌,
  ok, map, >>=-eq-ok, or_throw, or_throw-eq-ok, ok-injective, before_text,
}
use duckdb_iceberg.Json.{Json, obj_get, arr_items, get_str}
use duckdb_iceberg.Duckdb.{StringUtil}
use duckdb_iceberg.Catalog.Requests.{ApiTable}
use duckdb_iceberg.Catalog.Credentials.{
  SecretLibrary, Options, CreateSecretInfo, storage_credential, parse_config_options,
  credentials_loop, config_secret,
}
use duckdb_iceberg.Catalog.TableScan.{secret_scope, override_options, config_secrets}

-- The prefix that a storage credential gives.
abbrev pub prefix_of : Json → Option String
prefix_of credential = get_str (obj_get (some credential) "prefix")

abbrev pub single : String → List String
single prefix = prefix ∷ []

-- A list that is mapped to none is none.
map-eq-nil : (prefixes : List String) → map single prefixes ≡ [] → prefixes ≡ []
map-eq-nil [] h = refl
map-eq-nil (p ∷ ps) h = cc

-- A list of prefixes is that of storage credentials.
abbrev pub AreOf : List Json → List String → Type 0
AreOf credentials prefixes = map prefix_of credentials ≡ map some prefixes

module _ (library : SecretLibrary) (u : StringUtil) where
  abbrev pub scopes : List (CreateSecretInfo library u) → List (List String)
  scopes = map (λ secret. secret.scope)

  storage_credential-prefix_of :
      (name : String) (index : ℕ) (options : Options library u) (credential : Json)
      (secret : CreateSecretInfo library u)
      → storage_credential library u name index options credential ≡ ok secret
      → (prefix : String) × (prefix_of credential ≡ some prefix) × (secret.scope ≡ single prefix)
  unfolding storage_credential
  storage_credential-prefix_of name index options credential secret h =
      let (item, found, h1) = >>=-eq-ok (or_throw (obj_get (some credential) "prefix") _) _ h in
      let (prefix, is_text, h2) = >>=-eq-ok (or_throw (get_str (some item)) _) _ h1 in
      let (all_options, parsed, h3) =
        >>=-eq-ok (parse_config_options library u (obj_get (some credential) "config") options) _
          h2 in
      (
        prefix,
        ap get_str (or_throw-eq-ok _ _ found) ∙ or_throw-eq-ok _ _ is_text,
        ap (λ s. s.scope) (sym (ok-injective h3)),
      )

  pub credentials_loop-scopes :
      (name : String) (options : Options library u) (index : ℕ) (credentials : List Json)
      (secrets : List (CreateSecretInfo library u))
      → credentials_loop library u name options index credentials ≡ ok secrets
      → (prefixes : List String) × AreOf credentials prefixes
        × (scopes secrets ≡ map single prefixes)
  unfolding credentials_loop
  credentials_loop-scopes name options index [] secrets h =
      ([], refl, ap scopes (sym (ok-injective h)))
  credentials_loop-scopes name options index (credential ∷ credentials) secrets h =
      let (first, returns, h1) = >>=-eq-ok _ _ h in
      let (rest, others, h2) = >>=-eq-ok _ _ h1 in
      let (prefix, is_prefix, scoped) =
        storage_credential-prefix_of name index options credential first returns in
      let (prefixes, are_of, all_scoped) =
        credentials_loop-scopes name options (suc index) credentials rest others in
      (
        prefix ∷ prefixes,
        rw (is_prefix, are_of),
        ap scopes (sym (ok-injective h2)) ∙ rw (scoped, all_scoped),
      )

  module _ (tolower : String → String) where
    -- What the scopes of secrets are, by the root of the metadata of a table: of the storage
    -- credentials if there are any, each its prefix; or else of one secret, the folder of the table.
    abbrev pub AreScoped : Option Json → ApiTable → List (CreateSecretInfo library u) → Type 0
    AreScoped root table secrets =
        (prefixes : List String) × AreOf (arr_items (obj_get root "storage-credentials")) prefixes
        × ((scopes secrets ≡ map single prefixes)
            ⊎ ((folder : String) × (prefixes ≡ [])
                × (before_text "metadata" (tolower table.storage_location) ≡ some folder)
                × (scopes secrets ≡ single folder ∷ [])))

    -- A secret of the 'config' is only made where no storage credential is.
    config_secret-nil :
        (name : String) (options : Options library u) (secrets : List (CreateSecretInfo library u))
        (info : CreateSecretInfo library u)
        → config_secret library u name options secrets ≡ some info
        → secrets ≡ []
    unfolding config_secret
    config_secret-nil name [] secrets info h = cc
    config_secret-nil name (option ∷ options) [] info h = refl
    config_secret-nil name (option ∷ options) (secret ∷ secrets) info h = cc

    -- The secrets of the 'config' and of the storage credentials together.
    pub scoped_together :
        (host warehouse secret_name name : String) (table : ApiTable) (root : Option Json)
        (options : Options library u) (config : Option (CreateSecretInfo library u))
        (storage : List (CreateSecretInfo library u)) (secrets : List (CreateSecretInfo library u))
        (prefixes : List String)
        → AreOf (arr_items (obj_get root "storage-credentials")) prefixes
        → scopes storage ≡ map single prefixes
        → config_secret library u name options storage ≡ config
        → config_secrets library u tolower host warehouse secret_name table config ≡ ok secrets
        → AreScoped root table (secrets ++ storage)
    unfolding config_secrets secret_scope
    scoped_together host warehouse secret_name name table root options none storage secrets prefixes
          are_of scoped made h =
        let e = ok-injective h in
        (prefixes, are_of, inl (ap (λ s. scopes (s ++ storage)) (sym e) ∙ scoped))
    scoped_together host warehouse secret_name name table root options (some info) storage secrets
          prefixes are_of scoped made h =
        let (folder, is_folder, h1) = >>=-eq-ok (secret_scope library u tolower table) _ h in
        let (all_options, overridden, h2) =
          >>=-eq-ok (override_options library u tolower host warehouse secret_name info.options) _
            h1 in
        let no_storage = config_secret-nil name options storage info made in
        let none_given = map-eq-nil prefixes (sym scoped ∙ ap scopes no_storage) in
        (
          prefixes,
          are_of,
          inr (
            folder,
            none_given,
            or_throw-eq-ok _ _ is_folder,
            ap (λ s. scopes (s ++ storage)) (sym (ok-injective h2))
                ∙ ap (λ s. single folder ∷ scopes s) no_storage,
          ),
        )
