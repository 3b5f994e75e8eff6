-- ===== src/Catalog/Entries.antt =====
-- src/storage/irc_catalog_set.cpp: the entries of a schema or of the catalog, by their names
-- without regard to case. What an entry holds is a parameter, and so is loading the entries.
use duckdb_iceberg.Common.{
  ◌≡◌, refl, String, false, Option, none, some, List, [], ◌∷◌, ◌++◌, Result, ok, throw,
  internal_exception, ◌>>=◌, ◌==◌, eq_refl, empty, if◌then◌else◌, Bool-cases, Option-cases, inl,
  inr,
}
use duckdb_iceberg.Duckdb.{StringUtil, ci_find, ci_set}

abbrev insert_into {ℓ} :
    {E : Type ℓ} → List (String × E) → String → E → Option E → List (String × E)
insert_into entries name entry (some old) = entries
insert_into entries name entry none = entries ++ (name, entry) ∷ []

abbrev pub old_or_new {ℓ} : {E : Type ℓ} → Option E → E → E
old_or_new none entry = entry
old_or_new (some old) entry = old

module _ {E : Type 0} (u : StringUtil) where
  open u use {lower}

  -- `entries.insert`, which keeps the entry of a name that is present.
  insert_entry : List (String × E) → String → E → List (String × E)
  insert_entry entries name entry = insert_into entries name entry (ci_find u entries name)

  -- The pointer that is returned is to the new entry, which is gone if the name was taken.
  unfoldable pub create_entry : List (String × E) → String → E → Result (List (String × E) × E)
  unfolding insert_entry
  create_entry entries name entry =
      if empty name
      then throw (internal_exception "ICCatalogSet::CreateEntry called with empty name")
      else ok (insert_entry entries name entry, entry)

  unfoldable pub drop_entry : List (String × E) → String → List (String × E)
  drop_entry [] name = []
  drop_entry ((k, e) ∷ entries) name =
      if lower k == lower name then drop_entry entries name else (k, e) ∷ drop_entry entries name

  unfoldable pub clear_entries : List (String × E) → List (String × E)
  clear_entries entries = []

  -- Loading and filling may ask the service, whose state `W` they pass on.
  module _ {W : Type 0} (load_entries : List (String × E) → W → Result (List (String × E) × W))
      (fill_entry : E → W → Result (E × W)) where
    -- What `GetEntry` does with the entry that it finds: it is filled where it stands.
    unfoldable pub fill_found :
        List (String × E) → String → W → Option E → Result (Option E × List (String × E) × W)
    unfolding ci_set
    fill_found entries name w none = ok (none, entries, w)
    fill_found entries name w (some entry) = fill_entry entry w >>= λ filled.
        ok (some filled.0, ci_set u entries name filled.0, filled.1)

    unfoldable pub get_entry :
        List (String × E) → String → W → Result (Option E × List (String × E) × W)
    unfolding ci_find fill_found
    get_entry entries name w = do
      loaded ← load_entries entries w
      fill_found loaded.0 name loaded.1 (ci_find u loaded.0 name)

    run_callback : {S : Type 0} → (E → S → S) → List (String × E) → S → S
    run_callback callback [] s = s
    run_callback callback ((k, e) ∷ rest) s = run_callback callback rest (callback e s)

    -- The entries are loaded before the callback runs on each.
    unfoldable pub scan :
        {S : Type 0} → (E → S → S) → List (String × E) → S → W → Result (S × List (String × E) × W)
    unfolding run_callback
    scan callback entries s w = do
      loaded ← load_entries entries w
      ok (run_callback callback loaded.0 s, loaded.0, loaded.1)

  -- A dropped entry is not found, by any spelling of its name.
  pub ci_find-drop_entry :
      (entries : List (String × E)) (name other : String)
      → lower other ≡ lower name
      → ci_find u (drop_entry entries name) other ≡ none
  unfolding drop_entry ci_find
  ci_find-drop_entry [] name other e = refl
  ci_find-drop_entry ((k, x) ∷ entries) name other e = elim (Bool-cases (lower k == lower name)) [
    | inl here ↦ rw here (ci_find-drop_entry entries name other e)
    | inr there ↦ rw there (rw (e, there) (ci_find-drop_entry entries name other e))
  ]

  ci_find-append_self :
      (entries : List (String × E)) (name : String) (entry : E)
      → ci_find u entries name ≡ none
      → ci_find u (entries ++ (name, entry) ∷ []) name ≡ some entry
  unfolding ci_find
  ci_find-append_self [] name entry h = rw (eq_refl (lower name))
  ci_find-append_self ((k, x) ∷ entries) name entry h = elim (Bool-cases (lower k == lower name)) [
    | inl here ↦ let c : some x ≡ none = rw here at h in cc
    | inr there ↦ rw there (ci_find-append_self entries name entry (rw there at h))
  ]

  insert_entry-ci_find :
      (entries : List (String × E)) (name : String) (entry : E)
      → ci_find u (insert_entry entries name entry) name
        ≡ some (old_or_new (ci_find u entries name) entry)
  unfolding insert_entry
  insert_entry-ci_find entries name entry = elim (Option-cases (ci_find u entries name)) [
    | inl free ↦ rw (free, ci_find-append_self entries name entry free)
    | inr (old, taken) ↦ rw (taken, taken)
  ]

  -- After an entry is created, its name finds it if the name was free, and the entry that had the
  -- name before if not.
  pub create_entry-ci_find :
      (entries : List (String × E)) (name : String) (entry : E)
      → empty name ≡ false
      → (entries' : List (String × E)) × (create_entry entries name entry ≡ ok (entries', entry))
        × (ci_find u entries' name ≡ some (old_or_new (ci_find u entries name) entry))
  unfolding create_entry
  create_entry-ci_find entries name entry named =
      (insert_entry entries name entry, rw named, insert_entry-ci_find entries name entry)
