-- ===== src/Catalog/Lookup.antt =====
-- A table that was looked up, looked up again.
use duckdb_iceberg.Common.{
  ◌≡◌, refl, sym, ap, ◌∙◌, ℕ, String, false, not, Option, none, some, List, [], ◌∷◌, Result, ok,
  >>=-eq-ok, is_empty, empty, Bool-cases, inl, inr, ◌==◌, if-true,
}
use duckdb_iceberg.Duckdb.{StringUtil, ci_find, ci_set}
use duckdb_iceberg.Duckdb.Maps.{ci_find-ci_set_self, ci_set-ci_find_self}
use duckdb_iceberg.Catalog.Entries.{get_entry, fill_found}
use duckdb_iceberg.Catalog.Requests.{IrcCatalog, Session}
use duckdb_iceberg.Catalog.Tables.{Service}
use duckdb_iceberg.Catalog.TableSet.{
  TableEntry, TableEntries, fill_table, load_tables, get_table_entry,
}

ci_set-nonempty :
    {V : Type 0} (u : StringUtil) (m : List (String × V)) (key : String) (v : V)
    → is_empty (ci_set u m key v) ≡ false
unfolding ci_set
ci_set-nonempty u [] key v = refl
ci_set-nonempty u ((k, w) ∷ m) key v = elim (Bool-cases (u.lower k == u.lower key)) [
  | inl here ↦ rw here
  | inr there ↦ rw there
]

module _ (cast : String → Result ℕ) (service : Service) (catalog : IrcCatalog) (u : StringUtil)
    (schema : String) where
  -- An entry that was found was filled in its place.
  filled_in_place :
      (entries : TableEntries) (name : String) (session : Session) (o : Option TableEntry)
      {e : TableEntry} {entries' : TableEntries} {session' : Session}
      → fill_found u
          (load_tables cast service catalog u schema)
          (fill_table cast service catalog u schema)
          entries
          name
          session
          o
        ≡ ok (some e, entries', session')
      → ci_set u entries name e ≡ entries'
  unfolding fill_found
  filled_in_place entries name session none h = cc
  filled_in_place entries name session (some x) {e} h =
      let (filled, k, done) = >>=-eq-ok (fill_table cast service catalog u schema x session) _ h in
      let same : filled.0 ≡ e = cc in ap (λ y. ci_set u entries name y) (sym same) ∙ cc

  fill_table-done :
      (e : TableEntry) (session : Session)
      → empty e.table_data.storage_location ≡ false
      → fill_table cast service catalog u schema e session ≡ ok (e, session)
  unfolding fill_table
  fill_table-done e session h = if-true _ _ (ap not h)

  load_tables-done :
      (entries : TableEntries) (session : Session)
      → is_empty entries ≡ false
      → load_tables cast service catalog u schema entries session ≡ ok (entries, session)
  unfolding load_tables
  load_tables-done entries session h = if-true _ _ (ap not h)

  -- Invariance: once a table was found by a name and its metadata has a location, looking it up by
  -- that name again gives the same entry and leaves the entries and the session as they are: the
  -- service is asked nothing.
  pub get_table_entry-again :
      (entries : TableEntries) (name : String) (session : Session) {e : TableEntry}
      {entries' : TableEntries} {session' : Session}
      → get_table_entry cast service catalog u schema entries name session
        ≡ ok (some e, entries', session')
      → empty e.table_data.storage_location ≡ false
      → get_table_entry cast service catalog u schema entries' name session'
        ≡ ok (some e, entries', session')
  unfolding get_table_entry get_entry fill_found
  get_table_entry-again entries name session {e} {entries'} {session'} h full =
      let (loaded, l, k) =
        >>=-eq-ok (load_tables cast service catalog u schema entries session) _ h in
      let place = filled_in_place loaded.0 name loaded.1 (ci_find u loaded.0 name) k in
      let some_left = rw place at (ci_set-nonempty u loaded.0 name e) in
      let found = rw place at (ci_find-ci_set_self u loaded.0 name e) in
      rw (
        load_tables-done entries' session' some_left,
        found,
        fill_table-done e session' full,
        ci_set-ci_find_self u entries' name e found,
      )
