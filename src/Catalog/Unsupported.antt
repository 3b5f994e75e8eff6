-- ===== src/Catalog/Unsupported.antt =====
-- src/storage/irc_schema_entry.cpp and src/storage/irc_catalog.cpp: what a catalog is asked for and
-- refuses. Nothing is changed before the exception.
use duckdb_iceberg.Common.{Result, throw, not_implemented, binder_exception}

-- `CreateTable`, `DropEntry` and `CreateFunction` of `IRCSchemaEntry`.
pub data EntryChange : Type 0 where
  create_table drop_entry create_function : EntryChange

unfoldable pub change_entry : EntryChange → Result (Unit {0})
change_entry create_table = throw (not_implemented "Create Table")
change_entry drop_entry = throw (not_implemented "Drop Entry")
change_entry create_function =
    throw (binder_exception "PC databases do not support creating functions")

-- The other entries of a schema, from `CreateIndex` to `Alter`, with `GetUCCreateView`.
pub data EntryCreation : Type 0 where
  create_index get_create_view create_view create_type create_sequence : EntryCreation
  create_table_function create_copy_function create_pragma_function : EntryCreation
  create_collation alter : EntryCreation

unfoldable pub create_other_entry : EntryCreation → Result (Unit {0})
create_other_entry create_index = throw (not_implemented "Create Index")
create_other_entry get_create_view = throw (not_implemented "Get Create View")
create_other_entry create_view = throw (not_implemented "Create View")
create_other_entry create_type =
    throw (binder_exception "PC databases do not support creating types")
create_other_entry create_sequence =
    throw (binder_exception "PC databases do not support creating sequences")
create_other_entry create_table_function =
    throw (binder_exception "PC databases do not support creating table functions")
create_other_entry create_copy_function =
    throw (binder_exception "PC databases do not support creating copy functions")
create_other_entry create_pragma_function =
    throw (binder_exception "PC databases do not support creating pragma functions")
create_other_entry create_collation =
    throw (binder_exception "PC databases do not support creating collations")
create_other_entry alter = throw (not_implemented "Alter Schema Entry")

-- The plans that `IRCatalog` is asked for.
pub data PlanRequest : Type 0 where
  plan_insert plan_create_table_as plan_delete plan_update bind_create_index : PlanRequest

unfoldable pub plan_request : PlanRequest → Result (Unit {0})
plan_request plan_insert = throw (not_implemented "ICCatalog PlanInsert")
plan_request plan_create_table_as = throw (not_implemented "ICCatalog PlanCreateTableAs")
plan_request plan_delete = throw (not_implemented "ICCatalog PlanDelete")
plan_request plan_update = throw (not_implemented "ICCatalog PlanUpdate")
plan_request bind_create_index = throw (not_implemented "ICCatalog BindCreateIndex")
