-- ===== src/CatalogManager.antt =====
-- src/catalog/catalog_manager.h and catalog_manager.cpp: `CatalogManager`. A method here is what runs
-- once the table's guard and a connection have been granted; Guarded has the methods with them. What is printed is
-- left out.
pub mod Transaction
pub mod Guarded
pub mod Defined
mod Tests
use ice_log.Prelude.{ℕ, List, [], ◌++◌, Option, none, some, Bool, true, false, if◌then◌else◌}
use ice_log.Prelude.Int.{ℤ, pos}
use ice_log.Text.{Text, codes}
use ice_log.Outcome.{ok}
use ice_log.Signed
use ice_log.Prelude.Words.{i32_bound}
use ice_log.Session.{Session, pure, lift, ◌>>=◌, ◌>>◌}
use ice_log.Postgres.{Postgres, begin, commit, rollback}
use ice_log.PgClient.{TableRow, run_exec}
use ice_log.PgClient.Tables

-- `CreateTableResult`, `AlterResult` and `DropResult`.
pub record CatalogResult : Type 0 where
  pub success : Bool
  pub error_msg : Text

abbrev pub done : CatalogResult
done = record { success = true; error_msg = [] }

abbrev pub refused : Text → CatalogResult
refused message = record { success = false; error_msg = message }

module _ (pg : Postgres) where
  open pg use {Db}

  unfoldable pub create_table : Text → Text → Text → Text → Session Db CatalogResult
  create_table table_name schema_json partition_spec properties_json = do
    created ← Tables.create_table pg table_name schema_json partition_spec properties_json
    pure (
        if created
        then done
        else refused (codes "Failed to create table (may already exist): " ++ table_name))

  unfoldable pub get_table : Text → Session Db (Option TableRow)
  get_table table_name = Tables.get_table pg table_name

  -- The transaction of `alter_table_schema`.
  unfoldable pub alter_in_transaction : Text → Text → ℤ → Text → Session Db CatalogResult
  alter_in_transaction table_name new_schema_json new_version change_summary = do
    run_exec pg begin
    updated ← Tables.update_table_schema pg table_name new_schema_json new_version change_summary
    if updated then (do run_exec pg commit; pure done) else (do
      run_exec pg rollback
      pure (refused (codes "Failed to update schema for: " ++ table_name)))

  unfoldable pub alter_table_schema : Text → Text → Text → Session Db CatalogResult
  alter_table_schema table_name new_schema_json change_summary = do
    existing ← Tables.get_table pg table_name
    elim existing [
      | none ↦ pure (refused (codes "Table not found: " ++ table_name))
      | some table ↦ (do
        new_version ← lift (Signed.add i32_bound table.schema_version (pos 1))
        alter_in_transaction table_name new_schema_json new_version change_summary)
    ]

  unfoldable pub rename_table : Text → Text → Session Db CatalogResult
  rename_table old_name new_name = do
    renamed ← Tables.rename_table pg old_name new_name
    pure (
        if renamed
        then done
        else refused (codes "Failed to rename " ++ (old_name ++ (codes " to " ++ new_name))))

  unfoldable pub drop_table : Text → Bool → Session Db CatalogResult
  drop_table table_name purge = do
    run_exec pg begin
    dropped ← Tables.drop_table pg table_name purge
    if dropped then (do run_exec pg commit; pure done) else (do
      run_exec pg rollback
      pure (refused (codes "Failed to drop table: " ++ table_name)))

  unfoldable pub list_tables : Text → ℤ → Text → Session Db (List TableRow)
  list_tables ns page_size page_token = Tables.list_tables pg ns page_size page_token
