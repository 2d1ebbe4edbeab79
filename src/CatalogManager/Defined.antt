-- ===== src/CatalogManager/Defined.antt =====
-- src/catalog/catalog_manager.cpp, and `get_current_schema` of src/catalog/schema_store.cpp: the calls give a value or
-- an exception.
use ice_log.Prelude.{Bool, refl}
use ice_log.Prelude.Int.{ℤ}
use ice_log.Text.{Text}
use ice_log.Session.{pure}
use ice_log.Postgres.{Postgres}
use ice_log.PgClient.{TableRow}
use ice_log.PgClient.Defined.{IsDefined, bind-IsDefined, if-IsDefined, option-IsDefined}
use ice_log.PgClient.Defined.Calls.{
  run_exec-IsDefined, run_command-IsDefined, get_table-IsDefined, create_table-IsDefined,
  drop_table-IsDefined, list_tables-IsDefined,
}
use ice_log.PgClient.Tables
use ice_log.CatalogManager.{create_table, get_table, rename_table, drop_table, list_tables}
use ice_log.SchemaStore.{get_current_schema}

module _ (pg : Postgres) where
  -- What begins or ends a transaction, and then answers.
  ends-IsDefined :
      {A : Type 0} (c : ice_log.Postgres.Command) (a : A)
      → IsDefined (ice_log.Session.◌>>◌ (ice_log.PgClient.run_exec pg c) (pure a))
  ends-IsDefined c a = bind-IsDefined _ (λ u. pure a) (run_exec-IsDefined pg c) (λ u db. refl)

  pub catalog_create-IsDefined : (a b c d : Text) → IsDefined (create_table pg a b c d)
  unfolding create_table
  catalog_create-IsDefined a b c d =
      bind-IsDefined _ _ (create_table-IsDefined pg a b c d) (λ created db. refl)

  pub catalog_get-IsDefined : (name : Text) → IsDefined (get_table pg name)
  unfolding get_table
  catalog_get-IsDefined name = get_table-IsDefined pg name

  pub catalog_rename-IsDefined : (old new : Text) → IsDefined (rename_table pg old new)
  unfolding rename_table Tables.rename_table
  catalog_rename-IsDefined old new =
      bind-IsDefined _ _ (run_command-IsDefined pg _ _) (λ renamed db. refl)

  pub catalog_drop-IsDefined : (name : Text) (purge : Bool) → IsDefined (drop_table pg name purge)
  unfolding drop_table
  catalog_drop-IsDefined name purge = bind-IsDefined _ _ (run_exec-IsDefined pg _) (λ u.
      bind-IsDefined _ _ (drop_table-IsDefined pg name purge)
        (λ dropped. if-IsDefined dropped _ _ (ends-IsDefined _ _) (ends-IsDefined _ _)))

  pub catalog_list-IsDefined :
      (ns : Text) (size : ℤ) (token : Text) → IsDefined (list_tables pg ns size token)
  unfolding list_tables
  catalog_list-IsDefined ns size token = list_tables-IsDefined pg ns size token

  pub schema-IsDefined : (name : Text) → IsDefined (get_current_schema pg name)
  unfolding get_current_schema
  schema-IsDefined name =
      bind-IsDefined _ _ (get_table-IsDefined pg name)
        (λ table. option-IsDefined table _ _ (λ db. refl) (λ t db. refl))
