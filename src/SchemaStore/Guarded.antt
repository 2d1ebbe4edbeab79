-- ===== src/SchemaStore/Guarded.antt =====
-- src/catalog/schema_store.cpp: the methods of `SchemaStore` with their guards and connections.
use ice_log.Prelude.{List, [], Option}
use ice_log.Prelude.Int.{ℤ}
use ice_log.Text.{Text}
use ice_log.Postgres.{Postgres}
use ice_log.Mvcc.{MvccManager}
use ice_log.ConnectionPool.{Libpq}
use ice_log.ConnectionPool.Capacity.{IsUp}
use ice_log.PartitionRegistry.{on_db}
use ice_log.SchemaStore.{SchemaVersion}
use ice_log.SchemaStore
use ice_log.System.{Run, with_shared, with_conn}
use ice_log.System.Implements.{Implements, shared_call}

module _ (pg : Postgres) (pq : Libpq) where
  unfoldable pub get_current_schema : Text → Run pg pq (Option SchemaVersion)
  get_current_schema table_name =
      with_shared pg pq [] table_name
        (with_conn pg pq (on_db pg (SchemaStore.get_current_schema pg table_name)))

  unfoldable pub get_schema_at_version : Text → ℤ → Run pg pq (Option SchemaVersion)
  get_schema_at_version table_name version =
      with_shared pg pq [] table_name
        (with_conn pg pq (on_db pg (SchemaStore.get_schema_at_version pg table_name version)))

  unfoldable pub list_schema_history : Text → Run pg pq (List SchemaVersion)
  list_schema_history table_name =
      with_shared pg pq [] table_name
        (with_conn pg pq (on_db pg (SchemaStore.list_schema_history pg table_name)))

  pub methods-Implements :
      (mvcc : MvccManager) (table_name : Text) (version : ℤ)
      → IsUp pq
      → Implements pg pq [] mvcc
          (get_current_schema table_name)
          (on_db pg (SchemaStore.get_current_schema pg table_name))
        × Implements pg pq [] mvcc
            (get_schema_at_version table_name version)
            (on_db pg (SchemaStore.get_schema_at_version pg table_name version))
        × Implements pg pq [] mvcc
            (list_schema_history table_name)
            (on_db pg (SchemaStore.list_schema_history pg table_name))
  unfolding get_current_schema get_schema_at_version list_schema_history
  methods-Implements mvcc table_name version up = (
    shared_call pg pq mvcc table_name (on_db pg (SchemaStore.get_current_schema pg table_name)) up,
    shared_call pg pq mvcc table_name
        (on_db pg (SchemaStore.get_schema_at_version pg table_name version)) up,
    shared_call pg pq mvcc table_name (on_db pg (SchemaStore.list_schema_history pg table_name)) up,
  )
