-- ===== src/Postgres.antt =====
-- libpq and the PostgreSQL server, which the sources only call: a parameter of the model.
pub mod Transactions
pub mod Pointers
pub mod History
pub mod Tests
use ice_log.Prelude.{ℕ, zero, suc, List, [], ◌∷◌, Option, none, some}
use ice_log.Text.{Text}

-- `PQresultStatus`: PGRES_COMMAND_OK, PGRES_TUPLES_OK, or any other.
pub data ExecStatus : Type 0 where
  command_ok tuples_ok failed : ExecStatus

-- A row of a result; `none` is NULL.
abbrev pub Cells : Type 0
Cells = List (Option Text)

pub record PgResult : Type 0 where
  pub status : ExecStatus
  pub tuples : List Cells
  pub cmd_tuples : Text

-- The SQL texts that src/db/pg_client.cpp and src/catalog/schema_store.cpp send with parameters.
pub data Statement : Type 0 where
  select_table_id insert_table select_table update_schema insert_schema_history : Statement
  update_table_name delete_partitions delete_snapshots delete_schema_history delete_table :
      Statement
  soft_delete_table select_tables select_partitions select_partitions_paged : Statement
  insert_partition_row update_partition_deleted insert_snapshot_row select_snapshot : Statement
  select_snapshots select_current_snapshot update_current_snapshot : Statement
  insert_transaction_row update_status update_status_committed : Statement
  select_schema_version select_schema_history : Statement

-- `PQexec(conn, "BEGIN")` and so on.
pub data Command : Type 0 where
  begin commit rollback : Command

-- A connection to the server, with the server's state as the connection sees it.
pub record Postgres : Type 1 where
  pub Db : Type 0
  pub exec_params : Statement → List Text → Db → PgResult × Db
  pub exec : Command → Db → PgResult × Db
