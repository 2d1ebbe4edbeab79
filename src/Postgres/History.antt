-- ===== src/Postgres/History.antt =====
-- What `commit_snapshot` relies on of the statements on partitions, as far as snapshots older than its own go, while
-- the table's lock keeps other writers of the table away.
use ice_log.Prelude.{ℕ, ◌<◌, ◌≡◌, List, [], ◌∷◌, true}
use ice_log.Text.{Text}
use ice_log.Text.Decimal.{to_string}
use ice_log.Postgres.{
  Postgres, Statement, Cells, begin, commit, select_table_id, select_partitions,
  insert_snapshot_row, insert_partition_row, update_partition_deleted, select_current_snapshot,
  update_current_snapshot,
}
use ice_log.PgClient.{is_command_ok, is_tuples_ok}

-- The statements that leave all partitions alone.
pub data KeepsPartitions : Statement → Type 0 where
  of_table_id : KeepsPartitions select_table_id
  of_new_snapshot : KeepsPartitions insert_snapshot_row
  of_current_snapshot : KeepsPartitions select_current_snapshot
  of_pointer : KeepsPartitions update_current_snapshot

-- `rows` is what `snapshot_id <= $2 AND (is_deleted = false OR deleted_snapshot_id > $2)` lets through of the
-- partitions of a table: a row of a later snapshot, or one deleted in a later snapshot, makes no difference. A COMMIT
-- after a statement that has gone through keeps what was written.
pub record History (pg : Postgres) : Type 0 where
  pub rows : Text → ℕ → pg.Db → List Cells
  pub reads :
      (table_id : Text) (snap : ℕ) (db : pg.Db)
      → is_tuples_ok (pg.exec_params select_partitions (table_id ∷ to_string snap ∷ []) db).0 ≡ true
      → (pg.exec_params select_partitions (table_id ∷ to_string snap ∷ []) db).0.tuples
        ≡ rows table_id snap db
  pub keeps :
      (table_id : Text) (snap : ℕ) (s : Statement) (params : List Text) (db : pg.Db)
      → KeepsPartitions s
      → rows table_id snap (pg.exec_params s params db).1 ≡ rows table_id snap db
  pub new_partition :
      (table_id : Text) (snap later : ℕ) (id : Text) (rest : List Text) (db : pg.Db)
      → snap < later
      → rows table_id snap (pg.exec_params insert_partition_row (id ∷ to_string later ∷ rest) db).1
        ≡ rows table_id snap db
  pub deletion :
      (table_id : Text) (snap later : ℕ) (rest : List Text) (db : pg.Db)
      → snap < later
      → rows table_id snap (pg.exec_params update_partition_deleted (to_string later ∷ rest) db).1
        ≡ rows table_id snap db
  pub begin_keeps :
      (table_id : Text) (snap : ℕ) (db : pg.Db)
      → rows table_id snap (pg.exec begin db).1 ≡ rows table_id snap db
  pub commit_keeps :
      (table_id : Text) (snap : ℕ) (s : Statement) (params : List Text) (db : pg.Db)
      → is_command_ok (pg.exec_params s params db).0 ≡ true
      → rows table_id snap (pg.exec commit (pg.exec_params s params db).1).1
        ≡ rows table_id snap (pg.exec_params s params db).1
