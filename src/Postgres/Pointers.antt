-- ===== src/Postgres/Pointers.antt =====
-- What `commit_snapshot` relies on of the statements on a table's pointer, while the connection is up and the table's
-- lock keeps other writers of the table away.
use ice_log.Prelude.{ℕ, ◌<◌, ◌≡◌, ◌≢◌, List, [], ◌∷◌, Option, some, true}
use ice_log.Prelude.Words.{i64_bound}
use ice_log.Text.{Text}
use ice_log.Text.Decimal.{to_string}
use ice_log.Outcome.{ok}
use ice_log.Postgres.{
  Postgres, Statement, begin, commit, select_table_id, insert_snapshot_row, insert_partition_row,
  update_partition_deleted, select_current_snapshot, update_current_snapshot,
}
use ice_log.PgClient.{is_command_ok}
use ice_log.PgClient.Snapshots.{returned_id}

-- The statements that leave every table's pointer alone.
pub data KeepsPointer : Statement → Type 0 where
  of_table_id : KeepsPointer select_table_id
  of_new_snapshot : KeepsPointer insert_snapshot_row
  of_new_partition : KeepsPointer insert_partition_row
  of_deletion : KeepsPointer update_partition_deleted
  of_current_snapshot : KeepsPointer select_current_snapshot

-- `pointer` is the current snapshot of the live table of a name, if there is such a table. A COMMIT after a statement
-- that has gone through keeps what was written.
pub record Pointers (pg : Postgres) : Type 1 where
  pub pointer : Text → pg.Db → Option ℕ
  pub reads :
      (table : Text) (db : pg.Db) (n : ℕ)
      → pointer table db ≡ some n
      → returned_id (pg.exec_params select_current_snapshot (table ∷ []) db).0 ≡ ok n
  pub moves :
      (table : Text) (db : pg.Db) (n snap : ℕ)
      → pointer table db ≡ some n
      → snap < i64_bound
      → is_command_ok (pg.exec_params update_current_snapshot (to_string snap ∷ table ∷ []) db).0
        ≡ true
      → pointer table (pg.exec_params update_current_snapshot (to_string snap ∷ table ∷ []) db).1
        ≡ some snap
  pub keeps :
      (table : Text) (s : Statement) (params : List Text) (db : pg.Db)
      → KeepsPointer s
      → pointer table (pg.exec_params s params db).1 ≡ pointer table db
  pub begin_keeps :
      (table : Text) (db : pg.Db) → pointer table (pg.exec begin db).1 ≡ pointer table db
  pub commit_keeps :
      (table : Text) (s : Statement) (params : List Text) (db : pg.Db)
      → is_command_ok (pg.exec_params s params db).0 ≡ true
      → pointer table (pg.exec commit (pg.exec_params s params db).1).1
        ≡ pointer table (pg.exec_params s params db).1
  pub new_ids :
      (table : Text) (params : List Text) (db : pg.Db) (n snap : ℕ)
      → pointer table db ≡ some n
      → returned_id (pg.exec_params insert_snapshot_row params db).0 ≡ ok snap
      → snap ≢ 0
      → (snap ≢ n) × (snap < i64_bound)
