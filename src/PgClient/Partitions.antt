-- ===== src/PgClient/Partitions.antt =====
-- src/db/pg_client.cpp: the methods on partitions.
use ice_log.Prelude.{ℕ, List, [], ◌∷◌, Option, none, some, Bool, false, if◌then◌else◌}
use ice_log.Prelude.Int.{ℤ}
use ice_log.Text.{Text, codes, is_empty}
use ice_log.Text.Decimal.{to_string, to_string_signed}
use ice_log.Outcome.{ok}
use ice_log.Session.{Session, pure, ◌>>=◌}
use ice_log.Postgres.{
  Postgres, PgResult, select_partitions, select_partitions_paged, insert_partition_row,
  update_partition_deleted,
}
use ice_log.PgClient.{
  PartitionRow, partition_row, read_rows, is_tuples_ok, is_negative, limit_text, get_table_id,
  run_command,
}
use ice_log.Outcome

-- The rows of a query for partitions, or nothing if it failed.
unfoldable pub partition_rows : PgResult → Outcome.Outcome (Option (List PartitionRow))
partition_rows res =
    if is_tuples_ok res
    then Outcome.◌>>=◌ (read_rows partition_row res.tuples) (λ rows. ok (some rows))
    else ok none

module _ (pg : Postgres) where
  open pg use {Db, exec_params}

  unfoldable pub query_partitions : Text → ℕ → Session Db (Option (List PartitionRow))
  query_partitions table_name snapshot_id = do
    table_id ← get_table_id pg table_name
    if is_negative table_id then pure none else λ db.
        let (res, db') =
          exec_params select_partitions (to_string_signed table_id ∷ to_string snapshot_id ∷ [])
            db in
        (partition_rows res, db')

  unfoldable pub query_partitions_paged : Text → ℕ → ℤ → ℤ → Session Db (Option (List PartitionRow))
  query_partitions_paged table_name snapshot_id page_size last_partition_id = do
    table_id ← get_table_id pg table_name
    if is_negative table_id then pure none else λ db.
        let (res, db') =
          exec_params select_partitions_paged
            (to_string_signed table_id
              ∷ to_string snapshot_id
              ∷ to_string_signed last_partition_id
              ∷ limit_text page_size 1000
              ∷ [])
            db in
        (partition_rows res, db')

  unfoldable pub insert_partition : Text → ℕ → PartitionRow → Session Db Bool
  insert_partition table_name snapshot_id part = do
    table_id ← get_table_id pg table_name
    if is_negative table_id
        then pure false
        else run_command pg insert_partition_row (
            to_string_signed table_id
            ∷ to_string snapshot_id
            ∷ part.partition_key
            ∷ part.data_file_path
            ∷ part.file_format
            ∷ to_string_signed part.row_count
            ∷ to_string_signed part.size_bytes
            ∷ (if is_empty part.column_stats_json then codes "{}" else part.column_stats_json)
            ∷ [])

  unfoldable pub mark_partition_deleted : Text → Text → ℕ → Session Db Bool
  mark_partition_deleted table_name partition_key deleted_snapshot_id = do
    table_id ← get_table_id pg table_name
    if is_negative table_id
        then pure false
        else run_command pg update_partition_deleted
            (to_string deleted_snapshot_id ∷ to_string_signed table_id ∷ partition_key ∷ [])
