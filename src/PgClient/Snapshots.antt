-- ===== src/PgClient/Snapshots.antt =====
-- src/db/pg_client.cpp: the methods on snapshots and transactions.
use ice_log.Prelude.{ℕ, List, [], ◌∷◌, Option, none, some, Bool, if◌then◌else◌}
use ice_log.Prelude.Int.{ℤ}
use ice_log.Prelude.Words.{to_uint64}
use ice_log.Text.{Text, codes, text_eq}
use ice_log.Text.Decimal.{to_string, to_string_signed}
use ice_log.Outcome.{ok}
use ice_log.Session.{Session, pure, ◌>>=◌}
use ice_log.Postgres.{
  Postgres, PgResult, insert_snapshot_row, select_snapshot, select_snapshots,
  select_current_snapshot, update_current_snapshot, insert_transaction_row, update_status,
  update_status_committed,
}
use ice_log.PgClient.{
  SnapshotRow, snapshot_row, field_int64, read_rows, is_tuples_ok, first_row, is_negative,
  limit_text, get_table_id, run_command,
}
use ice_log.Outcome

-- The number in the first column of the first row, as an unsigned word; 0 if there is none.
unfoldable pub returned_id : PgResult → Outcome.Outcome ℕ
returned_id res = elim (first_row res) [
  | none ↦ ok 0
  | some row ↦ Outcome.◌>>=◌ (field_int64 row 0) (λ id. ok (to_uint64 id))
]

module _ (pg : Postgres) where
  open pg use {Db, exec_params}

  unfoldable pub insert_snapshot : Text → ℕ → Text → ℤ → ℤ → Session Db ℕ
  insert_snapshot table_name parent_snapshot_id operation added_count deleted_count = do
    table_id ← get_table_id pg table_name
    if is_negative table_id then pure 0 else λ db.
        let (res, db') =
          exec_params insert_snapshot_row
            (to_string_signed table_id
              ∷ to_string parent_snapshot_id
              ∷ operation
              ∷ to_string_signed added_count
              ∷ to_string_signed deleted_count
              ∷ [])
            db in
        (returned_id res, db')

  unfoldable pub get_snapshot : Text → ℕ → Session Db (Option SnapshotRow)
  get_snapshot table_name snapshot_id = do
    table_id ← get_table_id pg table_name
    if is_negative table_id then pure none else λ db.
        let (res, db') =
          exec_params select_snapshot (to_string_signed table_id ∷ to_string snapshot_id ∷ []) db in
        elim (first_row res) [
          | none ↦ (ok none, db')
          | some row ↦ (Outcome.◌>>=◌ (snapshot_row row) (λ r. ok (some r)), db')
        ]

  unfoldable pub list_snapshots : Text → ℤ → Session Db (List SnapshotRow)
  list_snapshots table_name limit = do
    table_id ← get_table_id pg table_name
    if is_negative table_id then pure [] else λ db.
        let (res, db') =
          exec_params select_snapshots (to_string_signed table_id ∷ limit_text limit 50 ∷ []) db in
        if is_tuples_ok res then (read_rows snapshot_row res.tuples, db') else (ok [], db')

  unfoldable pub get_current_snapshot : Text → Session Db ℕ
  get_current_snapshot table_name db =
      let (res, db') = exec_params select_current_snapshot (table_name ∷ []) db in
      (returned_id res, db')

  unfoldable pub update_table_snapshot : Text → ℕ → Session Db Bool
  update_table_snapshot table_name snapshot_id =
      run_command pg update_current_snapshot (to_string snapshot_id ∷ table_name ∷ [])

  unfoldable pub insert_transaction : Text → ℕ → Text → Session Db ℕ
  insert_transaction client_id read_snapshot_id isolation db =
      let (res, db') =
        exec_params insert_transaction_row (client_id ∷ to_string read_snapshot_id ∷ isolation ∷ [])
          db in
      (returned_id res, db')

  -- The statement also sets the time of commit where the status is "committed".
  unfoldable pub update_transaction_status : ℕ → Text → Session Db Bool
  update_transaction_status txn_id status =
      run_command pg
        (if text_eq status (codes "committed") then update_status_committed else update_status)
        (status ∷ to_string txn_id ∷ [])
