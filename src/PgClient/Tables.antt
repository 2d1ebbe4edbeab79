-- ===== src/PgClient/Tables.antt =====
-- src/db/pg_client.cpp: the methods on tables and their schemas.
use ice_log.Prelude.{List, [], ◌∷◌, Option, none, some, Bool, true, false, if◌then◌else◌}
use ice_log.Prelude.Int.{ℤ}
use ice_log.Text.{Text, codes, text_eq, is_empty}
use ice_log.Text.Decimal.{to_string_signed}
use ice_log.Outcome.{ok}
use ice_log.Session.{Session, pure, ◌>>=◌, ◌>>◌}
use ice_log.Postgres.{
  Postgres, insert_table, select_table, update_schema, insert_schema_history, update_table_name,
  delete_partitions, delete_snapshots, delete_schema_history, delete_table, soft_delete_table,
  select_tables,
}
use ice_log.PgClient.{
  TableRow, table_row, read_rows, is_command_ok, is_tuples_ok, first_row, is_negative, limit_text,
  get_table_id, run_command,
}
use ice_log.Outcome

module _ (pg : Postgres) where
  open pg use {Db, exec_params}

  unfoldable pub create_table : Text → Text → Text → Text → Session Db Bool
  create_table table_name schema_json partition_spec properties_json db =
      let (res, db') =
        exec_params insert_table (table_name ∷ schema_json ∷ partition_spec ∷ properties_json ∷ [])
          db in
      if is_command_ok res
      then (ok (if text_eq res.cmd_tuples (codes "0") then false else true), db')
      else (ok false, db')

  unfoldable pub get_table : Text → Session Db (Option TableRow)
  get_table table_name db =
      let (res, db') = exec_params select_table (table_name ∷ []) db in
      elim (first_row res) [
        | none ↦ (ok none, db')
        | some row ↦ (Outcome.◌>>=◌ (table_row row) (λ r. ok (some r)), db')
      ]

  unfoldable pub update_table_schema : Text → Text → ℤ → Text → Session Db Bool
  update_table_schema table_name new_schema_json new_version change_summary = do
    let ver_str = to_string_signed new_version
    updated ← run_command pg update_schema (new_schema_json ∷ ver_str ∷ table_name ∷ [])
    if updated
        then (do
          table_id ← get_table_id pg table_name
          if is_negative table_id
              then pure false
              else run_command pg insert_schema_history
                  (to_string_signed table_id ∷ ver_str ∷ new_schema_json ∷ change_summary ∷ []))
        else pure false

  unfoldable pub rename_table : Text → Text → Session Db Bool
  rename_table old_name new_name = run_command pg update_table_name (new_name ∷ old_name ∷ [])

  -- The branches of `drop_table`. The results of the first three deletions are not looked at.
  unfoldable pub purge_table : Text → Session Db Bool
  purge_table table_name = do
    table_id ← get_table_id pg table_name
    if is_negative table_id then pure false else (do
      let p = to_string_signed table_id ∷ []
      run_command pg delete_partitions p
      run_command pg delete_snapshots p
      run_command pg delete_schema_history p
      run_command pg delete_table (table_name ∷ []))

  unfoldable pub hide_table : Text → Session Db Bool
  hide_table table_name db =
      let (res, db') = exec_params soft_delete_table (table_name ∷ []) db in
      if is_command_ok res
      then (ok (if text_eq res.cmd_tuples (codes "0") then false else true), db')
      else (ok false, db')

  unfoldable pub drop_table : Text → Bool → Session Db Bool
  drop_table table_name purge = if purge then purge_table table_name else hide_table table_name

  -- The namespace is not used.
  unfoldable pub list_tables : Text → ℤ → Text → Session Db (List TableRow)
  list_tables ns page_size page_token db =
      let offset = if is_empty page_token then codes "0" else page_token in
      let (res, db') = exec_params select_tables (limit_text page_size 100 ∷ offset ∷ []) db in
      if is_tuples_ok res then (read_rows table_row res.tuples, db') else (ok [], db')
