-- ===== src/PgClient/Defined/Calls.antt =====
-- src/db/pg_client.cpp: each method gives a value or an exception.
use ice_log.Prelude.{
  ℕ, refl, List, [], ◌∷◌, some, Bool, true, false, if◌then◌else◌, arith, inl, inr, Option-cases,
}
use ice_log.Prelude.Int.{ℤ}
use ice_log.Text.{Text, codes, is_empty}
use ice_log.Text.Decimal.{to_string, to_string_signed}
use ice_log.Outcome.{ok, >>=-is_defined}
use ice_log.Session.{Session, pure}
use ice_log.Postgres.{
  Postgres, Statement, Command, select_table_id, select_table, select_snapshot, select_snapshots,
  select_tables,
}
use ice_log.PgClient.{
  PartitionRow, table_row, snapshot_row, first_row, is_negative, run_command, get_table_id,
  run_exec, limit_text,
}
use ice_log.PgClient.Tables
use ice_log.PgClient.Partitions.{
  query_partitions, query_partitions_paged, insert_partition, mark_partition_deleted,
}
use ice_log.PgClient.Snapshots.{
  insert_snapshot, get_snapshot, list_snapshots, get_current_snapshot, update_table_snapshot,
  insert_transaction, update_transaction_status,
}
use ice_log.PgClient.Defined.{
  IsDefined, bind-IsDefined, if-IsDefined, field_int64-is_defined, table_row-is_defined,
  snapshot_row-is_defined, read_rows-is_defined, returned_id-is_defined, partition_rows-is_defined,
}

module _ (pg : Postgres) where
  open pg use {Db}

  pub run_command-IsDefined :
      (s : Statement) (params : List Text) → IsDefined (run_command pg s params)
  unfolding run_command
  run_command-IsDefined s params db = refl

  pub run_exec-IsDefined : (c : Command) → IsDefined (run_exec pg c)
  unfolding run_exec
  run_exec-IsDefined c db = refl

  pub get_table_id-IsDefined : (name : Text) → IsDefined (get_table_id pg name)
  unfolding get_table_id
  get_table_id-IsDefined name db =
      elim (Option-cases (first_row (pg.exec_params select_table_id (name ∷ []) db).0)) [
        | inl e ↦ ground (arith, e)
        | inr (row, e) ↦ ground (arith, e, field_int64-is_defined row 0)
      ]

  -- The methods that begin with the table's identifier.
  with_id-IsDefined :
      {A : Type 0} (name : Text) (m : Session Db A) (f : ℤ → Session Db A)
      → IsDefined m
      → ((id : ℤ) → IsDefined (f id))
      → IsDefined
          (ice_log.Session.◌>>=◌ (get_table_id pg name) (λ id. if is_negative id then m else f id))
  with_id-IsDefined name m f h k =
      bind-IsDefined (get_table_id pg name) _ (get_table_id-IsDefined name)
        (λ id. if-IsDefined (is_negative id) m (f id) h (k id))

  pub get_table-IsDefined : (name : Text) → IsDefined (Tables.get_table pg name)
  unfolding Tables.get_table
  get_table-IsDefined name db =
      elim (Option-cases (first_row (pg.exec_params select_table (name ∷ []) db).0)) [
        | inl e ↦ ground (arith, e)
        | inr (row, e) ↦
            let read =
              >>=-is_defined (table_row row) (λ r. ok (some r)) (table_row-is_defined row)
                (λ r. refl) in
            ground (arith, e, read)
      ]

  pub create_table-IsDefined : (a b c d : Text) → IsDefined (Tables.create_table pg a b c d)
  unfolding Tables.create_table
  create_table-IsDefined a b c d db = ground arith

  pub drop_table-IsDefined :
      (name : Text) (purge : Bool) → IsDefined (Tables.drop_table pg name purge)
  unfolding Tables.drop_table Tables.purge_table Tables.hide_table run_command
  drop_table-IsDefined name true = with_id-IsDefined name _ _ (λ db. refl) (λ id db. refl)
  drop_table-IsDefined name false = λ db. ground arith

  pub update_table_schema-IsDefined :
      (name schema : Text) (version : ℤ) (summary : Text)
      → IsDefined (Tables.update_table_schema pg name schema version summary)
  unfolding Tables.update_table_schema
  update_table_schema-IsDefined name schema version summary =
      bind-IsDefined (run_command pg _ _) _ (run_command-IsDefined _ _) (λ updated.
        if-IsDefined updated _ _
          (with_id-IsDefined name _ _ (λ db. refl) (λ id. run_command-IsDefined _ _)) (λ db. refl))

  pub list_tables-IsDefined :
      (ns : Text) (page_size : ℤ) (token : Text)
      → IsDefined (Tables.list_tables pg ns page_size token)
  unfolding Tables.list_tables
  list_tables-IsDefined ns page_size token db =
      let offset = if is_empty token then codes "0" else token in
      let res = (pg.exec_params select_tables (limit_text page_size 100 ∷ offset ∷ []) db).0 in
      ground (arith, read_rows-is_defined table_row res.tuples table_row-is_defined)

  pub query_partitions-IsDefined :
      (name : Text) (snap : ℕ) → IsDefined (query_partitions pg name snap)
  unfolding query_partitions
  query_partitions-IsDefined name snap =
      with_id-IsDefined name _ _ (λ db. refl) (λ id db. partition_rows-is_defined _)

  pub query_partitions_paged-IsDefined :
      (name : Text) (snap : ℕ) (size last : ℤ)
      → IsDefined (query_partitions_paged pg name snap size last)
  unfolding query_partitions_paged
  query_partitions_paged-IsDefined name snap size last =
      with_id-IsDefined name _ _ (λ db. refl) (λ id db. partition_rows-is_defined _)

  pub insert_partition-IsDefined :
      (name : Text) (snap : ℕ) (part : PartitionRow)
      → IsDefined (insert_partition pg name snap part)
  unfolding insert_partition
  insert_partition-IsDefined name snap part =
      with_id-IsDefined name _ _ (λ db. refl) (λ id. run_command-IsDefined _ _)

  pub mark_partition_deleted-IsDefined :
      (name key : Text) (snap : ℕ) → IsDefined (mark_partition_deleted pg name key snap)
  unfolding mark_partition_deleted
  mark_partition_deleted-IsDefined name key snap =
      with_id-IsDefined name _ _ (λ db. refl) (λ id. run_command-IsDefined _ _)

  pub insert_snapshot-IsDefined :
      (name : Text) (parent : ℕ) (operation : Text) (added deleted : ℤ)
      → IsDefined (insert_snapshot pg name parent operation added deleted)
  unfolding insert_snapshot
  insert_snapshot-IsDefined name parent operation added deleted =
      with_id-IsDefined name _ _ (λ db. refl) (λ id db. returned_id-is_defined _)

  pub get_snapshot-IsDefined : (name : Text) (snap : ℕ) → IsDefined (get_snapshot pg name snap)
  unfolding get_snapshot
  get_snapshot-IsDefined name snap =
      with_id-IsDefined name _ _ (λ db. refl)
        (λ id db.
          let res =
            (pg.exec_params select_snapshot (to_string_signed id ∷ to_string snap ∷ []) db).0 in
          elim (Option-cases (first_row res)) [
            | inl e ↦ ground (arith, e)
            | inr (row, e) ↦
                let read =
                  >>=-is_defined (snapshot_row row) (λ r. ok (some r)) (snapshot_row-is_defined row)
                    (λ r. refl) in
                ground (arith, e, read)
          ])

  pub list_snapshots-IsDefined :
      (name : Text) (limit : ℤ) → IsDefined (list_snapshots pg name limit)
  unfolding list_snapshots
  list_snapshots-IsDefined name limit =
      with_id-IsDefined name _ _ (λ db. refl)
        (λ id db.
          let res =
            (pg.exec_params select_snapshots (to_string_signed id ∷ limit_text limit 50 ∷ [])
              db).0 in
          ground (arith, read_rows-is_defined snapshot_row res.tuples snapshot_row-is_defined))

  pub get_current_snapshot-IsDefined : (name : Text) → IsDefined (get_current_snapshot pg name)
  unfolding get_current_snapshot
  get_current_snapshot-IsDefined name db = returned_id-is_defined _

  pub update_table_snapshot-IsDefined :
      (name : Text) (snap : ℕ) → IsDefined (update_table_snapshot pg name snap)
  unfolding update_table_snapshot
  update_table_snapshot-IsDefined name snap = run_command-IsDefined _ _

  pub insert_transaction-IsDefined :
      (client : Text) (snap : ℕ) (isolation : Text)
      → IsDefined (insert_transaction pg client snap isolation)
  unfolding insert_transaction
  insert_transaction-IsDefined client snap isolation db = returned_id-is_defined _

  pub update_transaction_status-IsDefined :
      (txn_id : ℕ) (status : Text) → IsDefined (update_transaction_status pg txn_id status)
  unfolding update_transaction_status
  update_transaction_status-IsDefined txn_id status = run_command-IsDefined _ _
