-- ===== src/Server/Handlers.antt =====
-- src/server/metadata_server.cpp: on an idle server no handler waits, and each gives back what it takes.
use ice_log.Prelude.{ℕ, ◌≢◌, [], Bool, true, false}
use ice_log.Prelude.Int.{ℤ, pos}
use ice_log.Text.{Text, codes, is_empty}
use ice_log.Session.{Session}
use ice_log.Blocking.{pure}
use ice_log.Postgres.{Postgres}
use ice_log.Mvcc.{MvccManager, get_latest_committed_snapshot, abort_transaction}
use ice_log.Mvcc
use ice_log.PgClient.Snapshots.{insert_transaction, update_transaction_status}
use ice_log.ConnectionPool.{Libpq}
use ice_log.ConnectionPool.Capacity.{IsUp}
use ice_log.PgClient.Defined.Calls.{
  get_snapshot-IsDefined, list_snapshots-IsDefined, insert_transaction-IsDefined,
  update_transaction_status-IsDefined,
}
use ice_log.PartitionRegistry.{Cache}
use ice_log.PartitionRegistry.Safe.{
  on_db-IsSafe, on_db-kept, commit_snapshot-IsSafe, paged-IsSafe, stats-IsSafe,
}
use ice_log.CatalogManager.Defined.{
  catalog_create-IsDefined, catalog_get-IsDefined, catalog_rename-IsDefined, catalog_drop-IsDefined,
  catalog_list-IsDefined, schema-IsDefined,
}
use ice_log.PartitionRegistry
use ice_log.PartitionRegistry.Guarded as Registry
use ice_log.CatalogManager
use ice_log.CatalogManager.Guarded as Catalog
use ice_log.SchemaStore.Guarded as Schemas
use ice_log.System.{with_conn, read_mvcc}
use ice_log.Server.{
  Reply, OperationResponse, CreateTableRequest, TableRequest, TableMetadataResponse, Alteration,
  new_schema_json, GetSnapshotRequest, ListSnapshotsRequest, ListTablesRequest, TransactionRequest,
  new_partition_spec, rename, alteration_not_set, AlterTableRequest, DropTableRequest,
  PartitionRequest, PartitionListResponse, SnapshotRequest,
}
use ice_log.Server.Tables.{
  check_change, invalidated, alter_with, table_metadata, snapshot_to_read, rows_or_none,
}
use ice_log.Server
use ice_log.Server.Tables
use ice_log.Server.Partitions.{is_positive}
use ice_log.Server.Partitions
use ice_log.Server.Transactions.{
  on_mvcc, get_snapshot, list_snapshots, begin_handler, commit_handler, abort_handler, begin_at,
  abort_of, after_commit, commit_response, isolation_text,
}
use ice_log.Server.Requests.{}
use ice_log.Server.Manager.{
  Keeps, HandsOut, begin_transaction-HandsOut, commit_transaction-Keeps, abort_transaction-Keeps,
}
use ice_log.Server.Ends.{
  Ends, Implements-Ends, pure-Ends, lift-Ends, EndsWith, on_mvcc-EndsWith, bind-HandsOut,
  read_mvcc-Ends, bind-Ends, if-Ends, option-Ends, then_pure, conn-Ends, exclusive-Ends,
  invalidated-Ends, read-Ends, shared-Ends,
}

-- The table is not renamed to the name that it has.
abbrev pub Renames : Text → Alteration → Type 0
Renames table_name (rename new_name) = table_name ≢ new_name
Renames table_name _ = Unit

-- The alteration does not count the version of the schema up.
abbrev pub keeps_version : Alteration → Bool
keeps_version (new_schema_json proposed) = false
keeps_version _ = true

module _ (pg : Postgres) (pq : Libpq) (up : IsUp pq) where
  pub create_table-Ends :
      (req : CreateTableRequest) → Ends pg pq true (Tables.create_table pg pq req)
  unfolding Tables.create_table Catalog.create_table
  create_table-Ends req = then_pure pg pq _ _ (
      exclusive-Ends pg pq up req.table_name _ (
        on_db-IsSafe pg _
          (catalog_create-IsDefined pg req.table_name req.schema_json req.partition_spec _)))

  pub get_table_metadata-Ends :
      (req : TableRequest) → Ends pg pq false (Tables.get_table_metadata pg pq req)
  unfolding Tables.get_table_metadata Catalog.get_table
  get_table_metadata-Ends req =
      let read = on_db-IsSafe pg _ (catalog_get-IsDefined pg req.table_name) in
      bind-Ends pg pq _ _ (shared-Ends pg pq up req.table_name _ read) (λ found.
        option-Ends pg pq found _ _ (pure-Ends pg pq _) (λ table.
          let choose = λ (m : MvccManager).
            pure (snapshot_to_read req.snapshot_id (get_latest_committed_snapshot m) table) in
          bind-Ends pg pq (read_mvcc pg pq choose) _
            (read_mvcc-Ends pg pq choose (λ m. pure-Ends pg pq _))
            (λ read_snapshot.
              bind-Ends pg pq _ _ (read-Ends pg pq up req.table_name read_snapshot) (λ parts.
                then_pure pg pq _ (λ response. Server.replied response)
                  (lift-Ends pg pq (table_metadata table read_snapshot (rows_or_none parts)))))))

  pub drop_table-Ends : (req : DropTableRequest) → Ends pg pq true (Tables.drop_table pg pq req)
  unfolding Tables.drop_table Catalog.drop_table
  drop_table-Ends req =
      let dropped = on_db-IsSafe pg _ (catalog_drop-IsDefined pg req.table_name req.purge) in
      bind-Ends pg pq _ _ (exclusive-Ends pg pq up req.table_name _ dropped) (λ result.
        if-Ends pg pq result.success _ _ (invalidated-Ends pg pq up req.table_name _)
          (pure-Ends pg pq _))

  pub check_change-Ends :
      {d : Bool}
      → (table_name proposed : Text) → Ends pg pq d (check_change pg pq table_name proposed)
  unfolding check_change Schemas.get_current_schema
  check_change-Ends table_name proposed =
      bind-Ends pg pq _ _
        (shared-Ends pg pq up table_name _ (on_db-IsSafe pg _ (schema-IsDefined pg table_name)))
        (λ current. option-Ends pg pq current _ _ (pure-Ends pg pq _) (λ v. pure-Ends pg pq _))

  pub alter_with-Ends :
      (table_name : Text) (alteration : Alteration)
      → Renames table_name alteration
      → Ends pg pq (keeps_version alteration) (alter_with pg pq table_name alteration)
  unfolding alter_with Catalog.alter_table_schema
  alter_with-Ends table_name (new_schema_json proposed) h =
      bind-Ends pg pq (check_change pg pq table_name proposed) _
        (check_change-Ends table_name proposed)
        (λ err.
          if-Ends pg pq (is_empty err) _ _
            (bind-Ends pg pq _ _ (exclusive-Ends pg pq up table_name _ (on_db-kept pg _))
              (λ result. invalidated-Ends pg pq up table_name _))
            (pure-Ends pg pq _))
  alter_with-Ends table_name (rename new_name) h =
      bind-Ends pg pq _ _
        (Implements-Ends pg pq _
          (λ mvcc. PartitionRegistry.on_db pg (CatalogManager.rename_table pg table_name new_name))
          (λ mvcc. Catalog.rename_table-Implements pg pq mvcc table_name new_name up h)
          (λ mvcc. on_db-IsSafe pg _ (catalog_rename-IsDefined pg table_name new_name)))
        (λ result. invalidated-Ends pg pq up table_name _)
  alter_with-Ends table_name (new_partition_spec spec) h = invalidated-Ends pg pq up table_name _
  alter_with-Ends table_name alteration_not_set h = invalidated-Ends pg pq up table_name _

  pub get_partitions-Ends :
      (req : PartitionRequest) → Ends pg pq true (Partitions.get_partitions pg pq req)
  unfolding Partitions.get_partitions
  get_partitions-Ends req =
      let last_id = Partitions.last_id_of req.page_token in
      let paged =
        Registry.get_partitions_paged pg pq req.table_name req.snapshot_id req.page_size last_id in
      then_pure pg pq _ _ (
        if-Ends pg pq (is_positive req.page_size) paged _
          (Implements-Ends pg pq paged
            (λ mvcc.
              PartitionRegistry.get_partitions_paged pg mvcc req.table_name req.snapshot_id
                req.page_size last_id)
            (λ mvcc.
              (Registry.registry-Implements pg pq mvcc req.table_name [] req.snapshot_id
                req.page_size last_id [] [] up).0)
            (λ mvcc. paged-IsSafe pg mvcc req.table_name req.snapshot_id req.page_size last_id))
          (read-Ends pg pq up req.table_name req.snapshot_id))

  pub status-Ends :
      (status : Text) (txn_id : ℕ)
      → Ends pg pq true (
          with_conn pg pq (PartitionRegistry.on_db pg (update_transaction_status pg txn_id status)))
  status-Ends status txn_id =
      conn-Ends pg pq up _
        (on_db-IsSafe pg _ (update_transaction_status-IsDefined pg txn_id status))

  pub list_tables-Ends : (req : ListTablesRequest) → Ends pg pq true (Tables.list_tables pg pq req)
  unfolding Tables.list_tables Catalog.list_tables
  list_tables-Ends req = then_pure pg pq _ _ (
      conn-Ends pg pq up _
        (on_db-IsSafe pg _ (catalog_list-IsDefined pg req.ns req.page_size req.page_token)))

  pub get_partition_stats-Ends :
      (table_name : Text) → Ends pg pq false (Partitions.get_partition_stats pg pq table_name)
  unfolding Partitions.get_partition_stats
  get_partition_stats-Ends table_name = then_pure pg pq _ _ (
      Implements-Ends pg pq (Registry.get_stats pg pq table_name)
        (λ mvcc. PartitionRegistry.get_stats pg mvcc table_name)
        (λ mvcc.
          (Registry.registry-Implements pg pq mvcc table_name [] 0 (pos 0) (pos 0) [] [] up).1)
        (λ mvcc. stats-IsSafe pg mvcc table_name))

  pub commit_snapshot-Ends :
      (unset : ℕ → ℤ × ℤ × ℤ) (req : SnapshotRequest)
      → Ends pg pq true (Partitions.commit_snapshot pg pq unset req)
  unfolding Partitions.commit_snapshot Registry.commit_snapshot
  commit_snapshot-Ends unset req = then_pure pg pq _ _ (
      exclusive-Ends pg pq up req.table_name _
        (commit_snapshot-IsSafe pg req.table_name req.parent_snapshot_id _ _ _))

  pub get_snapshot-Ends : (req : GetSnapshotRequest) → Ends pg pq true (get_snapshot pg pq req)
  unfolding get_snapshot
  get_snapshot-Ends req = then_pure pg pq _ _ (
      conn-Ends pg pq up _
        (on_db-IsSafe pg _ (get_snapshot-IsDefined pg req.table_name req.snapshot_id)))

  pub list_snapshots-Ends :
      (req : ListSnapshotsRequest) → Ends pg pq true (list_snapshots pg pq req)
  unfolding list_snapshots
  list_snapshots-Ends req = then_pure pg pq _ _ (
      conn-Ends pg pq up _
        (on_db-IsSafe pg _ (list_snapshots-IsDefined pg req.table_name req.limit)))

  pub begin_handler-Ends :
      (now : ℕ) (req : TransactionRequest)
      → EndsWith pg pq (HandsOut 1) true (begin_handler pg pq now req)
  unfolding begin_handler
  begin_handler-Ends now req =
      bind-HandsOut pg pq (on_mvcc pg pq (begin_at now)) _
        (on_mvcc-EndsWith pg pq (HandsOut 1) (begin_at now) (λ m. begin_transaction-HandsOut m now))
        (λ (txn_id, read_snapshot).
          then_pure pg pq _
            (λ n. Server.replied (record { txn_id = txn_id; read_snapshot_id = read_snapshot }))
            (conn-Ends pg pq up (insert_row req read_snapshot)
              (on_db-IsSafe pg _ (insert_transaction-IsDefined pg req.client_id read_snapshot _))))
    where
      insert_row : TransactionRequest → ℕ → Session (Cache × pg.Db) ℕ
      insert_row req read_snapshot =
          PartitionRegistry.on_db pg
            (insert_transaction pg req.client_id read_snapshot (isolation_text req.isolation))

  pub after_commit-Ends :
      (txn_id : ℕ) (committed : Bool) → Ends pg pq true (after_commit pg pq txn_id committed)
  unfolding after_commit
  after_commit-Ends txn_id true =
      then_pure pg pq _ (λ b. Server.replied (commit_response txn_id true))
        (status-Ends (codes "committed") txn_id)
  after_commit-Ends txn_id false = pure-Ends pg pq (Server.replied (commit_response txn_id false))

  pub commit_handler-Ends :
      (failures now txn_id : ℕ) → Ends pg pq true (commit_handler pg pq failures now txn_id)
  unfolding commit_handler
  commit_handler-Ends failures now txn_id =
      let call = λ (mvcc : MvccManager). Mvcc.commit_transaction mvcc failures txn_id now in
      bind-Ends pg pq (on_mvcc pg pq call) _
        (on_mvcc-EndsWith pg pq Keeps call (λ m. commit_transaction-Keeps m failures txn_id now))
        (after_commit-Ends txn_id)

  pub abort_handler-Ends : (txn_id : ℕ) → Ends pg pq true (abort_handler pg pq txn_id)
  unfolding abort_handler
  abort_handler-Ends txn_id =
      bind-Ends pg pq (on_mvcc pg pq (abort_of txn_id)) _
        (on_mvcc-EndsWith pg pq Keeps (abort_of txn_id) (λ m. abort_transaction-Keeps m txn_id))
        (λ u.
          then_pure pg pq _ (λ b. Server.replied (record { success = true; error_msg = [] }))
            (status-Ends (codes "aborted") txn_id))
