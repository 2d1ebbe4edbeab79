-- ===== src/Server/Requests.antt =====
-- src/server/metadata_server.h: the requests that `MetadataServer` handles, one after another.
use ice_log.Prelude.{ℕ, List, [], ◌∷◌, none, some}
use ice_log.Text.{Text}
use ice_log.Prelude.Int.{ℤ}
use ice_log.Outcome.{Outcome, ok, thrown, undefined}
use ice_log.Blocking.{pure, ◌>>=◌}
use ice_log.Postgres.{Postgres}
use ice_log.ConnectionPool.{Libpq}
use ice_log.System.{Run}
use ice_log.Server.{
  Reply, OperationResponse, CreateTableRequest, TableRequest, TableMetadataResponse,
  AlterTableRequest, DropTableRequest, ListTablesRequest, TableSummary, PartitionRequest,
  PartitionListResponse, PartitionStatsResponse, SnapshotRequest, SnapshotResponse,
  GetSnapshotRequest, SnapshotDetail, ListSnapshotsRequest, TransactionRequest, TransactionResponse,
}
use ice_log.Server.Tables
use ice_log.Server.Partitions
use ice_log.Server.Transactions.{
  get_snapshot, list_snapshots, begin_handler, commit_handler, abort_handler,
}

-- The requests, with what their handlers read from the clock, the number of weak exchanges that fail, and the values
-- of what a handler leaves unset.
pub data Request : Type 0 where
  create_table : CreateTableRequest → Request
  get_table_metadata : TableRequest → Request
  alter_table : AlterTableRequest → Request
  drop_table : DropTableRequest → Request
  list_tables : ListTablesRequest → Request
  get_partitions : PartitionRequest → Request
  get_partition_stats : Text → Request
  commit_snapshot : (ℕ → ℤ × ℤ × ℤ) → SnapshotRequest → Request
  get_snapshot_of : GetSnapshotRequest → Request
  list_snapshots_of : ListSnapshotsRequest → Request
  begin_txn : ℕ → TransactionRequest → Request
  commit_txn : ℕ → ℕ → ℕ → Request
  abort_txn : ℕ → Request

pub data Response : Type 0 where
  operation : Reply OperationResponse → Response
  metadata : Reply TableMetadataResponse → Response
  tables : Reply (List TableSummary) → Response
  partitions : Reply PartitionListResponse → Response
  stats : Reply PartitionStatsResponse → Response
  committed_snapshot : Reply SnapshotResponse → Response
  detail : Reply SnapshotDetail → Response
  details : Reply (List SnapshotDetail) → Response
  begun : Reply TransactionResponse → Response

module _ (pg : Postgres) (pq : Libpq) where
  abbrev pub as_response : {R : Type 0} → (R → Response) → Run pg pq R → Run pg pq Response
  as_response make run = do r ← run; pure (make r)

  unfoldable pub handle : Request → Run pg pq Response
  handle (create_table req) = as_response operation (Tables.create_table pg pq req)
  handle (get_table_metadata req) = as_response metadata (Tables.get_table_metadata pg pq req)
  handle (alter_table req) = as_response operation (Tables.alter_table pg pq req)
  handle (drop_table req) = as_response operation (Tables.drop_table pg pq req)
  handle (list_tables req) = as_response tables (Tables.list_tables pg pq req)
  handle (get_partitions req) = as_response partitions (Partitions.get_partitions pg pq req)
  handle (get_partition_stats table_name) =
      as_response stats (Partitions.get_partition_stats pg pq table_name)
  handle (commit_snapshot unset req) =
      as_response committed_snapshot (Partitions.commit_snapshot pg pq unset req)
  handle (get_snapshot_of req) = as_response detail (get_snapshot pg pq req)
  handle (list_snapshots_of req) = as_response details (list_snapshots pg pq req)
  handle (begin_txn now req) = as_response begun (begin_handler pg pq now req)
  handle (commit_txn failures now txn_id) =
      as_response operation (commit_handler pg pq failures now txn_id)
  handle (abort_txn txn_id) = as_response operation (abort_handler pg pq txn_id)

  -- gRPC catches what a handler throws.
  unfoldable pub catching : {R : Type 0} → Run pg pq R → Run pg pq (Outcome R)
  catching run s = elim (run s) [
    | none ↦ none
    | some (undefined, s1) ↦ some (undefined, s1)
    | some (thrown e, s1) ↦ some (ok (thrown e), s1)
    | some (ok r, s1) ↦ some (ok (ok r), s1)
  ]

  -- One request after another.
  unfoldable pub serve : List Request → Run pg pq (List (Outcome Response))
  serve [] = pure []
  serve (req ∷ reqs) = do o ← catching (handle req); os ← serve reqs; pure (o ∷ os)
