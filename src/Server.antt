-- ===== src/Server.antt =====
-- src/server/metadata_server.h and metadata_server.cpp: `MetadataServer`, and the messages of
-- proto/metadata_service.proto that it reads and fills. A handler is a run on the parts of the server, and gives the
-- status and the response: gRPC passes it an empty one. What is printed is left out, and so are the fields that no
-- handler reads or sets. The children hold the handlers.
pub mod Tables
pub mod Partitions
pub mod Transactions
pub mod Requests
pub mod Manager
pub mod Ends
pub mod Handlers
pub mod Idle
pub mod Paging
pub mod Sweeping
pub mod Lifecycle
mod Tests
use ice_log.Prelude.{ℕ, ◌*◌, List, [], Bool, true, false}
use ice_log.Prelude.Int.{ℤ, pos, ◌*ℤ◌}
use ice_log.Text.{Text}
use ice_log.Postgres.{Postgres}
use ice_log.ConnectionPool.{Libpq}
use ice_log.System.{System}
use ice_log.Config.{ServerConfig}
use ice_log.ConnectionPool
use ice_log.LruCache
use ice_log.Mvcc

-- `grpc::Status`: OK, or NOT_FOUND with a message.
pub data Status : Type 0 where
  status_ok : Status
  not_found : Text → Status

pub record Reply (R : Type 0) : Type 0 where
  pub status : Status
  pub response : R

abbrev pub replied : {R : Type 0} → R → Reply R
replied response = record { status = status_ok; response = response }

pub record OperationResponse : Type 0 where
  pub success : Bool
  pub error_msg : Text

-- The entries of the map in the order in which the loop meets them.
pub record CreateTableRequest : Type 0 where
  pub table_name : Text
  pub schema_json : Text
  pub partition_spec : Text
  pub properties : List (Text × Text)

pub record TableRequest : Type 0 where
  pub table_name : Text
  pub snapshot_id : ℕ

pub record PartitionInfo : Type 0 where
  pub partition_key : Text
  pub data_file_path : Text
  pub row_count : ℤ
  pub size_bytes : ℤ
  pub snapshot_id : ℕ
  pub file_format : Text

pub record TableMetadataResponse : Type 0 where
  pub table_name : Text
  pub schema_json : Text
  pub current_snapshot_id : ℕ
  pub schema_version : ℤ
  pub partitions : List PartitionInfo
  pub total_row_count : ℤ
  pub total_size_bytes : ℤ

-- The oneof of `AlterTableRequest`.
pub data Alteration : Type 0 where
  new_schema_json : Text → Alteration
  new_partition_spec : Text → Alteration
  rename : Text → Alteration
  alteration_not_set : Alteration

pub record AlterTableRequest : Type 0 where
  pub table_name : Text
  pub alteration : Alteration

pub record DropTableRequest : Type 0 where
  pub table_name : Text
  pub purge : Bool

pub record ListTablesRequest : Type 0 where
  pub ns : Text
  pub page_size : ℤ
  pub page_token : Text

pub record TableSummary : Type 0 where
  pub table_name : Text
  pub current_snapshot_id : ℕ

pub record PartitionRequest : Type 0 where
  pub table_name : Text
  pub snapshot_id : ℕ
  pub page_size : ℤ
  pub page_token : Text

pub record PartitionListResponse : Type 0 where
  pub partitions : List PartitionInfo
  pub next_page_token : Text
  pub total_count : ℤ

pub record PartitionStatsResponse : Type 0 where
  pub total_partitions : ℤ
  pub total_rows : ℤ
  pub total_bytes : ℤ
  pub avg_partition_size_bytes : ℤ

pub record SnapshotRequest : Type 0 where
  pub table_name : Text
  pub new_partitions : List PartitionInfo
  pub deleted_partition_keys : List Text
  pub parent_snapshot_id : ℕ
  pub operation : Text

pub record SnapshotResponse : Type 0 where
  pub snapshot_id : ℕ
  pub success : Bool
  pub error_msg : Text

pub record GetSnapshotRequest : Type 0 where
  pub table_name : Text
  pub snapshot_id : ℕ

pub record SnapshotDetail : Type 0 where
  pub snapshot_id : ℕ
  pub parent_snapshot_id : ℕ
  pub operation : Text
  pub added_partitions : ℤ
  pub deleted_partitions : ℤ
  pub committed_at : Text

pub record ListSnapshotsRequest : Type 0 where
  pub table_name : Text
  pub limit : ℤ

-- An enumeration of proto3 is open.
pub data IsolationLevel : Type 0 where
  snapshot : IsolationLevel
  read_committed : IsolationLevel
  unrecognized : ℤ → IsolationLevel

pub record TransactionRequest : Type 0 where
  pub client_id : Text
  pub isolation : IsolationLevel

pub record TransactionResponse : Type 0 where
  pub txn_id : ℕ
  pub read_snapshot_id : ℕ

-- The constructor, on a database and libpq's connections as they are; a second has so many clock ticks.
unfoldable pub init :
    (pg : Postgres) (pq : Libpq) → ℕ → ServerConfig → pg.Db → pq.Conns → System pg pq
init pg pq ticks_per_second config db conns =
    let (pool, conns') = ConnectionPool.init pq config.pool_size conns in
    record {
      locks = [];
      pool = pool;
      conns = conns';
      cache = LruCache.init config.cache_capacity;
      db = db;
      mvcc = Mvcc.init (config.txn_timeout_s *ℤ pos ticks_per_second);
    }
