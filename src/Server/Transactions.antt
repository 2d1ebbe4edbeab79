-- ===== src/Server/Transactions.antt =====
-- src/server/metadata_server.cpp: the handlers on snapshots and transactions. What a handler reads from the clock,
-- and how many weak exchanges fail, are arguments.
use ice_log.Prelude.{ℕ, List, [], ◌++◌, Option, none, some, Bool, true, false, map}
use ice_log.Prelude.Int.{pos}
use ice_log.Prelude.Words.{to_uint64}
use ice_log.Text.{Text, codes}
use ice_log.Text.Decimal.{to_string}
use ice_log.Outcome.{ok}
use ice_log.Blocking.{pure, ◌>>=◌, ◌>>◌}
use ice_log.Postgres.{Postgres}
use ice_log.Mvcc.{MvccManager, begin_transaction, commit_transaction, abort_transaction}
use ice_log.ConnectionPool.{Libpq}
use ice_log.PgClient.{SnapshotRow}
use ice_log.PgClient.Snapshots
use ice_log.PartitionRegistry.{on_db}
use ice_log.System.{Run, with_conn}
use ice_log.Server.{
  Reply, replied, not_found, OperationResponse, GetSnapshotRequest, SnapshotDetail,
  ListSnapshotsRequest, IsolationLevel, snapshot, read_committed, unrecognized, TransactionRequest,
  TransactionResponse,
}

unfoldable pub snapshot_detail : SnapshotRow → SnapshotDetail
snapshot_detail s = record {
  snapshot_id = to_uint64 s.snapshot_id;
  parent_snapshot_id = to_uint64 s.parent_snapshot_id;
  operation = s.operation;
  added_partitions = s.added_files_count;
  deleted_partitions = s.deleted_files_count;
  committed_at = s.committed_at;
}

abbrev pub no_detail : SnapshotDetail
no_detail = record {
  snapshot_id = 0;
  parent_snapshot_id = 0;
  operation = [];
  added_partitions = pos 0;
  deleted_partitions = pos 0;
  committed_at = [];
}

unfoldable pub detail_reply : Option SnapshotRow → Reply SnapshotDetail
detail_reply none = record { status = not_found (codes "Snapshot not found"); response = no_detail }
detail_reply (some snap) = replied (snapshot_detail snap)

abbrev pub isolation_text : IsolationLevel → Text
isolation_text snapshot = codes "snapshot"
isolation_text read_committed = codes "read_committed"
isolation_text (unrecognized n) = codes "snapshot"

-- The answer to a commit, by whether the manager has committed.
unfoldable pub commit_response : ℕ → Bool → OperationResponse
commit_response txn_id true = record { success = true; error_msg = [] }
commit_response txn_id false = record {
  success = false;
  error_msg = codes "Transaction " ++ (to_string txn_id ++ codes " not found or expired");
}

abbrev pub begin_at : ℕ → MvccManager → MvccManager × (ℕ × ℕ)
begin_at now mvcc =
    let (mvcc', txn_id, read_snapshot) = begin_transaction mvcc now in
    (mvcc', (txn_id, read_snapshot))

abbrev pub abort_of : ℕ → MvccManager → MvccManager × Unit {0}
abort_of txn_id mvcc = (abort_transaction mvcc txn_id, tt)

module _ (pg : Postgres) (pq : Libpq) where
  -- A call of the transaction manager.
  abbrev pub on_mvcc : {A : Type 0} → (MvccManager → MvccManager × A) → Run pg pq A
  on_mvcc call s = let (mvcc, a) = call s.mvcc in some (ok a, record s { mvcc = mvcc })

  unfoldable pub get_snapshot : GetSnapshotRequest → Run pg pq (Reply SnapshotDetail)
  get_snapshot req = do
    snap ← with_conn pg pq (on_db pg (Snapshots.get_snapshot pg req.table_name req.snapshot_id))
    pure (detail_reply snap)

  unfoldable pub list_snapshots : ListSnapshotsRequest → Run pg pq (Reply (List SnapshotDetail))
  list_snapshots req = do
    snapshots ← with_conn pg pq (on_db pg (Snapshots.list_snapshots pg req.table_name req.limit))
    pure (replied (map snapshot_detail snapshots))

  -- The identifier that the database gives the transaction is not looked at.
  unfoldable pub begin_handler : ℕ → TransactionRequest → Run pg pq (Reply TransactionResponse)
  begin_handler now req = do
    (txn_id, read_snapshot) ← on_mvcc (begin_at now)
    with_conn pg pq (
        on_db pg (
          Snapshots.insert_transaction pg req.client_id read_snapshot
            (isolation_text req.isolation)))
    pure (replied (record { txn_id = txn_id; read_snapshot_id = read_snapshot }))

  -- The row of a transaction that has committed is updated; then the response is filled.
  unfoldable pub after_commit : ℕ → Bool → Run pg pq (Reply OperationResponse)
  after_commit txn_id true = do
    with_conn pg pq (on_db pg (Snapshots.update_transaction_status pg txn_id (codes "committed")))
    pure (replied (commit_response txn_id true))
  after_commit txn_id false = pure (replied (commit_response txn_id false))

  unfoldable pub commit_handler : ℕ → ℕ → ℕ → Run pg pq (Reply OperationResponse)
  commit_handler failures now txn_id = do
    committed ← on_mvcc (λ mvcc. commit_transaction mvcc failures txn_id now)
    after_commit txn_id committed

  unfoldable pub abort_handler : ℕ → Run pg pq (Reply OperationResponse)
  abort_handler txn_id = do
    on_mvcc (abort_of txn_id)
    with_conn pg pq (on_db pg (Snapshots.update_transaction_status pg txn_id (codes "aborted")))
    pure (replied (record { success = true; error_msg = [] }))
