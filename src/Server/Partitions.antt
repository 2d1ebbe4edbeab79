-- ===== src/Server/Partitions.antt =====
-- src/server/metadata_server.cpp: the handlers on partitions.
use ice_log.Prelude.{
  ℕ, zero, suc, List, [], ◌∷◌, Option, none, some, Bool, true, false, if◌then◌else◌, map, length,
}
use ice_log.Prelude.Int.{ℤ, pos, negsuc}
use ice_log.Text.{Text, codes, is_empty}
use ice_log.Text.Decimal.{stoll, to_string_signed}
use ice_log.Outcome.{Outcome, ok, thrown, undefined}
use ice_log.Blocking.{pure, ◌>>=◌}
use ice_log.Postgres.{Postgres}
use ice_log.ConnectionPool.{Libpq}
use ice_log.PgClient.{PartitionRow}
use ice_log.PartitionRegistry.{PartitionStats, CommitResult}
use ice_log.PartitionRegistry.Guarded
use ice_log.System.{Run}
use ice_log.Server.{
  Reply, replied, not_found, PartitionInfo, PartitionRequest, PartitionListResponse,
  PartitionStatsResponse, SnapshotRequest, SnapshotResponse,
}
use ice_log.Server.Tables.{partition_info, table_not_found}

-- `std::stoll` under `catch (...)`; an empty token is not read.
unfoldable pub caught : Outcome ℤ → ℤ
caught (ok last_id) = last_id
caught (thrown e) = pos 0
caught undefined = pos 0

unfoldable pub last_id_of : Text → ℤ
last_id_of page_token = if is_empty page_token then pos 0 else caught (stoll page_token)

abbrev pub is_positive : ℤ → Bool
is_positive (pos zero) = false
is_positive (pos (suc n)) = true
is_positive (negsuc n) = false

-- `result->back().partition_id`, printed, if there is a last row.
unfoldable pub last_token : List PartitionRow → Text
last_token [] = []
last_token (p ∷ []) = to_string_signed p.partition_id
last_token (p ∷ q ∷ rows) = last_token (q ∷ rows)

unfoldable pub partition_list : ℤ → List PartitionRow → PartitionListResponse
partition_list page_size rows = record {
  partitions = map partition_info rows;
  next_page_token = if is_positive page_size then last_token rows else [];
  total_count = pos (length rows);
}

abbrev pub no_partitions : PartitionListResponse
no_partitions = record { partitions = []; next_page_token = []; total_count = pos 0 }

unfoldable pub list_reply : Text → ℤ → Option (List PartitionRow) → Reply PartitionListResponse
list_reply table_name page_size none = record {
  status = not_found (table_not_found table_name);
  response = no_partitions;
}
list_reply table_name page_size (some rows) = replied (partition_list page_size rows)

unfoldable pub stats_response : PartitionStats → PartitionStatsResponse
stats_response stats = record {
  total_partitions = stats.total_partitions;
  total_rows = stats.total_rows;
  total_bytes = stats.total_bytes;
  avg_partition_size_bytes = stats.avg_size_bytes;
}

abbrev pub or_default : Text → Text → Text
or_default given otherwise = if is_empty given then otherwise else given

-- A row of a commit. The source leaves the three identifiers unset, so they have whatever values were there.
unfoldable pub new_row : ℤ × ℤ × ℤ → PartitionInfo → PartitionRow
new_row (partition_id, table_id, snapshot_id) p = record {
  partition_id = partition_id;
  table_id = table_id;
  snapshot_id = snapshot_id;
  partition_key = p.partition_key;
  data_file_path = p.data_file_path;
  file_format = or_default p.file_format (codes "parquet");
  row_count = p.row_count;
  size_bytes = p.size_bytes;
  column_stats_json = codes "{}";
}

-- The loop over the new partitions; the n-th row starts with the n-th of the values.
unfoldable pub new_rows : (ℕ → ℤ × ℤ × ℤ) → List PartitionInfo → List PartitionRow
new_rows unset [] = []
new_rows unset (p ∷ parts) = new_row (unset 0) p ∷ new_rows (λ n. unset (suc n)) parts

abbrev pub snapshot_response : CommitResult → SnapshotResponse
snapshot_response result = record {
  snapshot_id = result.snapshot_id;
  success = result.success;
  error_msg = result.error_msg;
}

module _ (pg : Postgres) (pq : Libpq) where
  unfoldable pub get_partitions : PartitionRequest → Run pg pq (Reply PartitionListResponse)
  get_partitions req = do
    result ←
        if is_positive req.page_size
        then Guarded.get_partitions_paged pg pq req.table_name req.snapshot_id req.page_size
            (last_id_of req.page_token)
        else Guarded.get_partitions pg pq req.table_name req.snapshot_id
    pure (list_reply req.table_name req.page_size result)

  unfoldable pub get_partition_stats : Text → Run pg pq (Reply PartitionStatsResponse)
  get_partition_stats table_name = do
    stats ← Guarded.get_stats pg pq table_name
    pure (replied (stats_response stats))

  unfoldable pub commit_snapshot :
      (ℕ → ℤ × ℤ × ℤ) → SnapshotRequest → Run pg pq (Reply SnapshotResponse)
  commit_snapshot unset req = do
    result ←
        Guarded.commit_snapshot pg pq req.table_name req.parent_snapshot_id
          (or_default req.operation (codes "append")) (new_rows unset req.new_partitions)
          req.deleted_partition_keys
    pure (replied (snapshot_response result))
