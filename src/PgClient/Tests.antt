-- ===== src/PgClient/Tests.antt =====
-- The theorem on the reading of partitions of src/db/pg_client.cpp at two partitions.
use ice_log.Prelude.{◌≡◌, [], ◌∷◌, some, arith}
use ice_log.Prelude.Int.{pos, negsuc}
use ice_log.Text.{codes}
use ice_log.Outcome.{ok}
use ice_log.Postgres.{tuples_ok}
use ice_log.PgClient.{PartitionRow}
use ice_log.PgClient.Partitions.{partition_rows}
use ice_log.PgClient.Fields.{Fits, printed, partition_rows-printed}

abbrev january : PartitionRow
january = record {
  partition_id = pos 1;
  table_id = pos 7;
  snapshot_id = pos 3;
  partition_key = codes "month=1";
  data_file_path = codes "a.parquet";
  file_format = codes "parquet";
  row_count = pos 9223372036854775807;
  size_bytes = pos 0;
  column_stats_json = codes "{}";
}

abbrev february : PartitionRow
february = record january {
  partition_id = pos 2;
  partition_key = codes "month=2";
  row_count = negsuc 9223372036854775807;
}

january-Fits : Fits january
january-Fits = record {
  partition_fits = (omega arith, omega arith);
  table_fits = (omega arith, omega arith);
  snapshot_fits = (omega arith, omega arith);
  rows_fit = (omega arith, omega arith);
  bytes_fit = (omega arith, omega arith);
}

february-Fits : Fits february
february-Fits = record {
  partition_fits = (omega arith, omega arith);
  table_fits = (omega arith, omega arith);
  snapshot_fits = (omega arith, omega arith);
  rows_fit = (omega arith, omega arith);
  bytes_fit = (omega arith, omega arith);
}

partition_rows-printed_example :
    partition_rows (record {
      status = tuples_ok;
      tuples = printed january ∷ printed february ∷ [];
      cmd_tuples = [];
    })
    ≡ ok (some (january ∷ february ∷ []))
partition_rows-printed_example =
    partition_rows-printed (january ∷ february ∷ []) (january-Fits, (february-Fits, tt))
