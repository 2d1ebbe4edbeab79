-- ===== src/PartitionRegistry/Tests.antt =====
-- Runs of src/catalog/partition_registry.cpp on a small server, and the theorems at them.
use ice_log.Prelude.{true, ℕ, ◌≡◌, ◌≢◌, refl, none, some, arith, [], ◌∷◌}
use ice_log.Prelude.Int.{pos}
use ice_log.Text.{has_prefix, codes, text_discrete}
use ice_log.Text.Decimal.{
  stoll, parse_sign, skip_space, to_string_signed, to_string, to_digits, parse_digits, in_range,
  digits_value,
}
use ice_log.Prelude.Words.{to_int32, to_uint64}
use ice_log.PgClient.Snapshots.{
  get_current_snapshot, insert_snapshot, update_table_snapshot, returned_id,
}
use ice_log.Mvcc.{validate_parent_snapshot}
use ice_log.LruCache.{invalidate_if, invalidate_loop}
use ice_log.Prelude.Int
use ice_log.Signed
use ice_log.PartitionRegistry.{stats_of, sum_rows}
use ice_log.PartitionRegistry.Stats.{stats_of_lem}
use ice_log.Outcome.{ok, undefined}
use ice_log.Postgres.{select_partitions}
use ice_log.Postgres.Tests.Store.{store, store_transactions, store_history}
use ice_log.PartitionRegistry.TimeTravel.{commit_snapshot-history}
use ice_log.Postgres.Tests.{server, server_transactions, server_pointers}
use ice_log.LruCache.{init}
use ice_log.LruCache.Nodes.{pairs}
use ice_log.UnorderedMap.{find}
use ice_log.Mvcc.{MvccManager}
use ice_log.Mvcc
use ice_log.PgClient.Partitions.{
  insert_partition, mark_partition_deleted, query_partitions, partition_rows,
}
use ice_log.LruCache.Invariant.{IsValid, init-IsValid}
use ice_log.PgClient.{
  PartitionRow, run_exec, run_command, get_table_id, partition_row, field_int64, field_str,
  read_rows,
}
use ice_log.PartitionRegistry.{
  Cache, CommitResult, make_cache_key, get_partitions, commit_snapshot, refused, conflict,
  write_snapshot, insert_partitions, mark_partitions, of_table, invalidate_table_cache,
}
use ice_log.PartitionRegistry.Keys.{make_cache_key-injective}
use ice_log.PartitionRegistry.Reads.{Holds, get_partitions_again, get_partitions_miss}
use ice_log.PartitionRegistry.Conflict.{commit_snapshot-conflict}
use ice_log.PartitionRegistry.Commit.{CommitEnds, commit_snapshot_lem}

abbrev empty_cache : Cache
empty_cache = init 2

empty_cache-IsValid : IsValid text_discrete empty_cache
empty_cache-IsValid = init-IsValid text_discrete 2 (omega arith)

abbrev part : PartitionRow
part = record {
  partition_id = pos 0;
  table_id = pos 0;
  snapshot_id = pos 0;
  partition_key = codes "day=1";
  data_file_path = codes "f";
  file_format = codes "parquet";
  row_count = pos 10;
  size_bytes = pos 100;
  column_stats_json = [];
}

make_cache_key-injective_example : (codes "a:1" ≡ codes "a:1") × (◌≡◌ {A = ℕ} 12 12)
make_cache_key-injective_example = make_cache_key-injective (codes "a:1") (codes "a:1") 12 12 refl

commit_snapshot_lem_example :
    CommitEnds server_transactions
      (codes "t")
      5
      (codes "append")
      (part ∷ [])
      (codes "day=0" ∷ [])
      (empty_cache, (5, none))
commit_snapshot_lem_example =
    commit_snapshot_lem server_transactions (codes "t") 5 (codes "append") (part ∷ [])
      (codes "day=0" ∷ []) empty_cache (5, none) empty_cache-IsValid refl

abbrev empty_manager : MvccManager
empty_manager = Mvcc.init (pos 60)

abbrev row : PartitionRow
row = record {
  partition_id = pos 1;
  table_id = pos 1;
  snapshot_id = pos 5;
  partition_key = codes "day=1";
  data_file_path = codes "f";
  file_format = codes "parquet";
  row_count = pos 10;
  size_bytes = pos 100;
  column_stats_json = [];
}

five : ◌≢◌ {A = ℕ} 5 0
five = λ e. omega (arith, e)

missed : find text_discrete (make_cache_key (codes "t") 5) (pairs empty_cache.lru_list) ≡ none
unfolding find init
missed = refl

queried : query_partitions server (codes "t") 5 (5, none) ≡ (ok (some (row ∷ [])), (5, none))
unfolding query_partitions get_table_id partition_rows partition_row field_int64 field_str read_rows
    stoll parse_sign skip_space to_string_signed to_string to_digits parse_digits in_range
    digits_value
queried = refl

get_partitions_miss_example :
    (cache' : Cache) × (get_partitions server empty_manager (codes "t") 5 (empty_cache, (5, none))
      ≡ (ok (some (row ∷ [])), (cache', (5, none))))
    × IsValid text_discrete cache'
    × (find text_discrete (make_cache_key (codes "t") 5) (pairs cache'.lru_list) ≡ some (row ∷ []))
get_partitions_miss_example =
    get_partitions_miss server empty_manager (codes "t") 5 (some (row ∷ [])) empty_cache (5, none)
      (5, none) five empty_cache-IsValid missed queried

first_read :
    (cache' : Cache) × (get_partitions server empty_manager (codes "t") 5 (empty_cache, (5, none))
      ≡ (ok (some (row ∷ [])), (cache', (5, none))))
    × IsValid text_discrete cache'
    × (find text_discrete (make_cache_key (codes "t") 5) (pairs cache'.lru_list) ≡ some (row ∷ []))
first_read =
    get_partitions_miss server empty_manager (codes "t") 5 (some (row ∷ [])) empty_cache (5, none)
      (5, none) five empty_cache-IsValid missed queried

abbrev read_cache : Cache
read_cache = first_read.0

get_partitions_again_example :
    (cache'' : Cache) × (get_partitions server empty_manager (codes "t") 5 (read_cache, (9, none))
      ≡ (ok (some (row ∷ [])), (cache'', (9, none))))
    × Holds (codes "t") 5 (row ∷ []) cache''
get_partitions_again_example =
    get_partitions_again server empty_manager (codes "t") 5 (row ∷ []) empty_cache read_cache
      (5, none) (5, none) (9, none) five empty_cache-IsValid first_read.1

abbrev committed : CommitResult
committed = record { success = true; snapshot_id = 6; error_msg = [] }

commit_runs :
    commit_snapshot server
      (codes "t")
      5
      (codes "append")
      (part ∷ [])
      (codes "day=0" ∷ [])
      (empty_cache, (5, none))
    ≡ (ok committed, (empty_cache, (6, none)))
unfolding commit_snapshot write_snapshot insert_partitions mark_partitions invalidate_table_cache
    of_table has_prefix run_exec run_command get_table_id get_current_snapshot insert_snapshot
    update_table_snapshot insert_partition mark_partition_deleted returned_id to_int32 to_uint64
    validate_parent_snapshot invalidate_if invalidate_loop init field_int64 stoll parse_sign
    skip_space to_string_signed to_string to_digits parse_digits in_range digits_value
commit_runs = refl

commit_snapshot-conflict_example :
    (server_pointers.pointer (codes "t") (6, none) ≡ some 6)
    × (◌≢◌ {A = ℕ} 6 5)
    × ((later : server.Db) × (commit_snapshot server
            (codes "t")
            5
            (codes "overwrite")
            []
            (codes "day=1" ∷ [])
            (empty_cache, (6, none))
          ≡ (ok (refused (conflict 5 6)), (empty_cache, later))))
commit_snapshot-conflict_example =
    commit_snapshot-conflict server_pointers (codes "t") server_transactions 5 (codes "append")
      (part ∷ []) (codes "day=0" ∷ []) empty_cache empty_cache (5, none) (6, none) committed
      (codes "overwrite") [] (codes "day=1" ∷ []) empty_cache-IsValid refl refl commit_runs refl

-- A table with one partition of snapshot 5, which a commit of another replaces.
abbrev before : store.Db
before = ((5, record { snapshot = 5; key = codes "day=0"; deleted = none } ∷ []), none)

replaced :
    (after : store.Db) × (commit_snapshot store
        (codes "t")
        5
        (codes "overwrite")
        (part ∷ [])
        (codes "day=0" ∷ [])
        (empty_cache, before)
      ≡ (ok committed, (empty_cache, after)))
unfolding commit_snapshot write_snapshot insert_partitions mark_partitions invalidate_table_cache
    of_table has_prefix run_exec run_command get_table_id get_current_snapshot insert_snapshot
    update_table_snapshot insert_partition mark_partition_deleted returned_id to_int32 to_uint64
    validate_parent_snapshot invalidate_if invalidate_loop init field_int64 stoll parse_sign
    skip_space to_string_signed to_string to_digits parse_digits in_range digits_value
replaced = (_, refl)

-- The partition that the commit has deleted is still there for readers of snapshot 5.
commit_snapshot-history_example :
    partition_rows (store.exec_params select_partitions (codes "1" ∷ to_string 5 ∷ []) replaced.0).0
    ≡ partition_rows (store.exec_params select_partitions (codes "1" ∷ to_string 5 ∷ []) before).0
commit_snapshot-history_example =
    commit_snapshot-history store_history store_transactions (codes "t") 5 (codes "overwrite")
      (part ∷ []) (codes "day=0" ∷ []) empty_cache empty_cache before replaced.0 committed
      (codes "1") 5 empty_cache-IsValid refl replaced.1 refl (omega arith) refl refl

abbrev larger : PartitionRow
larger = record row { row_count = pos 30; size_bytes = pos 301 }

stats_of_lem_example :
    stats_of (row ∷ larger ∷ [])
    ≡ ok (record {
      total_partitions = pos 2;
      total_rows = pos 40;
      total_bytes = pos 401;
      avg_size_bytes = pos 200;
    })
stats_of_lem_example =
    stats_of_lem (row ∷ larger ∷ []) ((10, 100) ∷ (30, 301) ∷ []) (refl, refl, (refl, refl, tt))

-- One row more than int64_t holds.
overflows : stats_of (record row { row_count = pos 9223372036854775807 } ∷ row ∷ []) ≡ undefined
unfolding stats_of sum_rows Signed.add Int.◌+ℤ◌
overflows = refl
