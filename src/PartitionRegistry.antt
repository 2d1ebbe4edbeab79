-- ===== src/PartitionRegistry.antt =====
-- src/catalog/partition_registry.h and partition_registry.cpp: `PartitionRegistry`. A method here is
-- what runs once the table's guard and its connections have been granted; Guarded has the methods with them. What is
-- printed is left out. The state is the cache and the
-- server's state as the connection sees it; the transaction manager is only read, and is an argument.
pub mod Keys
pub mod Writes
pub mod Commit
pub mod Conflict
pub mod Guarded
pub mod Listing
pub mod TimeTravel
pub mod Safe
pub mod Stats
pub mod Reads
mod Tests
use ice_log.Prelude.{
  ℕ, zero, suc, ◌+◌, ◌/◌, List, [], ◌∷◌, ◌++◌, Option, none, some, Bool, true, false, ◌==◌,
  if◌then◌else◌, length,
}
use ice_log.Prelude.Int.{ℤ, pos, negsuc}
use ice_log.Prelude.Words.{to_int32, i64_bound}
use ice_log.Signed
use ice_log.Text.{Text, codes, text_discrete, has_prefix}
use ice_log.Text.Decimal.{to_string}
use ice_log.Outcome.{Outcome, ok, thrown, undefined}
use ice_log.Session.{Session, pure, lift, ◌>>=◌, ◌>>◌}
use ice_log.Postgres.{Postgres, begin, commit, rollback}
use ice_log.LruCache.{LruCache, get, put, invalidate_if}
use ice_log.Mvcc.{MvccManager, get_latest_committed_snapshot, validate_parent_snapshot}
use ice_log.PgClient.{PartitionRow, run_exec}
use ice_log.PgClient.Partitions.{
  query_partitions, query_partitions_paged, insert_partition, mark_partition_deleted,
}
use ice_log.PgClient.Snapshots.{insert_snapshot, get_current_snapshot, update_table_snapshot}

abbrev pub Cache : Type 0
Cache = LruCache Text (List PartitionRow)

pub record PartitionStats : Type 0 where
  pub total_partitions : ℤ
  pub total_rows : ℤ
  pub total_bytes : ℤ
  pub avg_size_bytes : ℤ

pub record CommitResult : Type 0 where
  pub success : Bool
  pub snapshot_id : ℕ
  pub error_msg : Text

unfoldable pub make_cache_key : Text → ℕ → Text
make_cache_key table snap = table ++ (codes ":" ++ to_string snap)

-- Integer division rounds towards zero.
abbrev pub quotient : ℤ → ℕ → ℤ
quotient (pos n) d = pos (n / d)
quotient (negsuc n) d = negate (suc n / d)
  where
    negate : ℕ → ℤ
    negate zero = pos 0
    negate (suc k) = negsuc k

-- The loop of `get_stats`.
unfoldable pub sum_rows : ℤ → ℤ → List PartitionRow → Outcome (ℤ × ℤ)
sum_rows rows bytes [] = ok (rows, bytes)
sum_rows rows bytes (p ∷ parts) =
    ice_log.Outcome.◌>>=◌ (Signed.add i64_bound rows p.row_count) (λ rows'.
      ice_log.Outcome.◌>>=◌ (Signed.add i64_bound bytes p.size_bytes)
        (λ bytes'. sum_rows rows' bytes' parts))

abbrev pub no_stats : PartitionStats
no_stats = record {
  total_partitions = pos 0;
  total_rows = pos 0;
  total_bytes = pos 0;
  avg_size_bytes = pos 0;
}

unfoldable pub stats_of : List PartitionRow → Outcome PartitionStats
stats_of parts =
    let n = length parts in
    ice_log.Outcome.◌>>=◌ (sum_rows (pos 0) (pos 0) parts) (λ (rows, bytes). ok (record {
      total_partitions = pos n;
      total_rows = rows;
      total_bytes = bytes;
      avg_size_bytes = if n == 0 then pos 0 else quotient bytes n;
    }))

abbrev pub refused : Text → CommitResult
refused message = record { success = false; snapshot_id = 0; error_msg = message }

-- `key.compare(0, prefix.size(), prefix) == 0` for the prefix of the table.
unfoldable pub of_table : Text → Text → Bool
of_table table_name key = has_prefix (table_name ++ codes ":") key

unfoldable pub conflict : ℕ → ℕ → Text
conflict parent current =
    codes "Conflict: snapshot "
    ++ (to_string parent
        ++ (codes " is no longer current (current=" ++ (to_string current ++ codes ")")))

module _ (pg : Postgres) where
  open pg use {Db}

  -- A call of the client, and a call of the cache.
  abbrev pub on_db : {A : Type 0} → Session Db A → Session (Cache × Db) A
  on_db call (cache, db) = let (o, db') = call db in (o, (cache, db'))

  abbrev pub on_cache : {A : Type 0} → (Cache → Outcome (Cache × A)) → Session (Cache × Db) A
  on_cache call (cache, db) = elim (call cache) [
    | ok (cache', a) ↦ (ok a, (cache', db))
    | thrown e ↦ (thrown e, (cache, db))
    | undefined ↦ (undefined, (cache, db))
  ]

  -- The snapshot to read: the one asked for; or the latest of the manager; or the table's own.
  unfoldable pub read_snapshot : MvccManager → Text → ℕ → Session Db ℕ
  read_snapshot mvcc table_name snapshot_id =
      let read_snap =
        if snapshot_id == 0 then get_latest_committed_snapshot mvcc else snapshot_id in
      if read_snap == 0 then get_current_snapshot pg table_name else pure read_snap

  abbrev pub put_in : Text → List PartitionRow → Cache → Outcome (Cache × Unit {0})
  put_in key rows cache =
      ice_log.Outcome.◌>>=◌ (put text_discrete cache key rows) (λ cache'. ok (cache', tt))

  -- The query on a miss; what it returns is cached.
  unfoldable pub fetch : Text → Text → ℕ → Session (Cache × Db) (Option (List PartitionRow))
  fetch key table_name read_snap = do
    result ← on_db (query_partitions pg table_name read_snap)
    elim result [ none ↦ pure none | some rows ↦ (do on_cache (put_in key rows); pure (some rows)) ]

  unfoldable pub get_partitions :
      MvccManager → Text → ℕ → Session (Cache × Db) (Option (List PartitionRow))
  get_partitions mvcc table_name snapshot_id = do
    read_snap ← on_db (read_snapshot mvcc table_name snapshot_id)
    let key = make_cache_key table_name read_snap
    cached ← on_cache (λ cache. get text_discrete cache key)
    elim cached [ some rows ↦ pure (some rows) | none ↦ fetch key table_name read_snap ]

  unfoldable pub get_partitions_paged :
      MvccManager → Text → ℕ → ℤ → ℤ → Session (Cache × Db) (Option (List PartitionRow))
  get_partitions_paged mvcc table_name snapshot_id page_size last_partition_id = do
    read_snap ← on_db (read_snapshot mvcc table_name snapshot_id)
    on_db (query_partitions_paged pg table_name read_snap page_size last_partition_id)

  unfoldable pub get_stats : MvccManager → Text → Session (Cache × Db) PartitionStats
  get_stats mvcc table_name = do
    snap ← on_db (read_snapshot mvcc table_name 0)
    parts ← on_db (query_partitions pg table_name snap)
    elim parts [ none ↦ pure no_stats | some rows ↦ lift (stats_of rows) ]

  -- The loops of `commit_snapshot`: the first key at which one fails, if any.
  unfoldable pub insert_partitions : Text → ℕ → List PartitionRow → Session Db (Option Text)
  insert_partitions table_name new_snap [] = pure none
  insert_partitions table_name new_snap (part ∷ parts) = do
    inserted ← insert_partition pg table_name new_snap part
    elim inserted [
      | true ↦ insert_partitions table_name new_snap parts
      | false ↦ pure (some part.partition_key)
    ]

  unfoldable pub mark_partitions : Text → ℕ → List Text → Session Db (Option Text)
  mark_partitions table_name new_snap [] = pure none
  mark_partitions table_name new_snap (key ∷ keys) = do
    marked ← mark_partition_deleted pg table_name key new_snap
    elim marked [ true ↦ mark_partitions table_name new_snap keys | false ↦ pure (some key) ]

  -- What `commit_snapshot` does between BEGIN and COMMIT: the new snapshot, or the message of the failure.
  unfoldable pub write_snapshot :
      Text → ℕ → Text → List PartitionRow → List Text → Session Db (ℕ × Option Text)
  write_snapshot table_name parent operation new_partitions deleted_partition_keys = do
    new_snap ←
        insert_snapshot pg table_name parent operation (to_int32 (length new_partitions))
          (to_int32 (length deleted_partition_keys))
    if new_snap == 0 then pure (new_snap, some (codes "Failed to insert snapshot record")) else (do
      bad_part ← insert_partitions table_name new_snap new_partitions
      elim bad_part [
        | some key ↦ pure (new_snap, some (codes "Failed to insert partition: " ++ key))
        | none ↦ (do
          bad_key ← mark_partitions table_name new_snap deleted_partition_keys
          elim bad_key [
            | some key ↦ pure (new_snap, some (codes "Failed to mark partition deleted: " ++ key))
            | none ↦ (do
              updated ← update_table_snapshot pg table_name new_snap
              pure (
                new_snap,
                if updated then none else some (codes "Failed to update table snapshot pointer"),
              ))
          ])
      ])

  unfoldable pub invalidate_table_cache : Text → Session (Cache × Db) ℕ
  invalidate_table_cache table_name = on_cache (λ cache. invalidate_if cache (of_table table_name))

  unfoldable pub commit_snapshot :
      Text → ℕ → Text → List PartitionRow → List Text → Session (Cache × Db) CommitResult
  commit_snapshot table_name parent operation new_partitions deleted_partition_keys = do
    current_snap ← on_db (get_current_snapshot pg table_name)
    if validate_parent_snapshot parent current_snap
        then (do
          on_db (run_exec pg begin)
          (new_snap, failure) ←
              on_db
                (write_snapshot table_name parent operation new_partitions deleted_partition_keys)
          elim failure [
            | some message ↦ (do on_db (run_exec pg rollback); pure (refused message))
            | none ↦ (do
              on_db (run_exec pg commit)
              invalidate_table_cache table_name
              pure (record { success = true; snapshot_id = new_snap; error_msg = [] }))
          ])
        else pure (refused (conflict parent current_snap))
