-- ===== src/PartitionRegistry/Guarded.antt =====
-- src/catalog/partition_registry.cpp: the methods of `PartitionRegistry` with their guards and connections.
use ice_log.Prelude.{
  refl, ℕ, List, [], ◌∷◌, Option, none, some, ◌==◌, if◌then◌else◌, Bool, true, false,
}
use ice_log.Prelude.Int.{ℤ}
use ice_log.Text.{Text, text_discrete}
use ice_log.Session
use ice_log.Blocking.{pure, ◌>>=◌}
use ice_log.Postgres.{Postgres}
use ice_log.Mvcc.{MvccManager, get_latest_committed_snapshot}
use ice_log.ConnectionPool.{Libpq}
use ice_log.ConnectionPool.Capacity.{IsUp}
use ice_log.LruCache.{get}
use ice_log.PgClient.{PartitionRow}
use ice_log.PgClient.Partitions.{query_partitions_paged}
use ice_log.PgClient.Snapshots.{get_current_snapshot}
use ice_log.PartitionRegistry.{
  Cache, PartitionStats, CommitResult, on_db, on_cache, make_cache_key, fetch, read_snapshot,
}
use ice_log.PartitionRegistry
use ice_log.System.{System, Run, with_shared, with_exclusive, with_conn, calls, read_mvcc}
use ice_log.System.Implements.{
  Implements, Does, IsReady, exclusive_call, bind-Implements, calls-Implements,
  with_conn-Implements, with_shared-Implements, read_mvcc-Implements,
}

module _ (pg : Postgres) (pq : Libpq) where
  -- A connection is taken only where neither the caller nor the manager gives a snapshot, and given back at once.
  unfoldable pub resolve : MvccManager → Text → ℕ → Run pg pq ℕ
  resolve mvcc table_name snapshot_id =
      let read_snap =
        if snapshot_id == 0 then get_latest_committed_snapshot mvcc else snapshot_id in
      if read_snap == 0
      then with_conn pg pq (on_db pg (get_current_snapshot pg table_name))
      else pure read_snap

  -- A hit takes no connection.
  unfoldable pub get_partitions : Text → ℕ → Run pg pq (Option (List PartitionRow))
  get_partitions table_name snapshot_id = with_shared pg pq [] table_name (do
    read_snap ← read_mvcc pg pq (λ mvcc. resolve mvcc table_name snapshot_id)
    let key = make_cache_key table_name read_snap
    cached ← calls pg pq (on_cache pg (λ cache. get text_discrete cache key))
    elim cached [
      | some rows ↦ pure (some rows)
      | none ↦ with_conn pg pq (fetch pg key table_name read_snap)
    ])

  unfoldable pub get_partitions_paged : Text → ℕ → ℤ → ℤ → Run pg pq (Option (List PartitionRow))
  get_partitions_paged table_name snapshot_id page_size last_partition_id =
      with_shared pg pq [] table_name (do
        read_snap ← read_mvcc pg pq (λ mvcc. resolve mvcc table_name snapshot_id)
        with_conn pg pq
            (on_db pg (query_partitions_paged pg table_name read_snap page_size last_partition_id)))

  unfoldable pub get_stats : Text → Run pg pq PartitionStats
  get_stats table_name =
      with_shared pg pq [] table_name
        (read_mvcc pg pq λ mvcc. with_conn pg pq (PartitionRegistry.get_stats pg mvcc table_name))

  unfoldable pub commit_snapshot :
      Text → ℕ → Text → List PartitionRow → List Text → Run pg pq CommitResult
  commit_snapshot table_name parent operation new_partitions deleted_partition_keys =
      with_exclusive pg pq [] table_name (
        with_conn pg pq (
          PartitionRegistry.commit_snapshot pg table_name parent operation new_partitions
            deleted_partition_keys))

  unfoldable pub invalidate_table_cache : Text → Run pg pq ℕ
  invalidate_table_cache table_name =
      calls pg pq (PartitionRegistry.invalidate_table_cache pg table_name)

  pure-Implements :
      {A : Type 0} (taken : List Text) (mvcc : MvccManager) (a : A)
      → Implements pg pq taken mvcc (pure a) (Session.pure a)
  pure-Implements taken mvcc a s r = (
    s,
    refl,
    record {
      same_parts = refl;
      same_locks = λ t. refl;
      same_available = refl;
      same_manager = refl;
    },
  )

  resolve-Implements :
      (taken : List Text) (mvcc : MvccManager) (table_name : Text) (snapshot_id : ℕ)
      → IsUp pq
      → Implements pg pq taken mvcc
          (read_mvcc pg pq (λ m. resolve m table_name snapshot_id))
          (on_db pg (read_snapshot pg mvcc table_name snapshot_id))
  unfolding resolve read_snapshot
  resolve-Implements taken mvcc table_name snapshot_id up =
      let given = if snapshot_id == 0 then get_latest_committed_snapshot mvcc else snapshot_id in
      read_mvcc-Implements pg pq taken mvcc (λ m. resolve m table_name snapshot_id)
        (on_db pg (read_snapshot pg mvcc table_name snapshot_id)) (choose (given == 0) given)
    where
      choose :
          (b : Bool) (given : ℕ)
          → Implements pg pq taken mvcc
              (if b
                then with_conn pg pq (on_db pg (get_current_snapshot pg table_name))
                else pure given)
              (on_db pg (if b then get_current_snapshot pg table_name else Session.pure given))
      choose true given =
          with_conn-Implements pg pq taken mvcc (on_db pg (get_current_snapshot pg table_name)) up
      choose false given = pure-Implements taken mvcc given

  -- The two ways on from a look into the cache.
  answer-Implements :
      (taken : List Text) (mvcc : MvccManager) (key table_name : Text) (read_snap : ℕ)
      (cached : Option (List PartitionRow))
      → IsUp pq
      → Implements pg pq taken mvcc
          (elim cached [
            | some rows ↦ pure (some rows)
            | none ↦ with_conn pg pq (fetch pg key table_name read_snap)
          ])
          (elim cached [
            | some rows ↦ Session.pure (some rows)
            | none ↦ fetch pg key table_name read_snap
          ])
  answer-Implements taken mvcc key table_name read_snap (some rows) up =
      pure-Implements taken mvcc (some rows)
  answer-Implements taken mvcc key table_name read_snap none up =
      with_conn-Implements pg pq taken mvcc (fetch pg key table_name read_snap) up

  pub get_partitions-Implements :
      (mvcc : MvccManager) (table_name : Text) (snapshot_id : ℕ)
      → IsUp pq
      → Implements pg pq [] mvcc
          (get_partitions table_name snapshot_id)
          (PartitionRegistry.get_partitions pg mvcc table_name snapshot_id)
  unfolding get_partitions PartitionRegistry.get_partitions
  get_partitions-Implements mvcc table_name snapshot_id up =
      let taken = table_name ∷ [] in
      let look_up = λ (read_snap : ℕ).
        on_cache pg (λ cache. get text_discrete cache (make_cache_key table_name read_snap)) in
      with_shared-Implements pg pq [] mvcc table_name _
        (PartitionRegistry.get_partitions pg mvcc table_name snapshot_id) tt
        (bind-Implements pg pq taken mvcc (read_mvcc pg pq (λ m. resolve m table_name snapshot_id))
          _ (on_db pg (read_snapshot pg mvcc table_name snapshot_id)) _
          (resolve-Implements taken mvcc table_name snapshot_id up)
          (λ read_snap.
            bind-Implements pg pq taken mvcc (calls pg pq (look_up read_snap)) _ (look_up read_snap)
              _ (calls-Implements pg pq taken mvcc (look_up read_snap))
              (λ cached.
                answer-Implements taken mvcc (make_cache_key table_name read_snap) table_name
                  read_snap cached up)))

  -- Where nobody holds a lock and the pool of a server that is up has a connection, `get_partitions` does not wait,
  -- though it may take a connection twice: it gives what the read gives, leaves the cache and the database as the
  -- read does, and every lock, the number of connections and the transaction manager as they were.
  pub get_partitions_lem :
      (table_name : Text) (snapshot_id : ℕ) (s : System pg pq)
      → IsUp pq
      → IsReady pg pq [] s.mvcc s
      → Does pg pq s
          (get_partitions table_name snapshot_id)
          (PartitionRegistry.get_partitions pg s.mvcc table_name snapshot_id)
  get_partitions_lem table_name snapshot_id s up r =
      get_partitions-Implements s.mvcc table_name snapshot_id up s r

  -- The other methods: a page of a listing, the statistics, a commit, and the invalidation.
  pub registry-Implements :
      (mvcc : MvccManager) (table_name operation : Text) (snapshot_id : ℕ)
      (page_size last_partition_id : ℤ) (new_partitions : List PartitionRow)
      (deleted_partition_keys : List Text)
      → IsUp pq
      → Implements pg pq [] mvcc
          (get_partitions_paged table_name snapshot_id page_size last_partition_id)
          (PartitionRegistry.get_partitions_paged pg mvcc table_name snapshot_id page_size
            last_partition_id)
        × Implements pg pq [] mvcc
            (get_stats table_name)
            (PartitionRegistry.get_stats pg mvcc table_name)
        × Implements pg pq [] mvcc
            (commit_snapshot table_name snapshot_id operation new_partitions deleted_partition_keys)
            (PartitionRegistry.commit_snapshot pg table_name snapshot_id operation new_partitions
              deleted_partition_keys)
        × Implements pg pq [] mvcc
            (invalidate_table_cache table_name)
            (PartitionRegistry.invalidate_table_cache pg table_name)
  unfolding get_partitions_paged PartitionRegistry.get_partitions_paged get_stats commit_snapshot
      invalidate_table_cache
  registry-Implements mvcc table_name operation snapshot_id page_size last_partition_id
        new_partitions keys up =
      let taken = table_name ∷ [] in
      let query = λ (read_snap : ℕ).
        on_db pg (query_partitions_paged pg table_name read_snap page_size last_partition_id) in
      let stats = PartitionRegistry.get_stats pg mvcc table_name in
      (
        with_shared-Implements pg pq [] mvcc table_name _
            (PartitionRegistry.get_partitions_paged pg mvcc table_name snapshot_id page_size
              last_partition_id)
            tt
            (bind-Implements pg pq taken mvcc
              (read_mvcc pg pq (λ m. resolve m table_name snapshot_id)) _
              (on_db pg (read_snapshot pg mvcc table_name snapshot_id)) _
              (resolve-Implements taken mvcc table_name snapshot_id up)
              (λ read_snap. with_conn-Implements pg pq taken mvcc (query read_snap) up)),
        with_shared-Implements pg pq [] mvcc table_name _ stats tt (
            read_mvcc-Implements pg pq taken mvcc
              (λ m. with_conn pg pq (PartitionRegistry.get_stats pg m table_name)) stats
              (with_conn-Implements pg pq taken mvcc stats up)),
        exclusive_call pg pq mvcc table_name
            (PartitionRegistry.commit_snapshot pg table_name snapshot_id operation new_partitions
              keys)
            up,
        calls-Implements pg pq [] mvcc (PartitionRegistry.invalidate_table_cache pg table_name),
      )
