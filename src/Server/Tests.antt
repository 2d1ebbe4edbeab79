-- ===== src/Server/Tests.antt =====
-- Runs of src/server/metadata_server.cpp on small servers, and the theorems at them.
mod Pages
use ice_log.Prelude.{
  ℕ, ◌<◌, ◌≤◌, ◌+◌, ◌≡◌, ◌≢◌, refl, List, [], ◌∷◌, Option, none, some, Bool, true, false, All,
  arith, length, if◌then◌else◌,
}
use ice_log.Prelude.Int.{ℤ, pos, sub_ℕ, ltb_ℤ}
use ice_log.Text.{codes, text_discrete, text_eq, text_ne}
use ice_log.Outcome.{Outcome, ok, is_defined}
use ice_log.Postgres.Tests.{server}
use ice_log.LruCache
use ice_log.LruCache.Invariant.{IsValid, init-IsValid}
use ice_log.Mvcc
use ice_log.Mvcc.Invariant as Invariant
use ice_log.UnorderedMap.{find}
use ice_log.LockManager.{unlocked}
use ice_log.PgClient.Snapshots.{insert_transaction, returned_id}
use ice_log.ConnectionPool.{available, acquire, take_valid, validate_connection}
use ice_log.System.{System, with_conn}
use ice_log.System.Tests.{idle, steady, steady-IsUp}
use ice_log.Server.{
  OperationResponse, replied, CreateTableRequest, rename, AlterTableRequest, DropTableRequest,
  PartitionRequest, snapshot, TransactionRequest, TransactionResponse, Reply,
}
use ice_log.Server.Tables
use ice_log.Server.Transactions.{begin_handler, commit_handler, commit_response}
use ice_log.Server.Requests.{
  Request, Response, create_table, alter_table, get_partitions, begin_txn, commit_txn, abort_txn,
  serve,
}
use ice_log.Server.Ends.{IsIdle}
use ice_log.Server.Idle.{serve-IsValid}
use ice_log.Server.Lifecycle.{succeeded, too_late, begin-commit}
use ice_log.Server.Sweeping.{Swept, changes_sweep}

idle-IsIdle : IsIdle server steady idle
unfolding available find
idle-IsIdle = record { unheld = λ table. refl; connected = omega arith }

different : codes "a" ≢ codes "b"
different = text_ne (codes "a") (codes "b") (unfold text_eq in refl)

abbrev renames : AlterTableRequest
renames = record { table_name = codes "a"; alteration = rename (codes "b") }

abbrev drops : DropTableRequest
drops = record { table_name = codes "b"; purge = false }

abbrev client : TransactionRequest
client = record { client_id = codes "c"; isolation = snapshot }

abbrev requests : List Request
requests =
    create_table (record {
      table_name = codes "a";
      schema_json = codes "{1}";
      partition_spec = [];
      properties = (codes "k", codes "v") ∷ [];
    })
    ∷ alter_table renames
    ∷ get_partitions
        (record { table_name = codes "b"; snapshot_id = 5; page_size = pos 0; page_token = [] })
    ∷ begin_txn 0 client
    ∷ commit_txn 0 30 1
    ∷ abort_txn 1
    ∷ []

serve-IsValid_example :
    (r : Outcome (List (Outcome Response))) × (after : System server steady) × (serve server steady
        requests idle
      ≡ some (r, after))
    × Invariant.IsValid after.mvcc
    × (after.mvcc.next_txn_id ≤ 7)
unfolding Mvcc.init
serve-IsValid_example =
    serve-IsValid server steady steady-IsUp requests idle
      (tt, (different, (tt, (tt, (tt, (tt, tt)))))) idle-IsIdle
      (init-IsValid text_discrete 2 (omega arith)) (Invariant.init-IsValid (pos 60)) (omega arith)

-- The rows of two tables, "a" and "c", in the cache.
abbrev stocked : System server steady
stocked = record idle {
  cache = record {
    capacity = 2;
    lru_list =
        record { at = 0; key = codes "a:5"; value = [] }
        ∷ record { at = 1; key = codes "c:5"; value = [] }
        ∷ [];
    map = (codes "a:5", 0) ∷ (codes "c:5", 1) ∷ [];
    hit_count = 0;
    miss_count = 0;
    eviction_count = 0;
    next_node = 2;
  };
}

stocked-IsIdle : IsIdle server steady stocked
unfolding available find
stocked-IsIdle = record { unheld = λ table. refl; connected = omega arith }

stocked-IsValid : IsValid text_discrete stocked.cache
unfolding find text_discrete LruCache.node_at
stocked-IsValid = record {
  positive = omega arith;
  bounded = omega arith;
  linear = (omega arith, refl, (omega arith, refl, tt));
  distinct = (refl, (refl, tt));
  map_distinct = (refl, (refl, tt));
  sized = refl;
  linked = λ key. refl;
}

changes_sweep_example :
    ((o : Outcome (Reply OperationResponse)) × (after : System server steady) × (Tables.alter_table
          server steady renames stocked
        ≡ some (o, after))
      × Swept (codes "a") stocked.cache o after.cache)
    × ((o : Outcome (Reply OperationResponse)) × (after : System server steady) × (Tables.drop_table
            server steady drops stocked
          ≡ some (o, after))
        × Swept (codes "b") stocked.cache o after.cache)
changes_sweep_example =
    changes_sweep server steady steady-IsUp renames drops stocked different stocked-IsIdle
      stocked-IsValid

abbrev answer : TransactionResponse
answer = record { txn_id = 1; read_snapshot_id = 0 }

begun :
    (s1 : System server steady) × (begin_handler server steady 0 client idle
      ≡ some (ok (replied answer), s1))
unfolding begin_handler with_conn acquire take_valid validate_connection insert_transaction
    returned_id Mvcc.begin_transaction Mvcc.take_txn_id Mvcc.get_latest_committed_snapshot
    Mvcc.register Mvcc.init
begun = (_, refl)

abbrev after_begin : System server steady
after_begin = begun.0

-- A commit in time.
begin-commit_example :
    (◌≡◌ {A = ℕ} 0 idle.mvcc.latest_committed_snapshot)
    × (s2 : System server steady) × (commit_handler server steady 2 30 1 after_begin
        ≡ some (ok (replied succeeded), s2))
    × (s2.mvcc.latest_committed_snapshot ≡ idle.mvcc.latest_committed_snapshot + 1)
    × (s3 : System server steady) × (commit_handler server steady 0 31 1 s2
        ≡ some (ok (replied (too_late 1)), s3))
unfolding Mvcc.init
begin-commit_example =
    begin-commit server steady steady-IsUp 0 30 31 2 0 client idle after_begin answer idle-IsIdle
      (Invariant.init-IsValid (pos 60)) (omega arith) (omega arith) begun.1
