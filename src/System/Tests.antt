-- ===== src/System/Tests.antt =====
-- An idle server, and the theorems on the methods with their guards at it.
use ice_log.LockManager.{Locks, acquire_exclusive}
use ice_log.Outcome.{ok, undefined}
use ice_log.Prelude.{some, false, ◌⊎◌, ℕ, suc, ◌≡◌, ◌≢◌, refl, [], ◌∷◌, none, true, arith}
use ice_log.Prelude.Int.{pos}
use ice_log.Text.{codes, text_ne, text_eq}
use ice_log.Postgres.Tests.{server}
use ice_log.LruCache
use ice_log.Mvcc
use ice_log.UnorderedMap.{find}
use ice_log.ConnectionPool.{Libpq, available}
use ice_log.ConnectionPool.Capacity.{IsUp}
use ice_log.PartitionRegistry.{on_db}
use ice_log.PartitionRegistry
use ice_log.PartitionRegistry.Guarded.{get_partitions, get_partitions_lem}
use ice_log.CatalogManager
use ice_log.CatalogManager.Guarded.{rename_table, rename_table_lem, rename_table_same}
use ice_log.System.{System}
use ice_log.System.Implements.{IsReady, Does}

-- A libpq whose connections are numbered as they are made, and never break.
abbrev pub steady : Libpq
steady = record {
  Conns = ℕ;
  connectdb = λ w. (w, suc w);
  status_ok = λ conn w. true;
  reset = λ conn w. w;
  finish = λ conn w. w;
}

pub steady-IsUp : IsUp steady
steady-IsUp w = refl

-- One connection, an empty cache of capacity 2, and a manager with a timeout of 60 ticks.
abbrev pub idle : System server steady
idle = record {
  locks = [];
  pool = record { pool_size = 1; available_connections = 0 ∷ [] };
  conns = 1;
  cache = LruCache.init 2;
  db = (5, none);
  mvcc = Mvcc.init (pos 60);
}

idle-IsReady : IsReady server steady [] idle.mvcc idle
unfolding available find
idle-IsReady = record { unheld = λ table free. refl; connected = omega arith; manager = refl }

different : codes "a" ≢ codes "b"
different = text_ne (codes "a") (codes "b") (unfold text_eq in refl)

rename_table_lem_example :
    Does server steady idle
      (rename_table server steady (codes "a") (codes "b"))
      (on_db server (CatalogManager.rename_table server (codes "a") (codes "b")))
rename_table_lem_example =
    rename_table_lem server steady (codes "a") (codes "b") idle steady-IsUp different idle-IsReady

rename_table_same_example :
    ((acquire_exclusive false idle.locks (codes "a") ≡ none)
      × (rename_table server steady (codes "a") (codes "a") idle ≡ none))
    ⊎ ((locks : Locks) × (acquire_exclusive false idle.locks (codes "a") ≡ some (ok locks))
        × (after : System server steady) × (rename_table server steady (codes "a") (codes "a") idle
            ≡ some (undefined, after)))
rename_table_same_example = rename_table_same server steady (codes "a") idle

get_partitions_lem_example :
    Does server steady idle
      (get_partitions server steady (codes "t") 5)
      (PartitionRegistry.get_partitions server idle.mvcc (codes "t") 5)
get_partitions_lem_example =
    get_partitions_lem server steady (codes "t") 5 idle steady-IsUp idle-IsReady
