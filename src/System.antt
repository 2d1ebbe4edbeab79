-- ===== src/System.antt =====
-- The parts that the methods of CatalogManager, SchemaStore and PartitionRegistry share, and what a method does first
-- and last: `scoped_shared` and `scoped_exclusive` of src/lock/lock_manager.cpp, `acquire` of
-- src/db/connection_pool.cpp, and the destructors of what they return, which run in reverse and also where an
-- exception passes.
pub mod Implements
pub mod Tests
use ice_log.Prelude.{List, [], ◌∷◌, Option, none, some, Bool, true, false, if◌then◌else◌}
use ice_log.Text.{Text, text_discrete}
use ice_log.Outcome.{Outcome, ok, thrown, undefined}
use ice_log.Session.{Session}
use ice_log.Blocking.{Blocking, lift}
use ice_log.Postgres.{Postgres}
use ice_log.Mvcc.{MvccManager}
use ice_log.LockManager.{
  Locks, acquire_shared, acquire_exclusive, release_shared, release_exclusive,
}
use ice_log.ConnectionPool.{Libpq, Pool, acquire, destroy}
use ice_log.PartitionRegistry.{Cache}

pub record System (pg : Postgres) (pq : Libpq) : Type 0 where
  pub locks : Locks
  pub pool : Pool
  pub conns : pq.Conns
  pub cache : Cache
  pub db : pg.Db
  pub mvcc : MvccManager

abbrev pub is_mine : List Text → Text → Bool
is_mine [] table_name = false
is_mine (t ∷ mine) table_name = elim (text_discrete t table_name) [
  | yes p ↦ true
  | no p ↦ is_mine mine table_name
]

module _ (pg : Postgres) (pq : Libpq) where
  abbrev pub Run : Type 0 → Type 0
  Run A = Blocking (System pg pq) A

  -- The destructor of a guard. An exception that leaves a destructor ends the program.
  abbrev pub leave :
      {A : Type 0}
      → (Locks → Outcome Locks)
      → Option (Outcome A × System pg pq)
      → Option (Outcome A × System pg pq)
  leave unlock none = none
  leave unlock (some (o, s)) = elim (unlock s.locks) [
    | ok locks ↦ some (o, record s { locks = locks })
    | thrown e ↦ some (undefined, s)
    | undefined ↦ some (undefined, s)
  ]

  -- The scope of a guard that is taken by one call on the locks and given back by another.
  unfoldable pub in_guard :
      {A : Type 0} → (Locks → Option (Outcome Locks)) → (Locks → Outcome Locks) → Run A → Run A
  in_guard take give_back rest s = elim (take s.locks) [
    | none ↦ none
    | some (ok locks) ↦ leave give_back (rest (record s { locks = locks }))
    | some (thrown e) ↦ some (thrown e, s)
    | some undefined ↦ some (undefined, s)
  ]

  -- What follows `auto guard = locks_.scoped_shared(table_name);`, to the end of its scope; the list has the tables of
  -- the guards in whose scope the line stands.
  abbrev pub with_shared : {A : Type 0} → List Text → Text → Run A → Run A
  with_shared mine table_name rest =
      in_guard (λ l. acquire_shared (is_mine mine table_name) l table_name)
        (λ l. release_shared l table_name) rest

  abbrev pub with_exclusive : {A : Type 0} → List Text → Text → Run A → Run A
  with_exclusive mine table_name rest =
      in_guard (λ l. acquire_exclusive (is_mine mine table_name) l table_name)
        (λ l. release_exclusive l table_name) rest

  -- Calls that need neither a guard nor a connection.
  unfoldable pub calls : {A : Type 0} → Session (Cache × pg.Db) A → Run A
  calls m s =
      let (o, (cache, db)) = m (s.cache, s.db) in some (o, record s { cache = cache; db = db })

  -- What follows `auto conn = pool_.acquire();`, to the end of its scope: calls on this connection.
  unfoldable pub with_conn : {A : Type 0} → Session (Cache × pg.Db) A → Run A
  with_conn m s = elim (acquire pq s.pool s.conns) [
    | none ↦ none
    | some (ok h, pool, conns) ↦
        let (o, (cache, db)) = m (s.cache, s.db) in
        some (o, record s { pool = destroy h pool; conns = conns; cache = cache; db = db })
    | some (thrown e, pool, conns) ↦ some (thrown e, record s { pool = pool; conns = conns })
    | some (undefined, pool, conns) ↦ some (undefined, record s { pool = pool; conns = conns })
  ]

  -- A read of the transaction manager.
  abbrev pub read_mvcc : {A : Type 0} → (MvccManager → Run A) → Run A
  read_mvcc f s = f s.mvcc s
