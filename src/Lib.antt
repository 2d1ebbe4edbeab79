-- ===== src/Lib.antt =====
-- IceLog, the metadata control plane of a lakehouse: a server that keeps tables, schemas, snapshots and partitions
-- in PostgreSQL, with an in-memory transaction manager, lock manager and cache in front. This library models its
-- C++ sources and states what they do.
--
-- The parts. A read of partitions takes the table's shared guard from the lock manager, asks the transaction
-- manager for the snapshot to read, looks in the cache, and on a miss goes to the PostgreSQL client. A commit of a
-- snapshot takes the table's exclusive guard, checks the parent snapshot, writes in one database transaction, and
-- sweeps the table's keys out of the cache. The catalog manager and the schema store do the same for tables and
-- their schemas.
--
--   Mvcc               src/transaction/mvcc_manager.h, .cpp: `MVCCManager`; the steps of its concurrent calls are a
--                      relation in Mvcc.Threads
--   Snapshot           src/transaction/snapshot.h: `Snapshot`, `build_snapshot_chain`
--   LruCache           src/cache/lru_cache.h: `LRUCache`, with the nodes of its list and the iterators in its map
--   LockManager        src/lock/lock_manager.h, .cpp: `LockManager`, its guards and the order in which threads take
--                      and destroy them
--   ConnectionPool     src/db/connection_pool.h, .cpp: `ConnectionPool`; the life of its handles is a relation in
--                      ConnectionPool.Handles, and libpq's connections are a parameter, `Libpq`
--   PgClient           src/db/pg_client.h, .cpp: `PgClient`; Tables, Partitions and Snapshots hold its methods
--   CatalogManager     src/catalog/catalog_manager.h, .cpp: `CatalogManager`
--   SchemaStore        src/catalog/schema_store.h, .cpp: `SchemaStore`
--   PartitionRegistry  src/catalog/partition_registry.h, .cpp: `PartitionRegistry`
--   System             what the methods of the last three share: the locks, the pool, libpq's connections, the
--                      cache, the database and the transaction manager. The child Guarded of each of the three has
--                      its methods with their guards and connections, and the parent their calls in between;
--                      System.Implements relates the two
--   Server             src/server/metadata_server.h, .cpp: `MetadataServer`, with the messages of
--                      proto/metadata_service.proto as records; Tables, Partitions and Transactions hold its
--                      handlers, and Requests runs one request after another
--   Config             src/config/server_config.h: `ServerConfig`, with the environment as a function
--   Main               src/main.cpp: `main`, with the requests that come as an argument, and `cleanup_loop`
--
-- Under them stand modules for what the sources use of C++ and of libpq. Text is std::string as a list of bytes,
-- with std::to_string, std::stoll and std::stoi; UnorderedMap and UnorderedSet are the standard containers as lists;
-- Outcome is a value, an exception or undefined behaviour, and Session such an outcome with a state.
-- Blocking is such a session that may have to wait, and then gives nothing. Postgres is libpq and the server, a
-- parameter of all that uses it: a type of database states, and what a statement and a
-- command give in one. The SQL texts of the sources are the constructors of a data type, and the parameters are
-- the texts that the sources print. What the server does is a parameter too: Postgres.Transactions lists the laws
-- of BEGIN, COMMIT and ROLLBACK and of id columns that theorems assume, Postgres.Pointers those of the statements on a
-- table's current snapshot, Postgres.History those on partitions as far as older snapshots go, and `IsListing` of
-- Server.Paging that of the pages of a listing. Postgres.Tests has a server that obeys the first two, Postgres.Tests.Store
-- one that obeys the first and the third, and Server.Tests.Pages one that obeys the last.
--
-- Names are those of the sources; a field loses the underscore at its end. Unsigned words are natural numbers, and
-- wrap where the sources count; signed integers are integers, and a conversion between them is written out.
-- A sum of row counts or a schema version beyond its type is undefined behaviour (Signed). So is the lock of a table
-- taken by a thread that holds it, which a flag of the call says. What the sources leave unset has any value.
-- Methods that hold a mutex throughout are one step; those of MVCCManager that work on atomics are cut into their
-- atomic steps. Two loops run on a bound that is an argument: `build_snapshot_chain` on fuel, of which one more than
-- the identifier to start at is enough where parents are older, and `commit_transaction` on the number of weak
-- exchanges that fail. `try_acquire_exclusive` runs on the list of what its rounds read from the clock.
--
-- Not modelled: the handler of the signals and the set-up of gRPC in src/main.cpp; the code that gRPC generates; what
-- is printed; the floating-point hit rate of the cache; the meaning of the other SQL statements. The handlers run one
-- after another: several threads at once are modelled for the transaction manager, the lock manager and the pool, each
-- by itself.
pub mod Prelude
pub mod UnorderedMap
pub mod UnorderedSet
pub mod Text
pub mod Outcome
pub mod Session
pub mod Signed
pub mod Blocking
pub mod Postgres
pub mod Mvcc
pub mod Snapshot
pub mod LruCache
pub mod Main
pub mod LockManager
pub mod ConnectionPool
pub mod PgClient
pub mod CatalogManager
pub mod SchemaStore
pub mod PartitionRegistry
pub mod System
pub mod Config
pub mod Server
