-- ===== src/ConnectionPool.antt =====
-- src/db/connection_pool.h and connection_pool.cpp: `ConnectionPool` and its handles. Every method holds the pool's
-- mutex, so each is one function on the pool and on the state of libpq's connections. A call that would wait gives
-- `none` and changes nothing: it is made again when a connection has been released. What is printed is left out.
pub mod Handles
pub mod Capacity
mod Tests
use ice_log.Prelude.{
  ℕ, zero, suc, List, [], ◌∷◌, ◌++◌, Option, none, some, Bool, true, false, if◌then◌else◌, length,
}
use ice_log.Text.{codes}
use ice_log.Outcome.{Outcome, ok, thrown, runtime_error}

-- libpq's connections, which the sources only call: PQconnectdb, PQstatus(conn) == CONNECTION_OK, PQreset and
-- PQfinish. A connection is a number.
pub record Libpq : Type 1 where
  pub Conns : Type 0
  pub connectdb : Conns → ℕ × Conns
  pub status_ok : ℕ → Conns → Bool
  pub reset : ℕ → Conns → Conns
  pub finish : ℕ → Conns → Conns

-- The queue, its front first.
pub record Pool : Type 0 where
  pub pool_size : ℕ
  pub available_connections : List ℕ

-- `ConnectionHandle`: the connection, unless it is null, and whether the handle has a pool.
pub record Handle : Type 0 where
  pub conn : Option ℕ
  pub has_pool : Bool

abbrev pub no_handle : Handle
no_handle = record { conn = none; has_pool = false }

unfoldable pub release : Option ℕ → Pool → Pool
release none p = p
release (some conn) p = record p { available_connections = p.available_connections ++ conn ∷ [] }

unfoldable pub available : Pool → ℕ
available p = length p.available_connections

-- `if (conn_ && pool_) pool_->release(conn_)`
unfoldable pub destroy : Handle → Pool → Pool
destroy h p = if h.has_pool then release h.conn p else p

-- The moved-to handle, and what is left of the other.
unfoldable pub move : Handle → Handle × Handle
move other = (other, no_handle)

-- `*this = std::move(other)` where the two are different objects; where they are the same nothing happens.
unfoldable pub move_assign : Handle → Handle → Pool → Handle × Handle × Pool
move_assign this other p = (other, no_handle, destroy this p)

module _ (pq : Libpq) where
  open pq use {Conns}

  unfoldable pub create_connection : Conns → Option ℕ × Conns
  create_connection w =
      let (conn, w') = pq.connectdb w in
      if pq.status_ok conn w' then (some conn, w') else (none, pq.finish conn w')

  unfoldable pub validate_connection : ℕ → Conns → Bool × Conns
  validate_connection conn w =
      if pq.status_ok conn w
      then (true, w)
      else (pq.status_ok conn (pq.reset conn w), pq.reset conn w)

  -- The loop of the constructor.
  unfoldable pub fill : ℕ → List ℕ → Conns → List ℕ × Conns
  fill zero queue w = (queue, w)
  fill (suc n) queue w =
      let (created, w') = create_connection w in
      elim created [ none ↦ fill n queue w' | some conn ↦ fill n (queue ++ conn ∷ []) w' ]

  unfoldable pub init : ℕ → Conns → Pool × Conns
  init pool_size w =
      let (queue, w') = fill pool_size [] w in
      (record { pool_size = pool_size; available_connections = queue }, w')

  -- The front of the queue, or what replaces it; `none` is a null pointer.
  unfoldable pub take_valid : ℕ → Conns → Option ℕ × Conns
  take_valid conn w =
      let (valid, w') = validate_connection conn w in
      if valid then (some conn, w') else create_connection (pq.finish conn w')

  unfoldable pub acquire : Pool → Conns → Option (Outcome Handle × Pool × Conns)
  acquire p w = elim p.available_connections [
    | [] ↦ none
    | conn ∷ rest ↦
        let (taken, w') = take_valid conn w in
        some (
          (elim taken [
            | none ↦
                thrown
                  (runtime_error (codes "ConnectionPool: failed to create replacement connection"))
            | some c ↦ ok (record { conn = some c; has_pool = true })
          ]),
          record p { available_connections = rest },
          w',
        )
  ]

  -- With an empty queue this is the call whose time has run out; one that waits is made again.
  unfoldable pub acquire_with_timeout : Pool → Conns → Handle × Pool × Conns
  acquire_with_timeout p w = elim p.available_connections [
    | [] ↦ (no_handle, p, w)
    | conn ∷ rest ↦
        let (taken, w') = take_valid conn w in
        (record { conn = taken; has_pool = true }, record p { available_connections = rest }, w')
  ]
