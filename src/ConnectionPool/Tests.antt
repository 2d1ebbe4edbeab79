-- ===== src/ConnectionPool/Tests.antt =====
-- Runs of src/db/connection_pool.cpp on a small libpq, and the theorems at them.
use ice_log.Prelude.{
  ℕ, suc, ◌+◌, ◌≤◌, ◌≡◌, refl, [], ◌∷◌, some, true, ltb, ◌==◌, if◌then◌else◌, arith,
}
use ice_log.ConnectionPool.{
  Libpq, Handle, available, destroy, release, move, create_connection, validate_connection, fill,
  init, take_valid, acquire, no_handle,
}
use ice_log.ConnectionPool.Handles.{World, Step, Reach, held}
use ice_log.ConnectionPool.Capacity.{IsUp, start, Reach-bounded, Reach-conserved}

-- Connections are numbered as they are made. The first one breaks when the second one is made, for good.
abbrev flaky : Libpq
flaky = record {
  Conns = ℕ;
  connectdb = λ w. (w, suc w);
  status_ok = λ conn w. if conn == 0 then ltb w 2 else true;
  reset = λ conn w. w;
  finish = λ conn w. w;
}

flaky-IsUp : IsUp flaky
flaky-IsUp w = ground arith

-- A handle on the connection that has replaced the broken one.
abbrev lent : Handle
lent = record { conn = some 2; has_pool = true }

abbrev after_acquire : World ℕ
after_acquire = record {
  pool = record { pool_size = 2; available_connections = 1 ∷ [] };
  conns = 3;
  handles = lent ∷ [];
}

abbrev after_move : World ℕ
after_move = record {
  pool = record { pool_size = 2; available_connections = 1 ∷ [] };
  conns = 3;
  handles = lent ∷ no_handle ∷ [];
}

abbrev after_destroy : World ℕ
after_destroy = record {
  pool = record { pool_size = 2; available_connections = 1 ∷ 2 ∷ [] };
  conns = 3;
  handles = no_handle ∷ [];
}

program : Unit {0}
unfolding init fill create_connection acquire take_valid validate_connection move destroy release
program = tt

acquired : Step flaky (start flaky 2 0) after_acquire
unfolding program
acquired = Step.acquires lent refl refl

moved : Step flaky after_acquire after_move
unfolding program
moved = Step.moves [] [] lent refl refl refl

destroyed : Step flaky after_move after_destroy
unfolding program
destroyed = Step.destroys [] (no_handle ∷ []) lent refl refl refl

runs : Reach flaky (start flaky 2 0) after_destroy
runs = Reach.next (Reach.next (Reach.next Reach.here acquired) moved) destroyed

Reach-bounded_example : available after_destroy.pool + held after_destroy.handles ≤ 2
Reach-bounded_example = Reach-bounded flaky 2 0 runs

Reach-conserved_example : available after_destroy.pool + held after_destroy.handles ≡ 2
Reach-conserved_example = Reach-conserved flaky 2 0 flaky-IsUp runs
