-- ===== src/Main.antt =====
-- src/main.cpp: `cleanup_loop` and `main`. What is printed is left out, as are the set-up of gRPC's threads and the
-- handler of the signals, which makes the server stop.
pub mod Start
mod Tests
use ice_log.Prelude.{ℕ, List, [], ◌∷◌, Option, none, some, Bool, true, false}
use ice_log.Outcome.{Outcome, ok, thrown, undefined}
use ice_log.Postgres.{Postgres}
use ice_log.Mvcc.{MvccManager, cleanup_expired_transactions}
use ice_log.ConnectionPool.{Libpq}
use ice_log.Config.{Environment, from_env}
use ice_log.System.{System}
use ice_log.Server
use ice_log.Server.Requests.{Request, Response, serve}

-- The loop goes round as often as `running` is still set; the argument is what the clock reads after the sleep of
-- each round.
unfoldable pub cleanup_loop : List ℕ → MvccManager → MvccManager
cleanup_loop [] mvcc = mvcc
cleanup_loop (now ∷ rounds) mvcc = cleanup_loop rounds (cleanup_expired_transactions mvcc now).0

module _ (pg : Postgres) (pq : Libpq) where
  -- From `BuildAndStart` on, which may give no server. `Wait` returns once a signal has stopped the server, after the
  -- requests that came until then.
  unfoldable pub run_server :
      Bool → List Request → System pg pq → Option (Outcome (ℕ × List (Outcome Response)))
  run_server false reqs service = some (ok (1, []))
  run_server true reqs service = elim (serve pg pq reqs service) [
    | none ↦ none
    | some (ok os, after) ↦ some (ok (0, os))
    | some (thrown e, after) ↦ some (thrown e)
    | some (undefined, after) ↦ some undefined
  ]

  -- The exit code, with the outcomes of the requests; an exception from `from_env` ends the program.
  unfoldable pub main :
      (ticks_per_second : ℕ)
      → Environment
      → Bool
      → List Request
      → pg.Db
      → pq.Conns
      → Option (Outcome (ℕ × List (Outcome Response)))
  main ticks_per_second getenv built reqs db conns = elim (from_env getenv) [
    | ok config ↦ run_server built reqs (Server.init pg pq ticks_per_second config db conns)
    | thrown e ↦ some (thrown e)
    | undefined ↦ some undefined
  ]
