-- ===== src/Main/Start.antt =====
-- src/main.cpp: the server that `main` starts, from the constructors in src/server/metadata_server.h on.
use ice_log.Prelude.{◌⊎◌, Option, ℕ, ◌≡◌, List, some, true, All, length}
use ice_log.Outcome.{Outcome, ok, undefined, is_defined}
use ice_log.Postgres.{Postgres}
use ice_log.ConnectionPool.{Libpq, fill}
use ice_log.ConnectionPool
use ice_log.ConnectionPool.Capacity.{IsUp}
use ice_log.Server
use ice_log.Server.Requests.{Request, Response}
use ice_log.Server.Idle.{some_add}
use ice_log.System.{System}

module _ (pg : Postgres) (pq : Libpq) (up : IsUp pq) where
  -- What becomes of the requests: the exit code 0 and an outcome for each of them; or undefined behaviour, and then one
  -- of them has a sum.
  abbrev pub Runs : List Request → Option (Outcome (ℕ × List (Outcome Response))) → Type 0
  Runs reqs r =
      ((os : List (Outcome Response)) × (r ≡ some (ok (0, os)))
        × (length os ≡ length reqs)
        × All (λ o. is_defined o ≡ true) os)
      ⊎ ((r ≡ some undefined) × (some_add reqs ≡ true))
