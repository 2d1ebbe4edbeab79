-- ===== src/Main/Tests.antt =====
-- Runs of src/main.cpp on a small server, and the theorem at one.
use ice_log.Prelude.{◌≡◌, refl, List, [], ◌∷◌, none, some, false}
use ice_log.Text.{codes}
use ice_log.Outcome.{ok}
use ice_log.Postgres.Tests.{server}
use ice_log.Config.{Environment, setting, from_env}
use ice_log.System.Tests.{steady}
use ice_log.Server.Requests.{Request, get_partition_stats, abort_txn}
use ice_log.Main.{main, run_server}

abbrev unset : Environment
unset name = none

abbrev requests : List Request
requests = get_partition_stats (codes "a") ∷ abort_txn 1 ∷ []

not_built : main server steady 1 unset false requests (5, none) 0 ≡ some (ok (1, []))
unfolding main run_server from_env setting
not_built = refl
