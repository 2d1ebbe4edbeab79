-- ===== src/Config.antt =====
-- src/config/server_config.h: `ServerConfig`, and what it reads from the environment.
pub mod Settings
mod Tests
use ice_log.Prelude.{ℕ, ◌++◌, Option, none, some}
use ice_log.Prelude.Int.{ℤ, pos}
use ice_log.Text.{Text, codes}
use ice_log.Text.Decimal.{stoi, stoul}
use ice_log.Outcome.{Outcome, ok, ◌>>=◌}

pub record ServerConfig : Type 0 where
  pub pg_conn_string : Text
  pub grpc_address : Text
  pub cache_capacity : ℕ
  pub pool_size : ℕ
  pub txn_timeout_s : ℤ

abbrev pub default_config : ServerConfig
default_config = record {
  pg_conn_string =
      codes "host=localhost port=5432 dbname=metadata user=metadata_user password=metadata_pass";
  grpc_address = codes "0.0.0.0:50051";
  cache_capacity = 10000;
  pool_size = 20;
  txn_timeout_s = pos 300;
}

-- A variable's value, if it is set.
abbrev pub Environment : Type 0
Environment = Text → Option Text

-- A setting that is read from a variable by a call that may throw.
unfoldable pub setting : {A : Type 0} → Option Text → A → (Text → Outcome A) → Outcome A
setting none otherwise read = ok otherwise
setting (some v) otherwise read = read v

abbrev pub value_or : Option Text → Text → Text
value_or none otherwise = otherwise
value_or (some v) otherwise = v

-- `GRPC_PORT`, or else `GRPC_ADDRESS`.
unfoldable pub address : Option Text → Option Text → Text → Text
address (some port) other otherwise = codes "0.0.0.0:" ++ port
address none other otherwise = value_or other otherwise

abbrev pub configured : Environment → ℕ → ℕ → ℤ → ServerConfig
configured getenv cache_capacity pool_size txn_timeout_s = record {
  pg_conn_string = value_or (getenv (codes "PG_CONN_STRING")) default_config.pg_conn_string;
  grpc_address =
      address (getenv (codes "GRPC_PORT")) (getenv (codes "GRPC_ADDRESS"))
        default_config.grpc_address;
  cache_capacity = cache_capacity;
  pool_size = pool_size;
  txn_timeout_s = txn_timeout_s;
}

unfoldable pub from_env : Environment → Outcome ServerConfig
from_env getenv = do
  cache_capacity ← setting (getenv (codes "CACHE_CAPACITY")) default_config.cache_capacity stoul
  pool_size ← setting (getenv (codes "POOL_SIZE")) default_config.pool_size stoul
  txn_timeout_s ← setting (getenv (codes "TXN_TIMEOUT_SEC")) default_config.txn_timeout_s stoi
  ok (configured getenv cache_capacity pool_size txn_timeout_s)
