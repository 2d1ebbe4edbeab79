-- ===== src/Config/Tests.antt =====
-- src/config/server_config.h in two environments, and the theorems at them.
use ice_log.Prelude.{◌-◌, ◌≡◌, refl, none, some, if◌then◌else◌, arith}
use ice_log.Prelude.Int.{pos}
use ice_log.Prelude.Words.{u64_mod}
use ice_log.Text.{codes, text_eq}
use ice_log.Text.Decimal.{
  to_string, to_digits, stoul, stoul_sign, stoul_digits, unsigned_of, skip_space, digits_value,
}
use ice_log.Outcome.{ok}
use ice_log.Config.{Environment, configured, setting, address, from_env}
use ice_log.Config.Settings.{from_env_lem, from_env_negative}

-- A pool of two connections, on another port.
abbrev small : Environment
small name =
    if text_eq name (codes "POOL_SIZE")
    then some (codes "2")
    else if text_eq name (codes "GRPC_PORT")
    then some (codes "50052")
    else none

-- A pool of minus one connections.
abbrev negative : Environment
negative name = if text_eq name (codes "POOL_SIZE") then some (codes "-1") else none

names : Unit {0}
unfolding text_eq to_string to_digits
names = tt

port :
    (from_env small ≡ ok (configured small 10000 2 (pos 300)))
    × ((configured small 10000 2 (pos 300)).grpc_address ≡ codes "0.0.0.0:50052")
unfolding names address from_env setting stoul stoul_sign stoul_digits unsigned_of skip_space
    digits_value
port = (refl, refl)

from_env_lem_example : from_env small ≡ ok (configured small 10000 2 (pos 300))
unfolding names address
from_env_lem_example = from_env_lem small none (some 2) none refl refl refl tt (omega arith) tt

wraps : from_env negative ≡ ok (configured negative 10000 (u64_mod - 1) (pos 300))
unfolding names from_env setting stoul stoul_sign stoul_digits unsigned_of skip_space digits_value
wraps = refl

from_env_negative_example :
    (configured negative 10000 (u64_mod - 1) (pos 300)).pool_size ≡ u64_mod - 1
unfolding names
from_env_negative_example =
    from_env_negative negative 1 (configured negative 10000 (u64_mod - 1) (pos 300)) refl
      (omega arith) (omega arith) wraps
