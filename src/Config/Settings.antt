-- ===== src/Config/Settings.antt =====
-- src/config/server_config.h: which settings `from_env` reads.
use ice_log.Prelude.{ℕ, ◌-◌, ◌<◌, ◌≡◌, refl, ap, ◌∙◌, ◌∷◌, ◌++◌, Option, none, some, arith}
use ice_log.Prelude.Int.{ℤ, pos}
use ice_log.Prelude.Words.{u64_mod, i32_bound}
use ice_log.Text.{Text, codes}
use ice_log.Text.Decimal.{to_string, to_string_signed, stoul, stoi}
use ice_log.Text.RoundTrip.{InRange, stoul-to_string, stoi-to_string, stoul-minus}
use ice_log.Outcome.{Outcome, ok, thrown, undefined, ◌>>=◌}
use ice_log.Config.{
  ServerConfig, default_config, value_or, address, Environment, setting, configured, from_env,
}

-- A number that a variable may hold, printed, and within a bound.
abbrev pub printed {ℓ} : {A : Type ℓ} → (A → Text) → Option A → Option Text
printed print none = none
printed print (some a) = some (print a)

abbrev pub given {ℓ} : {A : Type ℓ} → Option A → A → A
given none otherwise = otherwise
given (some a) otherwise = a

abbrev pub Fits {ℓ} : {A : Type ℓ} → (A → Type 0) → Option A → Type 0
Fits holds none = Unit
Fits holds (some a) = holds a

setting-printed :
    {A : Type 0} (holds : A → Type 0) (print : A → Text) (read : Text → Outcome A)
    → ((a : A) → holds a → read (print a) ≡ ok a)
    → (a : Option A) (otherwise : A) → Fits holds a
    → setting (printed print a) otherwise read ≡ ok (given a otherwise)
unfolding setting
setting-printed holds print read back none otherwise h = refl
setting-printed holds print read back (some a) otherwise h = back a h

setting_set : (v : Text) (otherwise : ℕ) → setting (some v) otherwise stoul ≡ stoul v
unfolding setting
setting_set v otherwise = refl

-- Where the server listens.
abbrev pub listening : Option Text → Option Text → Text
listening (some port) other = codes "0.0.0.0:" ++ port
listening none (some other) = other
listening none none = codes "0.0.0.0:50051"

listening-address :
    (port other : Option Text) → address port other (codes "0.0.0.0:50051") ≡ listening port other
unfolding address
listening-address (some port) other = refl
listening-address none (some other) = refl
listening-address none none = refl

value_or-given : (v : Option Text) (otherwise : Text) → value_or v otherwise ≡ given v otherwise
value_or-given none otherwise = refl
value_or-given (some v) otherwise = refl

-- Where each of CACHE_CAPACITY, POOL_SIZE and TXN_TIMEOUT_SEC is unset or a printed number that its type holds,
-- from_env gives a configuration with these numbers, and with 10000, 20 and 300 for what is unset. The server listens
-- on the port GRPC_PORT of all addresses; without it at GRPC_ADDRESS; and without both on port 50051. The connection
-- string is PG_CONN_STRING, or else one for the local database.
pub from_env_lem :
    (getenv : Environment) (cache pool : Option ℕ) (timeout : Option ℤ)
    → getenv (codes "CACHE_CAPACITY") ≡ printed to_string cache
    → getenv (codes "POOL_SIZE") ≡ printed to_string pool
    → getenv (codes "TXN_TIMEOUT_SEC") ≡ printed to_string_signed timeout
    → Fits (λ n. n < u64_mod) cache
    → Fits (λ n. n < u64_mod) pool
    → Fits (InRange i32_bound) timeout
    → from_env getenv
      ≡ ok (record {
        pg_conn_string = given (getenv (codes "PG_CONN_STRING")) (
            codes
              "host=localhost port=5432 dbname=metadata user=metadata_user password=metadata_pass");
        grpc_address = listening (getenv (codes "GRPC_PORT")) (getenv (codes "GRPC_ADDRESS"));
        cache_capacity = given cache 10000;
        pool_size = given pool 20;
        txn_timeout_s = given timeout (pos 300);
      })
unfolding from_env
from_env_lem getenv cache pool timeout ec ep et hc hp ht =
    let read_cache =
      setting-printed (λ n. n < u64_mod) to_string stoul stoul-to_string cache 10000 hc in
    let read_pool = setting-printed (λ n. n < u64_mod) to_string stoul stoul-to_string pool 20 hp in
    let read_timeout =
      setting-printed (InRange i32_bound) to_string_signed stoi stoi-to_string timeout
        default_config.txn_timeout_s ht in
    let read : from_env getenv
        ≡ ok (configured getenv (given cache 10000) (given pool 20) (given timeout (pos 300))) =
      rw (ec, ep, et, read_cache, read_pool, read_timeout) refl in
    read ∙ (λ i. ok (record {
      pg_conn_string =
          value_or-given (getenv (codes "PG_CONN_STRING")) default_config.pg_conn_string i;
      grpc_address =
          listening-address (getenv (codes "GRPC_PORT")) (getenv (codes "GRPC_ADDRESS")) i;
      cache_capacity = given cache 10000;
      pool_size = given pool 20;
      txn_timeout_s = given timeout (pos 300);
    }))

pool_size-taken :
    (getenv : Environment) (cache pool : Outcome ℕ) (timeout : Outcome ℤ) (config : ServerConfig)
    {n : ℕ}
    → pool ≡ ok n
    → (cache >>= λ c. pool >>= λ p. timeout >>= λ t. ok (configured getenv c p t)) ≡ ok config
    → config.pool_size ≡ n
pool_size-taken getenv (ok c) (ok p) (ok t) config e read = ground (arith, e, read)
pool_size-taken getenv (ok c) (ok p) (thrown x) config e read = cc
pool_size-taken getenv (ok c) (ok p) undefined config e read = cc
pool_size-taken getenv (ok c) (thrown x) timeout config e read = cc
pool_size-taken getenv (ok c) undefined timeout config e read = cc
pool_size-taken getenv (thrown x) pool timeout config e read = cc
pool_size-taken getenv undefined pool timeout config e read = cc

-- A negative size is taken: whatever else is set, a configuration read with POOL_SIZE a minus and a number from 1
-- to 2^64 - 1 has 2^64 less that number as the size of its pool.
pub from_env_negative :
    (getenv : Environment) (n : ℕ) (config : ServerConfig)
    → getenv (codes "POOL_SIZE") ≡ some (b'-' ∷ to_string n)
    → 0 < n
    → n < u64_mod
    → from_env getenv ≡ ok config
    → config.pool_size ≡ u64_mod - n
unfolding from_env
from_env_negative getenv n config e positive bound read =
    let negated =
      ap (λ v. setting v default_config.pool_size stoul) e
      ∙ setting_set (b'-' ∷ to_string n) default_config.pool_size
      ∙ stoul-minus n bound in
    let taken =
      pool_size-taken getenv
        (setting (getenv (codes "CACHE_CAPACITY")) default_config.cache_capacity stoul)
        (setting (getenv (codes "POOL_SIZE")) default_config.pool_size stoul)
        (setting (getenv (codes "TXN_TIMEOUT_SEC")) default_config.txn_timeout_s stoi) config
        negated read in
    omega (arith, taken, positive, bound)
