-- ===== src/Config.antt =====
-- internal/config/config.go. A duration is its count of nanoseconds. A problem is the message of one
-- `addf`, before it is printed.
pub mod Rules
pub mod Environment
mod Checks
mod Groups
pub mod Valid
use Prim.Native.String.{len}
use go_fiber_starter.Prelude.{
  ℕ, Bool, true, false, not, ◌&&◌, ◌||◌, List, [], ◌∷◌, ◌++◌, Result, ok, err, String, ltb, leb,
  if◌then◌else◌,
}
use go_fiber_starter.Prelude.Int.{ℤ, pos, ltb_ℤ, leb_ℤ}
use go_fiber_starter.Apperror.{GoError}
use go_fiber_starter.Net.{parses_ip, parses_cidr}
use go_fiber_starter.Lowercase.{lower_is}
use text.Mathlib.Text.{◌==◌}

abbrev pub env_local : String
env_local = "local"

abbrev pub env_dev : String
env_dev = "dev"

abbrev pub env_prod : String
env_prod = "prod"

abbrev pub db_driver_postgres : String
db_driver_postgres = "postgres"

abbrev pub db_driver_mysql : String
db_driver_mysql = "mysql"

abbrev pub db_driver_sqlite : String
db_driver_sqlite = "sqlite"

abbrev pub default_demo_username : String
default_demo_username = "admin"

abbrev pub default_demo_password : String
default_demo_password = "admin123"

pub record Config : Type 0 where
  pub app_name : String
  pub env : String
  pub port : ℤ
  pub log_level : String
  pub db_driver : String
  pub db_dsn : String
  pub db_max_open_conns : ℤ
  pub db_max_idle_conns : ℤ
  pub db_conn_max_lifetime : ℤ
  pub db_auto_migrate : Bool
  pub db_slow_query_threshold : ℤ
  pub cors_allowed_origins : List String
  pub rate_limit_per_minute : ℤ
  pub auth_rate_limit_per_minute : ℤ
  pub trust_proxy : Bool
  pub trust_proxy_proxies : List String
  pub trust_proxy_header : String
  pub read_timeout : ℤ
  pub write_timeout : ℤ
  pub idle_timeout : ℤ
  pub shutdown_grace_period : ℤ
  pub auth_enabled : Bool
  pub auth_jwt_secret : String
  pub auth_token_ttl : ℤ
  pub auth_demo_username : String
  pub auth_demo_password : String
  pub build_commit : String

pub data Problem : Type 0 where
  empty_app_name : Problem
  port_out_of_range : ℤ → Problem
  unknown_env : String → Problem
  unknown_log_level : String → Problem
  unknown_db_driver : String → Problem
  empty_db_dsn : Problem
  sqlite_in_prod : Problem
  max_open_conns : ℤ → Problem
  max_idle_conns : ℤ → Problem
  rate_limit : ℤ → Problem
  any_origin_in_prod : Problem
  auth_rate_limit : ℤ → Problem
  auth_rate_limit_above : ℤ → ℤ → Problem
  no_trusted_proxies : Problem
  invalid_proxy : String → Problem
  empty_proxy_header : Problem
  ineffective_proxies : Problem
  short_jwt_secret : ℕ → Problem
  token_ttl : ℤ → Problem
  default_credentials_in_prod : Problem
  timeout : (name : String) → ℤ → Problem

unfoldable pub is_prod : Config → Bool
is_prod c = c.env == env_prod

unfoldable pub is_valid_port : ℤ → Bool
is_valid_port p = leb_ℤ (pos 1024) p && leb_ℤ p (pos 65535)

abbrev pub when : Bool → Problem → List Problem
when true p = p ∷ []
when false p = []

-- The problems of a row of checks: a check is a test for a problem, with the problem.
unfoldable pub found : List (Bool × Problem) → List Problem
found [] = []
found ((b, p) ∷ checks) = when b p ++ found checks

abbrev pub contains : String → List String → Bool
contains s [] = false
contains s (x ∷ xs) = x == s || contains s xs

abbrev pub is_none : List String → Bool
is_none [] = true
is_none (x ∷ xs) = false

-- The first four checks.
unfoldable pub base_checks : Config → List (Bool × Problem)
unfolding is_valid_port lower_is
base_checks c =
    (c.app_name == "", empty_app_name)
    ∷ (not (is_valid_port c.port), port_out_of_range c.port)
    ∷ (not (c.env == env_local || (c.env == env_dev || c.env == env_prod)), unknown_env c.env)
    ∷ (
      not (
          lower_is "debug" c.log_level
          || (lower_is "info" c.log_level
              || (lower_is "warn" c.log_level || lower_is "error" c.log_level))),
      unknown_log_level c.log_level,
    )
    ∷ []

unfoldable pub database_checks : Config → List (Bool × Problem)
database_checks c =
    (
      not (
          c.db_driver == db_driver_postgres
          || (c.db_driver == db_driver_mysql || c.db_driver == db_driver_sqlite)),
      unknown_db_driver c.db_driver,
    )
    ∷ (c.db_dsn == "", empty_db_dsn)
    ∷ (c.db_driver == db_driver_sqlite && c.env == env_prod, sqlite_in_prod)
    ∷ (ltb_ℤ c.db_max_open_conns (pos 1), max_open_conns c.db_max_open_conns)
    ∷ (
      ltb_ℤ c.db_max_idle_conns (pos 0) || ltb_ℤ c.db_max_open_conns c.db_max_idle_conns,
      max_idle_conns c.db_max_idle_conns,
    )
    ∷ []

unfoldable pub limit_checks : Config → List (Bool × Problem)
unfolding is_prod
limit_checks c =
    (ltb_ℤ c.rate_limit_per_minute (pos 1), rate_limit c.rate_limit_per_minute)
    ∷ (is_prod c && contains "*" c.cors_allowed_origins, any_origin_in_prod)
    ∷ (ltb_ℤ c.auth_rate_limit_per_minute (pos 1), auth_rate_limit c.auth_rate_limit_per_minute)
    ∷ (
      ltb_ℤ c.rate_limit_per_minute c.auth_rate_limit_per_minute,
      auth_rate_limit_above c.auth_rate_limit_per_minute c.rate_limit_per_minute,
    )
    ∷ []

-- The loop over the entries of the allowlist.
unfoldable pub entry_checks : List String → List (Bool × Problem)
unfolding parses_ip parses_cidr
entry_checks [] = []
entry_checks (p ∷ ps) =
    (not (parses_ip p) && not (parses_cidr p), invalid_proxy p) ∷ entry_checks ps

unfoldable pub proxy_checks : Config → List (Bool × Problem)
unfolding entry_checks
proxy_checks c =
    (c.trust_proxy && is_none c.trust_proxy_proxies, no_trusted_proxies)
      ∷ entry_checks c.trust_proxy_proxies
    ++ (c.trust_proxy && c.trust_proxy_header == "", empty_proxy_header)
      ∷ (not c.trust_proxy && not (is_none c.trust_proxy_proxies), ineffective_proxies)
      ∷ []

unfoldable pub enabled_checks : Config → List (Bool × Problem)
enabled_checks c =
    (ltb (len c.auth_jwt_secret) 32, short_jwt_secret (len c.auth_jwt_secret))
    ∷ (leb_ℤ c.auth_token_ttl (pos 0), token_ttl c.auth_token_ttl)
    ∷ (
      c.env == env_prod
          && (c.auth_demo_username == default_demo_username
              || c.auth_demo_password == default_demo_password),
      default_credentials_in_prod,
    )
    ∷ []

unfoldable pub auth_checks : Config → List (Bool × Problem)
unfolding enabled_checks
auth_checks c = if c.auth_enabled then enabled_checks c else []

-- The loop over the names and values of the timeouts.
unfoldable pub timeout_checks : List (String × ℤ) → List (Bool × Problem)
timeout_checks [] = []
timeout_checks ((name, d) ∷ ds) = (leb_ℤ d (pos 0), timeout name d) ∷ timeout_checks ds

abbrev pub timeouts : Config → List (String × ℤ)
timeouts c =
    ("HTTP_READ_TIMEOUT", c.read_timeout)
    ∷ ("HTTP_WRITE_TIMEOUT", c.write_timeout)
    ∷ ("HTTP_IDLE_TIMEOUT", c.idle_timeout)
    ∷ ("SHUTDOWN_GRACE_PERIOD", c.shutdown_grace_period)
    ∷ []

-- All problems, in the order in which `Validate` finds them.
unfoldable pub problems : Config → List Problem
unfolding found base_checks database_checks limit_checks proxy_checks auth_checks timeout_checks
problems c = found (
    base_checks c
    ++ database_checks c
    ++ limit_checks c
    ++ proxy_checks c
    ++ auth_checks c
    ++ timeout_checks (timeouts c))

abbrev pub report : List Problem → Result (List Problem) (Unit {0})
report [] = ok tt
report (p ∷ ps) = err (p ∷ ps)

unfoldable pub validate : Config → Result (List Problem) (Unit {0})
unfolding problems
validate c = report (problems c)

pub data LoadError : Type 0 where
  parse_env : GoError → LoadError
  invalid_configuration : List Problem → LoadError

abbrev pub checked : Config → Result (List Problem) (Unit {0}) → Result LoadError Config
checked c (ok u) = ok c
checked c (err ps) = err (invalid_configuration ps)

-- `parsed` is what the library env makes of the environment.
unfoldable pub load : (parsed : Result GoError Config) → Result LoadError Config
unfolding validate
load (ok c) = checked c (validate c)
load (err e) = err (parse_env e)
