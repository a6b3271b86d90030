-- ===== src/Config/Rules.antt =====
-- The rules of a configuration, by the groups in which `Validate` of internal/config/config.go
-- checks them.
use Prim.Native.String.{len}
use go_fiber_starter.Prelude.{◌≤◌, ◌≡◌, ◌≢◌, ◌⊎◌, true, false, [], String, All}
use go_fiber_starter.Prelude.Int.{pos, ◌≤ℤ◌}
use go_fiber_starter.Net.{codes, parses_ip, parses_cidr}
use go_fiber_starter.Lowercase.{lower_codes}
use go_fiber_starter.Config.{
  Config, env_local, env_dev, env_prod, db_driver_postgres, db_driver_mysql, db_driver_sqlite,
  default_demo_username, default_demo_password,
}

pub record IsBase (c : Config) : Type 0 where
  pub app_name : c.app_name ≢ ""
  pub port : (pos 1024 ≤ℤ c.port) × (c.port ≤ℤ pos 65535)
  pub env : (c.env ≡ env_local) ⊎ (c.env ≡ env_dev) ⊎ (c.env ≡ env_prod)
  -- the level in any mix of capitals and small letters
  pub log_level :
      (lower_codes c.log_level ≡ codes "debug")
      ⊎ (lower_codes c.log_level ≡ codes "info")
      ⊎ (lower_codes c.log_level ≡ codes "warn")
      ⊎ (lower_codes c.log_level ≡ codes "error")

pub record IsDatabase (c : Config) : Type 0 where
  pub db_driver :
      (c.db_driver ≡ db_driver_postgres)
      ⊎ (c.db_driver ≡ db_driver_mysql)
      ⊎ (c.db_driver ≡ db_driver_sqlite)
  pub db_dsn : c.db_dsn ≢ ""
  pub no_sqlite_in_prod : (c.db_driver ≢ db_driver_sqlite) ⊎ (c.env ≢ env_prod)
  pub open_conns : pos 1 ≤ℤ c.db_max_open_conns
  pub idle_conns : (pos 0 ≤ℤ c.db_max_idle_conns) × (c.db_max_idle_conns ≤ℤ c.db_max_open_conns)

pub record IsLimited (c : Config) : Type 0 where
  pub rate : pos 1 ≤ℤ c.rate_limit_per_minute
  pub origins : (c.env ≢ env_prod) ⊎ All (λ o. o ≢ "*") c.cors_allowed_origins
  pub auth_rate : pos 1 ≤ℤ c.auth_rate_limit_per_minute
  pub auth_rate_below : c.auth_rate_limit_per_minute ≤ℤ c.rate_limit_per_minute

abbrev pub IsAddress : String → Type 0
IsAddress p = (parses_ip p ≡ true) ⊎ (parses_cidr p ≡ true)

-- The allowlist is given exactly if the proxy is trusted, and holds addresses and networks.
pub record IsProxied (c : Config) : Type 0 where
  pub proxies :
      ((c.trust_proxy ≡ true) × (c.trust_proxy_proxies ≢ []) × (c.trust_proxy_header ≢ ""))
      ⊎ ((c.trust_proxy ≡ false) × (c.trust_proxy_proxies ≡ []))
  pub addresses : All IsAddress c.trust_proxy_proxies

pub record IsEnabled (c : Config) : Type 0 where
  pub secret : 32 ≤ len c.auth_jwt_secret
  pub ttl : pos 1 ≤ℤ c.auth_token_ttl
  pub credentials :
      (c.env ≢ env_prod)
      ⊎ ((c.auth_demo_username ≢ default_demo_username)
          × (c.auth_demo_password ≢ default_demo_password))

pub record IsTimed (c : Config) : Type 0 where
  pub read : pos 1 ≤ℤ c.read_timeout
  pub write : pos 1 ≤ℤ c.write_timeout
  pub idle : pos 1 ≤ℤ c.idle_timeout
  pub shutdown : pos 1 ≤ℤ c.shutdown_grace_period

pub record IsValid (c : Config) : Type 0 where
  pub base : IsBase c
  pub database : IsDatabase c
  pub limits : IsLimited c
  pub proxies : IsProxied c
  pub auth : (c.auth_enabled ≡ false) ⊎ IsEnabled c
  pub timed : IsTimed c
