-- ===== src/Tests/Settings.antt =====
-- The theorems on configurations, at the settings of a production service.
use go_fiber_starter.Prelude.{◌≡◌, ◌↔◌, refl, true, false, [], ◌∷◌, ok, err}
use go_fiber_starter.Prelude.Int.{pos, negsuc}
use go_fiber_starter.Config.{
  Config, validate, sqlite_in_prod, rate_limit, auth_rate_limit_above, invalid_proxy,
  short_jwt_secret, default_credentials_in_prod, timeout,
}
use go_fiber_starter.Config.Rules.{IsValid}
use go_fiber_starter.Config.Valid.{validate_iff}

abbrev pub production : Config
production = record {
  app_name = "tasks";
  env = "prod";
  port = pos 8080;
  log_level = "Info";
  db_driver = "postgres";
  db_dsn = "postgres://db/tasks";
  db_max_open_conns = pos 25;
  db_max_idle_conns = pos 5;
  db_conn_max_lifetime = pos 1800000000000;
  db_auto_migrate = false;
  db_slow_query_threshold = pos 500000000;
  cors_allowed_origins = "https://tasks.example" ∷ [];
  rate_limit_per_minute = pos 120;
  auth_rate_limit_per_minute = pos 10;
  trust_proxy = true;
  trust_proxy_proxies = "10.0.0.0/8" ∷ "::1" ∷ [];
  trust_proxy_header = "X-Forwarded-For";
  read_timeout = pos 15000000000;
  write_timeout = pos 15000000000;
  idle_timeout = pos 60000000000;
  shutdown_grace_period = pos 10000000000;
  auth_enabled = true;
  auth_jwt_secret = "0123456789abcdef0123456789abcdef";
  auth_token_ttl = pos 3600000000000;
  auth_demo_username = "ada";
  auth_demo_password = "a long password";
  build_commit = "";
}

production_valid : validate production ≡ ok tt
unfolding validate
production_valid = refl

pub production-IsValid : IsValid production
production-IsValid = (validate_iff production).0 production_valid

-- The problems of a bad configuration, in their order.
abbrev careless : Config
careless = record production {
  db_driver = "sqlite";
  rate_limit_per_minute = pos 0;
  trust_proxy_proxies = "10.0.0.0/8" ∷ "proxy" ∷ [];
  auth_jwt_secret = "secret";
  auth_demo_username = "admin";
  idle_timeout = negsuc 0;
}

careless_refused :
    validate careless
    ≡ err (
        sqlite_in_prod
        ∷ rate_limit (pos 0)
        ∷ auth_rate_limit_above (pos 10) (pos 0)
        ∷ invalid_proxy "proxy"
        ∷ short_jwt_secret 6
        ∷ default_credentials_in_prod
        ∷ timeout "HTTP_IDLE_TIMEOUT" (negsuc 0)
        ∷ [])
unfolding validate
careless_refused = refl

validate_iff_example : (validate production ≡ ok tt) ↔ IsValid production
validate_iff_example = validate_iff production
