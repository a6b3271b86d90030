-- ===== src/Router/Settings.antt =====
-- What `New` of internal/router/router.go hands to the framework, and what it logs.
use go_fiber_starter.Prelude.{ℕ, ◌^◌, Bool, List, [], ◌∷◌, String, if◌then◌else◌}
use go_fiber_starter.Prelude.Int.{ℤ}
use go_fiber_starter.Config.{Config}
use go_fiber_starter.Log
use go_fiber_starter.Log.{Entry, info, integer}

abbrev pub body_limit : ℕ
body_limit = 2 ^ 20

-- The fields of `fiber.Config` that have values, and those of the middleware CORS.
pub record Settings : Type 0 where
  pub app_name : String
  pub body_limit : ℕ
  pub read_timeout : ℤ
  pub write_timeout : ℤ
  pub idle_timeout : ℤ
  pub trust_proxy : Bool
  pub proxies : List String
  pub proxy_header : String
  pub allow_origins : List String

unfoldable pub settings : Config → Settings
settings cfg = record {
  app_name = cfg.app_name;
  body_limit = body_limit;
  read_timeout = cfg.read_timeout;
  write_timeout = cfg.write_timeout;
  idle_timeout = cfg.idle_timeout;
  trust_proxy = cfg.trust_proxy;
  proxies = cfg.trust_proxy_proxies;
  proxy_header = cfg.trust_proxy_header;
  allow_origins = cfg.cors_allowed_origins;
}

unfoldable pub new_entries : Config → List Entry
new_entries cfg =
    if cfg.auth_enabled
    then record {
      level = info;
      message = "auth enabled";
      attrs =
          ("protected", Log.text "/api/v1/tasks")
          ∷ ("login_rate_limit_per_minute", integer cfg.auth_rate_limit_per_minute)
          ∷ [];
    }
      ∷ []
    else []
