-- ===== src/Tests/Environment.antt =====
-- The theorem on the environment, at a service in production with what it has to set.
use go_fiber_starter.Prelude.{
  ℕ, ◌≡◌, ◌⊎◌, refl, inl, false, Option, none, some, List, [], ◌∷◌, ok, String, All, All-append,
  All-map, take, drop, arith, if◌then◌else◌,
}
use go_fiber_starter.Prelude.Int.{ℤ, pos}
use go_fiber_starter.Prelude.Text.{digits_value}
use go_fiber_starter.Apperror.{GoError}
use go_fiber_starter.Config.{Config, validate}
use go_fiber_starter.Config.Environment.{
  Environment, Env, IsEnv, Reads, IsRead, default_text, Holds, Variable, variables,
  load_environment,
}
use go_fiber_starter.Database.{auto_migrate_if_needed, forbidden}
use go_fiber_starter.Database.Explicit.{IsGiven, load_environment-IsGiven}
use package.text.Mathlib.Text.{◌==◌}

-- A library that takes an empty variable for a value, and reads decimal numbers, lists of one word
-- and any duration as a second.
abbrev word_of : Option String → String → String
word_of none default = default
word_of (some value) default = value

abbrev number_or_zero : Option ℕ → ℤ
number_or_zero none = pos 0
number_or_zero (some n) = pos n

abbrev to_int : String → ℤ
unfolding digits_value
to_int word = number_or_zero (digits_value 0 word)

abbrev to_texts : String → List String
to_texts word = if word == "" then [] else word ∷ []

abbrev second : ℤ
second = pos 1000000000

abbrev parsed_config : Environment → Config
parsed_config e = record {
  app_name = word_of (e "APP_NAME") "go-fiber-starter";
  env = word_of (e "APP_ENV") "local";
  port = to_int (word_of (e "APP_PORT") "8080");
  log_level = word_of (e "LOG_LEVEL") "info";
  db_driver = word_of (e "DB_DRIVER") "sqlite";
  db_dsn = word_of (e "DB_DSN") "data/app.db";
  db_max_open_conns = to_int (word_of (e "DB_MAX_OPEN_CONNS") "25");
  db_max_idle_conns = to_int (word_of (e "DB_MAX_IDLE_CONNS") "5");
  db_conn_max_lifetime = second;
  db_auto_migrate = word_of (e "DB_AUTO_MIGRATE") "true" == "true";
  db_slow_query_threshold = second;
  cors_allowed_origins = to_texts (word_of (e "CORS_ALLOWED_ORIGINS") "*");
  rate_limit_per_minute = to_int (word_of (e "RATE_LIMIT_PER_MINUTE") "120");
  auth_rate_limit_per_minute = to_int (word_of (e "AUTH_RATE_LIMIT_PER_MINUTE") "10");
  trust_proxy = word_of (e "TRUST_PROXY") "false" == "true";
  trust_proxy_proxies = to_texts (word_of (e "TRUST_PROXY_PROXIES") "");
  trust_proxy_header = word_of (e "TRUST_PROXY_HEADER") "X-Forwarded-For";
  read_timeout = second;
  write_timeout = second;
  idle_timeout = second;
  shutdown_grace_period = second;
  auth_enabled = word_of (e "AUTH_ENABLED") "false" == "true";
  auth_jwt_secret = word_of (e "AUTH_JWT_SECRET") "";
  auth_token_ttl = second;
  auth_demo_username = word_of (e "AUTH_DEMO_USERNAME") "admin";
  auth_demo_password = word_of (e "AUTH_DEMO_PASSWORD") "admin123";
  build_commit = "";
}

abbrev env : Env
env = record {
  parse = λ e. ok (parsed_config e);
  parse_int = λ word. some (to_int word);
  parse_duration = λ word. some second;
  parse_bool = λ word. some (word == "true");
  split = λ word. word ∷ [];
}

word_of-Reads : (o default : Option String) → Reads o default (word_of o (default_text default))
word_of-Reads none default = refl
word_of-Reads (some value) default = inl refl

module _ (e : Environment) where
  abbrev IsHeld : Variable → Type 0
  IsHeld v = Holds env (parsed_config e) v.kind (word_of (e v.key) (default_text v.default))

  -- Seven fields at a time.
  fields-IsHeld : All IsHeld variables
  fields-IsHeld =
      All-append IsHeld (take 7 variables) (drop 7 variables)
        (refl, (refl, (refl, (refl, (refl, (refl, (refl, tt)))))))
        (All-append IsHeld (take 7 (drop 7 variables)) (drop 14 variables)
          (refl, (refl, (refl, (refl, (refl, (refl, (refl, tt)))))))
          (All-append IsHeld (take 7 (drop 14 variables)) (drop 21 variables)
            (refl, (refl, (refl, (refl, (refl, (refl, (refl, tt)))))))
            (refl, (refl, (refl, (refl, (refl, tt)))))))

  held-IsRead : (v : Variable) → IsHeld v → IsRead env e (parsed_config e) v
  held-IsRead v h = (_, word_of-Reads (e v.key) v.default, h)

  fields-IsRead : All (IsRead env e (parsed_config e)) variables
  fields-IsRead =
      All-map IsHeld (IsRead env e (parsed_config e)) held-IsRead variables fields-IsHeld

env-IsEnv : IsEnv env
env-IsEnv = record {
  parsed = λ e c read. (let same : parsed_config e ≡ c = cc in rw (← same) (fields-IsRead e));
  one_word = refl;
  true_word = refl;
}

-- The variables of a service in production with authentication.
abbrev lookup : List (String × String) → Environment
lookup [] key = none
lookup ((k, v) ∷ rest) key = if k == key then some v else lookup rest key

abbrev process : Environment
process = lookup (
    ("APP_ENV", "prod")
    ∷ ("DB_DRIVER", "postgres")
    ∷ ("DB_DSN", "postgres://db/tasks")
    ∷ ("CORS_ALLOWED_ORIGINS", "https://tasks.example")
    ∷ ("AUTH_ENABLED", "true")
    ∷ ("AUTH_JWT_SECRET", "0123456789abcdef0123456789abcdef")
    ∷ ("AUTH_DEMO_USERNAME", "ada")
    ∷ ("AUTH_DEMO_PASSWORD", "a long password")
    ∷ [])

process_loaded : load_environment env process ≡ ok (parsed_config process)
unfolding load_environment validate digits_value
process_loaded = refl

abbrev migrate_nothing : ℕ → ℕ → Option GoError × ℕ
migrate_nothing models db = (none, db)

load_environment-IsGiven_example :
    IsGiven process "DB_DRIVER"
    × IsGiven process "CORS_ALLOWED_ORIGINS"
    × (((parsed_config process).auth_enabled ≡ false)
        ⊎ (IsGiven process "AUTH_JWT_SECRET"
            × IsGiven process "AUTH_DEMO_USERNAME"
            × IsGiven process "AUTH_DEMO_PASSWORD"))
    × (IsGiven process "DB_AUTO_MIGRATE"
        ⊎ ((auto_migrate_if_needed migrate_nothing (parsed_config process) 1 0 []).0
            ≡ some (forbidden "postgres")))
load_environment-IsGiven_example =
    load_environment-IsGiven env process (parsed_config process) migrate_nothing 1 0 [] env-IsEnv
      process_loaded refl (omega arith)
