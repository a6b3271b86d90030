-- ===== src/Config/Environment.antt =====
-- The environment variables of the struct `Config` in internal/config/config.go, by its tags.
use go_fiber_starter.Prelude.{
  ◌≡◌, ◌⊎◌, Bool, true, Option, none, some, List, [], ◌∷◌, Result, ok, String, All, if◌then◌else◌,
}
use go_fiber_starter.Prelude.Int.{ℤ}
use go_fiber_starter.Apperror.{GoError}
use go_fiber_starter.Config.{Config, LoadError, load}
use package.text.Mathlib.Text.{◌==◌}

-- The type of a field, with the field. A duration is read with its unit.
pub data Kind : Type 0 where
  text : (Config → String) → Kind
  int duration : (Config → ℤ) → Kind
  flag : (Config → Bool) → Kind
  -- the separator is a comma
  texts : (Config → List String) → Kind

-- The tags `env` and `envDefault` of a field.
pub record Variable : Type 0 where
  pub key : String
  pub default : Option String
  pub kind : Kind

abbrev pub var : String → Option String → Kind → Variable
var key default kind = record { key = key; default = default; kind = kind }

-- The fields of the struct, in its order. The last one, BuildCommit, has no variable.
abbrev pub variables : List Variable
variables =
    var "APP_NAME" (some "go-fiber-starter") (text (λ c. c.app_name))
    ∷ var "APP_ENV" (some "local") (text (λ c. c.env))
    ∷ var "APP_PORT" (some "8080") (int (λ c. c.port))
    ∷ var "LOG_LEVEL" (some "info") (text (λ c. c.log_level))
    ∷ var "DB_DRIVER" (some "sqlite") (text (λ c. c.db_driver))
    ∷ var "DB_DSN" (some "data/app.db") (text (λ c. c.db_dsn))
    ∷ var "DB_MAX_OPEN_CONNS" (some "25") (int (λ c. c.db_max_open_conns))
    ∷ var "DB_MAX_IDLE_CONNS" (some "5") (int (λ c. c.db_max_idle_conns))
    ∷ var "DB_CONN_MAX_LIFETIME" (some "30m") (duration (λ c. c.db_conn_max_lifetime))
    ∷ var "DB_AUTO_MIGRATE" (some "true") (flag (λ c. c.db_auto_migrate))
    ∷ var "DB_SLOW_QUERY_THRESHOLD" (some "500ms") (duration (λ c. c.db_slow_query_threshold))
    ∷ var "CORS_ALLOWED_ORIGINS" (some "*") (texts (λ c. c.cors_allowed_origins))
    ∷ var "RATE_LIMIT_PER_MINUTE" (some "120") (int (λ c. c.rate_limit_per_minute))
    ∷ var "AUTH_RATE_LIMIT_PER_MINUTE" (some "10") (int (λ c. c.auth_rate_limit_per_minute))
    ∷ var "TRUST_PROXY" (some "false") (flag (λ c. c.trust_proxy))
    ∷ var "TRUST_PROXY_PROXIES" none (texts (λ c. c.trust_proxy_proxies))
    ∷ var "TRUST_PROXY_HEADER" (some "X-Forwarded-For") (text (λ c. c.trust_proxy_header))
    ∷ var "HTTP_READ_TIMEOUT" (some "15s") (duration (λ c. c.read_timeout))
    ∷ var "HTTP_WRITE_TIMEOUT" (some "15s") (duration (λ c. c.write_timeout))
    ∷ var "HTTP_IDLE_TIMEOUT" (some "60s") (duration (λ c. c.idle_timeout))
    ∷ var "SHUTDOWN_GRACE_PERIOD" (some "10s") (duration (λ c. c.shutdown_grace_period))
    ∷ var "AUTH_ENABLED" (some "false") (flag (λ c. c.auth_enabled))
    ∷ var "AUTH_JWT_SECRET" none (text (λ c. c.auth_jwt_secret))
    ∷ var "AUTH_TOKEN_TTL" (some "1h") (duration (λ c. c.auth_token_ttl))
    ∷ var "AUTH_DEMO_USERNAME" (some "admin") (text (λ c. c.auth_demo_username))
    ∷ var "AUTH_DEMO_PASSWORD" (some "admin123") (text (λ c. c.auth_demo_password))
    ∷ []

-- The variables of the process, after the file .env if there is one.
abbrev pub Environment : Type 0
Environment = String → Option String

-- The library env, and the parsers of Go's standard library that it calls.
pub record Env : Type 0 where
  pub parse : Environment → Result GoError Config
  pub parse_int : String → Option ℤ
  pub parse_duration : String → Option ℤ
  pub parse_bool : String → Option Bool
  -- strings.Split with a comma
  pub split : String → List String

unfoldable pub load_environment : Env → Environment → Result LoadError Config
unfolding load
load_environment env e = load (env.parse e)

abbrev pub default_text : Option String → String
default_text none = ""
default_text (some word) = word

-- The text from which a field is read: that of the variable, or the default if it is not set. Of a
-- variable that is empty, no more is said than that it is one of the two.
abbrev pub Reads : Option String → Option String → String → Type 0
Reads none default word = word ≡ default_text default
Reads (some value) default word = (word ≡ value) ⊎ ((value ≡ "") × (word ≡ default_text default))

-- The field is what its parser makes of a text. A list that is not set is empty.
abbrev pub Holds : Env → Config → Kind → String → Type 0
Holds env c (text get) word = get c ≡ word
Holds env c (int get) word = env.parse_int word ≡ some (get c)
Holds env c (duration get) word = env.parse_duration word ≡ some (get c)
Holds env c (flag get) word = env.parse_bool word ≡ some (get c)
Holds env c (texts get) word = get c ≡ (if word == "" then [] else env.split word)

-- The field of a variable is read from the environment.
abbrev pub IsRead : Env → Environment → Config → Variable → Type 0
IsRead env e c v = (word : String) × Reads (e v.key) v.default word × Holds env c v.kind word

-- What the documentation of the library says of a struct with these tags.
pub record IsEnv (env : Env) : Type 0 where
  pub parsed : (e : Environment) (c : Config) → env.parse e ≡ ok c → All (IsRead env e c) variables
  pub one_word : env.split "*" ≡ "*" ∷ []
  pub true_word : env.parse_bool "true" ≡ some true
