-- ===== src/Api.antt =====
-- cmd/api/main.go: the command that runs the service.
pub mod Logging
pub mod Startup
pub mod Lifetime
use go_fiber_starter.Prelude.{
  ℕ, suc, Bool, Option, none, some, List, [], ◌∷◌, ◌++◌, Result, ok, err, String, leb,
  if◌then◌else◌,
}
use go_fiber_starter.Prelude.Int.{ℤ, pos, negsuc}
use go_fiber_starter.Prelude.Text.{◌<>◌, decimal}
use go_fiber_starter.Apperror.{GoError, errorf, error_text}
use go_fiber_starter.Fiber.{Request, Response, Handler}
use go_fiber_starter.Log
use go_fiber_starter.Log.{Level, debug, info, warn, error, Entry, integer}
use go_fiber_starter.World.{World}
use go_fiber_starter.Config.{Config, LoadError}
use go_fiber_starter.Lowercase.{lower_is}
use go_fiber_starter.Database.{auto_migrate_if_needed, Logger, new_logger}
use go_fiber_starter.Database.Connection
use go_fiber_starter.Database.Connection.{Platform, ping}
use go_fiber_starter.Payload.{Payload}
use go_fiber_starter.Task.Repository.{Repository}
use go_fiber_starter.Task.Handler.{Binder}
use go_fiber_starter.Auth.Service.{Jwt}
use go_fiber_starter.Auth.Handler.{Outside}
use go_fiber_starter.Router.Settings.{Settings, settings, new_entries}
use go_fiber_starter.Router.Chain.{Endpoint, Limiter, Parts, serve}

-- The level of newLogger.
unfoldable pub log_level : Config → Level
unfolding lower_is
log_level cfg =
    if lower_is "debug" cfg.log_level
    then debug
    else if lower_is "warn" cfg.log_level
    then warn
    else if lower_is "error" cfg.log_level
    then error
    else info

-- The order of the levels of log/slog.
abbrev pub rank : Level → ℕ
rank debug = 0
rank info = 1
rank warn = 2
rank error = 3

-- Whether a logger of the first level writes an entry of the second.
abbrev pub enabled : Level → Level → Bool
enabled least level = leb (rank least) (rank level)

-- The logger that the mapper gets.
unfoldable pub database_logger : Config → Logger
unfolding log_level new_logger
database_logger cfg = new_logger (enabled (log_level cfg) debug) cfg.db_slow_query_threshold

-- `main.commit`, which the build may set.
abbrev pub default_commit : String
default_commit = "dev"

abbrev pub starting : (commit : String) → Config → Entry
starting commit cfg = record {
  level = info;
  message = "starting";
  attrs =
      ("commit", Log.text commit)
      ∷ ("app", Log.text cfg.app_name)
      ∷ ("env", Log.text cfg.env)
      ∷ ("port", integer cfg.port)
      ∷ ("db_driver", Log.text cfg.db_driver)
      ∷ [];
}

-- The verb %d.
abbrev printed : ℤ → String
unfolding decimal
printed (pos n) = decimal n
printed (negsuc n) = "-" <> decimal (suc n)

unfoldable pub address : Config → String
unfolding decimal
address cfg = ":" <> printed cfg.port

abbrev pub listening : Config → Entry
unfolding address
listening cfg = record {
  level = info;
  message = "http server listening";
  attrs = ("addr", Log.text (address cfg)) ∷ [];
}

abbrev pub database_closed : Entry
database_closed = record { level = info; message = "database connections closed"; attrs = [] }

abbrev pub graceful : Entry
graceful = record { level = info; message = "shut down gracefully"; attrs = [] }

abbrev pub startup_failed : GoError → Entry
startup_failed e = record {
  level = error;
  message = "startup failed";
  attrs = ("error", Log.text (error_text e)) ∷ [];
}

-- What `router.New` returns.
pub record App (L P : Type 0) : Type 0 where
  pub settings : Settings
  pub serve : Endpoint → Request → World L P → Response Payload × World L P

-- What the command builds on. `P` is what the program changes outside of itself, the database
-- included, and `L` the state of a limiter.
pub record Host (L P D Q : Type 0) : Type 0 where
  pub platform : Platform P D Q
  -- the automatic migration of the mapper
  pub auto_migrate : D → (models : ℕ) → P → Option GoError × P
  -- task.NewRepository
  pub repo : D → Repository P
  pub limiter : Limiter L
  pub budgets : L
  pub elapsed : World L P → World L P → ℕ
  pub binder : Binder
  pub jwt : Jwt
  pub outside : Outside P
  pub metrics : Handler (World L P) Payload
  pub openapi_file : Result GoError String
  -- the method Listen of the framework, with the address and the grace period: it returns when the
  -- service is shut down
  pub listen : App L P → (addr : String) → (grace : ℤ) → World L P → Option GoError × World L P
  -- an error of config.Load, printed
  pub load_error : LoadError → GoError

-- The error or nil, what is left of the outside, and the log.
abbrev pub Outcome : Type 0 → Type 0
Outcome P = Option GoError × P × List Entry

module _ {L P D Q : Type 0} (host : Host L P D Q) (commit : String) where
  -- pingDB of internal/router/wiring.go
  unfoldable pub ping_db : D → P → Result GoError (Unit {0})
  unfolding ping
  ping_db d p = ping host.platform d p

  unfoldable pub parts : D → Parts L P
  unfolding ping_db
  parts d = record {
    limiter = host.limiter;
    elapsed = host.elapsed;
    binder = host.binder;
    repo = host.repo d;
    jwt = host.jwt;
    outside = host.outside;
    ping_db = ping_db d;
    metrics = host.metrics;
    openapi_file = host.openapi_file;
  }

  unfoldable pub new_app : Config → D → App L P
  unfolding settings serve parts
  new_app cfg d = record { settings = settings cfg; serve = serve (parts d) cfg }

  abbrev pub first_world : P → List Entry → World L P
  first_world p logs = record {
    limiter = host.budgets;
    login_limiter = host.budgets;
    requests_total = [];
    durations = [];
    logs = logs;
    inner = p;
  }

  -- What stands behind the call of Listen.
  abbrev pub returned : Option GoError × World L P → Outcome P
  returned (none, w) = (none, w.inner, w.logs ++ graceful ∷ [])
  returned (some e, w) = (some (errorf "server: " e), w.inner, w.logs)

  -- From the construction of the router on.
  unfoldable pub serving : Config → D → P → List Entry → Outcome P
  unfolding new_app new_entries address
  serving cfg d p logs = returned (
      host.listen (new_app cfg d) (address cfg) cfg.shutdown_grace_period
        (first_world p (logs ++ new_entries cfg ++ listening cfg ∷ [])))

  abbrev pub migrated : Config → D → Outcome P → Outcome P
  unfolding serving
  migrated cfg d (none, p, logs) = serving cfg d p logs
  migrated cfg d (some e, p, logs) = (some (errorf "auto migrate: " e), p, logs)

  -- The function that is deferred once the database is open.
  abbrev pub close_pool : Result GoError Q → Outcome P → Outcome P
  close_pool (ok q) (e, p, logs) = (e, (host.platform.close q p).1, logs ++ database_closed ∷ [])
  close_pool (err x) outcome = outcome

  -- From the migration on; the model of the tasks is the one that is migrated.
  unfoldable pub connected : Config → D → P → List Entry → Outcome P
  unfolding auto_migrate_if_needed serving
  connected cfg d p logs =
      close_pool (host.platform.pool d)
        (migrated cfg d (auto_migrate_if_needed (host.auto_migrate d) cfg 1 p logs))

  abbrev pub with_database : Config → Result GoError D × P → List Entry → Outcome P
  unfolding connected
  with_database cfg (ok d, p) logs = connected cfg d p logs
  with_database cfg (err e, p) logs = (some (errorf "connect database: " e), p, logs)

  abbrev pub with_commit : Config → Config
  with_commit cfg = record cfg { build_commit = commit }

  -- `loaded` is the result of config.Load.
  unfoldable pub run : (loaded : Result LoadError Config) → P → Outcome P
  unfolding Connection.new connected database_logger
  run (err e) p = (some (host.load_error e), p, [])
  run (ok cfg) p =
      with_database (with_commit cfg)
        (Connection.new host.platform (with_commit cfg) (database_logger cfg) p)
        (starting commit cfg ∷ [])

  abbrev pub exited : Outcome P → ℕ × P × List Entry
  exited (none, p, logs) = (0, p, logs)
  exited (some e, p, logs) = (1, p, logs ++ startup_failed e ∷ [])

  -- The exit code, with what is left of the outside and the log.
  unfoldable pub main : (loaded : Result LoadError Config) → P → ℕ × P × List Entry
  unfolding run
  main loaded p = exited (run loaded p)
