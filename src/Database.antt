-- ===== src/Database.antt =====
-- internal/database/migrator.go and logger.go: the start-up migration, and the log of the queries.
pub mod Policy
pub mod Explicit
pub mod Connection
use go_fiber_starter.Prelude.{
  ℕ, ◌/◌, Bool, true, false, not, ◌&&◌, ◌||◌, Option, none, some, List, [], ◌∷◌, ◌++◌, Result, ok,
  err, String, ltb, leb, if◌then◌else◌,
}
use go_fiber_starter.Prelude.Int.{ℤ, pos, ltb_ℤ}
use go_fiber_starter.Prelude.Text.{◌<>◌}
use go_fiber_starter.Apperror.{GoError, plain, error_text, is_sentinel, record_not_found}
use go_fiber_starter.Log.{Level, debug, warn, error, Entry, Value, number}
use go_fiber_starter.Log
use go_fiber_starter.Config.{Config, is_prod, db_driver_sqlite}
use package.text.Mathlib.Text.{◌==◌}

abbrev migration_warning : String → Entry
migration_warning driver = record {
  level = warn;
  message =
      "DB_AUTO_MIGRATE enabled for non-sqlite driver in dev; use versioned migrations for real data";
  attrs = ("driver", Log.text driver) ∷ [];
}

abbrev pub forbidden : String → GoError
forbidden driver = plain (
    "DB_AUTO_MIGRATE is not allowed in prod with " <> driver
    <> "; use `migrate up` (see db/migrations)")

module _ {D : Type 0} (auto_migrate : (models : ℕ) → D → Option GoError × D) where
  -- `models` is their number, and `auto_migrate` the operation of the mapper. The result is the
  -- error or nil, the database and the log.
  unfoldable pub auto_migrate_if_needed :
      Config → (models : ℕ) → D → List Entry → Option GoError × D × List Entry
  unfolding is_prod
  auto_migrate_if_needed cfg models db logs =
      let (e, migrated) = auto_migrate models db in
      if not cfg.db_auto_migrate || leb models 0
      then (none, db, logs)
      else if cfg.db_driver == db_driver_sqlite
      then (e, migrated, logs)
      else if is_prod cfg
      then (some (forbidden cfg.db_driver), db, logs)
      else (e, migrated, logs ++ migration_warning cfg.db_driver ∷ [])

-- The levels of the mapper's log.
abbrev pub silent : ℕ
silent = 1

abbrev pub warn_level : ℕ
warn_level = 3

abbrev pub info_level : ℕ
info_level = 4

pub record Logger : Type 0 where
  pub level : ℕ
  pub slow_query_threshold : ℤ

unfoldable pub new_logger : (debug : Bool) → (slow_query_threshold : ℤ) → Logger
new_logger debugging threshold = record {
  level = if debugging then info_level else warn_level;
  slow_query_threshold = threshold;
}

unfoldable pub log_mode : Logger → ℕ → Logger
log_mode l level = record l { level = level }

-- What `Info`, `Warn` and `Error` hand on, whatever the level of the mapper's log is. `text` is what
-- fmt.Sprintf makes of their arguments.
abbrev pub forwarded : Level → (text : String) → Entry
forwarded level text = record { level = level; message = text; attrs = [] }

-- A query, by what `fc` returns and by the time that it took in nanoseconds.
pub record Query : Type 0 where
  pub sql : String
  pub rows : ℕ
  pub elapsed : ℕ

abbrev query_attrs : Query → List (String × Value)
query_attrs q =
    ("sql", Log.text q.sql)
    ∷ ("rows", number q.rows)
    ∷ ("elapsed_ms", number (q.elapsed / 1000000))
    ∷ []

-- Whether the error is one that is logged.
abbrev pub is_failure : Option GoError → Bool
is_failure none = false
is_failure (some e) = not (is_sentinel record_not_found e)

abbrev pub failure_attrs : Option GoError → List (String × Value)
failure_attrs none = []
failure_attrs (some e) = ("error", Log.text (error_text e)) ∷ []

-- The entries of one query: one, or none.
unfoldable pub trace : Logger → Query → Option GoError → List Entry
trace l q e =
    if leb l.level silent
    then []
    else if is_failure e
    then record {
      level = error;
      message = "gorm query failed";
      attrs = failure_attrs e ++ query_attrs q;
    }
      ∷ []
    else if ltb_ℤ (pos 0) l.slow_query_threshold && ltb_ℤ l.slow_query_threshold (pos q.elapsed)
    then record { level = warn; message = "slow query"; attrs = query_attrs q } ∷ []
    else if leb info_level l.level
    then record { level = debug; message = "query"; attrs = query_attrs q } ∷ []
    else []
