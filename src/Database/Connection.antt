-- ===== src/Database/Connection.antt =====
-- internal/database/database.go: the connection to the database, and the ping.
pub mod Connected
pub mod Kept
use go_fiber_starter.Prelude.{
  ℕ, ◌*◌, not, ◌&&◌, Option, none, some, Result, ok, err, String, if◌then◌else◌,
}
use go_fiber_starter.Prelude.Int.{ℤ}
use go_fiber_starter.Prelude.Text.{◌<>◌}
use go_fiber_starter.Apperror.{GoError, plain, errorf}
use go_fiber_starter.Filepath.{abs, dir}
use go_fiber_starter.Config.{Config, db_driver_postgres, db_driver_mysql, db_driver_sqlite}
use go_fiber_starter.Database.{Logger}
use go_fiber_starter.Task.Model.{Task}
use go_fiber_starter.Task.Gorm.{Gorm}
use text.Mathlib.Text.{◌==◌}

-- What the `Open` of each driver makes of a data source name.
pub data Dialector : Type 0 where
  postgres mysql sqlite : String → Dialector

-- The operating system, the mapper and the package database/sql. `P` is what they change, `D` a
-- database of the mapper and `Q` its pool of connections. An operation returns an error or nil.
pub record Platform (P D Q : Type 0) : Type 0 where
  -- os.Getwd
  pub getwd : P → Result GoError String
  -- os.MkdirAll
  pub mkdir_all : String → (mode : ℕ) → P → Option GoError × P
  -- gorm.Open
  pub open_database : Dialector → Logger → P → Result GoError D × P
  -- the method DB
  pub pool : D → Result GoError Q
  pub set_max_open_conns : Q → ℤ → P → P
  pub set_max_idle_conns : Q → ℤ → P → P
  pub set_conn_max_lifetime : Q → ℤ → P → P
  -- the ping, with the nanoseconds until it is given up
  pub ping_context : (timeout : ℕ) → Q → P → Result GoError (Unit {0})
  pub close : Q → P → Option GoError × P

abbrev pub second : ℕ
second = 1000000000

module _ {P D Q : Type 0} (platform : Platform P D Q) where
  abbrev pub file_dialector : (path : String) → Option GoError × P → Result GoError Dialector × P
  file_dialector path (none, p) = (ok (sqlite path), p)
  file_dialector path (some e, p) = (err (errorf "create sqlite directory: " e), p)

  -- The directory of the file is file_dialector first.
  abbrev pub sqlite_dialector : Result GoError String → P → Result GoError Dialector × P
  unfolding dir
  sqlite_dialector (err e) p = (err e, p)
  sqlite_dialector (ok path) p =
      if not (dir path == "") && not (dir path == ".")
      then file_dialector path (platform.mkdir_all (dir path) 0o700 p)
      else (ok (sqlite path), p)

  -- The switch on the driver.
  unfoldable pub dialector : Config → P → Result GoError Dialector × P
  unfolding abs dir
  dialector cfg p =
      if cfg.db_driver == db_driver_postgres
      then (ok (postgres cfg.db_dsn), p)
      else if cfg.db_driver == db_driver_mysql
      then (ok (mysql cfg.db_dsn), p)
      else if cfg.db_driver == db_driver_sqlite
      then sqlite_dialector (abs (platform.getwd p) cfg.db_dsn) p
      else (err (plain ("unsupported DB driver: " <> cfg.db_driver)), p)

  abbrev pub limited : Config → Q → P → P
  limited cfg q p = platform.set_conn_max_lifetime q cfg.db_conn_max_lifetime (
      platform.set_max_idle_conns q cfg.db_max_idle_conns
        (platform.set_max_open_conns q cfg.db_max_open_conns p))

  abbrev pub pinged : D → Result GoError (Unit {0}) → P → Result GoError D × P
  pinged d (ok u) p = (ok d, p)
  pinged d (err e) p = (err e, p)

  abbrev pub with_pool : Config → D → Result GoError Q → P → Result GoError D × P
  with_pool cfg d (err e) p = (err e, p)
  with_pool cfg d (ok q) p =
      let ready = limited cfg q p in pinged d (platform.ping_context (5 * second) q ready) ready

  abbrev pub opened : Config → Result GoError D × P → Result GoError D × P
  opened cfg (err e, p) = (err e, p)
  opened cfg (ok d, p) = with_pool cfg d (platform.pool d) p

  abbrev pub dialed : Config → Logger → Result GoError Dialector × P → Result GoError D × P
  dialed cfg logger (err e, p) = (err e, p)
  dialed cfg logger (ok dial, p) = opened cfg (platform.open_database dial logger p)

  unfoldable pub new : Config → Logger → P → Result GoError D × P
  unfolding dialector
  new cfg logger p = dialed cfg logger (dialector cfg p)

  abbrev pub ping_pool : Result GoError Q → P → Result GoError (Unit {0})
  ping_pool (err e) p = err e
  ping_pool (ok q) p = platform.ping_context (3 * second) q p

  unfoldable pub ping : D → P → Result GoError (Unit {0})
  ping d p = ping_pool (platform.pool d) p

-- The transaction is the mapper's.
abbrev pub with_tx :
    (g : Gorm) → (g.Db → Result GoError Task × g.Db) → g.Db → Result GoError Task × g.Db
with_tx g fn db = g.transaction fn db
