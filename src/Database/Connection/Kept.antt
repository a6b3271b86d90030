-- ===== src/Database/Connection/Kept.antt =====
-- What connecting to a database leaves alone.
use go_fiber_starter.Prelude.{
  ℕ, ◌≡◌, refl, ◌∙◌, ◌&&◌, ◌||◌, leb, List, not, inl, inr, none, some, Result, ok, err, String,
  Option, Bool-cases,
}
use go_fiber_starter.Prelude.Int.{ℤ}
use go_fiber_starter.Apperror.{GoError}
use go_fiber_starter.Filepath.{abs, dir}
use go_fiber_starter.Config.{Config, is_prod, db_driver_postgres, db_driver_mysql, db_driver_sqlite}
use go_fiber_starter.Log.{Entry}
use go_fiber_starter.Database.{Logger, auto_migrate_if_needed}
use go_fiber_starter.Database.Connection.{
  Dialector, Platform, dialector, sqlite_dialector, file_dialector, limited, new, dialed, opened,
  with_pool, pinged,
}
use text.Mathlib.Text.{◌==◌}

-- Opening and closing a database and the limits of its pool leave what `view` reads.
pub record IsKept {P D Q R : Type 0} (platform : Platform P D Q) (view : P → R) : Type 0 where
  pub mkdir_all :
      (path : String) (mode : ℕ) (p : P) → view (platform.mkdir_all path mode p).1 ≡ view p
  pub open_database :
      (dial : Dialector) (logger : Logger) (p : P)
      → view (platform.open_database dial logger p).1 ≡ view p
  pub max_open_conns : (q : Q) (n : ℤ) (p : P) → view (platform.set_max_open_conns q n p) ≡ view p
  pub max_idle_conns : (q : Q) (n : ℤ) (p : P) → view (platform.set_max_idle_conns q n p) ≡ view p
  pub conn_max_lifetime :
      (q : Q) (n : ℤ) (p : P) → view (platform.set_conn_max_lifetime q n p) ≡ view p
  pub close : (q : Q) (p : P) → view (platform.close q p).1 ≡ view p

module _ {P D Q R : Type 0} (platform : Platform P D Q) (view : P → R)
    (kept : IsKept platform view) where
  file_dialector-kept :
      (path : String) (m : Option GoError × P) → view (file_dialector platform path m).1 ≡ view m.1
  file_dialector-kept path (none, p) = refl
  file_dialector-kept path (some e, p) = refl

  sqlite-kept :
      (r : Result GoError String) (p : P) → view (sqlite_dialector platform r p).1 ≡ view p
  unfolding sqlite_dialector
  sqlite-kept (err e) p = refl
  sqlite-kept (ok path) p = elim (Bool-cases (not (dir path == "") && not (dir path == "."))) [
    | inl y ↦ rw y (file_dialector-kept path _ ∙ kept.mkdir_all (dir path) 0o700 p)
    | inr n ↦ rw n refl
  ]

  dialector-kept : (cfg : Config) (p : P) → view (dialector platform cfg p).1 ≡ view p
  unfolding dialector
  dialector-kept cfg p = elim (Bool-cases (cfg.db_driver == db_driver_postgres)) [
    | inl y ↦ rw y refl
    | inr n ↦ elim (Bool-cases (cfg.db_driver == db_driver_mysql)) [
      | inl y ↦ rw (n, y) refl
      | inr n' ↦ elim (Bool-cases (cfg.db_driver == db_driver_sqlite)) [
        | inl y ↦ rw (n, n', y) (sqlite-kept (abs (platform.getwd p) cfg.db_dsn) p)
        | inr n'' ↦ rw (n, n', n'') refl
      ]
    ]
  ]

  pinged-kept :
      (d : D) (r : Result GoError (Unit {0})) (p : P) → view (pinged platform d r p).1 ≡ view p
  pinged-kept d (ok u) p = refl
  pinged-kept d (err e) p = refl

  limited-kept : (cfg : Config) (q : Q) (p : P) → view (limited platform cfg q p) ≡ view p
  limited-kept cfg q p =
      kept.conn_max_lifetime q _ _ ∙ kept.max_idle_conns q _ _ ∙ kept.max_open_conns q _ p

  with_pool-kept :
      (cfg : Config) (d : D) (r : Result GoError Q) (p : P)
      → view (with_pool platform cfg d r p).1 ≡ view p
  with_pool-kept cfg d (err e) p = refl
  with_pool-kept cfg d (ok q) p = pinged-kept d _ (limited platform cfg q p) ∙ limited-kept cfg q p

  opened-kept :
      (cfg : Config) (r : Result GoError D × P) → view (opened platform cfg r).1 ≡ view r.1
  opened-kept cfg (err e, p) = refl
  opened-kept cfg (ok d, p) = with_pool-kept cfg d (platform.pool d) p

  dialed-kept :
      (cfg : Config) (logger : Logger) (r : Result GoError Dialector × P)
      → view (dialed platform cfg logger r).1 ≡ view r.1
  dialed-kept cfg logger (err e, p) = refl
  dialed-kept cfg logger (ok dial, p) = opened-kept cfg _ ∙ kept.open_database dial logger p

  -- On every branch of `New`.
  pub new-kept :
      (cfg : Config) (logger : Logger) (p : P) → view (new platform cfg logger p).1 ≡ view p
  unfolding new
  new-kept cfg logger p = dialed-kept cfg logger (dialector platform cfg p) ∙ dialector-kept cfg p

module _ {P R : Type 0} (view : P → R) (auto_migrate : (models : ℕ) → P → Option GoError × P)
    (kept : (models : ℕ) (p : P) → view (auto_migrate models p).1 ≡ view p) where
  pub auto_migrate-kept :
      (cfg : Config) (models : ℕ) (p : P) (logs : List Entry)
      → view (auto_migrate_if_needed auto_migrate cfg models p logs).1 ≡ view p
  unfolding auto_migrate_if_needed
  auto_migrate-kept cfg models p logs =
      elim (Bool-cases (not cfg.db_auto_migrate || leb models 0)) [
        | inl y ↦ rw y refl
        | inr n ↦ elim (Bool-cases (cfg.db_driver == db_driver_sqlite)) [
          | inl y ↦ rw (n, y) (kept models p)
          | inr n' ↦ elim (Bool-cases (is_prod cfg)) [
            | inl y ↦ rw (n, n', y) refl
            | inr n'' ↦ rw (n, n', n'') (kept models p)
          ]
        ]
      ]
