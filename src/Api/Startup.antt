-- ===== src/Api/Startup.antt =====
-- How the command of cmd/api/main.go ends.
use go_fiber_starter.Prelude.{
  ℕ, ◌≡◌, refl, ap, sym, ◌∙◌, inl, inr, Option, none, some, List, [], ◌∷◌, ◌++◌, Result, ok, err,
  Result-cases, String,
}
use go_fiber_starter.Apperror.{GoError, errorf}
use go_fiber_starter.Log.{Entry}
use go_fiber_starter.World.{World}
use go_fiber_starter.Config.{Config, LoadError, env_prod, load, validate}
use go_fiber_starter.Config.Rules.{IsValid}
use go_fiber_starter.Config.Valid.{validate_iff, load_iff}
use go_fiber_starter.Database.{auto_migrate_if_needed}
use go_fiber_starter.Database.Policy.{auto_migrate-IsValid}
use go_fiber_starter.Database.Connection
use go_fiber_starter.Database.Connection.Connected.{IsConnected, new-IsConnected_iff}
use go_fiber_starter.Router.Settings.{new_entries}
use go_fiber_starter.Api.{
  Host, Outcome, database_logger, starting, listening, address, database_closed, graceful,
  startup_failed, new_app, first_world, with_commit, returned, serving, migrated, close_pool,
  connected, with_database, run, exited, main,
}

module _ {L P D Q : Type 0} (host : Host L P D Q) (commit : String) where
  -- The service has listened, and this has returned `e` and left `w`: the configuration was valid,
  -- the database `d` with the pool `q` was connected, the migration had no error, and it changed
  -- nothing in production.
  pub record IsServed (cfg : Config) (p : P) (q : Q) (e : Option GoError) (w : World L P)
      : Type 0 where
    pub valid : IsValid cfg
    pub d : D
    pub p1 : P
    pub is_connected :
        IsConnected host.platform (with_commit host commit cfg) (database_logger cfg) p d p1
    pub has_pool : host.platform.pool d ≡ ok q
    pub p2 : P
    pub entries : List Entry
    pub has_schema :
        auto_migrate_if_needed
          (host.auto_migrate d)
          (with_commit host commit cfg)
          1
          p1
          (starting commit cfg ∷ [])
        ≡ (none, p2, entries)
    pub no_prod_migration : cfg.env ≡ env_prod → p2 ≡ p1
    pub listened :
        host.listen
          (new_app host commit (with_commit host commit cfg) d)
          (address (with_commit host commit cfg))
          cfg.shutdown_grace_period
          (first_world host commit p2 (
            entries
            ++ new_entries (with_commit host commit cfg)
            ++ listening (with_commit host commit cfg) ∷ []))
        ≡ (e, w)

  -- The ways in which the command ends. Each one that has a database closes its pool.
  pub data Exit (parsed : Result GoError Config) (p : P) (r : ℕ × P × List Entry) : Type 0 where
    misconfigured :
        (e : LoadError)
        → load parsed ≡ err e
        → r ≡ (1, p, startup_failed (host.load_error e) ∷ [])
        → Exit parsed p r
    unconnected :
        (cfg : Config) (e : GoError) (p' : P)
        → load parsed ≡ ok cfg
        → Connection.new host.platform (with_commit host commit cfg) (database_logger cfg) p
          ≡ (err e, p')
        → r ≡ (1, p', starting commit cfg ∷ startup_failed (errorf "connect database: " e) ∷ [])
        → Exit parsed p r
    unmigrated :
        (cfg : Config) (d : D) (q : Q) (e : GoError) (p1 p2 : P) (entries : List Entry)
        → load parsed ≡ ok cfg
        → IsConnected host.platform (with_commit host commit cfg) (database_logger cfg) p d p1
        → host.platform.pool d ≡ ok q
        → auto_migrate_if_needed
            (host.auto_migrate d)
            (with_commit host commit cfg)
            1
            p1
            (starting commit cfg ∷ [])
          ≡ (some e, p2, entries)
        → r ≡ (
          1,
          (host.platform.close q p2).1,
          (entries ++ database_closed ∷ []) ++ startup_failed (errorf "auto migrate: " e) ∷ [],
        )
        → Exit parsed p r
    aborted :
        (cfg : Config) (q : Q) (e : GoError) (w : World L P)
        → load parsed ≡ ok cfg
        → IsServed cfg p q (some e) w
        → r ≡ (
          1,
          (host.platform.close q w.inner).1,
          (w.logs ++ database_closed ∷ []) ++ startup_failed (errorf "server: " e) ∷ [],
        )
        → Exit parsed p r
    shut_down :
        (cfg : Config) (q : Q) (w : World L P)
        → load parsed ≡ ok cfg
        → IsServed cfg p q none w
        → r ≡ (
          0,
          (host.platform.close q w.inner).1,
          (w.logs ++ graceful ∷ []) ++ database_closed ∷ [],
        )
        → Exit parsed p r

  commit-IsValid : (cfg : Config) → IsValid cfg → IsValid (with_commit host commit cfg)
  unfolding validate
  commit-IsValid cfg valid =
      (validate_iff (with_commit host commit cfg)).0 ((validate_iff cfg).1 valid)

  no_migration :
      (cfg : Config) (d : D) (p1 p2 : P) (before entries : List Entry)
      → IsValid cfg
      → auto_migrate_if_needed (host.auto_migrate d) (with_commit host commit cfg) 1 p1 before
        ≡ (none, p2, entries)
      → cfg.env ≡ env_prod
      → p2 ≡ p1
  no_migration cfg d p1 p2 before entries valid schema prod =
      let (kept, logged, refused) =
        auto_migrate-IsValid (host.auto_migrate d) (with_commit host commit cfg) 1 p1 before
          (commit-IsValid cfg valid) prod in
      sym (ap (λ x. x.1) schema) ∙ kept

  served-Exit :
      (parsed : Result GoError Config) (p : P) (cfg : Config) (q : Q)
      (l : Option GoError × World L P)
      → load parsed ≡ ok cfg
      → IsServed cfg p q l.0 l.1
      → Exit parsed p (exited host commit (close_pool host commit (ok q) (returned host commit l)))
  served-Exit parsed p cfg q (none, w) loaded served = shut_down cfg q w loaded served refl
  served-Exit parsed p cfg q (some e, w) loaded served = aborted cfg q e w loaded served refl

  migrated-Exit :
      (parsed : Result GoError Config) (p : P) (cfg : Config) (d : D) (p1 : P) (q : Q)
      (m : Outcome P)
      → load parsed ≡ ok cfg
      → IsValid cfg
      → IsConnected host.platform (with_commit host commit cfg) (database_logger cfg) p d p1
      → host.platform.pool d ≡ ok q
      → auto_migrate_if_needed
          (host.auto_migrate d)
          (with_commit host commit cfg)
          1
          p1
          (starting commit cfg ∷ [])
        ≡ m
      → Exit parsed p (
          exited host commit (
            close_pool host commit (ok q) (migrated host commit (with_commit host commit cfg) d m)))
  unfolding serving
  migrated-Exit parsed p cfg d p1 q (some e, p2, entries) loaded valid made pool schema =
      unmigrated cfg d q e p1 p2 entries loaded made pool schema refl
  migrated-Exit parsed p cfg d p1 q (none, p2, entries) loaded valid made pool schema =
      served-Exit parsed p cfg q _ loaded (record {
        valid = valid;
        d = d;
        p1 = p1;
        is_connected = made;
        has_pool = pool;
        p2 = p2;
        entries = entries;
        has_schema = schema;
        no_prod_migration = no_migration cfg d p1 p2 _ entries valid schema;
        listened = refl;
      })

  connected-Exit :
      (parsed : Result GoError Config) (p : P) (cfg : Config) (r : Result GoError D × P)
      → load parsed ≡ ok cfg
      → IsValid cfg
      → Connection.new host.platform (with_commit host commit cfg) (database_logger cfg) p ≡ r
      → Exit parsed p (
          exited host commit
            (with_database host commit (with_commit host commit cfg) r (starting commit cfg ∷ [])))
  unfolding connected
  connected-Exit parsed p cfg (err e, p') loaded valid failed =
      unconnected cfg e p' loaded failed refl
  connected-Exit parsed p cfg (ok d, p1) loaded valid made =
      let is_connected =
        (new-IsConnected_iff host.platform (with_commit host commit cfg) (database_logger cfg) p d
            p1).0
          made in
      rw (is_connected.has_pool) (
        migrated-Exit parsed p cfg d p1 is_connected.q _ loaded valid is_connected
          is_connected.has_pool refl)

  -- However the command ends, it ends in one of five ways: the configuration is refused, and nothing
  -- is touched; the database is not connected; the migration fails; the service stops with an error;
  -- or it is shut down, and only then the exit code is 0. Every way that has a database closes its
  -- pool last, and a service that listens has a valid configuration, a connected database and, in
  -- production, a schema that was not migrated at the start.
  pub main-Exit :
      (parsed : Result GoError Config) (p : P) → Exit parsed p (main host commit (load parsed) p)
  unfolding main run
  main-Exit parsed p = elim (Result-cases (load parsed)) [
    | inr (e, refused) ↦ rw refused (misconfigured e refused refl)
    | inl (cfg, loaded) ↦
        rw loaded (connected-Exit parsed p cfg _ loaded ((load_iff parsed cfg).0 loaded).1 refl)
  ]
