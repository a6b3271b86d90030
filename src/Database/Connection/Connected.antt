-- ===== src/Database/Connection/Connected.antt =====
-- The connections that `New` of internal/database/database.go makes.
use go_fiber_starter.Prelude.{
  ◌*◌, ◌≡◌, ◌↔◌, refl, sym, ap, ◌∙◌, ◌⊎◌, inl, inr, true, false, none, some, Result, ok, err,
  String, Option, Bool-cases, Result-cases,
}
use go_fiber_starter.Apperror.{GoError, errorf}
use go_fiber_starter.Filepath.{abs, dir, is_rooted}
use go_fiber_starter.Filepath.Rooted.{abs-is_rooted, dir-is_rooted}
use go_fiber_starter.Config.{Config, db_driver_postgres, db_driver_mysql, db_driver_sqlite}
use go_fiber_starter.Config.Rules.{IsValid}
use go_fiber_starter.Database.{Logger}
use go_fiber_starter.Database.Connection.{
  Dialector, postgres, mysql, sqlite, Platform, dialector, sqlite_dialector, file_dialector,
  limited, new, second,
}
use text.Mathlib.Text.{◌==◌}
use text.Mathlib.TextEquality.{eq_iff}

-- How a dialect is chosen: by the driver, and for sqlite after the directory of the file is there.
pub data Dialed {P D Q : Type 0} (platform : Platform P D Q) (cfg : Config) (p : P)
    (r : Result GoError Dialector × P) : Type 0 where
  to_postgres :
      cfg.db_driver ≡ db_driver_postgres
      → r ≡ (ok (postgres cfg.db_dsn), p)
      → Dialed platform cfg p r
  to_mysql :
      cfg.db_driver ≡ db_driver_mysql → r ≡ (ok (mysql cfg.db_dsn), p) → Dialed platform cfg p r
  to_file :
      (path : String) (p' : P)
      → cfg.db_driver ≡ db_driver_sqlite
      → abs (platform.getwd p) cfg.db_dsn ≡ ok path
      → platform.mkdir_all (dir path) 0o700 p ≡ (none, p')
      → r ≡ (ok (sqlite path), p')
      → Dialed platform cfg p r
  no_directory :
      (path : String) (e : GoError) (p' : P)
      → cfg.db_driver ≡ db_driver_sqlite
      → platform.mkdir_all (dir path) 0o700 p ≡ (some e, p')
      → r ≡ (err (errorf "create sqlite directory: " e), p')
      → Dialed platform cfg p r
  no_path :
      (e : GoError)
      → cfg.db_driver ≡ db_driver_sqlite
      → abs (platform.getwd p) cfg.db_dsn ≡ err e
      → r ≡ (err e, p)
      → Dialed platform cfg p r

not_named : (s t : String) → is_rooted s ≡ true → is_rooted t ≡ false → (s == t) ≡ false
not_named s t rooted other = elim (Bool-cases (s == t)) [
  | inl y ↦ let same : s ≡ t = (eq_iff s t).0 y in let no = rw same at rooted in cc
  | inr n ↦ n
]

module _ {P D Q : Type 0} (platform : Platform P D Q)
    (rooted : (p : P) (wd : String) → platform.getwd p ≡ ok wd → is_rooted wd ≡ true) where
  file_dialector-Dialed :
      (cfg : Config) (path : String) (p : P) (m : Option GoError × P)
      → cfg.db_driver ≡ db_driver_sqlite
      → abs (platform.getwd p) cfg.db_dsn ≡ ok path
      → platform.mkdir_all (dir path) 0o700 p ≡ m
      → Dialed platform cfg p (file_dialector platform path m)
  file_dialector-Dialed cfg path p (none, p') is full made = to_file path p' is full made refl
  file_dialector-Dialed cfg path p (some e, p') is full failed =
      no_directory path e p' is failed refl

  sqlite-Dialed :
      (cfg : Config) (p : P) (r : Result GoError String)
      → cfg.db_driver ≡ db_driver_sqlite
      → abs (platform.getwd p) cfg.db_dsn ≡ r
      → Dialed platform cfg p (sqlite_dialector platform r p)
  unfolding is_rooted sqlite_dialector
  sqlite-Dialed cfg p (err e) is full = no_path e is full refl
  sqlite-Dialed cfg p (ok path) is full =
      let root = dir-is_rooted path (abs-is_rooted _ cfg.db_dsn path (rooted p) full) in
      rw (not_named (dir path) "" root refl, not_named (dir path) "." root refl)
        (file_dialector-Dialed cfg path p (platform.mkdir_all (dir path) 0o700 p) is full refl)

  -- With a valid configuration `New` always finds a dialect, the one that the driver names. For
  -- sqlite it first creates the directory of the file, with the mode 0700, whatever the path is,
  -- and fails only if that fails or the working directory is not known. The paths of os.Getwd
  -- begin at the root.
  pub dialector-Dialed :
      (cfg : Config) (p : P) → IsValid cfg → Dialed platform cfg p (dialector platform cfg p)
  unfolding dialector
  dialector-Dialed cfg p valid = elim (Bool-cases (cfg.db_driver == db_driver_postgres)) [
    | inl y ↦ rw y (to_postgres ((eq_iff cfg.db_driver db_driver_postgres).0 y) refl)
    | inr n ↦ elim (Bool-cases (cfg.db_driver == db_driver_mysql)) [
      | inl y ↦ rw (n, y) (to_mysql ((eq_iff cfg.db_driver db_driver_mysql).0 y) refl)
      | inr n' ↦ elim (Bool-cases (cfg.db_driver == db_driver_sqlite)) [
        | inl y ↦
            rw (n, n', y) (sqlite-Dialed cfg p _ ((eq_iff cfg.db_driver db_driver_sqlite).0 y) refl)
        | inr n'' ↦ elim valid.database.db_driver [
          | inl e ↦ let no = (eq_iff cfg.db_driver db_driver_postgres).1 e in cc
          | inr (inl e) ↦ let no = (eq_iff cfg.db_driver db_driver_mysql).1 e in cc
          | inr (inr e) ↦ let no = (eq_iff cfg.db_driver db_driver_sqlite).1 e in cc
        ]
      ]
    ]
  ]

-- A connection that `New` may return: the dialect is found, the mapper opens it, its pool has the
-- configured limits, and in the state that is left it answers a ping within five seconds.
pub record IsConnected {P D Q : Type 0} (platform : Platform P D Q) (cfg : Config) (logger : Logger)
    (p : P) (d : D) (p' : P) : Type 0 where
  pub dial : Dialector
  pub found : P
  pub connected : P
  pub q : Q
  pub has_dial : dialector platform cfg p ≡ (ok dial, found)
  pub is_open : platform.open_database dial logger found ≡ (ok d, connected)
  pub has_pool : platform.pool d ≡ ok q
  -- DB_MAX_OPEN_CONNS, DB_MAX_IDLE_CONNS and DB_CONN_MAX_LIFETIME, in this order
  pub has_limits :
      p'
      ≡ platform.set_conn_max_lifetime q cfg.db_conn_max_lifetime (
          platform.set_max_idle_conns q cfg.db_max_idle_conns
            (platform.set_max_open_conns q cfg.db_max_open_conns connected))
  pub answers : platform.ping_context 5000000000 q p' ≡ ok tt

ok_inj : {E A : Type 0} {a b : A} → ◌≡◌ {A = Result E A} (ok a) (ok b) → a ≡ b
ok_inj h = cc

module _ {P D Q : Type 0} (platform : Platform P D Q) where
  cases :
      {A : Type 0} (r : Result GoError A × P)
      → ((a : A) × (p : P) × (r ≡ (ok a, p))) ⊎ ((e : GoError) × (p : P) × (r ≡ (err e, p)))
  cases (ok a, p) = inl (a, p, refl)
  cases (err e, p) = inr (e, p, refl)

  made :
      (cfg : Config) (logger : Logger) (p : P) (d : D) (p' : P)
      → new platform cfg logger p ≡ (ok d, p')
      → IsConnected platform cfg logger p d p'
  unfolding new
  made cfg logger p d p' h = elim (cases (dialector platform cfg p)) [
    | inr (e, p1, failed) ↦ let no = rw failed at h in cc
    | inl (dial, p1, chosen) ↦ elim (cases (platform.open_database dial logger p1)) [
      | inr (e, p2, failed) ↦ let no = rw (chosen, failed) at h in cc
      | inl (d', p2, is_open) ↦ elim (Result-cases (platform.pool d')) [
        | inr (e, failed) ↦ let no = rw (chosen, is_open, failed) at h in cc
        | inl (q, has_pool) ↦
            elim (Result-cases (platform.ping_context (5 * second) q (limited platform cfg q p2))) [
              | inr (e, failed) ↦ let no = rw (chosen, is_open, has_pool, failed) at h in cc
              | inl (tt, answers) ↦
                  let all = rw (chosen, is_open, has_pool, answers) at h in
                  let same : d' ≡ d = ok_inj (ap (λ x. x.0) all) in
                  let left : limited platform cfg q p2 ≡ p' = ap (λ x. x.1) all in
                  record {
                    dial = dial;
                    found = p1;
                    connected = p2;
                    q = q;
                    has_dial = chosen;
                    is_open = is_open ∙ ap (λ x. (ok x, p2)) same;
                    has_pool = ap (platform.pool) (sym same) ∙ has_pool;
                    has_limits = sym left;
                    answers = ap (platform.ping_context (5 * second) q) (sym left) ∙ answers;
                  }
            ]
      ]
    ]
  ]

  returned :
      (cfg : Config) (logger : Logger) (p : P) (d : D) (p' : P)
      → IsConnected platform cfg logger p d p'
      → new platform cfg logger p ≡ (ok d, p')
  unfolding new
  returned cfg logger p d p' c =
      let answers : platform.ping_context (5 * second) c.q (limited platform cfg c.q c.connected)
          ≡ ok tt =
        ap (platform.ping_context (5 * second) c.q) (sym c.has_limits) ∙ c.answers in
      rw (c.has_dial, c.is_open, c.has_pool, answers, c.has_limits) refl

  -- `New` returns a database exactly if every step of the connection was made: the dialect is found,
  -- the mapper opens the database, its pool has the configured limits, and in the state that is left
  -- it answers a ping within five seconds.
  pub new-IsConnected_iff :
      (cfg : Config) (logger : Logger) (p : P) (d : D) (p' : P)
      → (new platform cfg logger p ≡ (ok d, p')) ↔ IsConnected platform cfg logger p d p'
  new-IsConnected_iff cfg logger p d p' = (made cfg logger p d p', returned cfg logger p d p')
