-- ===== src/Database/Policy.antt =====
-- The policy of the start-up migration of internal/database/migrator.go.
use go_fiber_starter.Prelude.{
  ℕ, ◌≡◌, refl, ◌⊎◌, inl, inr, true, false, Option, some, List, Bool-cases, arith, leb,
}
use go_fiber_starter.Apperror.{GoError}
use go_fiber_starter.Log.{Entry}
use go_fiber_starter.Config.{Config, is_prod, env_prod, db_driver_sqlite}
use go_fiber_starter.Config.Rules.{IsValid}
use go_fiber_starter.Database.{auto_migrate_if_needed, forbidden}
use text.Mathlib.Text.{◌==◌}
use text.Mathlib.TextEquality.{eq_iff}

no_sqlite :
    (cfg : Config) → IsValid cfg → cfg.env ≡ env_prod → (cfg.db_driver == db_driver_sqlite) ≡ false
no_sqlite cfg valid prod = elim valid.database.no_sqlite_in_prod [
  | inl other ↦ elim (Bool-cases (cfg.db_driver == db_driver_sqlite)) [
    | inl y ↦ absurd (other ((eq_iff cfg.db_driver db_driver_sqlite).0 y))
    | inr n ↦ n
  ]
  | inr not_prod ↦ absurd (not_prod prod)
]

module _ {D : Type 0} (auto_migrate : (models : ℕ) → D → Option GoError × D) where
  -- A valid configuration of production never lets the mapper change the schema at the start: the
  -- database and the log are as they were, and an automatic migration that is asked for is refused.
  pub auto_migrate-IsValid :
      (cfg : Config) (models : ℕ) (db : D) (logs : List Entry)
      → IsValid cfg
      → cfg.env ≡ env_prod
      → ((auto_migrate_if_needed auto_migrate cfg models db logs).1 ≡ db)
        × ((auto_migrate_if_needed auto_migrate cfg models db logs).2 ≡ logs)
        × ((cfg.db_auto_migrate ≡ false)
            ⊎ (models ≡ 0)
            ⊎ ((auto_migrate_if_needed auto_migrate cfg models db logs).0
                ≡ some (forbidden cfg.db_driver)))
  unfolding auto_migrate_if_needed is_prod
  auto_migrate-IsValid cfg models db logs valid prod =
      let sqlite : (cfg.db_driver == db_driver_sqlite) ≡ false = no_sqlite cfg valid prod in
      let production : (cfg.env == env_prod) ≡ true = (eq_iff cfg.env env_prod).1 prod in
      elim (Bool-cases cfg.db_auto_migrate) [
        | inr off ↦ rw off (refl, refl, inl refl)
        | inl on ↦ elim (Bool-cases (leb models 0)) [
          | inl empty ↦ rw (on, empty) (refl, refl, inr (inl (ground arith)))
          | inr some_models ↦ rw (on, some_models, sqlite, production) (refl, refl, inr (inr refl))
        ]
      ]
