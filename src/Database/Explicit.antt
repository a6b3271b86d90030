-- ===== src/Database/Explicit.antt =====
-- What a service in production does not take from the defaults of internal/config/config.go, with the
-- policy of internal/database/migrator.go.
use go_fiber_starter.Prelude.{
  ℕ, ◌≡◌, ◌≢◌, refl, sym, ◌∙◌, ◌≤◌, ◌⊎◌, inl, inr, true, false, Option, none, some, List, [], ◌∷◌,
  ok, String, All, All-get_elem?, get_elem?, arith,
}
use Prim.Native.String.{len}
use go_fiber_starter.Apperror.{GoError}
use go_fiber_starter.Log.{Entry}
use go_fiber_starter.Config.{Config, env_prod}
use go_fiber_starter.Config.Rules.{IsValid, IsEnabled}
use go_fiber_starter.Config.Valid.{load_iff}
use go_fiber_starter.Config.Environment.{
  Environment, Env, Variable, Reads, IsRead, IsEnv, variables, default_text, load_environment,
}
use go_fiber_starter.Database.{auto_migrate_if_needed, forbidden}
use go_fiber_starter.Database.Policy.{auto_migrate-IsValid}

abbrev pub IsGiven : Environment → String → Type 0
IsGiven e key = (value : String) × (e key ≡ some value)

set_or_default :
    (o default : Option String) (word : String)
    → Reads o default word
    → ((value : String) × (o ≡ some value)) ⊎ (word ≡ default_text default)
set_or_default none default word h = inr h
set_or_default (some value) default word h = inl (value, refl)

module _ (env : Env) (laws : IsEnv env) (e : Environment) (c : Config) (read : env.parse e ≡ ok c)
    (valid : IsValid c) (prod : c.env ≡ env_prod) where
  -- The fields by their places in the struct.
  field : (n : ℕ) (v : Variable) → get_elem? variables n ≡ some v → IsRead env e c v
  field n v at = All-get_elem? (IsRead env e c) variables n v at (laws.parsed e c read)

  db_driver-IsGiven : IsGiven e "DB_DRIVER"
  db_driver-IsGiven =
      let (word, reads, holds) = field 4 _ refl in
      elim (set_or_default (e "DB_DRIVER") (some "sqlite") word reads) [
        | inl is_set ↦ is_set
        | inr default ↦ elim valid.database.no_sqlite_in_prod [
          | inl other ↦ absurd (other (holds ∙ default))
          | inr not_prod ↦ absurd (not_prod prod)
        ]
      ]

  no_star : ¬ All (λ (o : String). o ≢ "*") ("*" ∷ [])
  no_star h = h.0 refl

  cors-IsGiven : IsGiven e "CORS_ALLOWED_ORIGINS"
  cors-IsGiven =
      let (word, reads, holds) = field 11 _ refl in
      elim (set_or_default (e "CORS_ALLOWED_ORIGINS") (some "*") word reads) [
        | inl is_set ↦ is_set
        | inr default ↦ elim valid.limits.origins [
          | inl not_prod ↦ absurd (not_prod prod)
          | inr origins ↦
              let star : c.cors_allowed_origins ≡ "*" ∷ [] =
                (rw default at holds) ∙ laws.one_word in
              absurd (no_star (rw star at origins))
        ]
      ]

  auto_migrate-IsGiven : IsGiven e "DB_AUTO_MIGRATE" ⊎ (c.db_auto_migrate ≡ true)
  auto_migrate-IsGiven =
      let (word, reads, holds) = field 9 _ refl in
      elim (set_or_default (e "DB_AUTO_MIGRATE") (some "true") word reads) [
        | inl is_set ↦ inl is_set
        | inr default ↦ let both = sym (rw default at holds) ∙ laws.true_word in inr (cc)
      ]

  module _ (on : IsEnabled c) where
    secret-IsGiven : IsGiven e "AUTH_JWT_SECRET"
    secret-IsGiven =
        let (word, reads, holds) = field 22 _ refl in
        elim (set_or_default (e "AUTH_JWT_SECRET") none word reads) [
          | inl is_set ↦ is_set
          | inr default ↦
              let long : 32 ≤ len "" = rw (holds ∙ default) at on.secret in
              absurd (omega (arith, long))
        ]

    credentials-IsGiven : IsGiven e "AUTH_DEMO_USERNAME" × IsGiven e "AUTH_DEMO_PASSWORD"
    credentials-IsGiven =
        let (name, name_reads, name_holds) = field 24 _ refl in
        let (word, word_reads, word_holds) = field 25 _ refl in
        elim on.credentials [
          | inl not_prod ↦ absurd (not_prod prod)
          | inr (own_name, own_password) ↦ (
            elim (set_or_default (e "AUTH_DEMO_USERNAME") (some "admin") name name_reads) [
              | inl is_set ↦ is_set
              | inr default ↦ absurd (own_name (name_holds ∙ default))
            ],
            elim (set_or_default (e "AUTH_DEMO_PASSWORD") (some "admin123") word word_reads) [
              | inl is_set ↦ is_set
              | inr default ↦ absurd (own_password (word_holds ∙ default))
            ],
          )
        ]

-- A service in production takes none of these from the defaults: whatever environment `Load` accepts
-- as one of production sets the driver of the database and the origins, the secret and both
-- credentials if authentication is on, and DB_AUTO_MIGRATE, or else the migration at the start is
-- refused; over a library env that keeps its documentation.
pub load_environment-IsGiven :
    {D : Type 0} (env : Env) (e : Environment) (c : Config)
    (auto_migrate : (models : ℕ) → D → Option GoError × D) (models : ℕ) (db : D) (logs : List Entry)
    → IsEnv env
    → load_environment env e ≡ ok c
    → c.env ≡ env_prod
    → 1 ≤ models
    → IsGiven e "DB_DRIVER"
      × IsGiven e "CORS_ALLOWED_ORIGINS"
      × ((c.auth_enabled ≡ false)
          ⊎ (IsGiven e "AUTH_JWT_SECRET"
              × IsGiven e "AUTH_DEMO_USERNAME"
              × IsGiven e "AUTH_DEMO_PASSWORD"))
      × (IsGiven e "DB_AUTO_MIGRATE"
          ⊎ ((auto_migrate_if_needed auto_migrate c models db logs).0
              ≡ some (forbidden c.db_driver)))
unfolding load_environment
load_environment-IsGiven env e c auto_migrate models db logs laws loaded prod some_models =
    let (read, valid) = (load_iff (env.parse e) c).0 loaded in
    (
      db_driver-IsGiven env laws e c read valid prod,
      cors-IsGiven env laws e c read valid prod,
      elim valid.auth [
        | inl off ↦ inl off
        | inr on ↦
            let (name, password) = credentials-IsGiven env laws e c read valid prod on in
            inr (secret-IsGiven env laws e c read valid prod on, name, password)
      ],
      elim (auto_migrate-IsGiven env laws e c read valid prod) [
        | inl is_set ↦ inl is_set
        | inr asked ↦ elim (auto_migrate-IsValid auto_migrate c models db logs valid prod).2 [
          | inl off ↦ let no = sym asked ∙ off in cc
          | inr (inl none_given) ↦ absurd (omega arith)
          | inr (inr refused) ↦ inr refused
        ]
      ],
    )
