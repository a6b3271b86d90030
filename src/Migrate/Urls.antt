-- ===== src/Migrate/Urls.antt =====
-- The URL that cmd/migrate/main.go hands to the migration library.
use Prim.Native.String.{[], ◌∷◌}
use go_fiber_starter.Prelude.{
  ◌≡◌, ◌≢◌, refl, sym, ap, ◌∙◌, ◌⊎◌, inl, inr, Bool, true, false, not, ◌&&◌, ◌||◌, some, ok, String,
  Bool-cases,
}
use go_fiber_starter.Prelude.Text.{cut_prefix, ◌<>◌}
use go_fiber_starter.Prelude.Text.Prefix.{cut_prefix-append, cut_prefix-append_ne}
use go_fiber_starter.Config.{Config, db_driver_postgres}
use go_fiber_starter.Migrate.{strip_scheme, contains_text, migrate_url, is_some, longer}
use text.Mathlib.Text.{◌==◌}
use text.Mathlib.TextEquality.{eq_iff}
use text.Mathlib.TextLemmas.{nil-append, cons-append, append_assoc}

or_true : (b : Bool) → (b || true) ≡ true
or_true true = refl
or_true false = refl

contains_here : (sub t : String) → is_some (cut_prefix t sub) ≡ true → contains_text sub t ≡ true
unfolding contains_text
contains_here sub [] h = h
contains_here sub (c ∷ t) h = rw h refl

contains_text-append : (a sub s : String) → contains_text sub (a <> (sub <> s)) ≡ true
unfolding contains_text
contains_text-append [] sub s =
    rw nil-append (contains_here sub (sub <> s) (ap is_some (cut_prefix-append sub s)))
contains_text-append (c ∷ a) sub s = rw cons-append (rw (contains_text-append a sub s) (or_true _))

abbrev pub IsScheme : String → Type 0
IsScheme scheme = (scheme ≡ "postgres") ⊎ (scheme ≡ "postgresql") ⊎ (scheme ≡ "mysql")

longer-some : (rest : String) → rest ≢ "" → longer (some rest) ≡ some rest
longer-some rest h = elim (Bool-cases (rest == "")) [
  | inl y ↦ absurd (h ((eq_iff rest "").0 y))
  | inr n ↦ rw n refl
]

strip_scheme-postgres : (rest : String) → rest ≢ "" → strip_scheme ("postgres://" <> rest) ≡ rest
unfolding strip_scheme
strip_scheme-postgres rest h = rw (cut_prefix-append "postgres://" rest, longer-some rest h) refl

strip_scheme-postgresql :
    (rest : String) → rest ≢ "" → strip_scheme ("postgresql://" <> rest) ≡ rest
unfolding strip_scheme cut_prefix
strip_scheme-postgresql rest h =
    rw
      (
        cut_prefix-append_ne "postgresql://" "postgres://" rest refl refl,
        cut_prefix-append "postgresql://" rest,
        longer-some rest h,
      )
      refl

strip_scheme-mysql : (rest : String) → rest ≢ "" → strip_scheme ("mysql://" <> rest) ≡ rest
unfolding strip_scheme cut_prefix
strip_scheme-mysql rest h =
    rw
      (
        cut_prefix-append_ne "mysql://" "postgres://" rest refl refl,
        cut_prefix-append_ne "mysql://" "postgresql://" rest refl refl,
        cut_prefix-append "mysql://" rest,
        longer-some rest h,
      )
      refl

strip_scheme-IsScheme :
    (scheme rest : String)
    → IsScheme scheme
    → rest ≢ ""
    → strip_scheme (scheme <> ("://" <> rest)) ≡ rest
strip_scheme-IsScheme scheme rest (inl e) h =
    rw e (ap strip_scheme (sym (append_assoc "postgres" "://" rest)) ∙ strip_scheme-postgres rest h)
strip_scheme-IsScheme scheme rest (inr (inl e)) h =
    rw e (
      ap strip_scheme (sym (append_assoc "postgresql" "://" rest)) ∙ strip_scheme-postgresql rest h)
strip_scheme-IsScheme scheme rest (inr (inr e)) h =
    rw e (ap strip_scheme (sym (append_assoc "mysql" "://" rest)) ∙ strip_scheme-mysql rest h)

url_form : (a b c : Bool) → b ≡ true → (a && not b && c) ≡ false
url_form true true c h = refl
url_form false true c h = refl
url_form a false c h = cc

-- A data source name in the form of a URL, with one of the three schemes and something behind it,
-- keeps what stands behind the scheme, and gets the driver as its scheme.
pub migrate_url-IsScheme :
    (cfg : Config) (scheme rest : String)
    → IsScheme scheme
    → rest ≢ ""
    → cfg.db_dsn ≡ scheme <> ("://" <> rest)
    → migrate_url cfg ≡ ok (cfg.db_driver <> ("://" <> rest))
unfolding migrate_url
migrate_url-IsScheme cfg scheme rest known h dsn =
    let form : contains_text "://" cfg.db_dsn ≡ true =
      ap (contains_text "://") dsn ∙ contains_text-append scheme "://" rest in
    let rest_of : strip_scheme cfg.db_dsn ≡ rest =
      ap strip_scheme dsn ∙ strip_scheme-IsScheme scheme rest known h in
    rw (url_form (contains_text "=" cfg.db_dsn) _ (cfg.db_driver == db_driver_postgres) form)
      (ap (λ s. ok (cfg.db_driver <> ("://" <> s))) rest_of)
