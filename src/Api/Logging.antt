-- ===== src/Api/Logging.antt =====
-- The levels of the log of cmd/api/main.go.
use go_fiber_starter.Prelude.{
  ◌≡◌, ◌↔◌, refl, inl, inr, true, false, ◌&&◌, none, [], String, Bool-cases,
}
use go_fiber_starter.Prelude.Int.{pos, ltb_ℤ}
use go_fiber_starter.Log.{Level, debug, info, warn, error}
use go_fiber_starter.Net.{codes}
use go_fiber_starter.Lowercase.{lower_codes, lower_is, lower_is_iff}
use go_fiber_starter.Config.{Config}
use go_fiber_starter.Config.Rules.{IsValid}
use go_fiber_starter.Database.{Query, trace, new_logger}
use go_fiber_starter.Api.{log_level, enabled, database_logger}

abbrev pub level_name : Level → String
level_name debug = "debug"
level_name info = "info"
level_name warn = "warn"
level_name error = "error"

-- With a valid configuration the log has the level that is named, in capitals or small letters: the
-- fallback of newLogger is never taken for another name.
pub log_level-IsValid :
    (cfg : Config) → IsValid cfg → lower_codes cfg.log_level ≡ codes (level_name (log_level cfg))
unfolding log_level
log_level-IsValid cfg valid = elim (Bool-cases (lower_is "debug" cfg.log_level)) [
  | inl y ↦ rw y ((lower_is_iff "debug" cfg.log_level).0 y)
  | inr n ↦ elim (Bool-cases (lower_is "warn" cfg.log_level)) [
    | inl y ↦ rw (n, y) ((lower_is_iff "warn" cfg.log_level).0 y)
    | inr n' ↦ elim (Bool-cases (lower_is "error" cfg.log_level)) [
      | inl y ↦ rw (n, n', y) ((lower_is_iff "error" cfg.log_level).0 y)
      | inr n'' ↦
          rw (n, n', n'')
            (elim valid.base.log_level [
              | inl e ↦ let no = (lower_is_iff "debug" cfg.log_level).1 e in cc
              | inr (inl e) ↦ e
              | inr (inr (inl e)) ↦ let no = (lower_is_iff "warn" cfg.log_level).1 e in cc
              | inr (inr (inr e)) ↦ let no = (lower_is_iff "error" cfg.log_level).1 e in cc
            ])
    ]
  ]
]

is_debug :
    (cfg : Config) → lower_is "debug" cfg.log_level ≡ true → enabled (log_level cfg) debug ≡ true
unfolding log_level
is_debug cfg y = rw y refl

not_debug :
    (cfg : Config) → lower_is "debug" cfg.log_level ≡ false → enabled (log_level cfg) debug ≡ false
unfolding log_level
not_debug cfg n = elim (Bool-cases (lower_is "warn" cfg.log_level)) [
  | inl y ↦ rw (n, y) refl
  | inr n' ↦ elim (Bool-cases (lower_is "error" cfg.log_level)) [
    | inl y ↦ rw (n, n', y) refl
    | inr n'' ↦ rw (n, n', n'') refl
  ]
]

-- A query that succeeds and is not slow leaves no entry in the log exactly if the configuration
-- names another level than debug.
pub trace-debug_iff :
    (cfg : Config) (q : Query)
    → (ltb_ℤ (pos 0) cfg.db_slow_query_threshold
        && ltb_ℤ cfg.db_slow_query_threshold (pos q.elapsed))
      ≡ false
    → (trace (database_logger cfg) q none ≡ []) ↔ ¬ (lower_codes cfg.log_level ≡ codes "debug")
unfolding trace database_logger new_logger
trace-debug_iff cfg q fast = elim (Bool-cases (lower_is "debug" cfg.log_level)) [
  | inl y ↦
      let debugging : enabled (log_level cfg) debug ≡ true = is_debug cfg y in
      rw (debugging, fast) ((λ h. cc), (λ h. absurd (h ((lower_is_iff "debug" cfg.log_level).0 y))))
  | inr n ↦
      let off = not_debug cfg n in
      rw (off, fast)
        ((λ h named. let y = (lower_is_iff "debug" cfg.log_level).1 named in cc), (λ h. refl))
]
