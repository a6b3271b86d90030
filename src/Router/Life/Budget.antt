-- ===== src/Router/Life/Budget.antt =====
-- How many logins of one address a running service answers before its budget fills up again.
use go_fiber_starter.Prelude.{
  ℕ, suc, ◌+◌, ◌-◌, ◌≤◌, ◌≡◌, refl, ap, ◌∙◌, ◌⊎◌, inl, inr, true, false, ◌&&◌, not, Bool, List, [],
  ◌∷◌, String, Bool-cases, Result, ok, err, if◌then◌else◌, leb, arith,
}
use go_fiber_starter.Prelude.Int.{ℤ, pos, pos_part, ◌≤ℤ◌}
use go_fiber_starter.Apperror.{GoError}
use go_fiber_starter.Fiber.{Request}
use go_fiber_starter.World.{World}
use go_fiber_starter.Config.{Config}
use go_fiber_starter.Health
use go_fiber_starter.Middleware.RequestLogger.{request_logger}
use go_fiber_starter.Middleware.Prometheus.{prometheus}
use go_fiber_starter.Auth.Handler.{login_handler}
use go_fiber_starter.Router.Chain.{
  Limiter, Parts, Endpoint, livez, readyz, metrics, openapi, login, unmatched, tasks, login_limit,
  dispatch, observed, serve, openapi_spec_handler,
}
use go_fiber_starter.Router.Chain.Passage.{Passes, limit-Passes, limit_cases, serve_limited}
use go_fiber_starter.Router.Chain.Logins.{serve_login_limited}
use text.Mathlib.Text.{◌==◌}
use text.Mathlib.TextEquality.{eq_iff}

-- The documented behaviour of the limiter, between two changes by time: `spent` is what an address
-- has used up. A request that is let through uses one more, and stays within the maximum; no
-- request gives anything back.
pub record IsLimiter {L : Type 0} (limiter : Limiter L) (spent : String → L → ℕ) : Type 0 where
  pub within :
      (max : ℤ) (ip : String) (l : L)
      → pos 1 ≤ℤ max
      → (limiter.hit max ip l).0 ≡ true
      → (suc (spent ip l) ≤ spent ip (limiter.hit max ip l).1)
        × (spent ip (limiter.hit max ip l).1 ≤ pos_part max)
  pub keeps :
      (max : ℤ) (ip other : String) (l : L) → spent other l ≤ spent other (limiter.hit max ip l).1

abbrev too_many : ℕ → Bool
too_many status = leb 429 status && leb status 429

-- A login of the address that was not answered by 429.
abbrev pub attempt : String → Endpoint → Request → ℕ → ℕ
attempt ip login c status = if c.ip == ip && not (too_many status) then 1 else 0
attempt ip livez c status = 0
attempt ip readyz c status = 0
attempt ip metrics c status = 0
attempt ip openapi c status = 0
attempt ip unmatched c status = 0
attempt ip (tasks op) c status = 0

openapi_keeps :
    {L S : Type 0} (file : Result GoError String) (c : Request) (w : World L S)
    → (openapi_spec_handler file c w).1.login_limiter ≡ w.login_limiter
unfolding openapi_spec_handler
openapi_keeps (ok yaml) c w = refl
openapi_keeps (err e) c w = refl

module _ {L S : Type 0} (parts : Parts L S) (cfg : Config) where
  -- Among requests that are served one after the other.
  abbrev pub attempts : String → List (Endpoint × Request) → World L S → ℕ
  attempts ip [] w = 0
  attempts ip ((endpoint, c) ∷ rest) w =
      let (response, w') = serve parts cfg endpoint c w in
      attempt ip endpoint c response.status + attempts ip rest w'

  Passes-login_limiter :
      (c : Request) (w w0 : World L S)
      → Passes parts cfg c w w0
      → w0.login_limiter ≡ w.login_limiter
  Passes-login_limiter c w w0 (inl (skip, same)) = ap (λ x. x.login_limiter) same
  Passes-login_limiter c w w0 (inr (no_skip, within, same)) = ap (λ x. x.login_limiter) same

  served_logins :
      (endpoint : Endpoint) (c : Request) (w w0 : World L S)
      → Passes parts cfg c w w0
      → (serve parts cfg endpoint c w).1.login_limiter
        ≡ (dispatch parts cfg endpoint c w0).1.login_limiter
  unfolding serve prometheus request_logger
  served_logins endpoint c w w0 passes =
      rw (limit-Passes parts cfg (observed parts cfg (dispatch parts cfg endpoint)) c w w0 passes)
        refl

  -- What the limiter of the logins leaves.
  abbrev left_by : Request → World L S → L
  left_by c w = (parts.limiter.hit cfg.auth_rate_limit_per_minute c.ip w.login_limiter).1

  dispatch_login :
      (c : Request) (w : World L S)
      → cfg.auth_enabled ≡ true
      → (dispatch parts cfg login c w).1.login_limiter ≡ left_by c w
  unfolding dispatch login_limit login_handler
  dispatch_login c w on =
      elim (Bool-cases (parts.limiter.hit cfg.auth_rate_limit_per_minute c.ip w.login_limiter).0) [
        | inl y ↦ rw (on, y) refl
        | inr n ↦ rw (on, n) refl
      ]

  module _ (spent : String → L → ℕ) (laws : IsLimiter parts.limiter spent)
      (metrics_reads : (c : Request) (w : World L S) → (parts.metrics c w).1 ≡ w)
      (limited : pos 1 ≤ℤ cfg.auth_rate_limit_per_minute) (on : cfg.auth_enabled ≡ true) where
    abbrev budget : ℕ
    budget = pos_part cfg.auth_rate_limit_per_minute

    -- What a request that counts `n` attempts does to what the address has used up.
    abbrev Charges : String → ℕ → World L S → World L S → Type 0
    Charges ip n w w' =
        ((n ≡ 0) × (spent ip w.login_limiter ≤ spent ip w'.login_limiter))
        ⊎ ((n ≡ 1)
            × (suc (spent ip w.login_limiter) ≤ spent ip w'.login_limiter)
            × (spent ip w'.login_limiter ≤ budget))

    free :
        (ip : String) (n : ℕ) (w w' : World L S)
        → n ≡ 0
        → w'.login_limiter ≡ w.login_limiter
        → Charges ip n w w'
    free ip n w w' none same = inl (none, rw same (omega arith))

    no_attempt : (ip : String) (endpoint : Endpoint) (c : Request) → attempt ip endpoint c 429 ≡ 0
    no_attempt ip login c = elim (Bool-cases (c.ip == ip)) [ inl y ↦ rw y refl | inr n ↦ rw n refl ]
    no_attempt ip livez c = refl
    no_attempt ip readyz c = refl
    no_attempt ip metrics c = refl
    no_attempt ip openapi c = refl
    no_attempt ip unmatched c = refl
    no_attempt ip (tasks op) c = refl

    login-Charges :
        (ip : String) (c : Request) (w w0 w' : World L S) (status : ℕ)
        → w0.login_limiter ≡ w.login_limiter
        → w'.login_limiter ≡ left_by c w0
        → ((parts.limiter.hit cfg.auth_rate_limit_per_minute c.ip w0.login_limiter).0 ≡ false
            → status ≡ 429)
        → Charges ip (attempt ip login c status) w w'
    login-Charges ip c w w0 w' status before after refused =
        let keeps = laws.keeps cfg.auth_rate_limit_per_minute c.ip ip w0.login_limiter in
        elim (Bool-cases
          (parts.limiter.hit cfg.auth_rate_limit_per_minute c.ip w0.login_limiter).0) [
            | inr n ↦ inl (rw (refused n) (no_attempt ip login c), rw (after, ← before) keeps)
            | inl y ↦ elim (Bool-cases (c.ip == ip)) [
              | inr other ↦ inl (rw other refl, rw (after, ← before) keeps)
              | inl own ↦ elim (Bool-cases (too_many status)) [
                | inl many ↦ inl (rw (own, many) refl, rw (after, ← before) keeps)
                | inr few ↦
                    let (more, below) =
                      laws.within cfg.auth_rate_limit_per_minute c.ip w0.login_limiter limited y in
                    let same = (eq_iff c.ip ip).0 own in
                    inr (
                      rw (own, few) refl,
                      rw (after, ← before, ← same) more,
                      rw (after, ← same) below,
                    )
              ]
            ]
          ]

    passed-Charges :
        (ip : String) (endpoint : Endpoint) (c : Request) (w w0 : World L S)
        → Passes parts cfg c w w0
        → Charges ip
            (attempt ip endpoint c (serve parts cfg endpoint c w).0.status)
            w
            (serve parts cfg endpoint c w).1
    unfolding dispatch Health.livez Health.readyz openapi_spec_handler
    passed-Charges ip login c w w0 passes =
        login-Charges ip c w w0 (serve parts cfg login c w).1 _ (Passes-login_limiter c w w0 passes)
          (served_logins login c w w0 passes ∙ dispatch_login c w0 on)
          (λ beyond. ap (λ r. r.status) (serve_login_limited parts cfg c w w0 on passes beyond).0)
    passed-Charges ip metrics c w w0 passes = free ip 0 w (serve parts cfg metrics c w).1 refl (
        served_logins metrics c w w0 passes
        ∙ ap (λ x. x.login_limiter) (metrics_reads c w0)
        ∙ Passes-login_limiter c w w0 passes)
    passed-Charges ip openapi c w w0 passes = free ip 0 w (serve parts cfg openapi c w).1 refl (
        served_logins openapi c w w0 passes
        ∙ openapi_keeps parts.openapi_file c w0
        ∙ Passes-login_limiter c w w0 passes)
    passed-Charges ip livez c w w0 passes =
        free ip 0 w (serve parts cfg livez c w).1 refl
          (served_logins livez c w w0 passes ∙ Passes-login_limiter c w w0 passes)
    passed-Charges ip readyz c w w0 passes =
        free ip 0 w (serve parts cfg readyz c w).1 refl
          (served_logins readyz c w w0 passes ∙ Passes-login_limiter c w w0 passes)
    passed-Charges ip unmatched c w w0 passes =
        free ip 0 w (serve parts cfg unmatched c w).1 refl
          (served_logins unmatched c w w0 passes ∙ Passes-login_limiter c w w0 passes)
    passed-Charges ip (tasks op) c w w0 passes =
        free ip 0 w (serve parts cfg (tasks op) c w).1 refl
          (served_logins (tasks op) c w w0 passes ∙ Passes-login_limiter c w w0 passes)

    serve-Charges :
        (ip : String) (endpoint : Endpoint) (c : Request) (w : World L S)
        → Charges ip
            (attempt ip endpoint c (serve parts cfg endpoint c w).0.status)
            w
            (serve parts cfg endpoint c w).1
    serve-Charges ip endpoint c w = elim (limit_cases parts cfg c w) [
      | inl (w0, passes, same) ↦ passed-Charges ip endpoint c w w0 passes
      | inr (no_skip, beyond) ↦
          let (limited, kept, counted, timed, logins, logged) =
            serve_limited parts cfg endpoint c w no_skip beyond in
          free ip (attempt ip endpoint c (serve parts cfg endpoint c w).0.status) w
            (serve parts cfg endpoint c w).1
            (ap (λ r. attempt ip endpoint c r.status) limited ∙ no_attempt ip endpoint c) logins
    ]

    -- Whatever requests a service with authentication on and a positive budget of logins serves, one
    -- after the other, until time gives something back: the logins of one address that it answers
    -- by another status than 429, rightly or not, are at most as many as the address had left of
    -- that budget, over a limiter that behaves as documented and an exposition of the metrics that
    -- changes nothing.
    pub attempts_bounded :
        (ip : String) (requests : List (Endpoint × Request)) (w : World L S)
        → attempts ip requests w ≤ budget - spent ip w.login_limiter
    attempts_bounded ip [] w = omega arith
    attempts_bounded ip ((endpoint, c) ∷ rest) w =
        let later = attempts_bounded ip rest (serve parts cfg endpoint c w).1 in
        elim (serve-Charges ip endpoint c w) [
          | inl (none, more) ↦ rw none (omega arith)
          | inr (one, more, below) ↦ rw one (omega arith)
        ]
