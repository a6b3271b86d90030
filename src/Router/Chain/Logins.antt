-- ===== src/Router/Chain/Logins.antt =====
-- The budget of the logins in the chain of internal/router/router.go.
use go_fiber_starter.Prelude.{◌≡◌, refl, true, false, [], ◌∷◌, ◌++◌}
use go_fiber_starter.Apperror.{find_fiber, as_app_error}
use go_fiber_starter.Fiber.{Request}
use go_fiber_starter.World.{World}
use go_fiber_starter.Config.{Config}
use go_fiber_starter.Payload.{Payload}
use go_fiber_starter.Middleware.EffectiveStatus.{effective_status}
use go_fiber_starter.Middleware.RequestLogger.{request_logger}
use go_fiber_starter.Middleware.Prometheus.{prometheus, sample}
use go_fiber_starter.Router.ErrorHandler.{err_rate_limited, answer, error_handler, error_response}
use go_fiber_starter.Router.Chain.{
  Parts, login, login_limit, auth_service, dispatch, observed, serve,
}
use go_fiber_starter.Auth.Handler.{login_handler}
use go_fiber_starter.Router.Chain.Passage.{Passes, limit-Passes, answer_any_logs}

module _ {L S : Type 0} (parts : Parts L S) (cfg : Config) where
  -- A login that passes the global limiter, and is beyond the budget of the logins, is answered by
  -- 429 and the code RATE_LIMITED before its body is read: what the handlers change stays. Unlike a
  -- request that the global limiter refuses, it is counted, with that status.
  pub serve_login_limited :
      (c : Request) (w w0 : World L S)
      → cfg.auth_enabled ≡ true
      → Passes parts cfg c w w0
      → (parts.limiter.hit cfg.auth_rate_limit_per_minute c.ip w0.login_limiter).0 ≡ false
      → ((serve parts cfg login c w).0 ≡ error_response Payload 429 err_rate_limited)
        × ((serve parts cfg login c w).1.inner ≡ w0.inner)
        × ((serve parts cfg login c w).1.requests_total ≡ w0.requests_total ++ sample c 429 ∷ [])
  unfolding serve dispatch login_limit prometheus request_logger answer error_handler find_fiber
      as_app_error effective_status
  serve_login_limited c w w0 on passes beyond =
      rw (limit-Passes parts cfg (observed parts cfg (dispatch parts cfg login)) c w w0 passes)
        (rw (on, beyond) (refl, refl, refl))

  -- A login within both budgets: its response is that of the handler.
  pub served_login :
      (c : Request) (w w0 : World L S)
      → cfg.auth_enabled ≡ true
      → Passes parts cfg c w w0
      → (parts.limiter.hit cfg.auth_rate_limit_per_minute c.ip w0.login_limiter).0 ≡ true
      → (serve parts cfg login c w).0
        ≡ (answer Payload c
            (login_handler parts.jwt (auth_service cfg) parts.outside c w0.inner).0
            []).0
  unfolding serve dispatch login_limit prometheus request_logger
  served_login c w w0 on passes within =
      let r = (login_handler parts.jwt (auth_service cfg) parts.outside c w0.inner).0 in
      rw (limit-Passes parts cfg (observed parts cfg (dispatch parts cfg login)) c w w0 passes)
        (rw (on, within) (answer_any_logs Payload c r _ []))
