-- ===== src/Router/Chain/Guarded.antt =====
-- The guard of the task API in the chain of internal/router/router.go.
use go_fiber_starter.Prelude.{◌≡◌, sym, ap, ◌∙◌, ◌⊎◌, inl, inr, true, some, [], ok, String, Bool}
use go_fiber_starter.Apperror.{err_unauthorized}
use go_fiber_starter.Fiber.{Request, Identity}
use go_fiber_starter.World.{World}
use go_fiber_starter.Config.{Config}
use go_fiber_starter.Payload.{Payload}
use go_fiber_starter.Middleware.RequestLogger.{request_logger}
use go_fiber_starter.Middleware.Prometheus.{prometheus}
use go_fiber_starter.Task.Routes.{Operation, run}
use go_fiber_starter.Auth.Service
use go_fiber_starter.Auth.Handler.{bearer_token}
use go_fiber_starter.Auth.Handler.Guard.{require_auth_cases}
use go_fiber_starter.Router.ErrorHandler.{err_rate_limited, answer, error_response}
use go_fiber_starter.Router.Chain.{
  Parts, tasks, auth_service, dispatch, observed, serve, task_handler,
}
use go_fiber_starter.Router.Chain.Passage.{
  answer_any_logs, Passes, limit-Passes, limit_cases, serve_limited,
}

module _ {L S : Type 0} (parts : Parts L S) (cfg : Config) where
  -- A request to the task API that passes the limiter: its response and what the handlers change.
  pub served_task :
      (op : Operation) (b : Bool) (c : Request) (w w0 : World L S)
      → cfg.auth_enabled ≡ b
      → Passes parts cfg c w w0
      → ((serve parts cfg (tasks op) c w).0
          ≡ (answer Payload c (task_handler parts cfg b op c w0.inner).0 []).0)
        × ((serve parts cfg (tasks op) c w).1.inner ≡ (task_handler parts cfg b op c w0.inner).1)
  unfolding serve dispatch prometheus request_logger
  served_task op b c w w0 on passes =
      rw (limit-Passes parts cfg (observed parts cfg (dispatch parts cfg (tasks op))) c w w0 passes)
        (
          answer_any_logs Payload c (task_handler parts cfg cfg.auth_enabled op c w0.inner).0
                (observed parts cfg (dispatch parts cfg (tasks op)) c w0).1.logs []
              ∙ ap (λ x. (answer Payload c (task_handler parts cfg x op c w0.inner).0 []).0) on,
          ap (λ x. (task_handler parts cfg x op c w0.inner).1) on,
        )

  -- With authentication on, a request to the task API changes what the handlers change only as the
  -- user of a token that the service accepts, and then by its handler alone. Every other request
  -- leaves it as it was, and is answered by the 401 or the 429 response.
  pub serve_guarded :
      (op : Operation) (c : Request) (w : World L S)
      → cfg.auth_enabled ≡ true
      → ((token : String) × (id : Identity) × (bearer_token c.authorization ≡ some token)
          × (Service.verify parts.jwt (auth_service cfg) (parts.outside.now w.inner) token ≡ ok id)
          × ((serve parts cfg (tasks op) c w).1.inner
              ≡ (run parts.binder parts.repo op (record c { identity = some id }) w.inner).1))
        ⊎ (((serve parts cfg (tasks op) c w).1.inner ≡ w.inner)
            × (((serve parts cfg (tasks op) c w).0 ≡ error_response Payload 401 err_unauthorized)
                ⊎ ((serve parts cfg (tasks op) c w).0
                    ≡ error_response Payload 429 err_rate_limited)))
  serve_guarded op c w on = elim (limit_cases parts cfg c w) [
    | inr (no_skip, beyond) ↦
        let (limited, kept, counted, timed, logins, logged) =
          serve_limited parts cfg (tasks op) c w no_skip beyond in
        inr (kept, inr limited)
    | inl (w0, passes, same) ↦
        let (response, changed) = served_task op true c w w0 on passes in
        elim (require_auth_cases parts.jwt (auth_service cfg) parts.outside
          (run parts.binder parts.repo op) c w0.inner []) [
            | inl (token, id, bearer, accepted, ran) ↦ inl (
              token,
              id,
              bearer,
              ap (λ s. Service.verify parts.jwt (auth_service cfg) (parts.outside.now s) token)
                    (sym same)
                  ∙ accepted,
              changed
                  ∙ ap (λ x. x.1) ran
                  ∙ ap (λ s. (run parts.binder parts.repo op (record c { identity = some id }) s).1)
                      same,
            )
            | inr (kept, refused) ↦ inr (changed ∙ kept ∙ same, inl (response ∙ refused))
          ]
  ]
