-- ===== src/Router/Chain/Handled.antt =====
-- What becomes of a request to the task API in the chain of internal/router/router.go.
use go_fiber_starter.Prelude.{
  ◌≡◌, ap, ◌∙◌, ◌⊎◌, inl, inr, true, false, some, [], Option, Bool-cases,
}
use go_fiber_starter.Apperror.{err_unauthorized}
use go_fiber_starter.Fiber.{Request, Response, Identity}
use go_fiber_starter.World.{World}
use go_fiber_starter.Config.{Config}
use go_fiber_starter.Payload.{Payload}
use go_fiber_starter.Task.Routes.{Operation, run}
use go_fiber_starter.Auth.Handler.Guard.{require_auth_cases}
use go_fiber_starter.Router.ErrorHandler.{err_rate_limited, answer, error_response}
use go_fiber_starter.Router.Chain.{Parts, tasks, auth_service, serve}
use go_fiber_starter.Router.Chain.Passage.{Passes, limit_cases, serve_limited}
use go_fiber_starter.Router.Chain.Guarded.{served_task}

-- The response of the limiter or of the guard to a request that they refuse.
abbrev pub IsRefused : Response Payload → Type 0
IsRefused x =
    (x ≡ error_response Payload 401 err_unauthorized)
    ⊎ (x ≡ error_response Payload 429 err_rate_limited)

module _ {L S : Type 0} (parts : Parts L S) (cfg : Config) where
  -- The handler has answered the request, with an identity or without.
  pub record IsHandled (op : Operation) (c : Request) (w : World L S) : Type 0 where
    pub identity : Option Identity
    pub response :
        (serve parts cfg (tasks op) c w).0
        ≡ (answer Payload c
            (run parts.binder parts.repo op (record c { identity = identity }) w.inner).0
            []).0
    pub state :
        (serve parts cfg (tasks op) c w).1.inner
        ≡ (run parts.binder parts.repo op (record c { identity = identity }) w.inner).1

  -- It was refused, and the handlers have changed nothing.
  abbrev pub IsKept : Operation → Request → World L S → Type 0
  IsKept op c w =
      IsRefused (serve parts cfg (tasks op) c w).0
      × ((serve parts cfg (tasks op) c w).1.inner ≡ w.inner)

  passed-IsHandled :
      (op : Operation) (c : Request) (w w0 : World L S)
      → Passes parts cfg c w w0
      → w0.inner ≡ w.inner
      → IsHandled op c w ⊎ IsKept op c w
  passed-IsHandled op c w w0 passes same = elim (Bool-cases cfg.auth_enabled) [
    | inr off ↦
        let (response, state) = served_task parts cfg op false c w w0 off passes in
        inl (record {
          identity = c.identity;
          response =
              response
              ∙ ap (λ s. (answer Payload c (run parts.binder parts.repo op c s).0 []).0) same;
          state = state ∙ ap (λ s. (run parts.binder parts.repo op c s).1) same;
        })
    | inl on ↦
        let (response, state) = served_task parts cfg op true c w w0 on passes in
        elim (require_auth_cases parts.jwt (auth_service cfg) parts.outside
          (run parts.binder parts.repo op) c w0.inner []) [
            | inl (token, id, bearer, accepted, ran) ↦
                let known = record c { identity = some id } in
                inl (record {
                  identity = some id;
                  response =
                      response
                      ∙ ap (λ r. (answer Payload c r.0 []).0) ran
                      ∙ ap (λ s. (answer Payload c (run parts.binder parts.repo op known s).0 []).0)
                          same;
                  state =
                      state
                      ∙ ap (λ r. r.1) ran
                      ∙ ap (λ s. (run parts.binder parts.repo op known s).1) same;
                })
            | inr (kept, refused) ↦ inr (inl (response ∙ refused), state ∙ kept ∙ same)
          ]
  ]

  -- A request to the task API is answered by its handler, or refused by the limiter or the guard.
  pub serve-IsHandled :
      (op : Operation) (c : Request) (w : World L S) → IsHandled op c w ⊎ IsKept op c w
  serve-IsHandled op c w = elim (limit_cases parts cfg c w) [
    | inl (w0, passes, same) ↦ passed-IsHandled op c w w0 passes same
    | inr (no_skip, beyond) ↦
        let (limited, kept, counted, timed, logins, logged) =
          serve_limited parts cfg (tasks op) c w no_skip beyond in
        inr (inr limited, kept)
  ]
