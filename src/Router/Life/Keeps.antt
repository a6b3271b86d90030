-- ===== src/Router/Life/Keeps.antt =====
-- What a step of a service leaves to the handlers' state.
use go_fiber_starter.Prelude.{
  ◌≡◌, refl, ap, some, [], ◌⊎◌, inl, inr, true, false, Result-cases, Bool,
}
use go_fiber_starter.Fiber.{Request, Handler}
use go_fiber_starter.World.{World}
use go_fiber_starter.Config.{Config}
use go_fiber_starter.Health
use go_fiber_starter.Payload.{Payload}
use go_fiber_starter.Middleware.RequestLogger.{request_logger}
use go_fiber_starter.Middleware.Prometheus.{prometheus}
use go_fiber_starter.Task.Routes.{Operation, run}
use go_fiber_starter.Auth.Handler.{login_handler}
use go_fiber_starter.Auth.Handler.Guard.{require_auth_cases}
use go_fiber_starter.Router.Chain.{
  task_handler, auth_service, Parts, Endpoint, livez, readyz, metrics, openapi, login, unmatched,
  tasks, login_limit, login_route, dispatch, observed, serve, openapi_spec_handler, admit,
}
use go_fiber_starter.Router.Chain.Passage.{Passes, limit-Passes, limit_cases, serve_limited}
use go_fiber_starter.Router.Life.{request, time, Reach, here, and_then}

module _ {L S : Type 0} (parts : Parts L S) (cfg : Config) where
  -- What the handlers change comes through the observers and the error handler as it is.
  pub served_inner :
      (endpoint : Endpoint) (c : Request) (w w0 : World L S)
      → Passes parts cfg c w w0
      → (serve parts cfg endpoint c w).1.inner ≡ (dispatch parts cfg endpoint c w0).1.inner
  unfolding serve prometheus request_logger
  served_inner endpoint c w w0 passes =
      rw (limit-Passes parts cfg (observed parts cfg (dispatch parts cfg endpoint)) c w w0 passes)
        refl

  admit_reads :
      (b : Bool) (h : Handler (World L S) Payload) (c : Request) (w : World L S)
      → ((w : World L S) → (h c w).1.inner ≡ w.inner)
      → (admit b h c w).1.inner ≡ w.inner
  admit_reads true h c w reads = reads w
  admit_reads false h c w reads = refl

  login_reads :
      (b : Bool) (c : Request) (w : World L S) → (login_route parts cfg b c w).1.inner ≡ w.inner
  unfolding login_limit login_handler
  login_reads false c w = refl
  login_reads true c w = admit_reads _ _ c _ (λ w'. refl)

  openapi_reads :
      (c : Request) (w : World L S) → (openapi_spec_handler parts.openapi_file c w).1 ≡ w
  unfolding openapi_spec_handler
  openapi_reads c w = elim (Result-cases parts.openapi_file) [
    | inl (yaml, e) ↦ rw e refl
    | inr (x, e) ↦ rw e refl
  ]

  -- The handlers of the other routes change nothing of the table.
  pub dispatch_reads :
      (endpoint : Endpoint) (c : Request) (w : World L S)
      → ((c : Request) (w : World L S) → (parts.metrics c w).1 ≡ w)
      → ((op : Operation) × (endpoint ≡ tasks op))
        ⊎ ((dispatch parts cfg endpoint c w).1.inner ≡ w.inner)
  unfolding dispatch Health.livez Health.readyz
  dispatch_reads livez c w reads = inr refl
  dispatch_reads readyz c w reads = inr refl
  dispatch_reads metrics c w reads = inr (ap (λ x. x.inner) (reads c w))
  dispatch_reads openapi c w reads = inr (ap (λ x. x.inner) (openapi_reads c w))
  dispatch_reads login c w reads = inr (login_reads cfg.auth_enabled c w)
  dispatch_reads unmatched c w reads = inr refl
  dispatch_reads (tasks op) c w reads = inl (op, refl)

  -- The guard keeps what the handler keeps. It hands on the request with the identity of the user.
  pub task_keeps :
      (K : S → Type 0) (b : Bool) (op : Operation) (c : Request) (s : S)
      → ((c' : Request) → c'.param_id ≡ c.param_id → K (run parts.binder parts.repo op c' s).1)
      → K s
      → K (task_handler parts cfg b op c s).1
  task_keeps K false op c s keeps k = keeps c refl
  task_keeps K true op c s keeps k =
      elim (require_auth_cases parts.jwt (auth_service cfg) parts.outside
        (run parts.binder parts.repo op) c s []) [
          | inl (token, id, bearer, accepted, ran) ↦
              let same = ap (λ x. x.1) ran in rw same (keeps (record c { identity = some id }) refl)
          | inr (kept, refused) ↦ rw kept k
        ]

  module _ (Sent : Endpoint → Request → Type 0) (K : S → Type 0)
      (keeps : (op : Operation) (c : Request) (s : S)
        → Sent (tasks op) c
        → K s
        → K (task_handler parts cfg cfg.auth_enabled op c s).1)
      (metrics_reads : (c : Request) (w : World L S) → (parts.metrics c w).1 ≡ w) where
    tasks_keeps :
        (op : Operation) (c : Request) (w : World L S)
        → Sent (tasks op) c
        → K w.inner
        → K (dispatch parts cfg (tasks op) c w).1.inner
    unfolding dispatch
    tasks_keeps op c w sent k = keeps op c w.inner sent k

    dispatch_keeps :
        (endpoint : Endpoint) (c : Request) (w : World L S)
        → Sent endpoint c
        → K w.inner
        → K (dispatch parts cfg endpoint c w).1.inner
    dispatch_keeps endpoint c w sent k = elim (dispatch_reads endpoint c w metrics_reads) [
      | inr same ↦ rw same k
      | inl (op, is) ↦ rw is (tasks_keeps op c w (rw is at sent) k)
    ]

    pub serve_keeps :
        (endpoint : Endpoint) (c : Request) (w : World L S)
        → Sent endpoint c
        → K w.inner
        → K (serve parts cfg endpoint c w).1.inner
    serve_keeps endpoint c w sent k = elim (limit_cases parts cfg c w) [
      | inl (w0, passes, same) ↦
          let before : K w0.inner = rw same k in
          rw (served_inner endpoint c w w0 passes) (dispatch_keeps endpoint c w0 sent before)
      | inr (no_skip, beyond) ↦
          let (limited, kept, counted, timed, logins, logged) =
            serve_limited parts cfg endpoint c w no_skip beyond in
          rw kept k
    ]

    -- What every request to the task API keeps, a service keeps for as long as it runs.
    pub Reach-keeps : (w w' : World L S) → Reach parts cfg Sent w w' → K w.inner → K w'.inner
    Reach-keeps w w' here k = k
    Reach-keeps w w' (and_then r (request endpoint c u sent)) k =
        serve_keeps endpoint c u sent (Reach-keeps w u r k)
    Reach-keeps w w' (and_then r (time u budgets logins)) k = Reach-keeps w u r k
