-- ===== src/Router/Chain/Panics.antt =====
-- The chain of internal/router/router.go around handlers that may panic. The middleware that
-- recovers is registered before the limiter and the observers, which do not defer anything.
use go_fiber_starter.Prelude.{
  ◌≡◌, refl, ap, ◌∙◌, inl, inr, Bool, true, false, none, [], ◌∷◌, ◌++◌, Result, err, if◌then◌else◌,
  Bool-cases,
}
use go_fiber_starter.Apperror.{GoError, app, find_app, find_fiber, as_app_error, err_internal}
use go_fiber_starter.Fiber.{Request, Response, Handler}
use go_fiber_starter.Log.{error}
use go_fiber_starter.World.{World}
use go_fiber_starter.Config.{Config}
use go_fiber_starter.Payload.{Payload}
use go_fiber_starter.Middleware.RequestLogger.{request_logger}
use go_fiber_starter.Middleware.Prometheus.{prometheus}
use go_fiber_starter.Router.ErrorHandler.{
  err_rate_limited, error_fields, answer, error_handler, error_response,
}
use go_fiber_starter.Router.Chain.{
  Parts, skip_rate_limit, global_limit, observed, Endpoint, dispatch, serve,
}
use go_fiber_starter.Router.Chain.Passage.{Passes}

-- A handler returns, or it panics with a value, which is here the error that the recovering
-- middleware makes of it. What it has changed before stays.
pub data Outcome : Type 0 where
  returned : Result GoError (Response Payload) → Outcome
  panicked : GoError → Outcome

abbrev pub Panicking : Type 0 → Type 0
Panicking S = Request → S → Outcome × S

abbrev pub on_inner : {L S : Type 0} → Panicking S → Panicking (World L S)
on_inner h c w = let (o, s) = h c w.inner in (o, record w { inner = s })

-- A handler that does not panic.
abbrev pub returning : {S : Type 0} → Handler S Payload → Panicking S
returning h c s = let (r, s') = h c s in (returned r, s')

-- A middleware that calls `c.Next()` once and then goes on, around what has come of it: a panic
-- passes by.
abbrev pub around :
    {S : Type 0} → (Handler S Payload → Handler S Payload) → Request → S → Outcome × S → Outcome × S
around middleware c s (returned r, s') =
    let (r', s'') = middleware (λ c' before. (r, s')) c s in (returned r', s'')
around middleware c s (panicked e, s') = (panicked e, s')

-- The middleware `recover` of the framework makes an error of a panic.
abbrev pub recovered : {S : Type 0} → Outcome × S → Result GoError (Response Payload) × S
recovered (returned r, s) = (r, s)
recovered (panicked e, s) = (err e, s)

abbrev admit_panicking : {S : Type 0} → Bool → Panicking S → Panicking S
admit_panicking true next c s = next c s
admit_panicking false next c s = (returned (err (app err_rate_limited)), s)

module _ {L S : Type 0} (parts : Parts L S) (cfg : Config) where
  abbrev pub observed_panicking : Panicking (World L S) → Panicking (World L S)
  observed_panicking next c w = around (observed parts cfg) c w (next c w)

  abbrev pub limit_panicking : Panicking (World L S) → Panicking (World L S)
  unfolding skip_rate_limit
  limit_panicking next c w =
      let (within, budgets) = parts.limiter.hit cfg.rate_limit_per_minute c.ip w.limiter in
      if skip_rate_limit c.path
      then next c w
      else admit_panicking within next c (record w { limiter = budgets })

  -- One request to a handler, from `recover` to the response.
  unfoldable pub serve_panicking :
      Panicking (World L S) → Request → World L S → Response Payload × World L S
  unfolding skip_rate_limit answer prometheus request_logger
  serve_panicking next c w =
      let (r, w') = recovered (limit_panicking (observed_panicking next) c w) in
      let (response, logs) = answer Payload c r w'.logs in (response, record w' { logs = logs })

  limit_panicking-Passes :
      (next : Panicking (World L S)) (c : Request) (w w0 : World L S)
      → Passes parts cfg c w w0
      → limit_panicking next c w ≡ next c w0
  unfolding skip_rate_limit
  limit_panicking-Passes next c w w0 (inl (skip, same)) = rw (skip, same) refl
  limit_panicking-Passes next c w w0 (inr (no_skip, within, same)) = rw (no_skip, within, same) refl

  -- What becomes of a panic whose value holds no error of the program or of the framework.
  pub record IsUnseen (h : Panicking S) (c : Request) (w : World L S) : Type 0 where
    pub response : (serve_panicking (on_inner h) c w).0 ≡ error_response Payload 500 err_internal
    pub not_counted : (serve_panicking (on_inner h) c w).1.requests_total ≡ w.requests_total
    pub not_timed : (serve_panicking (on_inner h) c w).1.durations ≡ w.durations
    pub logged :
        (e : GoError) × ((h c w.inner).0 ≡ panicked e)
        × ((serve_panicking (on_inner h) c w).1.logs
            ≡ w.logs
              ++ record { level = error; message = "request failed"; attrs = error_fields c e }
                ∷ [])
    pub left : (serve_panicking (on_inner h) c w).1.inner ≡ (h c w.inner).1

  Passes-fields :
      (c : Request) (w w0 : World L S)
      → Passes parts cfg c w w0
      → (w0.inner ≡ w.inner)
        × (w0.requests_total ≡ w.requests_total)
        × (w0.durations ≡ w.durations)
        × (w0.logs ≡ w.logs)
  Passes-fields c w w0 (inl (skip, same)) = (
    ap (λ x. x.inner) same,
    ap (λ x. x.requests_total) same,
    ap (λ x. x.durations) same,
    ap (λ x. x.logs) same,
  )
  Passes-fields c w w0 (inr (no_skip, within, same)) = (
    ap (λ x. x.inner) same,
    ap (λ x. x.requests_total) same,
    ap (λ x. x.durations) same,
    ap (λ x. x.logs) same,
  )

  -- A request that passes the limiter and whose handler panics is answered by 500 and the code
  -- INTERNAL_ERROR, and what the handler had changed before stays. It leaves one entry in the log, by
  -- the error handler, but none of the request log, and neither metric counts it: its panic passes by
  -- the observers. The value of the panic holds no error of the program or of the framework.
  pub panic-IsUnseen :
      (h : Panicking S) (c : Request) (w w0 : World L S) (e : GoError)
      → Passes parts cfg c w w0
      → (h c w.inner).0 ≡ panicked e
      → find_fiber e ≡ none
      → find_app e ≡ none
      → IsUnseen h c w
  unfolding serve_panicking answer error_handler as_app_error
  panic-IsUnseen h c w w0 e passes panics no_fiber no_app =
      let (inner, total, timed, logs) = Passes-fields c w w0 passes in
      let through = limit_panicking-Passes (observed_panicking (on_inner h)) c w w0 passes in
      let late : (h c w0.inner).0 ≡ panicked e = ap (λ s. (h c s).0) inner ∙ panics in
      record {
        response = rw through (rw late (rw (no_fiber, no_app) refl));
        not_counted = rw through (rw late total);
        not_timed = rw through (rw late timed);
        logged = (
          e,
          panics,
          rw through (
              rw late (
                rw (no_fiber, no_app)
                  (ap
                    (λ l.
                      l
                      ++ record {
                        level = error;
                        message = "request failed";
                        attrs = error_fields c e;
                      }
                        ∷ [])
                    logs))),
        );
        left = rw through (rw late (ap (λ s. (h c s).1) inner));
      }

  limit_returning :
      (h : Handler (World L S) Payload) (c : Request) (w : World L S)
      → recovered (limit_panicking (observed_panicking (returning h)) c w)
        ≡ global_limit parts cfg (observed parts cfg h) c w
  unfolding skip_rate_limit global_limit prometheus request_logger
  limit_returning h c w = elim (Bool-cases (skip_rate_limit c.path)) [
    | inl skip ↦ rw skip refl
    | inr no_skip ↦
        elim (Bool-cases (parts.limiter.hit cfg.rate_limit_per_minute c.ip w.limiter).0) [
          | inl within ↦ rw (no_skip, within) refl
          | inr beyond ↦ rw (no_skip, beyond) refl
        ]
  ]

  -- Around a handler that does not panic, the chain is that of `serve`.
  pub serve_returning :
      (endpoint : Endpoint) (c : Request) (w : World L S)
      → serve_panicking (returning (dispatch parts cfg endpoint)) c w ≡ serve parts cfg endpoint c w
  unfolding serve_panicking serve
  serve_returning endpoint c w =
      ap
        (λ (x : Result GoError (Response Payload) × World L S).
          let (response, logs) = answer Payload c x.0 x.1.logs in
          (response, record x.1 { logs = logs }))
        (limit_returning (dispatch parts cfg endpoint) c w)
