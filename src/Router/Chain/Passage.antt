-- ===== src/Router/Chain/Passage.antt =====
-- What happens to a request on its way through the chain of internal/router/router.go.
use go_fiber_starter.Prelude.{
  ℕ, ◌≡◌, ◌≢◌, All, refl, sym, ap, ◌∙◌, ◌⊎◌, inl, inr, true, false, List, [], ◌∷◌, ◌++◌, Result, ok,
  err, Bool-cases, Option-cases, leb,
}
use mathlib.Core.List.{append-nil, append_assoc}
use go_fiber_starter.Apperror.{GoError, app, find_fiber, as_app_error, status}
use go_fiber_starter.Fiber.{Request, Response, Handler}
use go_fiber_starter.Log.{Entry, warn}
use go_fiber_starter.World.{World}
use go_fiber_starter.Config.{Config}
use go_fiber_starter.Payload.{Payload}
use go_fiber_starter.Middleware.EffectiveStatus.{effective_status}
use go_fiber_starter.Middleware.RequestLogger.{request_logger, request_entry}
use go_fiber_starter.Middleware.Prometheus.{prometheus, sample}
use go_fiber_starter.Router.ErrorHandler.{
  err_rate_limited, error_fields, answer, error_handler, error_response,
}
use go_fiber_starter.Router.Observed.{effective_status-error_handler}
use go_fiber_starter.Router.Chain.{
  Parts, Endpoint, skip_rate_limit, global_limit, dispatch, observed, serve,
}

observed_status :
    (A : Type 0) (c : Request) (r : Result GoError (Response A)) (logs : List Entry)
    → effective_status r ≡ (answer A c r logs).0.status
unfolding effective_status answer
observed_status A c (ok r) logs = refl
observed_status A c (err e) logs = effective_status-error_handler A c e logs

-- Entries of another kind than the request log.
abbrev pub IsOther : List Entry → Type 0
IsOther entries = All (λ entry. entry.message ≢ "http_request") entries

-- The error handler adds to the log, and takes nothing away.
kept_logs :
    (A : Type 0) (c : Request) (r : Result GoError (Response A)) (logs : List Entry)
    → (rest : List Entry) × ((answer A c r logs).1 ≡ logs ++ rest) × IsOther rest
unfolding answer error_handler
kept_logs A c (ok r) logs = ([], sym (append-nil logs), tt)
kept_logs A c (err e) logs = elim (Option-cases (find_fiber e)) [
  | inl n ↦ elim (Bool-cases (leb 500 (status (as_app_error e)))) [
    | inl big ↦ rw (n, big) (_, refl, ((λ e. cc), tt))
    | inr small ↦ rw (n, small) (_, refl, ((λ e. cc), tt))
  ]
  | inr (fe, n) ↦ rw n ([], sym (append-nil logs), tt)
]

-- The response does not depend on the log.
pub answer_any_logs :
    (A : Type 0) (c : Request) (r : Result GoError (Response A)) (logs logs' : List Entry)
    → (answer A c r logs).0 ≡ (answer A c r logs').0
unfolding answer error_handler
answer_any_logs A c (ok r) logs logs' = refl
answer_any_logs A c (err e) logs logs' = elim (Option-cases (find_fiber e)) [
  | inl n ↦ elim (Bool-cases (leb 500 (status (as_app_error e)))) [
    | inl big ↦ rw (n, big) refl
    | inr small ↦ rw (n, small) refl
  ]
  | inr (fe, n) ↦ rw n refl
]

-- What is recorded of a handler's result is what the client gets.
recorded :
    (c : Request) (r : Result GoError (Response Payload)) (logs : List Entry) (elapsed : ℕ)
    → (rest : List Entry) × ((answer Payload c r
          (logs ++ request_entry elapsed c (effective_status r) ∷ [])).1
        ≡ logs
          ++ request_entry elapsed c
              (answer Payload c r
                (logs ++ request_entry elapsed c (effective_status r) ∷ [])).0.status
            ∷ rest)
      × IsOther rest
recorded c r logs elapsed =
    let entry = request_entry elapsed c (effective_status r) in
    let (rest, kept, other) = kept_logs Payload c r (logs ++ entry ∷ []) in
    (
      rest,
      kept
          ∙ append_assoc logs (entry ∷ []) rest
          ∙ ap (λ s. logs ++ request_entry elapsed c s ∷ rest)
              (observed_status Payload c r (logs ++ entry ∷ [])),
      other,
    )

module _ {L S : Type 0} (parts : Parts L S) (cfg : Config) where
  -- The request passes the limiter: its path is left out of it, or it is within the budget. The
  -- last argument is what the limiter leaves.
  abbrev pub Passes : Request → World L S → World L S → Type 0
  Passes c w w0 =
      ((skip_rate_limit c.path ≡ true) × (w0 ≡ w))
      ⊎ ((skip_rate_limit c.path ≡ false)
          × ((parts.limiter.hit cfg.rate_limit_per_minute c.ip w.limiter).0 ≡ true)
          × (w0 ≡ record w {
            limiter = (parts.limiter.hit cfg.rate_limit_per_minute c.ip w.limiter).1;
          }))

  pub limit-Passes :
      (next : Handler (World L S) Payload) (c : Request) (w w0 : World L S)
      → Passes c w w0
      → global_limit parts cfg next c w ≡ next c w0
  unfolding global_limit
  limit-Passes next c w w0 (inl (skip, same)) = rw (skip, same) refl
  limit-Passes next c w w0 (inr (no_skip, within, same)) = rw (no_skip, within, same) refl

  pub serve_observed :
      (endpoint : Endpoint) (c : Request) (w w0 : World L S)
      → Passes c w w0
      → ((serve parts cfg endpoint c w).1.requests_total
          ≡ (dispatch parts cfg endpoint c w0).1.requests_total
            ++ sample c (serve parts cfg endpoint c w).0.status ∷ [])
        × ((elapsed : ℕ) × (rest : List Entry) × ((serve parts cfg endpoint c w).1.logs
              ≡ (dispatch parts cfg endpoint c w0).1.logs
                ++ request_entry elapsed c (serve parts cfg endpoint c w).0.status ∷ rest)
            × IsOther rest)
  unfolding serve prometheus request_logger
  serve_observed endpoint c w w0 passes =
      let (r, w1) = dispatch parts cfg endpoint c w0 in
      let (rest, logged, other) = recorded c r w1.logs (parts.elapsed w0 w1) in
      rw (limit-Passes (observed parts cfg (dispatch parts cfg endpoint)) c w w0 passes) (
        ap (λ s. w1.requests_total ++ sample c s ∷ []) (observed_status Payload c r _),
        (parts.elapsed w0 w1, rest, logged, other),
      )

  -- A request beyond the budget is answered by 429 and the code RATE_LIMITED. Nothing behind the
  -- limiter has run: the state of the handlers, the metrics and the login budget stay, and the log
  -- gains but the entry of the error handler.
  pub serve_limited :
      (endpoint : Endpoint) (c : Request) (w : World L S)
      → skip_rate_limit c.path ≡ false
      → (parts.limiter.hit cfg.rate_limit_per_minute c.ip w.limiter).0 ≡ false
      → ((serve parts cfg endpoint c w).0 ≡ error_response Payload 429 err_rate_limited)
        × ((serve parts cfg endpoint c w).1.inner ≡ w.inner)
        × ((serve parts cfg endpoint c w).1.requests_total ≡ w.requests_total)
        × ((serve parts cfg endpoint c w).1.durations ≡ w.durations)
        × ((serve parts cfg endpoint c w).1.login_limiter ≡ w.login_limiter)
        × ((serve parts cfg endpoint c w).1.logs
            ≡ w.logs
              ++ record {
                level = warn;
                message = "request rejected";
                attrs = error_fields c (app err_rate_limited);
              }
                ∷ [])
  unfolding serve global_limit answer error_handler find_fiber as_app_error
  serve_limited endpoint c w no_skip beyond =
      rw (no_skip, beyond) (refl, refl, refl, refl, refl, refl)

  pub limit_cases :
      (c : Request) (w : World L S)
      → ((w0 : World L S) × Passes c w w0 × (w0.inner ≡ w.inner))
        ⊎ ((skip_rate_limit c.path ≡ false)
            × ((parts.limiter.hit cfg.rate_limit_per_minute c.ip w.limiter).0 ≡ false))
  limit_cases c w = elim (Bool-cases (skip_rate_limit c.path)) [
    | inl skip ↦ inl (w, inl (skip, refl), refl)
    | inr no_skip ↦
        elim (Bool-cases (parts.limiter.hit cfg.rate_limit_per_minute c.ip w.limiter).0) [
          | inl within ↦ inl (_, inr (no_skip, within, refl), refl)
          | inr beyond ↦ inr (no_skip, beyond)
        ]
  ]
