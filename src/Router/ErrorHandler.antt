-- ===== src/Router/ErrorHandler.antt =====
-- `errorHandler` and `mapFiberError` of internal/router/router.go.
use go_fiber_starter.Prelude.{
  ℕ, Option, none, some, Result, ok, err, List, [], ◌∷◌, ◌++◌, String, leb, ◌==◌, if◌then◌else◌,
}
use go_fiber_starter.Prelude.Text.{decimal, ◌<>◌}
use go_fiber_starter.Apperror.{
  GoError, fiber, FiberError, AppError, app_error, nil, status, error_text, with_cause,
  err_not_found, err_internal, find_fiber, as_app_error,
}
use go_fiber_starter.Fiber.{Request, Response, envelope}
use go_fiber_starter.Httpx.{error_body}
use go_fiber_starter.Log.{Entry, warn, error, Value, text}

abbrev pub err_rate_limited : AppError
err_rate_limited = app_error "RATE_LIMITED" 429 "too many requests" [] nil

unfoldable pub map_fiber_error : FiberError → AppError
unfolding with_cause
map_fiber_error fe =
    if fe.code == 404
    then with_cause err_not_found (fiber fe)
    else if fe.code == 429
    then with_cause err_rate_limited (fiber fe)
    else if fe.code == 413
    then app_error "PAYLOAD_TOO_LARGE" fe.code "request body too large" [] nil
    else app_error ("HTTP_" <> decimal fe.code) fe.code fe.message [] nil

-- c.Status(status).JSON(httpx.ErrorBody(e))
abbrev pub error_response : (A : Type 0) → ℕ → AppError → Response A
error_response A status e = record { status = status; body = envelope (error_body A e) }

abbrev pub error_fields : Request → GoError → List (String × Value)
error_fields req e =
    ("error", text (error_text e))
    ∷ ("method", text req.method)
    ∷ ("path", text req.path)
    ∷ ("request_id", text req.request_id)
    ∷ []

abbrev pub answer_app :
    (A : Type 0) → Request → GoError → AppError → List Entry → Response A × List Entry
answer_app A req e app logs =
    if leb 500 (status app)
    then (
      error_response A 500 err_internal,
      logs ++ record { level = error; message = "request failed"; attrs = error_fields req e } ∷ [],
    )
    else (
      error_response A (status app) app,
      logs
          ++ record { level = warn; message = "request rejected"; attrs = error_fields req e } ∷ [],
    )

abbrev pub answer_error_from :
    (A : Type 0) → Request → GoError → Option FiberError → List Entry → Response A × List Entry
answer_error_from A req e (some fe) logs = (error_response A fe.code (map_fiber_error fe), logs)
answer_error_from A req e none logs = answer_app A req e (as_app_error e) logs

-- The error handler: the response, and the log with what it adds.
unfoldable pub error_handler :
    (A : Type 0) → Request → GoError → List Entry → Response A × List Entry
unfolding map_fiber_error error_body
error_handler A req e logs = answer_error_from A req e (find_fiber e) logs

-- What the framework does with the result of the chain: a response goes out as it is, and an error
-- goes to the error handler.
unfoldable pub answer :
    (A : Type 0) → Request → Result GoError (Response A) → List Entry → Response A × List Entry
unfolding error_handler
answer A req (ok r) logs = (r, logs)
answer A req (err e) logs = error_handler A req e logs
