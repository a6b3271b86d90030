-- ===== src/Router/Observed.antt =====
-- What a client is told of an error, and that the observers see the status that it gets.
use go_fiber_starter.Prelude.{
  ◌≤◌, ◌<◌, ◌≡◌, ◌≢◌, inl, inr, refl, none, some, List, [], err, Option-cases, String, arith,
}
use go_fiber_starter.Prelude.Text.{decimal, ◌<>◌}
use go_fiber_starter.Apperror.{
  GoError, fiber, app, FiberError, AppError, status, as_app_error, find_fiber, with_cause, errorf,
  find_app, app_error, nil, find_validation,
}
use go_fiber_starter.Fiber.{Request}
use go_fiber_starter.Validator.{bind_error_to_app_error}
use go_fiber_starter.Log.{Entry}
use go_fiber_starter.Middleware.EffectiveStatus.{effective_status}
use go_fiber_starter.Router.ErrorHandler.{error_handler, error_response}

-- The status that the observing middlewares compute from an error, before the error handler runs,
-- is the status of the response that the error handler then writes.
pub effective_status-error_handler :
    (A : Type 0) (req : Request) (e : GoError) (logs : List Entry)
    → effective_status {A = A} (err e) ≡ (error_handler A req e logs).0.status
unfolding effective_status error_handler
effective_status-error_handler A req e logs = ground arith

-- Two errors that hold no error of the framework and map to server statuses get the same response,
-- whatever they, the requests and the logs are.
pub error_handler_masks :
    (A : Type 0) (req req' : Request) (e e' : GoError) (logs logs' : List Entry)
    → find_fiber e ≡ none
    → find_fiber e' ≡ none
    → 500 ≤ status (as_app_error e)
    → 500 ≤ status (as_app_error e')
    → (error_handler A req e logs).0 ≡ (error_handler A req' e' logs').0
unfolding error_handler
error_handler_masks A req req' e e' logs logs' h h' k k' = ground arith

-- Each layer that wraps an error by `fmt.Errorf` and `%w` leaves the response to the client as it
-- would be without it.
pub error_handler-errorf :
    (A : Type 0) (req : Request) (prefix : String) (e : GoError) (logs : List Entry)
    → (error_handler A req (errorf prefix e) logs).0 ≡ (error_handler A req e logs).0
unfolding error_handler find_fiber as_app_error find_app with_cause
error_handler-errorf A req prefix e logs = elim (Option-cases (find_fiber e)) [
  | inl e' ↦ elim (Option-cases (find_app e)) [
    | inl n ↦ rw (e', n) refl
    | inr (a, n) ↦ rw (e', n) (ground arith)
  ]
  | inr (fe, e') ↦ rw e' refl
]

-- An error whose chain leads to an `AppError` of a status below 500, and to no error of the
-- framework, is answered by the status, code, message and details of that `AppError`.
pub error_handler_rejects :
    (A : Type 0) (req : Request) (e : GoError) (a : AppError) (logs : List Entry)
    → find_app e ≡ some a
    → find_fiber e ≡ none
    → status a < 500
    → (error_handler A req e logs).0 ≡ error_response A (status a) a
unfolding error_handler as_app_error
error_handler_rejects A req e a logs found clean small = rw (clean, found) (ground arith)

-- A failed bind whose error holds an error of the framework is answered by the framework's error,
-- as if that had been returned alone.
pub bind_fiber_error_escapes :
    (A : Type 0) (req : Request) (e : GoError) (fe : FiberError) (logs : List Entry)
    → find_fiber e ≡ some fe
    → (error_handler A req (app (bind_error_to_app_error e)) logs).0
      ≡ (error_handler A req (fiber fe) logs).0
unfolding error_handler find_fiber bind_error_to_app_error
bind_fiber_error_escapes A req e fe logs h = elim (Option-cases (find_validation e)) [
  | inl v ↦ rw v (rw h refl)
  | inr (es, v) ↦ rw v (rw h refl)
]

-- The message of an error of the framework reaches the client for every status but 404, 413 and
-- 429, the server statuses included.
pub fiber_message_exposed :
    (A : Type 0) (req : Request) (fe : FiberError) (logs : List Entry)
    → fe.code ≢ 404
    → fe.code ≢ 413
    → fe.code ≢ 429
    → (error_handler A req (fiber fe) logs).0
      ≡ error_response A fe.code (app_error ("HTTP_" <> decimal fe.code) fe.code fe.message [] nil)
unfolding error_handler find_fiber
fiber_message_exposed A req fe logs h k l = ground arith
