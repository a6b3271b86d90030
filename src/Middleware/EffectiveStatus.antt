-- ===== src/Middleware/EffectiveStatus.antt =====
-- internal/middleware/effective_status.go. The result of `c.Next()` is an error, or nil and a
-- response whose status is read.
use go_fiber_starter.Prelude.{ℕ, Option, none, some, Result, ok, err, leb, if◌then◌else◌}
use go_fiber_starter.Apperror.{GoError, FiberError, status, find_fiber, as_app_error}
use go_fiber_starter.Fiber.{Response}

-- The clamp of every server error to 500.
abbrev pub clamp_status : ℕ → ℕ
clamp_status s = if leb 500 s then 500 else s

abbrev pub error_status_from : Option FiberError → GoError → ℕ
error_status_from (some fe) e = fe.code
error_status_from none e = clamp_status (status (as_app_error e))

unfoldable pub effective_status : {A : Type 0} → Result GoError (Response A) → ℕ
effective_status (ok r) = r.status
effective_status (err e) = error_status_from (find_fiber e) e
