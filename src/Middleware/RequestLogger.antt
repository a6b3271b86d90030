-- ===== src/Middleware/RequestLogger.antt =====
-- internal/middleware/requestlogger.go.
use go_fiber_starter.Prelude.{ℕ, List, [], ◌∷◌, ◌++◌, String, leb, if◌then◌else◌}
use go_fiber_starter.Fiber.{Request, Handler}
use go_fiber_starter.Log.{Level, info, warn, error, Entry, Value, text, number, thousandths}
use go_fiber_starter.World.{World}
use go_fiber_starter.Middleware.EffectiveStatus.{effective_status}
use package.text.Mathlib.Text.{◌==◌}

abbrev pub level_of : ℕ → Level
level_of status = if leb 500 status then error else if leb 400 status then warn else info

abbrev request_id_field : String → List (String × Value)
request_id_field id = if id == "" then [] else ("request_id", text id) ∷ []

-- `elapsed` is the time of the request in microseconds.
abbrev pub request_entry : (elapsed : ℕ) → Request → (status : ℕ) → Entry
request_entry elapsed c status = record {
  level = level_of status;
  message = "http_request";
  attrs =
      ("method", text c.method)
        ∷ ("path", text c.path)
        ∷ ("status", number status)
        ∷ ("latency_ms", thousandths elapsed)
        ∷ ("ip", text c.ip)
        ∷ []
      ++ request_id_field c.request_id;
}

-- `elapsed` reads the clock before and after.
unfoldable pub request_logger :
    {L S A : Type 0}
    → (elapsed : World L S → World L S → ℕ) → Handler (World L S) A
    → Handler (World L S) A
unfolding effective_status
request_logger elapsed next c w =
    let (r, w') = next c w in
    (r, record w' { logs = w'.logs ++ request_entry (elapsed w w') c (effective_status r) ∷ [] })
