-- ===== src/World.antt =====
-- What a running service changes: the budgets of the rate limiters, the metrics, the log, and what
-- the handlers change.
use go_fiber_starter.Prelude.{List, String}
use go_fiber_starter.Fiber.{Handler}
use go_fiber_starter.Log.{Entry}

-- One increment of the counter `http_requests_total`, by its labels.
pub record Sample : Type 0 where
  pub method : String
  pub route : String
  pub status : String

-- `L` is the state of a limiter, `S` what the handlers change. `durations` has the labels of the
-- observations of the histogram.
pub record World (L S : Type 0) : Type 0 where
  pub limiter : L
  pub login_limiter : L
  pub requests_total : List Sample
  pub durations : List (String × String)
  pub logs : List Entry
  pub inner : S

-- A handler that changes its own part alone.
abbrev pub on_inner : {L S A : Type 0} → Handler S A → Handler (World L S) A
on_inner h c w = let (r, s) = h c w.inner in (r, record w { inner = s })
