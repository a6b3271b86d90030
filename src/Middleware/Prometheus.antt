-- ===== src/Middleware/Prometheus.antt =====
-- internal/middleware/prometheus.go: the handler of the metrics.
use go_fiber_starter.Prelude.{ℕ, [], ◌∷◌, ◌++◌, String, if◌then◌else◌}
use go_fiber_starter.Prelude.Text.{decimal}
use go_fiber_starter.Fiber.{Request, Handler}
use go_fiber_starter.World.{World, Sample}
use go_fiber_starter.Middleware.EffectiveStatus.{effective_status}
use text.Mathlib.Text.{◌==◌}

-- The pattern of the matched route.
abbrev pub route_label : Request → String
route_label c = if c.route_path == "" then "unmatched" else c.route_path

abbrev pub sample : Request → ℕ → Sample
sample c status = record { method = c.method; route = route_label c; status = decimal status }

unfoldable pub prometheus : {L S A : Type 0} → Handler (World L S) A → Handler (World L S) A
unfolding effective_status
prometheus next c w =
    let (r, w') = next c w in
    (
      r,
      record w' {
        requests_total = w'.requests_total ++ sample c (effective_status r) ∷ [];
        durations = w'.durations ++ (c.method, route_label c) ∷ [];
      },
    )
