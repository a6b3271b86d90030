-- ===== src/Router/Life/Counted.antt =====
-- The metrics over the life of a service.
use go_fiber_starter.Prelude.{
  ◌≡◌, refl, ap, sym, ◌∙◌, inl, inr, true, false, [], ◌∷◌, ◌++◌, Bool, map, Result-cases, String,
}
use mathlib.Core.List.{map-append}
use go_fiber_starter.Fiber.{Request, Handler}
use go_fiber_starter.World.{World, Sample}
use go_fiber_starter.Config.{Config}
use go_fiber_starter.Health
use go_fiber_starter.Payload.{Payload}
use go_fiber_starter.Middleware.RequestLogger.{request_logger}
use go_fiber_starter.Middleware.Prometheus.{prometheus, route_label}
use go_fiber_starter.Auth.Handler.{login_handler}
use go_fiber_starter.Router.Chain.{
  Parts, Endpoint, livez, readyz, metrics, openapi, login, unmatched, tasks, login_limit,
  login_route, dispatch, observed, serve, openapi_spec_handler, admit,
}
use go_fiber_starter.Router.Chain.Passage.{
  Passes, limit-Passes, limit_cases, serve_observed, serve_limited,
}
use go_fiber_starter.Router.Life.{Reach, here, and_then, request, time}

abbrev pub labels : Sample → String × String
labels s = (s.method, s.route)

-- The histogram has observed the requests that the counter has counted, in their order.
abbrev pub IsCounted : {L S : Type 0} → World L S → Type 0
IsCounted w = w.durations ≡ map labels w.requests_total

-- Neither the counter nor the histogram differs.
record SameMetrics {L S : Type 0} (w w' : World L S) : Type 0 where
  counted : w'.requests_total ≡ w.requests_total
  timed : w'.durations ≡ w.durations

module _ {L S : Type 0} (parts : Parts L S) (cfg : Config)
    (metrics_reads : (c : Request) (w : World L S) → (parts.metrics c w).1 ≡ w) where
  admit-SameMetrics :
      (b : Bool) (h : Handler (World L S) Payload) (c : Request) (w : World L S)
      → ((w : World L S) → SameMetrics w (h c w).1)
      → SameMetrics w (admit b h c w).1
  admit-SameMetrics true h c w same = same w
  admit-SameMetrics false h c w same = record { counted = refl; timed = refl }

  login_route-SameMetrics :
      (b : Bool) (c : Request) (w : World L S) → SameMetrics w (login_route parts cfg b c w).1
  unfolding login_limit login_handler
  login_route-SameMetrics false c w = record { counted = refl; timed = refl }
  login_route-SameMetrics true c w =
      let m =
        admit-SameMetrics (parts.limiter.hit cfg.auth_rate_limit_per_minute c.ip w.login_limiter).0
          _ c
          (record w {
            login_limiter =
                (parts.limiter.hit cfg.auth_rate_limit_per_minute c.ip w.login_limiter).1;
          })
          (λ w'. record { counted = refl; timed = refl }) in
      record { counted = m.counted; timed = m.timed }

  dispatch-SameMetrics :
      (endpoint : Endpoint) (c : Request) (w : World L S)
      → SameMetrics w (dispatch parts cfg endpoint c w).1
  unfolding dispatch Health.livez Health.readyz openapi_spec_handler
  dispatch-SameMetrics livez c w = record { counted = refl; timed = refl }
  dispatch-SameMetrics readyz c w = record { counted = refl; timed = refl }
  dispatch-SameMetrics metrics c w = record {
    counted = ap (λ x. x.requests_total) (metrics_reads c w);
    timed = ap (λ x. x.durations) (metrics_reads c w);
  }
  dispatch-SameMetrics openapi c w = elim (Result-cases parts.openapi_file) [
    | inl (yaml, e) ↦ rw e (record { counted = refl; timed = refl })
    | inr (x, e) ↦ rw e (record { counted = refl; timed = refl })
  ]
  dispatch-SameMetrics login c w = login_route-SameMetrics cfg.auth_enabled c w
  dispatch-SameMetrics unmatched c w = record { counted = refl; timed = refl }
  dispatch-SameMetrics (tasks op) c w = record { counted = refl; timed = refl }

  Passes-SameMetrics : (c : Request) (w w0 : World L S) → Passes parts cfg c w w0 → SameMetrics w w0
  Passes-SameMetrics c w w0 (inl (skip, same)) = record {
    counted = ap (λ x. x.requests_total) same;
    timed = ap (λ x. x.durations) same;
  }
  Passes-SameMetrics c w w0 (inr (no_skip, within, same)) = record {
    counted = ap (λ x. x.requests_total) same;
    timed = ap (λ x. x.durations) same;
  }

  served_timed :
      (endpoint : Endpoint) (c : Request) (w w0 : World L S)
      → Passes parts cfg c w w0
      → (serve parts cfg endpoint c w).1.durations
        ≡ (dispatch parts cfg endpoint c w0).1.durations ++ (c.method, route_label c) ∷ []
  unfolding serve prometheus request_logger
  served_timed endpoint c w w0 passes =
      rw (limit-Passes parts cfg (observed parts cfg (dispatch parts cfg endpoint)) c w w0 passes)
        refl

  passed-IsCounted :
      (endpoint : Endpoint) (c : Request) (w w0 : World L S)
      → Passes parts cfg c w w0
      → IsCounted w
      → IsCounted (serve parts cfg endpoint c w).1
  passed-IsCounted endpoint c w w0 passes k =
      let before = Passes-SameMetrics c w w0 passes in
      let handled = dispatch-SameMetrics endpoint c w0 in
      let (counted, logged) = serve_observed parts cfg endpoint c w w0 passes in
      let timed = served_timed endpoint c w w0 passes in
      let total = handled.counted ∙ before.counted in
      let times = handled.timed ∙ before.timed in
      timed
      ∙ ap (λ l. l ++ (c.method, route_label c) ∷ []) (times ∙ k ∙ ap (map labels) (sym total))
      ∙ sym (map-append labels (dispatch parts cfg endpoint c w0).1.requests_total _)
      ∙ ap (map labels) (sym counted)

  serve-IsCounted :
      (endpoint : Endpoint) (c : Request) (w : World L S)
      → IsCounted w
      → IsCounted (serve parts cfg endpoint c w).1
  serve-IsCounted endpoint c w k = elim (limit_cases parts cfg c w) [
    | inl (w0, passes, same) ↦ passed-IsCounted endpoint c w w0 passes k
    | inr (no_skip, beyond) ↦
        let (limited, kept, counted, timed, logins, logged) =
          serve_limited parts cfg endpoint c w no_skip beyond in
        timed ∙ k ∙ ap (map labels) (sym counted)
  ]

  -- As long as a service runs, the histogram has observed exactly the requests that the counter has
  -- counted, by their methods and routes and in the same order, if it was so at the start and the
  -- exposition of the metrics changes nothing.
  pub Reach-IsCounted :
      (Sent : Endpoint → Request → Type 0) (w w' : World L S)
      → Reach parts cfg Sent w w'
      → IsCounted w
      → IsCounted w'
  Reach-IsCounted Sent w w' here k = k
  Reach-IsCounted Sent w w' (and_then r (request endpoint c u sent)) k =
      serve-IsCounted endpoint c u (Reach-IsCounted Sent w u r k)
  Reach-IsCounted Sent w w' (and_then r (time u budgets logins)) k = Reach-IsCounted Sent w u r k
