-- ===== src/Router/Chain/Traced.antt =====
-- The ids of requests in the log, through the whole chain of internal/router/router.go.
use go_fiber_starter.Prelude.{
  ℕ, ◌≡◌, ◌≢◌, refl, sym, ap, ◌∙◌, inl, inr, List, [], ◌++◌, Result, ok, err, String, All, Any,
  All-append, Bool-cases, Option-cases, leb,
}
use mathlib.Core.List.{append-nil, append_assoc}
use package.text.Mathlib.Text.{◌==◌}
use package.text.Mathlib.TextEquality.{eq_iff}
use go_fiber_starter.Apperror.{GoError, find_fiber, as_app_error, status}
use go_fiber_starter.Fiber.{Request, Response}
use go_fiber_starter.Log.{Entry, text}
use go_fiber_starter.World.{World}
use go_fiber_starter.Config.{Config}
use go_fiber_starter.Payload.{Payload}
use go_fiber_starter.Middleware.RequestLogger.{request_logger, request_entry}
use go_fiber_starter.Middleware.Prometheus.{prometheus}
use go_fiber_starter.Router.ErrorHandler.{answer, error_handler}
use go_fiber_starter.Router.Chain.{Parts, skip_rate_limit, observed}
use go_fiber_starter.Router.Chain.Panics.{
  Outcome, returned, panicked, Panicking, on_inner, around, recovered, limit_panicking,
  observed_panicking, serve_panicking,
}
use go_fiber_starter.Router.Chain.Outer.{
  Arrival, Verdict, passes, answers, Outer, request_id_header, serve_whole, judged, identified,
}

-- The entry has the id among its attributes.
abbrev pub IsOf : String → Entry → Type 0
IsOf id entry = Any (λ attr. attr ≡ ("request_id", text id)) entry.attrs

-- Something has added entries to a log, each of them with the id.
abbrev pub Adds : String → List Entry → List Entry → Type 0
Adds id before after = (new : List Entry) × (after ≡ before ++ new) × All (IsOf id) new

nothing_added : (id : String) (logs : List Entry) → Adds id logs logs
nothing_added id logs = ([], sym (append-nil logs), tt)

Adds-trans : (id : String) (a b c : List Entry) → Adds id a b → Adds id b c → Adds id a c
Adds-trans id a b c (xs, b_is, of_xs) (ys, c_is, of_ys) = (
  xs ++ ys,
  c_is ∙ ap (λ l. l ++ ys) b_is ∙ append_assoc a xs ys,
  All-append (IsOf id) xs ys of_xs of_ys,
)

answer-Adds :
    (c : Request) (r : Result GoError (Response Payload)) (logs : List Entry)
    → Adds c.request_id logs (answer Payload c r logs).1
unfolding answer error_handler
answer-Adds c (ok r) logs = nothing_added c.request_id logs
answer-Adds c (err e) logs = elim (Option-cases (find_fiber e)) [
  | inl n ↦ elim (Bool-cases (leb 500 (status (as_app_error e)))) [
    | inl big ↦ rw (n, big) (_, refl, (inr (inr (inr (inl refl))), tt))
    | inr small ↦ rw (n, small) (_, refl, (inr (inr (inr (inl refl))), tt))
  ]
  | inr (fe, n) ↦ rw n (nothing_added c.request_id logs)
]

request_entry-IsOf :
    (elapsed : ℕ) (c : Request) (status : ℕ)
    → c.request_id ≢ ""
    → IsOf c.request_id (request_entry elapsed c status)
request_entry-IsOf elapsed c status named = elim (Bool-cases (c.request_id == "")) [
  | inl none ↦ absurd (named ((eq_iff c.request_id "").0 none))
  | inr some ↦ rw some (inr (inr (inr (inr (inr (inl refl))))))
]

module _ {L S : Type 0} (parts : Parts L S) (cfg : Config) where
  around-Adds :
      (c : Request) (w w' : World L S) (o : Outcome)
      → c.request_id ≢ ""
      → Adds c.request_id w'.logs (recovered (around (observed parts cfg) c w (o, w'))).1.logs
  unfolding prometheus request_logger
  around-Adds c w w' (returned r) named = (_, refl, (request_entry-IsOf _ c _ named, tt))
  around-Adds c w w' (panicked e) named = nothing_added c.request_id w'.logs

  limited-Adds :
      (h : Panicking S) (c : Request) (w : World L S)
      → c.request_id ≢ ""
      → Adds c.request_id w.logs
          (recovered
            (limit_panicking parts cfg (observed_panicking parts cfg (on_inner h)) c w)).1.logs
  unfolding skip_rate_limit
  limited-Adds h c w named =
      let o = h c w.inner in
      let budgets = (parts.limiter.hit cfg.rate_limit_per_minute c.ip w.limiter).1 in
      let charged = record w { limiter = budgets } in
      elim (Bool-cases (skip_rate_limit c.path)) [
        | inl skip ↦ rw skip (around-Adds c w (record w { inner = o.1 }) o.0 named)
        | inr no_skip ↦
            elim (Bool-cases (parts.limiter.hit cfg.rate_limit_per_minute c.ip w.limiter).0) [
              | inl within ↦
                  rw (no_skip, within)
                    (around-Adds c charged (record charged { inner = o.1 }) o.0 named)
              | inr beyond ↦ rw (no_skip, beyond) (nothing_added c.request_id w.logs)
            ]
      ]

  served-Adds :
      (h : Panicking S) (c : Request) (w : World L S)
      → c.request_id ≢ ""
      → Adds c.request_id w.logs (serve_panicking parts cfg (on_inner h) c w).1.logs
  unfolding serve_panicking
  served-Adds h c w named =
      let (r, w') =
        recovered (limit_panicking parts cfg (observed_panicking parts cfg (on_inner h)) c w) in
      Adds-trans c.request_id w.logs w'.logs (answer Payload c r w'.logs).1
        (limited-Adds h c w named) (answer-Adds c r w'.logs)

  module _ (outer : Outer) (h : Panicking S) (a : Arrival) (w : World L S)
      (named : outer.request_id a ≢ "") where
    judged-Adds :
        (v : Verdict)
        → Adds (outer.request_id a) w.logs (judged parts cfg outer (on_inner h) a w v).1.logs
          × Any
              (λ x. x ≡ (request_id_header, outer.request_id a))
              (judged parts cfg outer (on_inner h) a w v).0.headers
    judged-Adds (passes hs) = (served-Adds h (identified outer a) w named, inl refl)
    judged-Adds (answers status hs) = (nothing_added (outer.request_id a) w.logs, inl refl)

    -- A request and its response share an id: every entry that the chain writes to the log for the
    -- request, as its request log or as its error, has the id, whether the request is refused, served,
    -- answered by an error or ends in a panic; and the response has it as its header X-Request-ID, if
    -- the middleware for the ids gives one that is not empty.
    pub serve_whole-Adds :
        Adds (outer.request_id a) w.logs (serve_whole parts cfg outer (on_inner h) a w).1.logs
        × Any
            (λ x. x ≡ (request_id_header, outer.request_id a))
            (serve_whole parts cfg outer (on_inner h) a w).0.headers
    unfolding serve_whole
    serve_whole-Adds = judged-Adds (outer.cors cfg.cors_allowed_origins a)
