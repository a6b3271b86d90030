-- ===== src/Router/Chain/Inner.antt =====
-- The whole chain of internal/router/router.go around a handler that does not panic.
use go_fiber_starter.Prelude.{ℕ, ◌≡◌, refl, ap, ◌⊎◌, inl, inr}
use go_fiber_starter.Fiber.{Response, empty}
use go_fiber_starter.World.{World}
use go_fiber_starter.Config.{Config}
use go_fiber_starter.Payload.{Payload}
use go_fiber_starter.Router.Chain.{Parts, Endpoint, dispatch, serve}
use go_fiber_starter.Router.Chain.Panics.{returning, serve_returning}
use go_fiber_starter.Router.Chain.Outer.{
  Headers, Arrival, Verdict, passes, answers, Outer, Delivery, identified, delivered, judged,
  serve_whole,
}

module _ {L S : Type 0} (parts : Parts L S) (cfg : Config) (outer : Outer) (endpoint : Endpoint)
    (a : Arrival) (w : World L S) where
  -- The middleware for CORS passes the request on, and the rest is one request to `serve`.
  abbrev pub IsPassed : Verdict → Delivery × World L S → Type 0
  IsPassed v r =
      (hs : Headers) × (v ≡ passes hs)
      × (r ≡ (
        delivered outer a (passes hs) (serve parts cfg endpoint (identified outer a) w).0,
        (serve parts cfg endpoint (identified outer a) w).1,
      ))

  -- It answers the request itself, and nothing else sees it.
  abbrev pub IsAnswered : Verdict → Delivery × World L S → Type 0
  IsAnswered v r =
      (status : ℕ) × (hs : Headers) × (v ≡ answers status hs)
      × (r ≡ (delivered outer a v (record { status = status; body = empty }), w))

  judged-returning :
      (v : Verdict)
      → IsPassed v (judged parts cfg outer (returning (dispatch parts cfg endpoint)) a w v)
        ⊎ IsAnswered v (judged parts cfg outer (returning (dispatch parts cfg endpoint)) a w v)
  judged-returning (passes hs) = inl (
    hs,
    refl,
    ap (λ (x : Response Payload × World L S). (delivered outer a (passes hs) x.0, x.1))
        (serve_returning parts cfg endpoint (identified outer a) w),
  )
  judged-returning (answers status hs) = inr (status, hs, refl, refl)

  -- Around a handler that does not panic, a request to the whole chain is a request to `serve`, with
  -- its id and the headers of the outer middlewares; or the middleware for CORS answers it, and then
  -- nothing is counted, logged, charged to a budget or changed.
  pub serve_whole-returning :
      IsPassed
        (outer.cors cfg.cors_allowed_origins a)
        (serve_whole parts cfg outer (returning (dispatch parts cfg endpoint)) a w)
      ⊎ IsAnswered
          (outer.cors cfg.cors_allowed_origins a)
          (serve_whole parts cfg outer (returning (dispatch parts cfg endpoint)) a w)
  unfolding serve_whole
  serve_whole-returning = judged-returning (outer.cors cfg.cors_allowed_origins a)
