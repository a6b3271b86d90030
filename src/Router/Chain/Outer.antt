-- ===== src/Router/Chain/Outer.antt =====
-- The outer middlewares of `New` in internal/router/router.go: request ids, security headers and
-- CORS, which are the framework's.
use go_fiber_starter.Prelude.{ℕ, ◌≡◌, ◌≢◌, ◌⊎◌, Bool, true, List, [], ◌∷◌, ◌++◌, All, Any, String}
use go_fiber_starter.Fiber.{Request, Response, empty}
use go_fiber_starter.World.{World}
use go_fiber_starter.Config.{Config}
use go_fiber_starter.Payload.{Payload}
use go_fiber_starter.Router.Chain.{Parts}
use go_fiber_starter.Router.Chain.Panics.{Panicking, serve_panicking}

abbrev pub Headers : Type 0
Headers = List (String × String)

-- A request as it comes in, with the headers `Origin` and `Access-Control-Request-Method`.
pub record Arrival : Type 0 where
  pub request : Request
  pub origin : String
  pub requested_method : String

-- The middleware for CORS sets headers and passes the request on, or answers a preflight request.
pub data Verdict : Type 0 where
  passes : Headers → Verdict
  answers : (status : ℕ) → Headers → Verdict

abbrev pub headers_of : Verdict → Headers
headers_of (passes hs) = hs
headers_of (answers status hs) = hs

pub record Outer : Type 0 where
  -- the id of the request's own header, or a new one
  pub request_id : Arrival → String
  pub helmet : Arrival → Headers
  pub cors : (allow_origins : List String) → Arrival → Verdict

-- The response, with the headers that the outer middlewares have set. An error keeps them.
pub record Delivery : Type 0 where
  pub response : Response Payload
  pub headers : Headers

abbrev pub request_id_header : String
request_id_header = "X-Request-ID"

abbrev pub allow_origin_header : String
allow_origin_header = "Access-Control-Allow-Origin"

module _ (outer : Outer) where
  abbrev pub identified : Arrival → Request
  identified a = record a.request { request_id = outer.request_id a }

  abbrev pub delivered : Arrival → Verdict → Response Payload → Delivery
  delivered a v response = record {
    response = response;
    headers = (request_id_header, outer.request_id a) ∷ outer.helmet a ++ headers_of v;
  }

module _ {L S : Type 0} (parts : Parts L S) (cfg : Config) (outer : Outer) where
  abbrev pub judged : Panicking (World L S) → Arrival → World L S → Verdict → Delivery × World L S
  judged next a w (passes hs) =
      let (response, w') = serve_panicking parts cfg next (identified outer a) w in
      (delivered outer a (passes hs) response, w')
  judged next a w (answers status hs) =
      (delivered outer a (answers status hs) (record { status = status; body = empty }), w)

  -- One request through the whole chain of `New`.
  unfoldable pub serve_whole : Panicking (World L S) → Arrival → World L S → Delivery × World L S
  serve_whole next a w = judged next a w (outer.cors cfg.cors_allowed_origins a)

-- What the documentation of the middleware for CORS says of the one header, and that no other
-- middleware sets it. `matches` compares an entry of the list with an origin.
pub record IsOuter (outer : Outer) (matches : (entry origin : String) → Bool) : Type 0 where
  -- no list allows every origin, as a star among its entries does
  pub any_origin :
      (a : Arrival)
      → a.origin ≢ ""
      → Any (λ h. h ≡ (allow_origin_header, "*")) (headers_of (outer.cors [] a))
  pub listed :
      (os : List String) (a : Arrival)
      → os ≢ []
      → All (λ o. o ≢ "*") os
      → All
          (λ h.
            (h.0 ≢ allow_origin_header)
            ⊎ ((h.1 ≡ a.origin) × Any (λ o. matches o a.origin ≡ true) os))
          (headers_of (outer.cors os a))
  pub helmet_other : (a : Arrival) → All (λ h. h.0 ≢ allow_origin_header) (outer.helmet a)
