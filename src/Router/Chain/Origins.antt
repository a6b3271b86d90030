-- ===== src/Router/Chain/Origins.antt =====
-- The origins that CORS allows in production: the line of CORS in internal/router/router.go with the
-- rule on CORS_ALLOWED_ORIGINS in internal/config/config.go.
use go_fiber_starter.Prelude.{
  ◌≡◌, ◌≢◌, refl, ◌⊎◌, inl, inr, Bool, true, List, [], ◌∷◌, ◌++◌, ok, String, All, Any, All-append,
  Any-append,
}
use go_fiber_starter.World.{World}
use go_fiber_starter.Config.{Config, validate, env_prod}
use go_fiber_starter.Config.Valid.{validate_iff}
use go_fiber_starter.Router.Chain.{Parts}
use go_fiber_starter.Router.Chain.Panics.{Panicking}
use go_fiber_starter.Router.Chain.Outer.{
  Headers, Arrival, Verdict, passes, answers, headers_of, Outer, IsOuter, allow_origin_header,
  request_id_header, serve_whole, judged,
}

-- The header names the origin of the request alone, and an entry of the list matches it.
abbrev pub IsNamed : ((entry origin : String) → Bool) → List String → String → Headers → Type 0
IsNamed matches os origin hs =
    All
      (λ h. (h.0 ≢ allow_origin_header) ⊎ ((h.1 ≡ origin) × Any (λ o. matches o origin ≡ true) os))
      hs

-- Every page of the web may read the response.
abbrev pub IsAny : Headers → Type 0
IsAny hs = Any (λ h. h ≡ (allow_origin_header, "*")) hs

nil_or : (os : List String) → (os ≡ []) ⊎ (os ≢ [])
nil_or [] = inl refl
nil_or (o ∷ os) = inr (λ h. cc)

other_IsNamed :
    (matches : (entry origin : String) → Bool) (os : List String) (origin : String) (hs : Headers)
    → All (λ h. h.0 ≢ allow_origin_header) hs
    → IsNamed matches os origin hs
other_IsNamed matches os origin [] h = tt
other_IsNamed matches os origin (x ∷ hs) (other, h) =
    (inl other, other_IsNamed matches os origin hs h)

module _ {L S : Type 0} (parts : Parts L S) (cfg : Config) (outer : Outer) where
  -- What the chain sets is what the middleware for CORS sets, after the other two.
  judged_headers :
      (next : Panicking (World L S)) (a : Arrival) (w : World L S) (v : Verdict)
      → (judged parts cfg outer next a w v).0.headers
        ≡ (request_id_header, outer.request_id a) ∷ outer.helmet a ++ headers_of v
  judged_headers next a w (passes hs) = refl
  judged_headers next a w (answers status hs) = refl

  whole_headers :
      (next : Panicking (World L S)) (a : Arrival) (w : World L S)
      → (serve_whole parts cfg outer next a w).0.headers
        ≡ (request_id_header, outer.request_id a) ∷ outer.helmet a
          ++ headers_of (outer.cors cfg.cors_allowed_origins a)
  unfolding serve_whole
  whole_headers next a w = judged_headers next a w (outer.cors cfg.cors_allowed_origins a)

  -- With a configuration of production that Validate accepts: if it lists origins, the header of CORS
  -- on a response, error, panic and preflight included, names the origin of the request alone, which
  -- an entry of the list matches; if its list is empty, which Validate accepts too, the response to a
  -- request with an origin allows every origin. The middlewares of the framework behave as
  -- documented.
  pub serve_whole-IsNamed :
      (matches : (entry origin : String) → Bool)
      → IsOuter outer matches
      → validate cfg ≡ ok tt
      → cfg.env ≡ env_prod
      → (next : Panicking (World L S)) (a : Arrival) (w : World L S) → a.origin ≢ ""
      → ((cfg.cors_allowed_origins ≡ []) × IsAny (serve_whole parts cfg outer next a w).0.headers)
        ⊎ ((cfg.cors_allowed_origins ≢ [])
            × IsNamed matches cfg.cors_allowed_origins a.origin
                (serve_whole parts cfg outer next a w).0.headers)
  serve_whole-IsNamed matches laws accepted prod next a w named =
      let valid = (validate_iff cfg).0 accepted in
      let hs : Headers = headers_of (outer.cors cfg.cors_allowed_origins a) in
      elim (nil_or cfg.cors_allowed_origins) [
        | inl none ↦
            let any : IsAny hs = rw none (laws.any_origin a named) in
            inl (
              none,
              rw (whole_headers next a w)
                  (inr (Any-append (λ h. h ≡ (allow_origin_header, "*")) (outer.helmet a) hs any)),
            )
        | inr some ↦ elim valid.limits.origins [
          | inl not_prod ↦ absurd (not_prod prod)
          | inr origins ↦
              let own = laws.listed cfg.cors_allowed_origins a some origins in
              let helmet =
                other_IsNamed matches cfg.cors_allowed_origins a.origin (outer.helmet a)
                  (laws.helmet_other a) in
              inr (
                some,
                rw (whole_headers next a w)
                    (inl (λ e. cc), All-append _ (outer.helmet a) hs helmet own),
              )
        ]
      ]
