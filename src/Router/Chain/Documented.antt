-- ===== src/Router/Chain/Documented.antt =====
-- The statuses that api/openapi.yaml documents for the routes of the API.
use go_fiber_starter.Prelude.{
  ℕ, ◌≡◌, refl, inl, inr, true, ◌+◌, none, Option-cases, leb, List, [], ◌∷◌, Result, ok, err,
  Bool-cases, Result-cases, String, arith,
}
use go_fiber_starter.Apperror.{GoError, find_fiber, find_app, as_app_error, status}
use go_fiber_starter.Auth.Service
use go_fiber_starter.Auth.Service.{Jwt, Claims}
use go_fiber_starter.Auth.Service.Tokens.{demo_verify_cases}
use go_fiber_starter.Auth.Handler.{Outside, login_handler}
use go_fiber_starter.Fiber.{Request, Response}
use go_fiber_starter.World.{World}
use go_fiber_starter.Config.{Config}
use go_fiber_starter.Httpx.{success}
use go_fiber_starter.Payload.{Payload}
use go_fiber_starter.Router.ErrorHandler.{answer, error_handler}
use go_fiber_starter.Task.Model.{Task}
use go_fiber_starter.Task.Repository.Contract.{IsAvailable}
use go_fiber_starter.Task.Routes.{Operation, create, list, get, update, delete, run}
use go_fiber_starter.Task.Routes.Replies.{BindsClean}
use go_fiber_starter.Task.Routes.Statuses.{AnyOf, statuses, run-statuses, bad_body_status}
use go_fiber_starter.Router.Chain.{Parts, login, tasks, auth_service, serve}
use go_fiber_starter.Router.Chain.Handled.{IsRefused, serve-IsHandled}
use go_fiber_starter.Router.Chain.Passage.{limit_cases, serve_limited}
use go_fiber_starter.Router.Chain.Logins.{served_login, serve_login_limited}
use go_fiber_starter.Prelude.Int.{pos_part}

-- The keys of `responses` of the login, and of the operations on tasks.
abbrev pub documented_login : List ℕ
documented_login = 200 ∷ 400 ∷ 401 ∷ 422 ∷ 429 ∷ []

abbrev pub documented : Operation → List ℕ
documented create = 201 ∷ 400 ∷ 422 ∷ 429 ∷ 401 ∷ []
documented list = 200 ∷ 429 ∷ 401 ∷ []
documented get = 200 ∷ 400 ∷ 429 ∷ 404 ∷ 401 ∷ []
documented update = 200 ∷ 429 ∷ 400 ∷ 404 ∷ 422 ∷ 401 ∷ []
documented delete = 204 ∷ 400 ∷ 429 ∷ 404 ∷ 401 ∷ []

handled_documented : (op : Operation) (n : ℕ) → AnyOf n (statuses op) → AnyOf n (documented op)
handled_documented create n h = ground arith
handled_documented list n h = ground arith
handled_documented get n h = ground arith
handled_documented update n h = ground arith
handled_documented delete n h = ground arith

unauthorized_documented : (op : Operation) → AnyOf 401 (documented op)
unauthorized_documented create = inr (inr (inr (inr (inl refl))))
unauthorized_documented list = inr (inr (inl refl))
unauthorized_documented get = inr (inr (inr (inr (inl refl))))
unauthorized_documented update = inr (inr (inr (inr (inr (inl refl)))))
unauthorized_documented delete = inr (inr (inr (inr (inl refl))))

limited_documented : (op : Operation) → AnyOf 429 (documented op)
limited_documented create = inr (inr (inr (inl refl)))
limited_documented list = inr (inl refl)
limited_documented get = inr (inr (inl refl))
limited_documented update = inr (inl refl)
limited_documented delete = inr (inr (inl refl))

refused_documented :
    (op : Operation) (x : Response Payload) → IsRefused x → AnyOf x.status (documented op)
refused_documented op x (inl e) = rw e (unauthorized_documented op)
refused_documented op x (inr e) = rw e (limited_documented op)

-- What a client gets does not depend on the request that failed, but by its error.
error_any_request :
    (c d : Request) (e : GoError)
    → (error_handler Payload c e []).0 ≡ (error_handler Payload d e []).0
unfolding error_handler
error_any_request c d e = elim (Option-cases (find_fiber e)) [
  | inr (fe, n) ↦ rw n refl
  | inl n ↦ elim (Bool-cases (leb 500 (status (as_app_error e)))) [
    | inl big ↦ rw (n, big) refl
    | inr small ↦ rw (n, small) refl
  ]
]

answer_any_request :
    (c d : Request) (r : Result GoError (Response Payload))
    → (answer Payload c r []).0 ≡ (answer Payload d r []).0
unfolding answer
answer_any_request c d (ok x) = refl
answer_any_request c d (err e) = error_any_request c d e

module _ {L S : Type 0} (parts : Parts L S) (cfg : Config) (clean : BindsClean parts.binder)
    (rows : S → List Task) where
  -- While the repository is available, every response to a request to the task API has one of the
  -- statuses that the OpenAPI document lists for its operation, whatever the limiter, the guard, the
  -- path and the body, over a binder that reports no error of the framework.
  pub serve-documented :
      (op : Operation) (c : Request) (w : World L S)
      → IsAvailable rows parts.repo w.inner
      → AnyOf (serve parts cfg (tasks op) c w).0.status (documented op)
  serve-documented op c w up = elim (serve-IsHandled parts cfg op c w) [
    | inr (why, kept) ↦ refused_documented op (serve parts cfg (tasks op) c w).0 why
    | inl h ↦
        let known = record c { identity = h.identity } in
        let own = run-statuses parts.binder clean parts.repo rows op known w.inner [] up in
        rw h.response (
          rw (answer_any_request c known (run parts.binder parts.repo op known w.inner).0)
            (handled_documented op _ own))
  ]

-- The login handler answers by 200, by 400 or 422 if the body does not bind, and by 401 if the
-- credentials are not those of the configuration.
login_statuses :
    {S : Type 0} (jwt : Jwt) (outside : Outside S) (cfg : Config) (c : Request) (s : S)
    → ((c : Request) (x : GoError) → outside.login_request c ≡ err x → find_fiber x ≡ none)
    → ((secret : String) (claims : Claims)
        → (token : String) × (jwt.signed_string secret claims ≡ ok token))
    → AnyOf
        (answer Payload c (login_handler jwt (auth_service cfg) outside c s).0 []).0.status
        documented_login
unfolding login_handler answer error_handler find_fiber find_app as_app_error auth_service
    Service.issue Service.demo_service success
login_statuses jwt outside cfg c s clean signs = elim (Result-cases (outside.login_request c)) [
  | inr (x, b) ↦ rw b (elim (bad_body_status c x [] (clean c x b)) [
    | inl bad ↦ inr (inl bad)
    | inr unprocessable ↦ inr (inr (inr (inl unprocessable)))
  ])
  | inl (req, b) ↦
      elim (demo_verify_cases cfg.auth_demo_username cfg.auth_demo_password req.username
        req.password) [
          | inr (other, refused) ↦ rw b (rw refused (inr (inr (inl refl))))
          | inl (name, password, accepted) ↦
              let claims : Claims = record {
                subject = req.username;
                expires_at = jwt.numeric_date (outside.now s + pos_part cfg.auth_token_ttl);
                issued_at = jwt.numeric_date (outside.now_again s);
              } in
              let (token, signed) = signs cfg.auth_jwt_secret claims in
              rw b (rw accepted (rw signed (inl refl)))
        ]
]

module _ {L S : Type 0} (parts : Parts L S) (cfg : Config)
    (clean : (c : Request) (x : GoError)
      → parts.outside.login_request c ≡ err x
      → find_fiber x ≡ none)
    (signs : (secret : String) (claims : Claims)
      → (token : String) × (parts.jwt.signed_string secret claims ≡ ok token)) where
  -- With authentication on, every response to a login has one of the statuses that the OpenAPI
  -- document lists for it, whatever the two limiters and the body, over a binder that reports no
  -- error of the framework and a token library that signs all claims.
  pub login-documented :
      (c : Request) (w : World L S)
      → cfg.auth_enabled ≡ true
      → AnyOf (serve parts cfg login c w).0.status documented_login
  login-documented c w on = elim (limit_cases parts cfg c w) [
    | inr (no_skip, beyond) ↦
        let (limited, kept, counted, timed, logins, logged) =
          serve_limited parts cfg login c w no_skip beyond in
        rw limited (inr (inr (inr (inr (inl refl)))))
    | inl (w0, passes, same) ↦
        elim (Bool-cases
          (parts.limiter.hit cfg.auth_rate_limit_per_minute c.ip w0.login_limiter).0) [
            | inr beyond ↦
                let (limited, kept, counted) =
                  serve_login_limited parts cfg c w w0 on passes beyond in
                rw limited (inr (inr (inr (inr (inl refl)))))
            | inl within ↦
                rw (served_login parts cfg c w w0 on passes within)
                  (login_statuses parts.jwt parts.outside cfg c w0.inner clean signs)
          ]
  ]
