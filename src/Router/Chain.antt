-- ===== src/Router/Chain.antt =====
-- `New` of internal/router/router.go: the chain of middlewares, the routes and their guards.
pub mod Passage
pub mod Guarded
pub mod Probes
pub mod Credentials
pub mod Logins
pub mod Handled
pub mod Documented
pub mod Panics
pub mod Outer
pub mod Inner
pub mod Origins
pub mod Traced
use go_fiber_starter.Prelude.{
  ℕ, ◌+◌, Bool, true, false, ◌||◌, List, [], ◌∷◌, Result, ok, err, String, if◌then◌else◌,
}
use go_fiber_starter.Prelude.Int.{ℤ, pos_part}
use go_fiber_starter.Apperror.{GoError, app, fiber, errorf}
use go_fiber_starter.Fiber.{Request, Response, raw, Handler}
use go_fiber_starter.Log.{Entry}
use go_fiber_starter.World.{World, on_inner}
use go_fiber_starter.Config.{Config}
use go_fiber_starter.Health
use go_fiber_starter.Health.{Health}
use go_fiber_starter.Payload.{Payload}
use go_fiber_starter.Middleware.RequestLogger.{request_logger}
use go_fiber_starter.Middleware.Prometheus.{prometheus}
use go_fiber_starter.Task.Repository.{Repository}
use go_fiber_starter.Task.Handler.{Binder}
use go_fiber_starter.Task.Routes.{Operation, run}
use go_fiber_starter.Auth.Service.{Jwt, Service, demo_service}
use go_fiber_starter.Auth.Handler.{Outside, login_handler, require_auth}
use go_fiber_starter.Router.ErrorHandler.{err_rate_limited, answer}
use text.Mathlib.Text.{◌==◌}

-- limiterSkipPaths
unfoldable pub skip_rate_limit : String → Bool
skip_rate_limit path =
    path == "/livez" || path == "/readyz" || path == "/metrics" || path == "/openapi.yaml"

-- The limiter library: whether a request of an address is within the budget of `max` in a minute,
-- and the budgets afterwards.
pub record Limiter (L : Type 0) : Type 0 where
  pub hit : (max : ℤ) → (ip : String) → L → Bool × L

-- What `New` builds on besides its configuration: libraries, and the handlers of libraries.
pub record Parts (L S : Type 0) : Type 0 where
  pub limiter : Limiter L
  -- the clock of the request log
  pub elapsed : World L S → World L S → ℕ
  pub binder : Binder
  pub repo : Repository S
  pub jwt : Jwt
  pub outside : Outside S
  pub ping_db : S → Result GoError (Unit {0})
  -- promhttp.HandlerFor
  pub metrics : Handler (World L S) Payload
  -- api.FS.ReadFile("openapi.yaml")
  pub openapi_file : Result GoError String

-- The route that the framework finds for a request.
pub data Endpoint : Type 0 where
  livez readyz metrics openapi login unmatched : Endpoint
  tasks : Operation → Endpoint

unfoldable pub openapi_spec_handler : {S : Type 0} → Result GoError String → Handler S Payload
openapi_spec_handler (ok yaml) c s =
    (ok (record { status = 200; body = raw "application/yaml; charset=utf-8" yaml }), s)
openapi_spec_handler (err e) c s = (err (errorf "read embedded openapi.yaml: " e), s)

-- The lifetime of a token is not negative in a configuration that `Validate` accepts.
unfoldable pub auth_service : Config → Service
unfolding demo_service
auth_service cfg =
    demo_service cfg.auth_demo_username cfg.auth_demo_password cfg.auth_jwt_secret
      (pos_part cfg.auth_token_ttl)

-- The framework's answer to a request that no route matches.
abbrev pub not_found : {S : Type 0} → Handler S Payload
not_found c s = (err (fiber (record { code = 404; message = "Not Found" })), s)

-- Either the request is within the budget and goes on, or the answer is ErrRateLimited.
abbrev pub admit : {S : Type 0} → Bool → Handler S Payload → Handler S Payload
admit true next c w = next c w
admit false next c w = (err (app err_rate_limited), w)

module _ {L S : Type 0} (parts : Parts L S) (cfg : Config) where
  unfoldable pub global_limit : Handler (World L S) Payload → Handler (World L S) Payload
  unfolding skip_rate_limit
  global_limit next c w =
      let (within, budgets) = parts.limiter.hit cfg.rate_limit_per_minute c.ip w.limiter in
      if skip_rate_limit c.path
      then next c w
      else admit within next c (record w { limiter = budgets })

  unfoldable pub login_limit : Handler (World L S) Payload → Handler (World L S) Payload
  login_limit next c w =
      let (within, budgets) =
        parts.limiter.hit cfg.auth_rate_limit_per_minute c.ip w.login_limiter in
      admit within next c (record w { login_limiter = budgets })

  abbrev pub task_handler : Bool → Operation → Handler S Payload
  task_handler true op =
      require_auth parts.jwt (auth_service cfg) parts.outside (run parts.binder parts.repo op)
  task_handler false op = run parts.binder parts.repo op

  abbrev pub login_route : Bool → Handler (World L S) Payload
  login_route true =
      login_limit (on_inner (login_handler parts.jwt (auth_service cfg) parts.outside))
  login_route false = not_found

  abbrev pub health : Health S
  health = Health.new_handler parts.ping_db cfg.build_commit

  -- The handlers of the routes, with the guards before them.
  unfoldable pub dispatch : Endpoint → Handler (World L S) Payload
  unfolding auth_service require_auth run login_limit login_handler Health.new_handler Health.livez
      Health.readyz openapi_spec_handler
  dispatch livez = on_inner (Health.livez health)
  dispatch readyz = on_inner (Health.readyz health)
  dispatch metrics = parts.metrics
  dispatch openapi = openapi_spec_handler parts.openapi_file
  dispatch login = login_route cfg.auth_enabled
  dispatch unmatched = not_found
  dispatch (tasks op) = on_inner (task_handler cfg.auth_enabled op)

  -- The middlewares that count and log, around a handler.
  abbrev pub observed : Handler (World L S) Payload → Handler (World L S) Payload
  observed next = prometheus (request_logger parts.elapsed next)

  -- One request: the chain, and what the framework does with its result.
  unfoldable pub serve : Endpoint → Request → World L S → Response Payload × World L S
  unfolding global_limit dispatch prometheus request_logger answer
  serve endpoint c w =
      let (r, w') = global_limit (observed (dispatch endpoint)) c w in
      let (response, logs) = answer Payload c r w'.logs in (response, record w' { logs = logs })
