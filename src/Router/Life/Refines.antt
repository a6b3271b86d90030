-- ===== src/Router/Life/Refines.antt =====
-- A service that runs, as a map from keys to tasks.
use go_fiber_starter.Prelude.{◌≡◌, ◌≢◌, refl, ap, inl, inr, List, [], Option, Result}
use go_fiber_starter.Apperror.{GoError}
use go_fiber_starter.Fiber.{Request, Response, Identity}
use go_fiber_starter.Httpx.{error_body}
use go_fiber_starter.World.{World}
use go_fiber_starter.Config.{Config}
use go_fiber_starter.Payload.{Payload}
use go_fiber_starter.Task.Model.{Task, find_row}
use go_fiber_starter.Task.Repository.Contract.{IsRepository}
use go_fiber_starter.Task.Handler.{Binder, Validates}
use go_fiber_starter.Task.Routes.{Operation, run}
use go_fiber_starter.Task.Routes.Effects.{IsTable}
use go_fiber_starter.Task.Routes.Plain.{error_reply}
use go_fiber_starter.Task.Routes.Spec.{Store, Spec, Same, view}
use go_fiber_starter.Task.Routes.Spec.Refines.{run-Spec}
use go_fiber_starter.Router.ErrorHandler.{answer}
use go_fiber_starter.Router.Chain.{
  Parts, Endpoint, livez, readyz, metrics, openapi, login, unmatched, tasks, serve,
}
use go_fiber_starter.Router.Chain.Handled.{serve-IsHandled}
use go_fiber_starter.Router.Life.{Reach}
use go_fiber_starter.Router.Life.Keeps.{serve_keeps}
use go_fiber_starter.Router.Life.Table.{Reach-IsTable}

-- What one request that reaches the service does to the map, and how it is answered.
pub data Mirrors (binder : Binder) (endpoint : Endpoint) (c : Request) (m : Store)
    (x : Response Payload) (m' : Store) : Type 0 where
  -- a request to the task API is what the map says of this operation and this request, as the user
  -- that the guard has found, and the client gets its result
  served :
      (op : Operation) (identity : Option Identity) (r : Result GoError (Response Payload))
      → endpoint ≡ tasks op
      → Spec binder op (record c { identity = identity }) m r m'
      → x ≡ (answer Payload c r []).0
      → Mirrors binder endpoint c m x m'
  -- the guard or the limiter refuses it
  unauthorized :
      (op : Operation)
      → endpoint ≡ tasks op
      → x ≡ error_reply 401 "UNAUTHORIZED" "authentication required" []
      → Same m m'
      → Mirrors binder endpoint c m x m'
  limited :
      (op : Operation)
      → endpoint ≡ tasks op
      → x ≡ error_reply 429 "RATE_LIMITED" "too many requests" []
      → Same m m'
      → Mirrors binder endpoint c m x m'
  -- another route leaves the map alone
  elsewhere :
      ((op : Operation) → endpoint ≢ tasks op) → Same m m' → Mirrors binder endpoint c m x m'

module _ {L S : Type 0} (parts : Parts L S) (cfg : Config) (valid : Validates parts.binder)
    (rows : S → List Task) (laws : IsRepository rows parts.repo)
    (metrics_reads : (c : Request) (w : World L S) → (parts.metrics c w).1 ≡ w) where
  -- One request to a service in a state.
  abbrev pub MirrorsAt : Endpoint → Request → World L S → Type 0
  MirrorsAt endpoint c w =
      Mirrors parts.binder endpoint c (view rows w.inner) (serve parts cfg endpoint c w).0
        (view rows (serve parts cfg endpoint c w).1.inner)

  tasks-Mirrors :
      (op : Operation) (c : Request) (w : World L S)
      → IsTable (rows w.inner)
      → MirrorsAt (tasks op) c w
  unfolding error_body
  tasks-Mirrors op c w table = elim (serve-IsHandled parts cfg op c w) [
    | inl h ↦
        let known = record c { identity = h.identity } in
        served op h.identity (run parts.binder parts.repo op known w.inner).0 refl
          (rw h.state
            (run-Spec parts.repo rows laws parts.binder op known w.inner table.descending))
          h.response
    | inr (inl why, kept) ↦ unauthorized op refl why (λ i. ap (λ s. find_row i (rows s)) kept)
    | inr (inr why, kept) ↦ limited op refl why (λ i. ap (λ s. find_row i (rows s)) kept)
  ]

  other-Mirrors :
      (endpoint : Endpoint) (c : Request) (w : World L S)
      → ((op : Operation) → endpoint ≢ tasks op)
      → MirrorsAt endpoint c w
  other-Mirrors endpoint c w other =
      let kept : (serve parts cfg endpoint c w).1.inner ≡ w.inner =
        serve_keeps parts cfg (λ e d. (op : Operation) → e ≢ tasks op) (λ s. s ≡ w.inner)
          (λ op d s none same. absurd (none op refl)) metrics_reads endpoint c w other refl in
      elsewhere other (λ i. ap (λ s. find_row i (rows s)) kept)

  serve-Mirrors :
      (endpoint : Endpoint) (c : Request) (w : World L S)
      → IsTable (rows w.inner)
      → MirrorsAt endpoint c w
  serve-Mirrors livez c w table = other-Mirrors livez c w (λ op e. cc)
  serve-Mirrors readyz c w table = other-Mirrors readyz c w (λ op e. cc)
  serve-Mirrors metrics c w table = other-Mirrors metrics c w (λ op e. cc)
  serve-Mirrors openapi c w table = other-Mirrors openapi c w (λ op e. cc)
  serve-Mirrors login c w table = other-Mirrors login c w (λ op e. cc)
  serve-Mirrors unmatched c w table = other-Mirrors unmatched c w (λ op e. cc)
  serve-Mirrors (tasks op) c w table = tasks-Mirrors op c w table

  -- A service that started with a well-formed table refines the map from keys to tasks: whatever it
  -- has served before, each request that it gets to the task API does to the map what the map says
  -- of its own operation, path and body, and its client gets that result, or the 401 or the 429
  -- response, and the map stays; a request to another route leaves the map alone. This is over a
  -- validator that enforces the tags of the requests, a repository that keeps the contract and an
  -- exposition of the metrics that changes nothing.
  pub Reach-Mirrors :
      (Sent : Endpoint → Request → Type 0) (w w' : World L S)
      → IsTable (rows w.inner)
      → Reach parts cfg Sent w w'
      → (endpoint : Endpoint) (c : Request) → MirrorsAt endpoint c w'
  Reach-Mirrors Sent w w' table r endpoint c =
      serve-Mirrors endpoint c w'
        (Reach-IsTable parts cfg valid rows laws metrics_reads Sent w w' r table)
