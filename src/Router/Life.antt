-- ===== src/Router/Life.antt =====
-- A service that runs: the requests that the chain of internal/router/router.go serves, one after
-- the other.
pub mod Keeps
pub mod Table
pub mod Locked
pub mod Counted
pub mod Refines
pub mod Untouched
pub mod Created
pub mod Budget
use go_fiber_starter.Fiber.{Request}
use go_fiber_starter.World.{World}
use go_fiber_starter.Config.{Config}
use go_fiber_starter.Router.Chain.{Parts, Endpoint, serve}

module _ {L S : Type 0} (parts : Parts L S) (cfg : Config)
    (Sent : Endpoint → Request → Type 0) where
  -- A request that a client may send is served, or the budgets of the limiters change with time.
  pub data Step : World L S → World L S → Type 0 where
    request :
        (endpoint : Endpoint) (c : Request) (w : World L S)
        → Sent endpoint c
        → Step w (serve parts cfg endpoint c w).1
    time :
        (w : World L S) (budgets logins : L)
        → Step w (record w { limiter = budgets; login_limiter = logins })

  pub data Reach (w : World L S) : World L S → Type 0 where
    here : Reach w w
    and_then : {w' w'' : World L S} → Reach w w' → Step w' w'' → Reach w w''
