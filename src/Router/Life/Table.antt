-- ===== src/Router/Life/Table.antt =====
-- The table of tasks over the life of a service.
use go_fiber_starter.Prelude.{◌≡◌, List}
use go_fiber_starter.Fiber.{Request}
use go_fiber_starter.World.{World}
use go_fiber_starter.Config.{Config}
use go_fiber_starter.Task.Model.{Task}
use go_fiber_starter.Task.Repository.Contract.{IsRepository}
use go_fiber_starter.Task.Handler.{Validates}
use go_fiber_starter.Task.Routes.Effects.{IsTable, run-IsTable}
use go_fiber_starter.Router.Chain.{Parts, Endpoint}
use go_fiber_starter.Router.Life.{Reach}
use go_fiber_starter.Router.Life.Keeps.{task_keeps, Reach-keeps}

module _ {L S : Type 0} (parts : Parts L S) (cfg : Config) (valid : Validates parts.binder)
    (rows : S → List Task) (laws : IsRepository rows parts.repo)
    (metrics_reads : (c : Request) (w : World L S) → (parts.metrics c w).1 ≡ w) where
  -- Whatever requests a service gets and in whatever order, with authentication on or off, the
  -- table stays well formed: the keys fall from row to row and the titles have 1 to 200 characters,
  -- if it was so at the start, the validator enforces the tags of the requests, the repository keeps
  -- the contract and the exposition of the metrics changes nothing.
  pub Reach-IsTable :
      (Sent : Endpoint → Request → Type 0) (w w' : World L S)
      → Reach parts cfg Sent w w'
      → IsTable (rows w.inner)
      → IsTable (rows w'.inner)
  Reach-IsTable Sent w w' r table =
      Reach-keeps parts cfg Sent (λ s. IsTable (rows s))
        (λ op c s sent k.
          task_keeps parts cfg (λ s. IsTable (rows s)) cfg.auth_enabled op c s
            (λ c' same. run-IsTable parts.binder valid parts.repo rows laws op c' s k) k)
        metrics_reads w w' r table
