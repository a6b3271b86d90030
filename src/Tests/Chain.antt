-- ===== src/Tests/Chain.antt =====
-- The theorems on the chain around the handlers: documented statuses, and panics.
use go_fiber_starter.Prelude.{refl, inr, List, []}
use go_fiber_starter.Apperror.{plain, find_fiber, find_app}
use go_fiber_starter.Task.Model.{Task}
use go_fiber_starter.Task.Memory.{memory_rows}
use go_fiber_starter.Task.Routes
use go_fiber_starter.Task.Routes.Replies.{BindsClean}
use go_fiber_starter.Task.Routes.Statuses.{AnyOf}
use go_fiber_starter.Router.Chain.{tasks, serve, skip_rate_limit}
use go_fiber_starter.Router.Chain.Documented.{documented, serve-documented}
use go_fiber_starter.Router.Chain.Panics.{Panicking, panicked, IsUnseen, panic-IsUnseen}
use go_fiber_starter.Tests.{table, repo-IsAvailable}
use go_fiber_starter.Tests.Settings.{production}
use go_fiber_starter.Tests.Service.{parts, world, reading}

parts-BindsClean : BindsClean parts.binder
parts-BindsClean = record { create_clean = λ c x h. cc; update_clean = λ c x h. cc }

serve-documented_example :
    AnyOf
      (serve parts production (tasks Routes.update) reading (world 3)).0.status
      (documented Routes.update)
serve-documented_example =
    serve-documented parts production parts-BindsClean memory_rows Routes.update reading (world 3)
      (repo-IsAvailable table)

-- It removes all tasks before it panics.
abbrev broken : Panicking (List Task)
broken c ts = (panicked (plain "index out of range"), [])

panic-IsUnseen_example : IsUnseen parts production broken reading (world 3)
unfolding skip_rate_limit find_fiber find_app
panic-IsUnseen_example =
    panic-IsUnseen parts production broken reading (world 3) (world 4) (plain "index out of range")
      (inr (refl, refl, refl)) refl refl refl
