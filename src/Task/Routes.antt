-- ===== src/Task/Routes.antt =====
-- internal/modules/task/routes.go: the routes below /api/v1 and the handlers that they name.
pub mod Plain
pub mod Effects
pub mod Faults
pub mod Answers
pub mod Spec
pub mod Replies
pub mod Bodies
pub mod Statuses
use go_fiber_starter.Prelude.{List, [], ◌∷◌, String}
use go_fiber_starter.Fiber.{Handler}
use go_fiber_starter.Payload.{Payload}
use go_fiber_starter.Task.Repository.{Repository}
use go_fiber_starter.Task.Handler
use go_fiber_starter.Task.Handler.{Binder}

pub data Operation : Type 0 where
  create list get update delete : Operation

-- Method, path below the group and handler of each route, in the order of registration.
abbrev pub routes : List (String × String × Operation)
routes =
    ("POST", "/tasks/", create)
    ∷ ("GET", "/tasks/", list)
    ∷ ("GET", "/tasks/:id", get)
    ∷ ("PATCH", "/tasks/:id", update)
    ∷ ("DELETE", "/tasks/:id", delete)
    ∷ []

unfoldable pub run : {S : Type 0} → Binder → Repository S → Operation → Handler S Payload
unfolding Handler.create Handler.list Handler.get Handler.update Handler.delete
run binder repo create = Handler.create binder repo
run binder repo list = Handler.list binder repo
run binder repo get = Handler.get binder repo
run binder repo update = Handler.update binder repo
run binder repo delete = Handler.delete binder repo
