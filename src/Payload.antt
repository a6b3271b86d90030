-- ===== src/Payload.antt =====
-- What the handlers put under `data` of the envelope: a task, a list of tasks, or a token.
use go_fiber_starter.Prelude.{List, String}
use go_fiber_starter.Task.Model.{Time}
use go_fiber_starter.Task.Dto.{Response}

-- `LoginResponse` of internal/modules/auth/handler.go
pub record LoginResponse : Type 0 where
  pub token : String
  pub token_type : String
  pub expires_at : Time

pub data Payload : Type 0 where
  task : Response → Payload
  tasks : List Response → Payload
  login : LoginResponse → Payload
