-- ===== src/Fiber.antt =====
-- What the program sees of a request and a response of the web framework, the shape of a handler,
-- and the envelope of internal/httpx/response.go.
use go_fiber_starter.Prelude.{ℕ, Bool, Option, List, String, Result}
use go_fiber_starter.Apperror.{GoError, Detail}
use go_fiber_starter.Pagination.{PageMeta}

-- `Identity` of internal/modules/auth/service.go, which the guard stores among the locals.
pub record Identity : Type 0 where
  pub username : String

-- The inputs that a handler reads from its `fiber.Ctx`.
pub record Request : Type 0 where
  pub method : String
  pub path : String
  pub route_path : String
  pub ip : String
  pub request_id : String
  pub authorization : String
  pub param_id : String
  pub query_page : String
  pub query_limit : String
  pub body : String
  pub identity : Option Identity

-- The struct `Error` of httpx.
pub record ErrorInfo : Type 0 where
  pub code : String
  pub message : String
  pub details : List Detail

-- `A` is the type of what handlers put under `data`.
pub record Envelope (A : Type 0) : Type 0 where
  pub success : Bool
  pub payload : Option A
  pub error : Option ErrorInfo
  pub meta : Option PageMeta

-- A member of a `fiber.Map`: a text, or a map of texts.
pub data Member : Type 0 where
  text : String → Member
  members : List (String × String) → Member

pub data Body (A : Type 0) : Type 0 where
  empty : Body A
  envelope : Envelope A → Body A
  object : List (String × Member) → Body A
  raw : (content_type : String) → String → Body A

pub record Response (A : Type 0) : Type 0 where
  pub status : ℕ
  pub body : Body A

-- A handler returns an error, or nil after it has written the response. `S` is what it may change.
abbrev pub Handler : Type 0 → Type 0 → Type 0
Handler S A = Request → S → Result GoError (Response A) × S
