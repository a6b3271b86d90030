-- ===== src/Tests.antt =====
-- What the tests run on: two stored tasks, requests, a binder, a token library and a clock.
mod Answers
mod Tasks
mod Accounts
mod Settings
mod Migrations
mod Service
mod Startup
mod Replies
mod Races
mod Metrics
mod Environment
mod Bodies
mod Chain
mod Outer
use go_fiber_starter.Prelude.{
  ℕ, ◌+◌, ◌<◌, ◌≡◌, refl, true, false, Option, none, some, List, [], ◌∷◌, Result, ok, err, String,
  arith, if◌then◌else◌, ltb, leb, Bool, ◌&&◌, Bool-cases, inl, inr,
}
use go_fiber_starter.Apperror.{GoError, sentinel, invalid_token}
use go_fiber_starter.Fiber.{Request}
use go_fiber_starter.Task.Model.{Task}
use go_fiber_starter.Task.Dto.{CreateRequest, UpdateRequest}
use go_fiber_starter.Task.Gorm.{IsUp}
use go_fiber_starter.Task.Memory.{memory, memory_rows, memory-IsGorm, memory-IsUp}
use go_fiber_starter.Task.Repository.{Repository, gorm_repository}
use go_fiber_starter.Task.Repository.Contract.{IsRepository, IsAvailable}
use go_fiber_starter.Task.Repository.Refines.{gorm_repository-IsRepository}
use go_fiber_starter.Task.Repository.Available.{gorm_repository-IsAvailable}
use go_fiber_starter.Task.Handler.{Binder, Validates}
use go_fiber_starter.Task.Routes.Effects.{IsTable}
use go_fiber_starter.Auth.Service.{Claims, Jwt}
use go_fiber_starter.Auth.Service.Tokens.{IsJwt}
use go_fiber_starter.Auth.Handler.{Outside}
use text.Mathlib.Text.{◌==◌}
use text.Mathlib.TextEquality.{eq_iff}
use text.Mathlib.TextPositions.{eq_refl}

abbrev pub milk : Task
milk = record {
  id = 1;
  title = "milk";
  done = false;
  due_date = none;
  created_at = 5;
  updated_at = 5;
  deleted_at = none;
}

abbrev pub bread : Task
bread = record {
  id = 2;
  title = "bread";
  done = true;
  due_date = some 9;
  created_at = 6;
  updated_at = 7;
  deleted_at = none;
}

abbrev pub table : List Task
table = bread ∷ milk ∷ []

pub table-IsTable : IsTable table
table-IsTable = record {
  descending = ((omega arith, tt), (tt, tt));
  titles = ((omega arith, omega arith), ((omega arith, omega arith), tt));
}

abbrev pub repo : Repository (List Task)
repo = gorm_repository memory

pub repo-IsRepository : IsRepository memory_rows repo
repo-IsRepository = gorm_repository-IsRepository memory memory_rows memory-IsGorm

pub repo-IsAvailable : (ts : List Task) → IsAvailable memory_rows repo ts
repo-IsAvailable ts =
    gorm_repository-IsAvailable memory memory_rows memory-IsGorm ts (memory-IsUp ts)

abbrev pub buy_tea : CreateRequest
buy_tea = record { title = "tea"; due_date = some 11 }

abbrev pub mark_done : UpdateRequest
mark_done = record {
  title = none;
  done = some true;
  due_date = record { set = true; null = true; value = 0 };
}

abbrev pub binder : Binder
binder = record { create_request = λ c. ok buy_tea; update_request = λ c. ok mark_done }

pub binder-Validates : Validates binder
binder-Validates = record {
  create_fits = λ c r h. (let same : buy_tea ≡ r = cc in rw (← same) (omega arith, omega arith));
  update_fits = λ c r h. (let same : mark_done ≡ r = cc in rw (← same) tt);
}

abbrev pub request : (param_id authorization : String) → Request
request param_id authorization = record {
  method = "GET";
  path = "/api/v1/tasks/";
  route_path = "/api/v1/tasks/:id";
  ip = "10.0.0.1";
  request_id = "r-1";
  authorization = authorization;
  param_id = param_id;
  query_page = "1";
  query_limit = "20";
  body = "";
  identity = none;
}

-- A library that signs for the one user "ada" until the time 3600, with the secret as the token.
abbrev pub ada : Claims
ada = record { subject = "ada"; expires_at = 3600; issued_at = 0 }

abbrev is_ada : Claims → Bool
is_ada claims =
    claims.subject == "ada"
    && leb claims.expires_at 3600
    && leb 3600 claims.expires_at
    && leb claims.issued_at 0

abbrev pub jwt : Jwt
jwt = record {
  signed_string = λ secret claims.
      if is_ada claims then ok secret else err (sentinel invalid_token "not signed");
  parse_with_claims = λ secret now token.
      if token == secret && ltb now 3600 then ok ada else err (sentinel invalid_token "refused");
  numeric_date = λ t. t;
}

is_ada_iff : (claims : Claims) → is_ada claims ≡ true → claims ≡ ada
is_ada_iff claims h =
    let name : (claims.subject == "ada") ≡ true = ground arith in
    let subject : claims.subject ≡ "ada" = (eq_iff claims.subject "ada").0 name in
    let expiry : claims.expires_at ≡ 3600 = ground arith in
    let start : claims.issued_at ≡ 0 = ground arith in
    λ i. record { subject = subject i; expires_at = expiry i; issued_at = start i }

signed_by :
    (secret token : String) (claims : Claims)
    → jwt.signed_string secret claims ≡ ok token
    → (claims ≡ ada) × (secret ≡ token)
signed_by secret token claims h = elim (Bool-cases (is_ada claims)) [
  | inl y ↦ (let k = rw y at h in (is_ada_iff claims y, cc))
  | inr n ↦ (let k = rw n at h in cc)
]

pub jwt-IsJwt : IsJwt jwt
jwt-IsJwt = record {
  signed_accepted = λ secret token claims now h fresh.
      let (claimed, same) = signed_by secret token claims h in
      let before : now < 3600 = rw claimed at fresh in
      let early : ltb now 3600 ≡ true = ground arith in
      rw (← same, claimed) (rw (eq_refl, early) refl);
  accepted_fresh = λ secret token claims now h.
      elim (Bool-cases (token == secret && ltb now 3600)) [
        | inl y ↦
            let k = rw y at h in
            let same : ada ≡ claims = cc in
            let early : now < 3600 = ground arith in rw (← same) early
        | inr n ↦ (let k = rw n at h in cc)
      ];
}

-- The state is the clock.
abbrev pub outside : Outside ℕ
outside = record {
  login_request = λ c. ok (record { username = "ada"; password = "pw" });
  now = λ s. s;
  now_again = λ s. s;
}
