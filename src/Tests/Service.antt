-- ===== src/Tests/Service.antt =====
-- The theorems on the chain, at a service whose limiter counts all requests.
use go_fiber_starter.Prelude.{
  Option, ◌-◌, ◌≤◌, ◌<◌, false, none, Result, ℕ, ◌+◌, ◌≡◌, ◌≢◌, sym, ap, ◌∙◌, ◌⊎◌, inr, refl, some,
  List, [], ◌∷◌, ok, err, String, ltb, arith,
}
use go_fiber_starter.Prelude.Int.{pos_part}
use go_fiber_starter.Apperror.{GoError, err_unauthorized, plain}
use go_fiber_starter.Fiber.{Request, Identity}
use go_fiber_starter.World.{World}
use go_fiber_starter.Payload.{Payload, task}
use go_fiber_starter.Config.{Config}
use go_fiber_starter.Httpx.{created}
use go_fiber_starter.Prelude.Text.{decimal}
use go_fiber_starter.Task.Dto.{to_response}
use go_fiber_starter.Task.Service as TaskService
use go_fiber_starter.Task.Repository.{gorm_repository}
use go_fiber_starter.Router.ErrorHandler.{answer}
use go_fiber_starter.Router.Chain.Guarded.{served_task}
use go_fiber_starter.Router.Chain.Handled.{IsRefused}
use go_fiber_starter.Router.Life.Budget.{IsLimiter, attempts, attempts_bounded}
use go_fiber_starter.Router.Life.Created.{IsAsked, Resembles, created_then_read}
use go_fiber_starter.Task.Routes.Plain.{data_reply}
use go_fiber_starter.Task.Dto.{Response, CreateRequest}
use go_fiber_starter.Tests.{repo-IsAvailable}
use go_fiber_starter.Task.Model.{Task, find_row}
use go_fiber_starter.Task.Handler.{parse_id}
use go_fiber_starter.Task.Routes
use go_fiber_starter.Task.Routes.{run}
use go_fiber_starter.Auth.Service
use go_fiber_starter.Auth.Handler.{bearer_token}
use go_fiber_starter.Router.ErrorHandler.{err_rate_limited, error_response}
use go_fiber_starter.Router.Chain.{
  Parts, Endpoint, login, tasks, not_found, skip_rate_limit, auth_service, serve,
}
use go_fiber_starter.Router.Chain.Guarded.{serve_guarded}
use go_fiber_starter.Router.Life.{Reach, here, and_then, request, time}
use go_fiber_starter.Router.Life.Counted.{IsCounted, Reach-IsCounted}
use go_fiber_starter.Router.Life.Untouched.{Spares, Reach-Spares}
use go_fiber_starter.Router.Life.Refines.{Mirrors, Reach-Mirrors}
use go_fiber_starter.Task.Routes.Spec.{view}
use go_fiber_starter.Task.Memory.{memory_rows}
use go_fiber_starter.Tests.{
  bread, table, repo, repo-IsRepository, binder, binder-Validates, jwt, table-IsTable,
}
use go_fiber_starter.Tests
use go_fiber_starter.Tests.Settings.{production}

-- The state of the limiter is the number of requests so far.
abbrev pub parts : Parts ℕ (List Task)
parts = record {
  limiter = record { hit = λ max ip n. (ltb n (pos_part max), n + 1) };
  elapsed = λ w w'. 250;
  binder = binder;
  repo = repo;
  jwt = jwt;
  outside = record {
    login_request = λ c. err (plain "no body");
    now = λ ts. 60;
    now_again = λ ts. 60;
  };
  ping_db = λ ts. ok tt;
  metrics = not_found;
  openapi_file = ok "openapi: 3.1.0";
}

abbrev pub world : ℕ → World ℕ (List Task)
world hits = record {
  limiter = hits;
  login_limiter = 0;
  requests_total = [];
  durations = [];
  logs = [];
  inner = table;
}

abbrev pub reading : Request
reading = Tests.request "1" "Bearer key"

serve_guarded_example :
    ((token : String) × (id : Identity) × (bearer_token reading.authorization ≡ some token)
      × (Service.verify jwt (auth_service production) 60 token ≡ ok id)
      × ((serve parts production (tasks Routes.delete) reading (world 0)).1.inner
          ≡ (run binder repo Routes.delete (record reading { identity = some id }) table).1))
    ⊎ (((serve parts production (tasks Routes.delete) reading (world 0)).1.inner ≡ table)
        × (((serve parts production (tasks Routes.delete) reading (world 0)).0
              ≡ error_response Payload 401 err_unauthorized)
            ⊎ ((serve parts production (tasks Routes.delete) reading (world 0)).0
                ≡ error_response Payload 429 err_rate_limited)))
serve_guarded_example = serve_guarded parts production Routes.delete reading (world 0) refl

abbrev deleting : Request
deleting = record (Tests.request "1" "") { method = "DELETE" }

-- A deletion, a pause that fills the budgets up, and another deletion.
abbrev after_one : World ℕ (List Task)
after_one = (serve parts production (tasks Routes.delete) deleting (world 0)).1

abbrev after_two : World ℕ (List Task)
after_two =
    (serve parts production (tasks Routes.delete) deleting
      (record after_one { limiter = 0; login_limiter = 0 })).1

two_requests :
    (Sent : Endpoint → Request → Type 0)
    → Sent (tasks Routes.delete) deleting
    → Reach parts production Sent (world 0) after_two
two_requests Sent sent =
    and_then
      (and_then (and_then here (request (tasks Routes.delete) deleting (world 0) sent))
        (time after_one 0 0))
      (request (tasks Routes.delete) deleting (record after_one { limiter = 0; login_limiter = 0 })
        sent)

Reach-IsCounted_example : IsCounted after_two
Reach-IsCounted_example =
    Reach-IsCounted parts production (λ c w. refl) (λ endpoint c. Unit) (world 0) after_two
      (two_requests (λ endpoint c. Unit) tt) refl

Reach-Mirrors_example :
    Mirrors binder
      (tasks Routes.update)
      reading
      (view memory_rows after_two.inner)
      (serve parts production (tasks Routes.update) reading after_two).0
      (view memory_rows (serve parts production (tasks Routes.update) reading after_two).1.inner)
Reach-Mirrors_example =
    Reach-Mirrors parts production binder-Validates memory_rows repo-IsRepository (λ c w. refl)
      (λ endpoint c. Unit) (world 0) after_two table-IsTable (two_requests (λ endpoint c. Unit) tt)
      (tasks Routes.update) reading

abbrev NamesOne : Endpoint → Request → Type 0
NamesOne endpoint c = c.param_id ≡ "1"

ok_inj : (i j : ℕ) → ◌≡◌ {A = Result GoError ℕ} (ok i) (ok j) → i ≡ j
ok_inj i j e = cc

parsed_one : parse_id "1" ≡ ok 1
unfolding parse_id decimal
parsed_one = refl

NamesOne-Spares :
    (i : ℕ) → 1 ≢ i → (op : Routes.Operation) (c : Request) → c.param_id ≡ "1" → Spares i op c
NamesOne-Spares i other Routes.create c one = tt
NamesOne-Spares i other Routes.list c one = tt
NamesOne-Spares i other Routes.get c one = tt
NamesOne-Spares i other Routes.update c one =
    λ e. other (ok_inj 1 i (sym parsed_one ∙ ap parse_id (sym one) ∙ e))
NamesOne-Spares i other Routes.delete c one =
    λ e. other (ok_inj 1 i (sym parsed_one ∙ ap parse_id (sym one) ∙ e))

Reach-Spares_example : find_row 2 after_two.inner ≡ some bread
unfolding find_row
Reach-Spares_example =
    Reach-Spares parts production binder-Validates memory_rows repo-IsRepository (λ c w. refl)
      NamesOne 2 bread (world 0) after_two (NamesOne-Spares 2 (omega arith)) table-IsTable refl
      (two_requests NamesOne refl)

-- All addresses share what the limiter of the tests counts.
abbrev spent : String → ℕ → ℕ
spent ip hits = hits

counting-IsLimiter : IsLimiter parts.limiter spent
counting-IsLimiter = record {
  within = λ max ip hits positive let_through.
      (omega arith, (let below : hits < pos_part max = ground arith in omega arith));
  keeps = λ max ip other hits. omega arith;
}

attempts_bounded_example :
    attempts parts production "10.0.0.1"
      ((login, reading) ∷ (tasks Routes.get, reading) ∷ (login, reading) ∷ [])
      (world 3)
    ≤ pos_part production.auth_rate_limit_per_minute - spent "10.0.0.1" (world 3).login_limiter
attempts_bounded_example =
    attempts_bounded parts production spent counting-IsLimiter (λ c w. refl) (omega arith) refl
      "10.0.0.1" ((login, reading) ∷ (tasks Routes.get, reading) ∷ (login, reading) ∷ []) (world 3)

-- A service without authentication: a task is created, another one is deleted, and the first one
-- is read.
abbrev unguarded : Config
unguarded = record production { auth_enabled = false }

abbrev posting : Request
posting = record (Tests.request "" "") { method = "POST" }

abbrev tea : Task
tea = record {
  id = 3;
  title = "tea";
  done = false;
  due_date = some 11;
  created_at = 0;
  updated_at = 0;
  deleted_at = none;
}

abbrev after_post : World ℕ (List Task)
after_post = (serve parts unguarded (tasks Routes.create) posting (world 0)).1

abbrev after_delete : World ℕ (List Task)
after_delete = (serve parts unguarded (tasks Routes.delete) deleting after_post).1

tea_added :
    (answer Payload posting (run binder repo Routes.create posting table).0 []).0
    ≡ data_reply 201 (task (to_response tea)) none
unfolding run answer TaskService.create gorm_repository created
tea_added = refl

tea_told :
    (serve parts unguarded (tasks Routes.create) posting (world 0)).0
    ≡ data_reply 201 (task (to_response tea)) none
unfolding skip_rate_limit
tea_told =
    (served_task parts unguarded Routes.create false posting (world 0) (world 1) refl
      (inr (refl, refl, refl))).0
    ∙ tea_added

parsed_three : parse_id "3" ≡ ok 3
unfolding parse_id decimal
parsed_three = refl

created_then_read_example :
    ((identity : Option Identity) × (req : CreateRequest) × (binder.create_request
          (record posting { identity = identity })
        ≡ ok req)
      × IsAsked req (to_response tea))
    × (((b : Response) × Resembles (to_response tea) b
          × ((serve parts unguarded (tasks Routes.get) (Tests.request "3" "") after_delete).0
              ≡ data_reply 200 (task b) none))
        ⊎ IsRefused
            (serve parts unguarded (tasks Routes.get) (Tests.request "3" "") after_delete).0)
unfolding to_response
created_then_read_example =
    created_then_read parts unguarded binder-Validates memory_rows repo-IsRepository (λ c w. refl)
      NamesOne posting (Tests.request "3" "") (to_response tea) (world 0) after_delete table-IsTable
      tea_told (NamesOne-Spares 3 (omega arith))
      (and_then here (request (tasks Routes.delete) deleting after_post refl))
      (repo-IsAvailable after_delete.inner).reads parsed_three
