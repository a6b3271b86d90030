-- ===== src/Tests/Startup.antt =====
-- The theorems on the start of the service, on a host whose database is a table in memory.
use go_fiber_starter.Prelude.{
  ℕ, ◌+◌, ◌≡◌, ◌↔◌, refl, true, none, some, List, [], ◌∷◌, ok, err, String, ltb,
}
use go_fiber_starter.Prelude.Int.{pos, pos_part}
use go_fiber_starter.Apperror.{plain}
use go_fiber_starter.Filepath.{is_rooted}
use go_fiber_starter.Config.{Config, load, validate}
use go_fiber_starter.Config.Valid.{validate_iff, load_iff}
use go_fiber_starter.Config.Rules.{IsValid}
use go_fiber_starter.Database.Connection.{Platform, dialector, new}
use go_fiber_starter.Database.Connection.Connected.{
  Dialed, dialector-Dialed, IsConnected, new-IsConnected_iff,
}
use go_fiber_starter.Task.Model.{Task, remove_row}
use go_fiber_starter.Task.Repository.{gorm_repository}
use go_fiber_starter.Task.Memory.{memory_rows}
use go_fiber_starter.Task.Routes
use go_fiber_starter.Task.Routes.Effects.{IsTable}
use go_fiber_starter.Auth.Service
use go_fiber_starter.Auth.Handler.{bearer_token}
use go_fiber_starter.Fiber.{Request, Identity}
use go_fiber_starter.Router.Chain.{Endpoint, auth_service, not_found, tasks}
use go_fiber_starter.Router.Life.{here, and_then, request}
use go_fiber_starter.Api.{Host, database_logger, parts, new_app, main}
use go_fiber_starter.Api.Startup.{Exit, main-Exit}
use go_fiber_starter.Api.Lifetime.{IsHost, main-IsTable, main-IsStranger}
use go_fiber_starter.Tests
use go_fiber_starter.Tests.{
  bread, table, table-IsTable, repo, repo-IsRepository, binder, binder-Validates, jwt,
}
use go_fiber_starter.Tests.Settings.{production}

-- Every path is there, and a database is its data source name.
abbrev platform : Platform (List Task) String String
platform = record {
  getwd = λ ts. ok "/srv";
  mkdir_all = λ path mode ts. (none, ts);
  open_database = λ dial logger ts. (ok "tasks", ts);
  pool = λ d. ok d;
  set_max_open_conns = λ q n ts. ts;
  set_max_idle_conns = λ q n ts. ts;
  set_conn_max_lifetime = λ q n ts. ts;
  ping_context = λ timeout q ts. ok tt;
  close = λ q ts. (none, ts);
}

-- Listen serves one request, the deletion of a task, before it is shut down.
abbrev host : Request → Host ℕ (List Task) String String
host c = record {
  platform = platform;
  auto_migrate = λ d models ts. (none, ts);
  repo = λ d. repo;
  limiter = record { hit = λ max ip n. (ltb n (pos_part max), n + 1) };
  budgets = 0;
  elapsed = λ w w'. 250;
  binder = binder;
  jwt = jwt;
  outside = record {
    login_request = λ c. err (plain "no body");
    now = λ ts. 60;
    now_again = λ ts. 60;
  };
  metrics = not_found;
  openapi_file = ok "openapi: 3.1.0";
  listen = λ app addr grace w. (none, (app.serve (tasks Routes.delete) c w).1);
  load_error = λ e. plain "invalid configuration";
}

abbrev owner : Request
owner = record (Tests.request "1" "Bearer 0123456789abcdef0123456789abcdef") { method = "DELETE" }

abbrev stranger : Request
stranger = record (Tests.request "1" "Bearer key") { method = "DELETE" }

host-IsHost :
    (Sent : Endpoint → Request → Type 0) (c : Request)
    → Sent (tasks Routes.delete) c
    → IsHost (host c) "3f2c" memory_rows Sent
unfolding new_app
host-IsHost Sent c sent = record {
  metrics_reads = λ c w. refl;
  is_kept = record {
    mkdir_all = λ path mode ts. refl;
    open_database = λ dial logger ts. refl;
    max_open_conns = λ q n ts. refl;
    max_idle_conns = λ q n ts. refl;
    conn_max_lifetime = λ q n ts. refl;
    close = λ q ts. refl;
  };
  migration_kept = λ d models ts. refl;
  listens = λ cfg d addr grace w. and_then here (request (tasks Routes.delete) c w sent);
}

abbrev dev : Config
dev = record production { env = "dev"; db_driver = "sqlite"; db_dsn = "data/app.db" }

dev-IsValid : IsValid dev
unfolding validate
dev-IsValid = (validate_iff dev).0 refl

srv_rooted : (ts : List Task) (wd : String) → platform.getwd ts ≡ ok wd → is_rooted wd ≡ true
unfolding is_rooted
srv_rooted ts wd h = let same : "/srv" ≡ wd = cc in rw (← same) refl

dialector-Dialed_example : Dialed platform dev table (dialector platform dev table)
dialector-Dialed_example = dialector-Dialed platform srv_rooted dev table dev-IsValid

new-IsConnected_iff_example :
    (new platform dev (database_logger dev) table ≡ (ok "tasks", table))
    ↔ IsConnected platform dev (database_logger dev) table "tasks" table
new-IsConnected_iff_example =
    new-IsConnected_iff platform dev (database_logger dev) table "tasks" table

main-Exit_example :
    Exit
      (host owner)
      "3f2c"
      (ok production)
      table
      (main (host owner) "3f2c" (load (ok production)) table)
main-Exit_example = main-Exit (host owner) "3f2c" (ok production) table

main-IsTable_example : IsTable (main (host owner) "3f2c" (load (ok production)) table).1
main-IsTable_example =
    main-IsTable (host owner) "3f2c" memory_rows (λ endpoint c. Unit)
      (host-IsHost (λ endpoint c. Unit) owner tt) (ok production) table binder-Validates
      (λ d. repo-IsRepository) table-IsTable

abbrev Strange : Endpoint → Request → Type 0
Strange endpoint c = c.authorization ≡ "Bearer key"

loaded_production : (cfg : Config) → load (ok production) ≡ ok cfg → production ≡ cfg
loaded_production cfg loaded = let same = ((load_iff (ok production) cfg).0 loaded).0 in cc

key_refused :
    (token : String) (id : Identity)
    → bearer_token "Bearer key" ≡ some token
    → ¬ (Service.verify jwt (auth_service production) 60 token ≡ ok id)
unfolding bearer_token Service.verify auth_service
key_refused token id bearer accepted =
    let same : "key" ≡ token = cc in let no = rw (← same) at accepted in cc

main-IsStranger_example : (main (host stranger) "3f2c" (load (ok production)) table).1 ≡ table
unfolding auth_service parts
main-IsStranger_example =
    main-IsStranger (host stranger) "3f2c" memory_rows Strange (host-IsHost Strange stranger refl)
      (ok production) table (λ cfg loaded. rw (← loaded_production cfg loaded) refl)
      (λ cfg d op c loaded sent token id ts bearer accepted.
        key_refused token id (rw sent at bearer) (rw (← loaded_production cfg loaded) at accepted))

-- The exit codes, and what is left of the table.
run_tests :
    ((main (host owner) "3f2c" (load (ok production)) table).0 ≡ 0)
    × ((main (host owner) "3f2c" (load (ok production)) table).1 ≡ bread ∷ [])
    × ((main (host owner) "3f2c" (load (ok (record production { port = pos 80 }))) table).0 ≡ 1)
unfolding main load gorm_repository remove_row
run_tests = (refl, refl, refl)
