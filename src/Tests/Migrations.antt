-- ===== src/Tests/Migrations.antt =====
-- The theorems on migrations, with a library that counts the versions of a database.
use go_fiber_starter.Prelude.{ℕ, ◌-◌, ◌≡◌, refl, false, none, some, [], ◌∷◌, ok, String}
use go_fiber_starter.Prelude.Int.{pos_part}
use go_fiber_starter.Apperror.{plain, error_text}
use go_fiber_starter.Migrate.{Library, Session, run, main}
use go_fiber_starter.Migrate.Effects.{IsRun, run-IsRun}
use go_fiber_starter.Tests.Settings.{production}

abbrev library : Library String ℕ
library = record {
  sub = λ name. ok name;
  Source = String;
  new_source = λ name. ok name;
  new_with_source = λ source url d. ok tt;
  up = λ d. (none, 3);
  steps = λ n d. (none, d - 1);
  version = λ d. ok (d, false);
  force = λ v d. (none, pos_part v);
  close = λ d. (none, some (plain "connection is lost"));
  load_error = λ e. plain "invalid configuration";
  invalid_version = λ text. plain "invalid version";
  unknown_command = λ text. plain "unknown command";
}

abbrev session : Session ℕ
session = record { database = 3; migrators = 0; out = []; errors = []; logs = [] }

-- The close fails, and the command does not.
down_once : main library (ok production) ("down" ∷ []) session ≡ (
  0,
  record {
    database = 2;
    migrators = 0;
    out = "done: down" ∷ [];
    errors = "close migrator: source=<nil> database=connection is lost" ∷ [];
    logs = [];
  },
)
unfolding main error_text
down_once = refl

run-IsRun_example :
    IsRun library
      ("down" ∷ [])
      session
      (run library (ok production) ("down" ∷ []) session).0
      (run library (ok production) ("down" ∷ []) session).1
run-IsRun_example = run-IsRun library (ok production) ("down" ∷ []) session
