-- ===== src/Tests/Replies.antt =====
-- The theorems on what the task API and the login answer.
use go_fiber_starter.Prelude.{ℕ, ◌≡◌, refl, inl, [], ok}
use go_fiber_starter.Apperror.{err_invalid_credential}
use go_fiber_starter.Payload.{Payload}
use go_fiber_starter.Router.ErrorHandler.{answer, error_response}
use go_fiber_starter.Router.Chain.{auth_service}
use go_fiber_starter.Router.Chain.Credentials.{login_handler-default}
use go_fiber_starter.Auth.Handler.{Outside, login_handler}
use go_fiber_starter.Task.Memory.{memory_rows}
use go_fiber_starter.Task.Routes
use go_fiber_starter.Task.Routes.{run}
use go_fiber_starter.Task.Routes.Spec.{Spec, view}
use go_fiber_starter.Task.Routes.Spec.Refines.{run-Spec}
use go_fiber_starter.Task.Routes.Replies.{Reply, BindsClean, run-Reply}
use go_fiber_starter.Tests.{table, table-IsTable, repo, repo-IsRepository, binder, jwt, request}
use go_fiber_starter.Tests.Settings.{production, production-IsValid}

run-Spec_example :
    Spec binder Routes.update
      (request "2" "")
      (view memory_rows table)
      (run binder repo Routes.update (request "2" "") table).0
      (view memory_rows (run binder repo Routes.update (request "2" "") table).1)
run-Spec_example =
    run-Spec repo memory_rows repo-IsRepository binder Routes.update (request "2" "") table
      table-IsTable.descending

binder-BindsClean : BindsClean binder
binder-BindsClean = record { create_clean = λ c x h. cc; update_clean = λ c x h. cc }

run-Reply_example :
    Reply Routes.get
      (answer Payload (request "7" "") (run binder repo Routes.get (request "7" "") table).0 []).0
run-Reply_example =
    run-Reply binder binder-BindsClean repo memory_rows repo-IsRepository Routes.get
      (request "7" "") table [] table-IsTable.descending

abbrev default_login : Outside ℕ
default_login = record {
  login_request = λ c. ok (record { username = "admin"; password = "guess" });
  now = λ s. s;
  now_again = λ s. s;
}

login_handler-default_example :
    (answer Payload
      (request "" "")
      (login_handler jwt (auth_service production) default_login (request "" "") 0).0
      []).0
    ≡ error_response Payload 401 err_invalid_credential
login_handler-default_example =
    login_handler-default jwt default_login production (request "" "")
      (record { username = "admin"; password = "guess" }) 0 [] production-IsValid refl refl refl
      (inl refl)
