-- ===== src/Tests/Tasks.antt =====
-- The theorems on the tasks, at the table in memory.
use go_fiber_starter.Prelude.{
  List, ◌≤◌, ◌<◌, ◌≡◌, ◌≢◌, ◌↔◌, refl, true, false, none, some, [], ◌∷◌, ok, err, String, arith,
}
use go_fiber_starter.Prelude.Int.{modulus, pos}
use go_fiber_starter.Prelude.Text.{decimal, digits_value}
use go_fiber_starter.Apperror.{app, errorf, is_app}
use go_fiber_starter.Payload.{Payload}
use go_fiber_starter.Router.ErrorHandler.{answer, error_response}
use go_fiber_starter.Task.Model.{Task, err_task_not_found, find_row, set_row, remove_row}
use go_fiber_starter.Task.Dto.{to_response, unmarshal_json}
use go_fiber_starter.Task.Dto.Partial.{unmarshal_after_null}
use go_fiber_starter.Task.Memory.{memory, memory_rows, memory-IsGorm}
use go_fiber_starter.Task.Repository.{gorm_repository, update_in_transaction}
use go_fiber_starter.Task.Repository.Contract.{IsRepository}
use go_fiber_starter.Task.Repository.Refines.{gorm_repository-IsRepository}
use go_fiber_starter.Task.Service
use go_fiber_starter.Task.Service.{mutate, due_or, task_prefix}
use go_fiber_starter.Task.Service.Listing.{read_all, read_all-ShowsAll}
use go_fiber_starter.Task.Dto.{Response}
use go_fiber_starter.Task.Routes.Plain.{ShowsAll}
use go_fiber_starter.Task.Handler.{parse_id, atoi_default}
use go_fiber_starter.Task.Handler.Limits.{limit-decimal}
use go_fiber_starter.Pagination.{default_limit, new_page_query}
use go_fiber_starter.Task.Handler.PathId.{parse_id_iff}
use go_fiber_starter.Task.Routes
use go_fiber_starter.Task.Routes.{run}
use go_fiber_starter.Task.Routes.Answers.{run-missing}
use go_fiber_starter.Tests.{
  milk, bread, table, repo, repo-IsRepository, repo-IsAvailable, buy_tea, mark_done, binder,
  request,
}

abbrev tea : Task
tea = record {
  id = 3;
  title = "tea";
  done = false;
  due_date = some 11;
  created_at = 0;
  updated_at = 0;
  deleted_at = none;
}

abbrev done_milk : Task
done_milk = record milk { done = true; updated_at = 6 }

gorm_repository-IsRepository_example : IsRepository memory_rows (gorm_repository memory)
gorm_repository-IsRepository_example = gorm_repository-IsRepository memory memory_rows memory-IsGorm

tea_created : Service.create repo buy_tea table ≡ (ok (to_response tea), tea ∷ table)
unfolding Service.create gorm_repository
tea_created = refl

milk_done :
    Service.update repo 1 mark_done table ≡ (ok (to_response done_milk), bread ∷ done_milk ∷ [])
unfolding Service.update gorm_repository find_row set_row update_in_transaction
milk_done = refl

bread_deleted : Service.delete repo 2 table ≡ (ok tt, milk ∷ [])
unfolding Service.delete gorm_repository find_row remove_row
bread_deleted = refl

read_all-ShowsAll_example :
    (answers : List Response) × (read_all repo 0 table ≡ ok answers) × ShowsAll table answers
read_all-ShowsAll_example =
    read_all-ShowsAll repo memory_rows repo-IsRepository 0 table (repo-IsAvailable table).reads
      (omega arith) (omega arith)

unknown_task :
    (run binder repo Routes.delete (request "7" "") table).0
    ≡ err (errorf (task_prefix "delete" 7) (app err_task_not_found))
unfolding run parse_id Service.delete gorm_repository find_row decimal is_app
unknown_task = refl

seven : parse_id "7" ≡ ok 7
unfolding parse_id
seven = refl

no_seven : find_row 7 table ≡ none
unfolding find_row
no_seven = refl

run-missing_example :
    (answer Payload (request "7" "") (run binder repo Routes.get (request "7" "") table).0 []).0
    ≡ error_response Payload 404 err_task_not_found
run-missing_example =
    run-missing binder repo memory_rows Routes.get (request "7" "") 7 table []
      (repo-IsAvailable table) seven no_seven

abbrev forty_two : String
forty_two = "42"

parse_id_iff_example :
    (parse_id forty_two ≡ ok 42)
    ↔ ((forty_two ≢ "") × (digits_value 0 forty_two ≡ some 42) × (1 ≤ 42) × (42 < modulus))
parse_id_iff_example = parse_id_iff forty_two 42

unmarshal_after_null_example :
    (unmarshal_json
      (λ text old. (9, none))
      (record { set = true; null = true; value = 0 })
      "\"2030-01-01T00:00:00Z\"").0.null
    ≡ true
unmarshal_after_null_example =
    unmarshal_after_null (λ text old. (9, none)) (record { set = true; null = true; value = 0 })
      "\"2030-01-01T00:00:00Z\"" refl

limit-decimal_example :
    (new_page_query (pos 1) (atoi_default (decimal 9223372036854775808) default_limit)).limit
    ≡ pos 20
limit-decimal_example = limit-decimal 9223372036854775808 (pos 1)
