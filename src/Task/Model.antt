-- ===== src/Task/Model.antt =====
-- internal/modules/task/model.go and errors.go, and the table that the database stands for.
use go_fiber_starter.Prelude.{
  ℕ, Bool, Option, none, some, List, [], ◌∷◌, ◌==◌, if◌then◌else◌, String,
}
pub mod Rows
use go_fiber_starter.Apperror.{AppError, app_error, nil}

-- A `time.Time`, by its distance from the zero time.
abbrev pub Time : Type 0
Time = ℕ

pub record Task : Type 0 where
  pub id : ℕ
  pub title : String
  pub done : Bool
  pub due_date : Option Time
  pub created_at : Time
  pub updated_at : Time
  pub deleted_at : Option Time

abbrev pub code_task_not_found : String
code_task_not_found = "TASK_NOT_FOUND"

abbrev pub err_task_not_found : AppError
err_task_not_found = app_error code_task_not_found 404 "task not found" [] nil

-- The operations of the table, on the rows that are not deleted, the newest first.
unfoldable pub find_row : ℕ → List Task → Option Task
find_row i [] = none
find_row i (t ∷ ts) = if t.id == i then some t else find_row i ts

unfoldable pub set_row : Task → List Task → List Task
set_row r [] = []
set_row r (t ∷ ts) = (if t.id == r.id then r else t) ∷ set_row r ts

unfoldable pub remove_row : ℕ → List Task → List Task
remove_row i [] = []
remove_row i (t ∷ ts) = let rest = remove_row i ts in if t.id == i then rest else t ∷ rest
