-- ===== src/Task/Repository.antt =====
-- internal/modules/task/repository.go, the interface of service.go that it implements, and what
-- the service may expect of an implementation.
pub mod Contract
pub mod Refines
pub mod Available
pub mod Race
use go_fiber_starter.Prelude.{
  ℕ, zero, Bool, false, not, Option, none, some, List, Result, ok, err, ◌>>=◌, if◌then◌else◌,
  String,
}
use go_fiber_starter.Prelude.Int.{ℤ, pos}
use go_fiber_starter.Apperror.{GoError, app, record_not_found, is_sentinel, err_not_found}
use go_fiber_starter.Pagination.{PageQuery, offset}
use go_fiber_starter.Task.Model.{Task, err_task_not_found}
use go_fiber_starter.Task.Gorm.{Gorm}
use text.Mathlib.Text.{◌==◌}

pub record Repository (S : Type 0) : Type 0 where
  pub create : Task → S → Result GoError Task × S
  pub find_by_id : ℕ → S → Result GoError Task
  pub list : PageQuery → S → Result GoError (List Task × ℤ)
  pub update : ℕ → (Task → Task) → S → Result GoError Task × S
  pub delete : ℕ → S → Result GoError (Unit {0}) × S

module _ (g : Gorm) where
  open g use {Db}

  -- The error of a lookup: a missing row becomes the given error of the program.
  abbrev pub or_missing : GoError → {A : Type 0} → Result GoError A → Result GoError A
  or_missing missing (ok a) = ok a
  or_missing missing (err e) = err (if is_sentinel record_not_found e then missing else e)

  unfoldable pub find_by_id : ℕ → Db → Result GoError Task
  find_by_id i db = or_missing (app err_task_not_found) (g.first false i db)

  unfoldable pub list : PageQuery → Db → Result GoError (List Task × ℤ)
  list q db = do total ← g.count db; tasks ← g.find_desc q.limit (offset q) db; ok (tasks, total)

  -- Whether `applyRowLock` adds FOR UPDATE.
  unfoldable pub apply_row_lock : Bool
  apply_row_lock = not (g.name == "sqlite")

  abbrev pub save_found : (Task → Task) → Result GoError Task → Db → Result GoError Task × Db
  save_found mutate (err e) db = (err e, db)
  save_found mutate (ok t) db = g.save (mutate t) db

  -- The function that runs in the transaction.
  unfoldable pub update_in_transaction : ℕ → (Task → Task) → Db → Result GoError Task × Db
  unfolding apply_row_lock
  update_in_transaction i mutate db =
      save_found mutate (or_missing (app err_not_found) (g.first apply_row_lock i db)) db

  unfoldable pub update : ℕ → (Task → Task) → Db → Result GoError Task × Db
  update i mutate db = g.transaction (update_in_transaction i mutate) db

  abbrev pub deleted_rows : Result GoError ℤ → Result GoError (Unit {0})
  deleted_rows (err e) = err e
  deleted_rows (ok (pos zero)) = err (app err_task_not_found)
  deleted_rows (ok n) = ok tt

  unfoldable pub delete : ℕ → Db → Result GoError (Unit {0}) × Db
  delete i db = let (r, db') = g.delete i db in (deleted_rows r, db')

  unfoldable pub gorm_repository : Repository Db
  unfolding find_by_id list update delete
  gorm_repository = record {
    create = g.create;
    find_by_id = find_by_id;
    list = list;
    update = update;
    delete = delete;
  }
