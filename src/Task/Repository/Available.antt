-- ===== src/Task/Repository/Available.antt =====
-- The repository over the database is available while the database is up.
use go_fiber_starter.Prelude.{
  ℕ, zero, suc, ◌≡◌, ◌∙◌, refl, ◌≢◌, Bool, false, none, some, List, ok, err,
}
use go_fiber_starter.Prelude.Int.{ℤ, pos, negsuc}
use go_fiber_starter.Apperror.{GoError, app, err_not_found}
use go_fiber_starter.Pagination.{PageQuery, offset}
use go_fiber_starter.Task.Model.{Task, err_task_not_found, find_row}
use go_fiber_starter.Task.Model.Rows.{find_row-id}
use go_fiber_starter.Task.Gorm.{Gorm, IsGorm, IsUp}
use go_fiber_starter.Task.Repository.{
  or_missing, find_by_id, list, apply_row_lock, update_in_transaction, update, deleted_rows, delete,
  gorm_repository,
}
use go_fiber_starter.Task.Repository.Contract.{IsAvailable}

module _ (g : Gorm) (rows : g.Db → List Task) (laws : IsGorm g rows) where
  first_there :
      (missing : GoError) (b : Bool) (i : ℕ) (t : Task) (db : g.Db)
      → IsUp g rows db
      → find_row i (rows db) ≡ some t
      → or_missing g missing (g.first b i db) ≡ ok t
  first_there missing b i t db up h = rw (up.first_up b i t h)

  first_gone :
      (missing : GoError) (b : Bool) (i : ℕ) (db : g.Db)
      → IsUp g rows db
      → find_row i (rows db) ≡ none
      → or_missing g missing (g.first b i db) ≡ err missing
  first_gone missing b i db up h = let (e, failed, is) = up.first_missing b i h in rw failed (rw is)

  list_up :
      (q : PageQuery) (db : g.Db) → IsUp g rows db → (p : List Task × ℤ) × (list g q db ≡ ok p)
  unfolding list
  list_up q db up =
      let (n, counted) = up.count_up in
      let (ts, found) = up.find_up q.limit (offset q) in ((ts, n), rw (counted, found))

  update_up :
      (i : ℕ) (f : Task → Task) (t : Task) (db : g.Db)
      → IsUp g rows db
      → ((x : Task) → (f x).id ≡ x.id)
      → find_row i (rows db) ≡ some t
      → (t' : Task) × (db' : g.Db) × (update g i f db ≡ (ok t', db'))
  unfolding update update_in_transaction
  update_up i f t db up keeps h =
      let key : (f t).id ≡ i = keeps t ∙ find_row-id i t (rows db) h in
      let (t', db', saved) = up.save_up (f t) t (rw key h) in
      (
        t',
        db',
        up.transaction_up (update_in_transaction g i f) t' db'
            (rw (first_there (app err_not_found) (apply_row_lock g) i t db up h) saved),
      )

  update_gone :
      (i : ℕ) (f : Task → Task) (db : g.Db)
      → IsUp g rows db
      → find_row i (rows db) ≡ none
      → (update g i f db).0 ≡ err (app err_not_found)
  unfolding update update_in_transaction
  update_gone i f db up h =
      up.transaction_fails (update_in_transaction g i f) (app err_not_found)
        (rw (first_gone (app err_not_found) (apply_row_lock g) i db up h))

  affected : (n : ℤ) → n ≢ pos 0 → deleted_rows g (ok n) ≡ ok tt
  affected (pos zero) h = absurd (h refl)
  affected (pos (suc n)) h = refl
  affected (negsuc n) h = refl

  delete_up :
      (i : ℕ) (t : Task) (db : g.Db)
      → IsUp g rows db
      → find_row i (rows db) ≡ some t
      → (delete g i db).0 ≡ ok tt
  unfolding delete
  delete_up i t db up h =
      let (n, db', done) = up.delete_up i in
      let (removed, (to, from)) = laws.delete_ok i n db db' done in
      rw done (affected n (λ z. (let gone = to z in cc)))

  delete_gone :
      (i : ℕ) (db : g.Db)
      → IsUp g rows db
      → find_row i (rows db) ≡ none
      → (delete g i db).0 ≡ err (app err_task_not_found)
  unfolding delete
  delete_gone i db up h =
      let (n, db', done) = up.delete_up i in
      let (removed, (to, from)) = laws.delete_ok i n db db' done in rw done (rw (from h))

  -- While a database that behaves as documented is up, the GORM repository fails for a missing row
  -- only, and it does so with the error that the contract names.
  pub gorm_repository-IsAvailable :
      (db : g.Db) → IsUp g rows db → IsAvailable rows (gorm_repository g) db
  unfolding gorm_repository find_by_id
  gorm_repository-IsAvailable db up = record {
    create_up = up.create_up;
    reads = record {
      find_up = λ i t h. first_there _ false i t db up h;
      list_up = λ q. list_up q db up;
    };
    find_missing = λ i h. first_gone _ false i db up h;
    update_up = λ i f t keeps h. update_up i f t db up keeps h;
    update_missing = λ i f h. update_gone i f db up h;
    delete_up = λ i t h. delete_up i t db up h;
    delete_missing = λ i h. delete_gone i db up h;
  }
