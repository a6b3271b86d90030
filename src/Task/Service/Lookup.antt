-- ===== src/Task/Service/Lookup.antt =====
-- `Get` after each change of internal/modules/task/service.go.
use go_fiber_starter.Prelude.{ℕ, ◌≡◌, ◌≢◌, ap, ◌∙◌, none, some, List, ok, err, arith}
use go_fiber_starter.Apperror.{app, errorf}
use go_fiber_starter.Task.Model.{Task, err_task_not_found, find_row}
use go_fiber_starter.Task.Model.Rows.{find_row-set_row, find_row-remove_row, find_row-id}
use go_fiber_starter.Task.Dto.{UpdateRequest, Response, to_response}
use go_fiber_starter.Task.Gorm.{Touched}
use go_fiber_starter.Task.Repository.{Repository}
use go_fiber_starter.Task.Repository.Contract.{IsRepository, IsReadable, IsAvailable}
use go_fiber_starter.Task.Service.{mutate, get, update, delete, task_prefix, answered}
use go_fiber_starter.Task.Service.Outcome.{update_effect, delete_effect}

-- An update keeps the key.
id-update : (req : UpdateRequest) (t t' : Task) → Touched (mutate req t) t' → t'.id ≡ t.id
unfolding mutate
id-update req t t' h = ap (λ (x : Task). x.id) h

module _ {S : Type 0} (repo : Repository S) (rows : S → List Task)
    (laws : IsRepository rows repo) where
  pub get_row :
      (i : ℕ) (t : Task) (s : S)
      → IsReadable rows repo s
      → find_row i (rows s) ≡ some t
      → get repo i s ≡ ok (to_response t)
  unfolding get
  get_row i t s up h = ap (answered (errorf (task_prefix "get" i))) (up.find_up i t h)

  -- Over a repository that keeps the contract: a task that was deleted is not found by `Get`, while
  -- the repository is available.
  pub get-delete :
      (i : ℕ) (s s' : S)
      → delete repo i s ≡ (ok tt, s')
      → IsAvailable rows repo s'
      → get repo i s' ≡ err (errorf (task_prefix "get" i) (app err_task_not_found))
  unfolding get
  get-delete i s s' h up =
      let (t, found, removed) = delete_effect repo rows laws i s s' h in
      let gone : find_row i (rows s') ≡ none =
        rw removed (find_row-remove_row i i (rows s) ∙ ground arith) in
      ap (answered (errorf (task_prefix "get" i))) (up.find_missing i gone)

  -- Over a repository that keeps the contract: an update of one task leaves the row under every
  -- other key as it was.
  pub get-update_ne :
      (i j : ℕ) (req : UpdateRequest) (r : Response) (s s' : S)
      → i ≢ j
      → update repo i req s ≡ (ok r, s')
      → find_row j (rows s') ≡ find_row j (rows s)
  get-update_ne i j req r s s' ne h =
      let (t, t', found, touched, same, set) = update_effect repo rows laws i req r s s' h in
      let key : t'.id ≡ i = id-update req t t' touched ∙ find_row-id i t (rows s) found in
      let (row, stored, changed) = set in
      let row_key : row.id ≡ i = stored.id ∙ key in
      rw changed (find_row-set_row j row (rows s) ∙ ground (arith, row_key, ne))
