-- ===== src/Task/Repository/Contract.antt =====
-- What the service expects of a repository, in terms of the table.
use go_fiber_starter.Prelude.{ℕ, ◌<◌, ◌≡◌, ◌⊎◌, none, some, List, ◌∷◌, ok, err, All, length}
use go_fiber_starter.Prelude.Int.{ℤ, pos}
use go_fiber_starter.Apperror.{GoError, app, err_not_found}
use go_fiber_starter.Pagination.{PageQuery, offset}
use go_fiber_starter.Task.Model.{Task, err_task_not_found, find_row, set_row, remove_row}
use go_fiber_starter.Task.Gorm.{SameInput, Touched, Stored, IsForeign, window}
use go_fiber_starter.Task.Repository.{Repository}

pub record IsRepository {S : Type 0} (rows : S → List Task) (r : Repository S) : Type 0 where
  pub create_ok :
      (t t' : Task) (s s' : S)
      → t.id ≡ 0
      → r.create t s ≡ (ok t', s')
      → SameInput t t'
        × ((row : Task) × Stored t' row × (rows s' ≡ row ∷ rows s))
        × All (λ x. x.id < t'.id) (rows s)
  pub create_err :
      (t : Task) (e : GoError) (s s' : S)
      → r.create t s ≡ (err e, s')
      → (rows s' ≡ rows s) × IsForeign e
  pub find_ok : (i : ℕ) (t : Task) (s : S) → r.find_by_id i s ≡ ok t → find_row i (rows s) ≡ some t
  pub find_err :
      (i : ℕ) (e : GoError) (s : S)
      → r.find_by_id i s ≡ err e
      → ((e ≡ app err_task_not_found) × (find_row i (rows s) ≡ none)) ⊎ IsForeign e
  pub list_ok :
      (q : PageQuery) (ts : List Task) (n : ℤ) (s : S)
      → r.list q s ≡ ok (ts, n)
      → (ts ≡ window q.limit (offset q) (rows s)) × (n ≡ pos (length (rows s)))
  pub list_err : (q : PageQuery) (e : GoError) (s : S) → r.list q s ≡ err e → IsForeign e
  -- the function keeps the key
  pub update_ok :
      (i : ℕ) (f : Task → Task) (t' : Task) (s s' : S)
      → ((t : Task) → (f t).id ≡ t.id)
      → r.update i f s ≡ (ok t', s')
      → (t : Task) × (find_row i (rows s) ≡ some t)
        × Touched (f t) t'
        × ((row : Task) × Stored t' row × (rows s' ≡ set_row row (rows s)))
  pub update_err :
      (i : ℕ) (f : Task → Task) (e : GoError) (s s' : S)
      → r.update i f s ≡ (err e, s')
      → (rows s' ≡ rows s)
        × (((e ≡ app err_not_found) × (find_row i (rows s) ≡ none)) ⊎ IsForeign e)
  pub delete_ok :
      (i : ℕ) (s s' : S)
      → r.delete i s ≡ (ok tt, s')
      → (t : Task) × (find_row i (rows s) ≡ some t) × (rows s' ≡ remove_row i (rows s))
  pub delete_err :
      (i : ℕ) (e : GoError) (s s' : S)
      → r.delete i s ≡ (err e, s')
      → (rows s' ≡ rows s)
        × (((e ≡ app err_task_not_found) × (find_row i (rows s) ≡ none)) ⊎ IsForeign e)

-- A state in which no reading of what is there fails.
pub record IsReadable {S : Type 0} (rows : S → List Task) (r : Repository S) (s : S) : Type 0 where
  pub find_up : (i : ℕ) (t : Task) → find_row i (rows s) ≡ some t → r.find_by_id i s ≡ ok t
  pub list_up : (q : PageQuery) → (p : List Task × ℤ) × (r.list q s ≡ ok p)

-- A state in which the repository fails for no other reason than a missing row.
pub record IsAvailable {S : Type 0} (rows : S → List Task) (r : Repository S) (s : S) : Type 0 where
  pub reads : IsReadable rows r s
  pub create_up : (t : Task) → t.id ≡ 0 → (t' : Task) × (s' : S) × (r.create t s ≡ (ok t', s'))
  pub find_missing :
      (i : ℕ) → find_row i (rows s) ≡ none → r.find_by_id i s ≡ err (app err_task_not_found)
  pub update_up :
      (i : ℕ) (f : Task → Task) (t : Task)
      → ((x : Task) → (f x).id ≡ x.id)
      → find_row i (rows s) ≡ some t
      → (t' : Task) × (s' : S) × (r.update i f s ≡ (ok t', s'))
  pub update_missing :
      (i : ℕ) (f : Task → Task)
      → find_row i (rows s) ≡ none
      → (r.update i f s).0 ≡ err (app err_not_found)
  pub delete_up : (i : ℕ) (t : Task) → find_row i (rows s) ≡ some t → (r.delete i s).0 ≡ ok tt
  pub delete_missing :
      (i : ℕ) → find_row i (rows s) ≡ none → (r.delete i s).0 ≡ err (app err_task_not_found)
