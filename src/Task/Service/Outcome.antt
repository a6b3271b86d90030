-- ===== src/Task/Service/Outcome.antt =====
-- What each operation of internal/modules/task/service.go has done, by its result.
use go_fiber_starter.Prelude.{ℕ, ◌<◌, ◌≡◌, refl, ap, false, some, List, ◌∷◌, Result, ok, err, All}
use go_fiber_starter.Apperror.{GoError}
use go_fiber_starter.Task.Model.{Task, find_row, set_row, remove_row}
use go_fiber_starter.Task.Dto.{CreateRequest, UpdateRequest, Response, to_response}
use go_fiber_starter.Task.Gorm.{Touched, Stored}
use go_fiber_starter.Task.Repository.{Repository}
use go_fiber_starter.Task.Repository.Contract.{IsRepository}
use go_fiber_starter.Task.Service.{
  new_task, mutate, create, get, update, delete, answered, normalize_error, task_prefix,
  deleted_error,
}

-- The result of a call in two parts.
abbrev pub both {ℓ κ} :
    {A : Type ℓ} {B : Type κ} {a a' : A} {b b' : B}
    → a ≡ a'
    → b ≡ b'
    → ◌≡◌ {A = A × B} (a, b) (a', b')
both p q = λ j. (p j, q j)

pub answered_ok :
    (f : GoError → GoError) (r : Result GoError Task) (x : Response)
    → answered f r ≡ ok x
    → (t : Task) × (r ≡ ok t) × (x ≡ to_response t)
answered_ok f (ok t) x h = (t, refl, cc)
answered_ok f (err e) x h = cc

pub answered_err :
    (f : GoError → GoError) (r : Result GoError Task) (e : GoError)
    → answered f r ≡ err e
    → (e' : GoError) × (r ≡ err e') × (e ≡ f e')
answered_err f (ok t) e h = cc
answered_err f (err x) e h = (x, refl, cc)

pub deleted_error_err :
    (i : ℕ) (r : Result GoError (Unit {0})) (e : GoError)
    → deleted_error i r ≡ err e
    → (e' : GoError) × (r ≡ err e') × (e ≡ normalize_error (task_prefix "delete" i) e')
deleted_error_err i (ok u) e h = cc
deleted_error_err i (err x) e h = (x, refl, cc)

pub deleted_error_ok :
    (i : ℕ) (r : Result GoError (Unit {0})) → deleted_error i r ≡ ok tt → r ≡ ok tt
deleted_error_ok i (ok u) h = cc
deleted_error_ok i (err x) h = cc

module _ {S : Type 0} (repo : Repository S) (rows : S → List Task)
    (laws : IsRepository rows repo) where
  -- Over a repository that keeps the contract: a task that was created has the title and the due
  -- date of the request, is not done, has a key above all others, and is the one row that was
  -- added; it is the response, but for the precision of the times.
  pub create_effect :
      (req : CreateRequest) (r : Response) (s s' : S)
      → create repo req s ≡ (ok r, s')
      → (t : Task) × (r ≡ to_response t)
        × ((row : Task) × Stored t row × (rows s' ≡ row ∷ rows s))
        × (t.title ≡ req.title)
        × (t.done ≡ false)
        × (t.due_date ≡ req.due_date)
        × All (λ x. x.id < t.id) (rows s)
  unfolding create new_task
  create_effect req r s s' h =
      let (t, stored, same) = answered_ok _ _ r (ap (λ p. p.0) h) in
      let (input, added, above) =
        laws.create_ok (new_task req) t s s' refl (both stored (ap (λ p. p.1) h)) in
      (t, same, added, input.title, input.done, input.due_date, above)

  -- A response of `Get` is the row under that key.
  pub get_effect :
      (i : ℕ) (r : Response) (s : S)
      → get repo i s ≡ ok r
      → (t : Task) × (r ≡ to_response t) × (find_row i (rows s) ≡ some t)
  unfolding get
  get_effect i r s h =
      let (t, found, same) = answered_ok _ _ r h in (t, same, laws.find_ok i t s found)

  -- Over a repository that keeps the contract: an update changes the one row under its key, by the
  -- fields that the request gives and by the time of the update alone; the row is the response, but for the
  -- precision of the times.
  pub update_effect :
      (i : ℕ) (req : UpdateRequest) (r : Response) (s s' : S)
      → update repo i req s ≡ (ok r, s')
      → (t t' : Task) × (find_row i (rows s) ≡ some t)
        × Touched (mutate req t) t'
        × (r ≡ to_response t')
        × ((row : Task) × Stored t' row × (rows s' ≡ set_row row (rows s)))
  unfolding update
  update_effect i req r s s' h =
      let (t', stored, same) = answered_ok _ _ r (ap (λ p. p.0) h) in
      let (t, found, touched, set) =
        laws.update_ok i (mutate req) t' s s' (λ u. unfold mutate in refl)
          (both stored (ap (λ p. p.1) h)) in
      (t, t', found, touched, same, set)

  -- A deletion removes the one row under its key.
  pub delete_effect :
      (i : ℕ) (s s' : S)
      → delete repo i s ≡ (ok tt, s')
      → (t : Task) × (find_row i (rows s) ≡ some t) × (rows s' ≡ remove_row i (rows s))
  unfolding delete
  delete_effect i s s' h =
      laws.delete_ok i s s'
        (both (deleted_error_ok i (repo.delete i s).0 (ap (λ p. p.0) h)) (ap (λ p. p.1) h))
