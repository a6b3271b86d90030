-- ===== src/Task/Repository/Refines.antt =====
-- The repository over the database keeps the contract that the service expects.
use go_fiber_starter.Prelude.{
  ℕ, ◌≡◌, refl, ◌⊎◌, inl, inr, Bool, false, none, some, List, ok, err, length, Bool-cases,
  Option-cases, ◌∙◌, arith, Result-cases, ap, zero, suc,
}
use go_fiber_starter.Prelude.Int.{ℤ, pos, negsuc}
use go_fiber_starter.Apperror.{GoError, app, err_not_found, record_not_found, is_sentinel}
use go_fiber_starter.Pagination.{PageQuery, offset}
use go_fiber_starter.Task.Model.{Task, err_task_not_found, find_row, set_row, remove_row}
use go_fiber_starter.Task.Model.Rows.{remove_row-none, find_row-id}
use go_fiber_starter.Task.Gorm.{Gorm, IsGorm, Touched, Stored, IsForeign, window}
use go_fiber_starter.Task.Repository.{
  or_missing, find_by_id, list, apply_row_lock, update_in_transaction, update, deleted_rows, delete,
  gorm_repository,
}
use go_fiber_starter.Task.Repository.Contract.{IsRepository}

module _ (g : Gorm) (rows : g.Db → List Task) (laws : IsGorm g rows) where
  or_missing_ok :
      (missing : GoError) (b : Bool) (i : ℕ) (t : Task) (db : g.Db)
      → or_missing g missing (g.first b i db) ≡ ok t
      → g.first b i db ≡ ok t
  or_missing_ok missing b i t db h = elim (Result-cases (g.first b i db)) [
    | inl (t', e) ↦ rw e (rw e at h)
    | inr (e', e) ↦ (let bad = rw e at h in cc)
  ]

  -- The failure of a lookup: the missing row, or an error of the database.
  or_missing_err :
      (missing : GoError) (b : Bool) (i : ℕ) (e : GoError) (db : g.Db)
      → or_missing g missing (g.first b i db) ≡ err e
      → ((e ≡ missing) × (find_row i (rows db) ≡ none)) ⊎ IsForeign e
  or_missing_err missing b i e db h = elim (Result-cases (g.first b i db)) [
    | inl (t', q) ↦ (let bad = rw q at h in cc)
    | inr (e', q) ↦ elim (Bool-cases (is_sentinel record_not_found e')) [
      | inl y ↦ inl (ground arith, laws.first_not_found b i e' db q y)
      | inr n ↦ (let same : e' ≡ e = ground arith in inr (rw (← same) (laws.first_err b i e' db q)))
    ]
  ]

  list_lem_ok :
      (q : PageQuery) (ts : List Task) (n : ℤ) (db : g.Db)
      → list g q db ≡ ok (ts, n)
      → (ts ≡ window q.limit (offset q) (rows db)) × (n ≡ pos (length (rows db)))
  unfolding list
  list_lem_ok q ts n db h = elim (Result-cases (g.count db)) [
    | inl (m, e) ↦ elim (Result-cases (g.find_desc q.limit (offset q) db)) [
      | inl (us, e') ↦
          let k = rw (e, e') at h in
          let same_ts : us ≡ ts = cc in
          let same_n : m ≡ n = cc in
          (rw (← same_ts) (laws.find_ok _ _ us db e'), rw (← same_n) (laws.count_ok m db e))
      | inr (x, e') ↦ (let k = rw (e, e') at h in cc)
    ]
    | inr (x, e) ↦ (let k = rw e at h in cc)
  ]

  list_lem_err : (q : PageQuery) (e : GoError) (db : g.Db) → list g q db ≡ err e → IsForeign e
  unfolding list
  list_lem_err q x db h = elim (Result-cases (g.count db)) [
    | inl (m, e) ↦ elim (Result-cases (g.find_desc q.limit (offset q) db)) [
      | inl (us, e') ↦ (let k = rw (e, e') at h in cc)
      | inr (y, e') ↦
          let k = rw (e, e') at h in
          let same : y ≡ x = cc in rw (← same) (laws.find_err _ _ y db e')
    ]
    | inr (y, e) ↦ let k = rw e at h in let same : y ≡ x = cc in rw (← same) (laws.count_err y db e)
  ]

  -- What the function in the transaction has done when it returns nil.
  in_transaction_ok :
      (i : ℕ) (f : Task → Task) (t' : Task) (db db' : g.Db)
      → ((t : Task) → (f t).id ≡ t.id)
      → update_in_transaction g i f db ≡ (ok t', db')
      → (t : Task) × (find_row i (rows db) ≡ some t)
        × Touched (f t) t'
        × ((row : Task) × Stored t' row × (rows db' ≡ set_row row (rows db)))
  unfolding update_in_transaction
  in_transaction_ok i f t' db db' keeps h = elim (Result-cases (g.first (apply_row_lock g) i db)) [
    | inl (t, e) ↦
        let saved = rw e at h in
        let found = laws.first_ok _ i t db e in
        let key : (f t).id ≡ i = keeps t ∙ find_row-id i t (rows db) found in
        let (touched, stored) = laws.save_ok (f t) t' t db db' (rw key found) saved in
        (t, found, touched, stored)
    | inr (x, e) ↦ (let bad = rw e at h in cc)
  ]

  in_transaction_err :
      (i : ℕ) (f : Task → Task) (x : GoError) (db : g.Db)
      → (update_in_transaction g i f db).0 ≡ err x
      → ((x ≡ app err_not_found) × (find_row i (rows db) ≡ none)) ⊎ IsForeign x
  unfolding update_in_transaction
  in_transaction_err i f x db h =
      elim (Result-cases (or_missing g (app err_not_found) (g.first (apply_row_lock g) i db))) [
        | inl (t, e) ↦
            let failed = rw e at h in
            inr (laws.save_err (f t) x db _ (λ j. (failed j, (g.save (f t) db).1)))
        | inr (y, e) ↦
            let bad = rw e at h in
            let same : y ≡ x = cc in rw (← same) (or_missing_err (app err_not_found) _ i y db e)
      ]

  update_lem_err :
      (i : ℕ) (f : Task → Task) (e : GoError) (db db' : g.Db)
      → update g i f db ≡ (err e, db')
      → (rows db' ≡ rows db)
        × (((e ≡ app err_not_found) × (find_row i (rows db) ≡ none)) ⊎ IsForeign e)
  unfolding update
  update_lem_err i f e db db' h =
      let (same, why) = laws.transaction_err (update_in_transaction g i f) e db db' h in
      (same, elim why [ inl ran ↦ in_transaction_err i f e db ran | inr own ↦ inr own ])

  -- A row was affected exactly if there was one.
  deleted_ok :
      (i : ℕ) (n : ℤ) (db : g.Db)
      → ((n ≡ pos 0) → find_row i (rows db) ≡ none)
      → (find_row i (rows db) ≡ none → n ≡ pos 0)
      → deleted_rows g (ok n) ≡ ok tt
      → (t : Task) × (find_row i (rows db) ≡ some t)
  deleted_ok i n db to from h = elim (Option-cases (find_row i (rows db))) [
    | inl missing ↦ (let z = rw (from missing) at h in cc)
    | inr found ↦ found
  ]

  deleted_err :
      (n : ℤ) (e : GoError)
      → deleted_rows g (ok n) ≡ err e
      → (e ≡ app err_task_not_found) × (n ≡ pos 0)
  deleted_err (pos zero) e h = (cc, refl)
  deleted_err (pos (suc n)) e h = cc
  deleted_err (negsuc n) e h = cc

  delete_lem_ok :
      (i : ℕ) (db db' : g.Db)
      → delete g i db ≡ (ok tt, db')
      → (t : Task) × (find_row i (rows db) ≡ some t) × (rows db' ≡ remove_row i (rows db))
  unfolding delete
  delete_lem_ok i db db' h = elim (Result-cases (g.delete i db).0) [
    | inl (n, e) ↦
        let whole = laws.delete_ok i n db _ (λ j. (e j, (g.delete i db).1)) in
        let (removed, (to, from)) = whole in
        let counted = rw e at (ap (λ p. p.0) h) in
        let (t, found) = deleted_ok i n db to from counted in
        (t, found, rw (← ap (λ p. p.1) h) removed)
    | inr (x, e) ↦ (let bad = rw e at (ap (λ p. p.0) h) in cc)
  ]

  delete_lem_err :
      (i : ℕ) (e : GoError) (db db' : g.Db)
      → delete g i db ≡ (err e, db')
      → (rows db' ≡ rows db)
        × (((e ≡ app err_task_not_found) × (find_row i (rows db) ≡ none)) ⊎ IsForeign e)
  unfolding delete
  delete_lem_err i x db db' h = elim (Result-cases (g.delete i db).0) [
    | inl (n, e) ↦
        let whole = laws.delete_ok i n db _ (λ j. (e j, (g.delete i db).1)) in
        let (removed, (to, from)) = whole in
        let (which, zero_rows) = deleted_err n x (rw e at (ap (λ p. p.0) h)) in
        let missing = to zero_rows in
        (
          rw (← ap (λ p. p.1) h) (removed ∙ remove_row-none i (rows db) missing),
          inl (which, missing),
        )
    | inr (y, e) ↦
        let (kept, foreign) = laws.delete_err i y db _ (λ j. (e j, (g.delete i db).1)) in
        let bad = rw e at (ap (λ p. p.0) h) in
        let same : y ≡ x = cc in (rw (← ap (λ p. p.1) h) kept, inr (rw (← same) foreign))
  ]

  -- Over a database that behaves as documented, the GORM repository keeps the contract: an
  -- operation that returns nil has changed the table as the contract says and has returned what it
  -- should, and one that returns an error has left the rows alone, and has failed by a missing row
  -- or by the database.
  pub gorm_repository-IsRepository : IsRepository rows (gorm_repository g)
  unfolding gorm_repository update find_by_id
  gorm_repository-IsRepository = record {
    create_ok = laws.create_ok;
    create_err = laws.create_err;
    find_ok = λ i t db h. laws.first_ok false i t db (or_missing_ok _ false i t db h);
    find_err = λ i e db h. or_missing_err _ false i e db h;
    list_ok = list_lem_ok;
    list_err = list_lem_err;
    update_ok = λ i f t' db db' keeps h.
        in_transaction_ok i f t' db db' keeps (laws.transaction_ok _ t' db db' h);
    update_err = update_lem_err;
    delete_ok = delete_lem_ok;
    delete_err = delete_lem_err;
  }
