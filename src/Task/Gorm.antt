-- ===== src/Task/Gorm.antt =====
-- The object-relational mapper as the repository uses it, which is a library: its operations on
-- the table of tasks, and what its documentation says of them.
use go_fiber_starter.Prelude.{
  ℕ, ◌<◌, ◌≡◌, ◌↔◌, ◌⊎◌, Bool, true, false, none, some, List, ◌∷◌, Result, ok, err, String, All,
  take, drop, length,
}
use go_fiber_starter.Prelude.Int.{ℤ, pos, negsuc}
use go_fiber_starter.Apperror.{
  GoError, AppError, record_not_found, is_sentinel, find_app, find_fiber, is_app,
}
use go_fiber_starter.Task.Model.{Task, find_row, set_row, remove_row}

-- LIMIT and OFFSET of a query: an offset that is not positive is left out of the statement.
abbrev pub window : ℤ → ℤ → List Task → List Task
window (pos l) (pos o) ts = take l (drop o ts)
window (pos l) (negsuc o) ts = take l ts
window (negsuc l) (pos o) ts = drop o ts
window (negsuc l) (negsuc o) ts = ts

pub record Gorm : Type 1 where
  pub Db : Type 0
  -- the dialect
  pub name : String
  -- INSERT, which fills the primary key and the times in
  pub create : Task → Db → Result GoError Task × Db
  -- SELECT by primary key, with `FOR UPDATE` or without
  pub first : (for_update : Bool) → ℕ → Db → Result GoError Task
  pub count : Db → Result GoError ℤ
  -- SELECT in the descending order of the primary keys
  pub find_desc : (limit offset : ℤ) → Db → Result GoError (List Task)
  -- UPDATE of all columns, which sets the time of the update
  pub save : Task → Db → Result GoError Task × Db
  -- the soft delete, with the number of affected rows
  pub delete : ℕ → Db → Result GoError ℤ × Db
  -- runs the function, and commits if it returns nil
  pub transaction : (Db → Result GoError Task × Db) → Db → Result GoError Task × Db

-- The columns that an INSERT takes from the program.
pub record SameInput (t stored : Task) : Type 0 where
  pub title : stored.title ≡ t.title
  pub done : stored.done ≡ t.done
  pub due_date : stored.due_date ≡ t.due_date

-- What an UPDATE leaves alone: everything but the time of the update.
abbrev pub Touched : Task → Task → Type 0
Touched t stored = stored ≡ record t { updated_at = stored.updated_at }

-- The row that a statement leaves, of the task that it was given. A column keeps a time in its own
-- precision (whole seconds in MySQL, microseconds in Postgres), so that no more is known of the times
-- than whether a due date is there.
pub record Stored (t row : Task) : Type 0 where
  pub id : row.id ≡ t.id
  pub title : row.title ≡ t.title
  pub done : row.done ≡ t.done
  pub due_date : (row.due_date ≡ none) ↔ (t.due_date ≡ none)

-- An error of the database holds no error of the program and none of the web framework.
pub record IsForeign (e : GoError) : Type 0 where
  pub no_app : find_app e ≡ none
  pub no_fiber : find_fiber e ≡ none
  pub no_code : (target : AppError) → is_app target e ≡ false

-- `rows` reads the rows that are not deleted, in the descending order of their keys.
pub record IsGorm (g : Gorm) (rows : g.Db → List Task) : Type 0 where
  -- a task without a key gets one above all others
  pub create_ok :
      (t t' : Task) (db db' : g.Db)
      → t.id ≡ 0
      → g.create t db ≡ (ok t', db')
      → SameInput t t'
        × ((row : Task) × Stored t' row × (rows db' ≡ row ∷ rows db))
        × All (λ r. r.id < t'.id) (rows db)
  pub create_err :
      (t : Task) (e : GoError) (db db' : g.Db)
      → g.create t db ≡ (err e, db')
      → (rows db' ≡ rows db) × IsForeign e
  pub first_ok :
      (b : Bool) (i : ℕ) (t : Task) (db : g.Db)
      → g.first b i db ≡ ok t
      → find_row i (rows db) ≡ some t
  pub first_err :
      (b : Bool) (i : ℕ) (e : GoError) (db : g.Db) → g.first b i db ≡ err e → IsForeign e
  pub first_not_found :
      (b : Bool) (i : ℕ) (e : GoError) (db : g.Db)
      → g.first b i db ≡ err e
      → is_sentinel record_not_found e ≡ true
      → find_row i (rows db) ≡ none
  pub count_ok : (n : ℤ) (db : g.Db) → g.count db ≡ ok n → n ≡ pos (length (rows db))
  pub count_err : (e : GoError) (db : g.Db) → g.count db ≡ err e → IsForeign e
  pub find_ok :
      (l o : ℤ) (ts : List Task) (db : g.Db)
      → g.find_desc l o db ≡ ok ts
      → ts ≡ window l o (rows db)
  pub find_err : (l o : ℤ) (e : GoError) (db : g.Db) → g.find_desc l o db ≡ err e → IsForeign e
  pub save_err : (t : Task) (e : GoError) (db db' : g.Db) → g.save t db ≡ (err e, db') → IsForeign e
  -- the row is there; without one, Save would insert it
  pub save_ok :
      (t t' old : Task) (db db' : g.Db)
      → find_row t.id (rows db) ≡ some old
      → g.save t db ≡ (ok t', db')
      → Touched t t' × ((row : Task) × Stored t' row × (rows db' ≡ set_row row (rows db)))
  pub delete_ok :
      (i : ℕ) (n : ℤ) (db db' : g.Db)
      → g.delete i db ≡ (ok n, db')
      → (rows db' ≡ remove_row i (rows db)) × ((n ≡ pos 0) ↔ (find_row i (rows db) ≡ none))
  pub delete_err :
      (i : ℕ) (e : GoError) (db db' : g.Db)
      → g.delete i db ≡ (err e, db')
      → (rows db' ≡ rows db) × IsForeign e
  -- a transaction that returns nil has run and committed its function; one that returns an error
  -- is rolled back; the error is that of the function, or the database's own
  pub transaction_ok :
      (f : g.Db → Result GoError Task × g.Db) (t : Task) (db db' : g.Db)
      → g.transaction f db ≡ (ok t, db')
      → f db ≡ (ok t, db')
  pub transaction_err :
      (f : g.Db → Result GoError Task × g.Db) (e : GoError) (db db' : g.Db)
      → g.transaction f db ≡ (err e, db')
      → (rows db' ≡ rows db) × (((f db).0 ≡ err e) ⊎ IsForeign e)

-- A state of the database in which no statement fails for another reason than a missing row,
-- whatever task it is given: more than a server promises, but so it is of the table in memory.
pub record IsUp (g : Gorm) (rows : g.Db → List Task) (db : g.Db) : Type 0 where
  pub create_up :
      (t : Task) → t.id ≡ 0 → (t' : Task) × (db' : g.Db) × (g.create t db ≡ (ok t', db'))
  pub first_up :
      (b : Bool) (i : ℕ) (t : Task) → find_row i (rows db) ≡ some t → g.first b i db ≡ ok t
  pub first_missing :
      (b : Bool) (i : ℕ)
      → find_row i (rows db) ≡ none
      → (e : GoError) × (g.first b i db ≡ err e) × (is_sentinel record_not_found e ≡ true)
  pub count_up : (n : ℤ) × (g.count db ≡ ok n)
  pub find_up : (l o : ℤ) → (ts : List Task) × (g.find_desc l o db ≡ ok ts)
  pub save_up :
      (t old : Task)
      → find_row t.id (rows db) ≡ some old
      → (t' : Task) × (db' : g.Db) × (g.save t db ≡ (ok t', db'))
  pub delete_up : (i : ℕ) → (n : ℤ) × (db' : g.Db) × (g.delete i db ≡ (ok n, db'))
  pub transaction_up :
      (f : g.Db → Result GoError Task × g.Db) (t : Task) (db' : g.Db)
      → f db ≡ (ok t, db')
      → g.transaction f db ≡ (ok t, db')
  pub transaction_fails :
      (f : g.Db → Result GoError Task × g.Db) (e : GoError)
      → (f db).0 ≡ err e
      → (g.transaction f db).0 ≡ err e
