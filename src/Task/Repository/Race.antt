-- ===== src/Task/Repository/Race.antt =====
-- `Update` of internal/modules/task/repository.go, as several requests run it on one row at the same
-- time.
pub mod Serial
use go_fiber_starter.Prelude.{ℕ, ◌≡◌, Bool, true, false, Option, none, some, ◌==◌, if◌then◌else◌}
use go_fiber_starter.Task.Model.{Task}
use go_fiber_starter.Task.Gorm.{Gorm, Touched}
use go_fiber_starter.Task.Repository.{apply_row_lock}

-- How far a transaction is: it has not begun, it has read the row, it has saved and committed, or it
-- was rolled back.
pub data Phase : Type 0 where
  begun : Phase
  loaded : Task → Phase
  committed : Phase
  rolled_back : Phase

-- A row, the transaction that holds its lock, and the phases of all transactions.
pub record Row : Type 0 where
  pub task : Task
  pub lock : Option ℕ
  pub phase : ℕ → Phase

abbrev pub set_phase : ℕ → Phase → (ℕ → Phase) → ℕ → Phase
set_phase c new old d = if d == c then new else old d

abbrev pub locked_by : Bool → ℕ → Option ℕ → Option ℕ
locked_by true c old = some c
locked_by false c old = old

-- The two statements of the function that runs in the transaction, and the end of the transaction.
-- What a lock does is what the databases document of FOR UPDATE: the read waits while another
-- transaction holds the lock of the row, and a commit or a rollback gives it back. `mutate c` is the
-- closure of the request `c`.
pub data Step (g : Gorm) (mutate : ℕ → Task → Task) (r : Row) : Row → Type 0 where
  read :
      (c : ℕ)
      → r.phase c ≡ begun
      → (apply_row_lock g ≡ true → r.lock ≡ none)
      → Step g mutate r (record r {
        lock = locked_by (apply_row_lock g) c r.lock;
        phase = set_phase c (loaded r.task) r.phase;
      })
  save :
      (c : ℕ) (t t' : Task)
      → r.phase c ≡ loaded t
      → Touched (mutate c t) t'
      → Step g mutate r (record { task = t'; lock = none; phase = set_phase c committed r.phase })
  roll_back :
      (c : ℕ) (t : Task)
      → r.phase c ≡ loaded t
      → Step g mutate r (record r { lock = none; phase = set_phase c rolled_back r.phase })

pub data Run (g : Gorm) (mutate : ℕ → Task → Task) (r : Row) : Row → Type 0 where
  nothing : Run g mutate r r
  and_then : {r' r'' : Row} → Run g mutate r r' → Step g mutate r' r'' → Run g mutate r r''
