-- ===== src/Tests/Races.antt =====
-- The theorem on updates at the same time, and what happens without its lock.
use go_fiber_starter.Prelude.{ℕ, zero, suc, ◌≡◌, refl, none, some, false}
use go_fiber_starter.Task.Model.{Task}
use go_fiber_starter.Task.Gorm.{Gorm}
use go_fiber_starter.Task.Memory.{memory}
use go_fiber_starter.Task.Dto.{UpdateRequest}
use go_fiber_starter.Task.Service.{mutate}
use go_fiber_starter.Task.Repository.{apply_row_lock}
use go_fiber_starter.Task.Repository.Race.{
  Row, committed, locked_by, set_phase, loaded, read, save, Run, nothing, and_then,
}
use go_fiber_starter.Task.Repository.Race.Serial.{IsSerial, fresh, Run-IsSerial}
use go_fiber_starter.Tests.{milk, mark_done}

abbrev postgres : Gorm
postgres = record memory { name = "postgres" }

abbrev rename : UpdateRequest
rename = record {
  title = some "oat milk";
  done = none;
  due_date = record { set = false; null = false; value = 0 };
}

-- The first request gives a new title, and all others mark the task as done.
abbrev requests : ℕ → Task → Task
requests zero = mutate rename
requests (suc c) = mutate mark_done

abbrev read_by : Gorm → ℕ → Row → Row
read_by g c r = record r {
  lock = locked_by (apply_row_lock g) c r.lock;
  phase = set_phase c (loaded r.task) r.phase;
}

abbrev saved_by : ℕ → Task → Row → Row
saved_by c t r = record { task = t; lock = none; phase = set_phase c committed r.phase }

-- The second request waits for the first one.
abbrev first_done : Row
first_done = saved_by 0 (mutate rename milk) (read_by postgres 0 (fresh milk))

abbrev both_done : Row
both_done = saved_by 1 (mutate mark_done (mutate rename milk)) (read_by postgres 1 first_done)

waiting : Run postgres requests (fresh milk) both_done
unfolding mutate
waiting =
    and_then
      (and_then
        (and_then (and_then nothing (read 0 refl (λ l. refl)))
          (save 0 milk (mutate rename milk) refl refl))
        (read 1 refl (λ l. refl)))
      (save 1 (mutate rename milk) (mutate mark_done (mutate rename milk)) refl refl)

Run-IsSerial_example : IsSerial requests milk both_done
Run-IsSerial_example = Run-IsSerial postgres requests milk both_done (λ e. cc) waiting

-- Without the lock, both requests read the same row, and the new title is lost.
abbrev both_read : Row
both_read = read_by memory 1 (read_by memory 0 (fresh milk))

racing :
    Run memory requests
      (fresh milk)
      (saved_by 1 (mutate mark_done milk) (saved_by 0 (mutate rename milk) both_read))
unfolding mutate apply_row_lock
racing =
    and_then
      (and_then (and_then (and_then nothing (read 0 refl (λ l. refl))) (read 1 refl (λ l. refl)))
        (save 0 milk (mutate rename milk) refl refl))
      (save 1 milk (mutate mark_done milk) refl refl)

lost_title : (mutate mark_done milk).title ≡ "milk"
unfolding mutate
lost_title = refl
