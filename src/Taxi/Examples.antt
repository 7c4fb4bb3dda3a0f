-- ===== src/Taxi/Examples.antt =====
-- The drivers of module3/c02 on a short history.
use eltex_summer.Base.{◌+◌, ◌<◌, length, arith, ◌≡◌, refl, true, some, List, [], ◌∷◌, ◌++◌}
use eltex_summer.Base.Int.{ℤ, pos}
use eltex_summer.Taxi.{
  Work, Driver, Event, message, interrupted, find_driver, status_text, read_command, run_command,
  to_driver, on_message, on_task,
}
use eltex_summer.Taxi.Schedule.{driver_run, all_busy, driver_run-busy}
use eltex_summer.Taxi.Commands.{task_line, task_message, run_command-task_line}

abbrev working : Work
working = record { busy = true; task_end = pos 110; remaining_time = pos 10 }

abbrev history : List (ℤ × Event)
history =
    (pos 103, message (status_text ++ 10 ∷ []))
    ∷ (pos 105, interrupted)
    ∷ (pos 109, message (task_message (pos 60)))
    ∷ []

driver_run-busy_example :
    ((driver_run history working).0 ≡ working) × (all_busy (driver_run history working).1 ≡ true)
driver_run-busy_example = driver_run-busy history working refl (refl, (refl, (refl, tt)))

abbrev one_driver : List Driver
one_driver = record { pid = pos 4711; status = 0; task_end_time = 0; task_timer = pos 0 } ∷ []

known : find_driver (pos 4711) one_driver ≡ true
unfolding find_driver
known = refl

run_command-task_line_example :
    (run_command true (pos 1) (read_command (task_line (pos 4711) (pos 30))) one_driver
      ≡ some (one_driver, to_driver (pos 4711) (task_message (pos 30)) ∷ []))
    × (on_message (pos 100) (task_message (pos 30)) working ≡ on_task (pos 100) (pos 30) working)
    × (length (task_line (pos 4711) (pos 30)) + 1 < 256)
    × (length (task_message (pos 30)) < 256)
run_command-task_line_example =
    run_command-task_line (pos 4711) (pos 30) (pos 100) (pos 1) one_driver working
      (omega arith, omega arith) (omega arith, omega arith) known
