-- ===== src/Taxi/Commands.antt =====
-- The commands of the server of module3/c02, from the line to the driver.
use eltex_summer.Base.{◌≡◌, ◌+◌, ◌<◌, length, arith, refl, true, some, List, [], ◌∷◌, ◌++◌, ap, ◌∙◌}
use eltex_summer.Base.Int.{ℤ, InInt}
use eltex_summer.Text.{Text, text_eq, strcmp}
use eltex_summer.Text.Decimal.{print_int, atoi-print_int}
use eltex_summer.Text.Scan.{scan_int, scan_int-print_int}
use eltex_summer.Text.Width.{length-print_int}
use eltex_summer.Taxi.{
  Driver, Work, find_driver, read_command, two_numbers, after_first, second_number, run_command,
  send_task, task_word, task_text, task_command, to_driver, on_message, on_task,
}

-- The line "send_task <pid> <timer>".
abbrev pub task_line : ℤ → ℤ → Text
task_line pid timer = task_word ++ print_int pid (b' ' ∷ print_int timer [])

-- The message "TASK <timer>", with its newline.
abbrev pub task_message : ℤ → Text
task_message timer = task_text ++ b' ' ∷ print_int timer (10 ∷ [])

two_numbers-print_int : (a b : ℤ) → two_numbers (print_int a (b' ' ∷ print_int b [])) ≡ some (a, b)
unfolding two_numbers after_first scan_int
two_numbers-print_int a b =
    ap after_first (scan_int-print_int a (b' ' ∷ print_int b []) refl)
    ∙ ap (second_number a) (scan_int-print_int b [] tt)

read_command-task_line :
    (pid timer : ℤ) → read_command (task_line pid timer) ≡ task_command pid timer
unfolding read_command text_eq strcmp
read_command-task_line pid timer = rw (two_numbers-print_int pid timer) refl

on_message-task_message :
    (now timer : ℤ) (w : Work) → on_message now (task_message timer) w ≡ on_task now timer w
unfolding on_message text_eq strcmp
on_message-task_message now timer w = rw (atoi-print_int timer (10 ∷ []) refl) refl

-- The line "send_task <pid> <timer>", with values of `int` in decimal, for a driver that the server knows
-- and whose pipe opens, keeps the drivers and sends one message to that pid, which the driver takes for a
-- task of just that time. With its newline the line is shorter than the 256 bytes of a buffer, and so is
-- the message.
pub run_command-task_line :
    (pid timer now forked : ℤ) (ds : List Driver) (w : Work)
    → InInt pid
    → InInt timer
    → find_driver pid ds ≡ true
    → (run_command true forked (read_command (task_line pid timer)) ds
        ≡ some (ds, to_driver pid (task_message timer) ∷ []))
      × (on_message now (task_message timer) w ≡ on_task now timer w)
      × (length (task_line pid timer) + 1 < 256)
      × (length (task_message timer) < 256)
unfolding run_command send_task
run_command-task_line pid timer now forked ds w p t h =
    let n = length-print_int timer [] t in
    let m = length-print_int pid (b' ' ∷ print_int timer []) p in
    let k = length-print_int timer (10 ∷ []) t in
    (
      rw (read_command-task_line pid timer, h) refl,
      on_message-task_message now timer w,
      omega (arith, n, m),
      omega (arith, k),
    )
