-- ===== src/Taxi.antt =====
-- The taxi drivers of module3/c02/server.c: the process of a driver, and the server's registry and
-- commands. Times are in seconds.
mod Schedule
mod Commands
mod Examples
use eltex_summer.Base.{
  ℕ, zero, suc, ◌+◌, ◌-◌, ◌<◌, Bool, true, false, Option, none, some, List, [], ◌∷◌, ◌++◌, ltb, leb,
  ◌==◌, if◌then◌else◌, length, take, drop,
}
use eltex_summer.Base.Int.{ℤ, pos, ltb_ℤ, eqb_ℤ, ◌+ℤ◌, ◌-ℤ◌}
use eltex_summer.Text.{Text, text_eq}
use eltex_summer.Text.Decimal.{atoi, print_int}
use eltex_summer.Text.Scan.{scan_int}

abbrev pub max_drivers : ℕ
max_drivers = 100

-- The variables of `driver_process`. `remaining_time` is the timer of the last task.
pub record Work : Type 0 where
  pub busy : Bool
  pub task_end : ℤ
  pub remaining_time : ℤ

abbrev pub idle : Work
idle = record { busy = false; task_end = pos 0; remaining_time = pos 0 }

-- A message to the server: "STATUS Available", "STATUS Busy n" or "ERROR Busy n", after the pid.
pub data Reply : Type 0 where
  available : Reply
  status_busy error_busy : ℤ → Reply

-- What the `select` of a driver ends with: a signal, data in the pipe, or its end, after which the pipe
-- is opened again.
pub data Event : Type 0 where
  interrupted pipe_closed : Event
  message : Text → Event

abbrev pub task_text : Text
task_text = b'T' ∷ b'A' ∷ b'S' ∷ b'K' ∷ []

abbrev pub status_text : Text
status_text = b'S' ∷ b'T' ∷ b'A' ∷ b'T' ∷ b'U' ∷ b'S' ∷ []

-- `task_end - now`, at least 0.
unfoldable pub now_remaining : ℤ → Work → ℤ
now_remaining now w = let left = w.task_end -ℤ now in if ltb_ℤ left (pos 0) then pos 0 else left

-- A task of `timer` seconds.
unfoldable pub on_task : ℤ → ℤ → Work → Work × List Reply
unfolding now_remaining
on_task now timer w = if w.busy then (w, error_busy (now_remaining now w) ∷ []) else (
  record { busy = true; task_end = now +ℤ timer; remaining_time = timer },
  status_busy timer ∷ [],
)

unfoldable pub on_status : ℤ → Work → Work × List Reply
unfolding now_remaining
on_status now w =
    if w.busy then (w, status_busy (now_remaining now w) ∷ []) else (w, available ∷ [])

-- A message that was read: `strncmp` on its front, the timer from its sixth byte on.
unfoldable pub on_message : ℤ → Text → Work → Work × List Reply
unfolding on_task on_status text_eq
on_message now buffer w =
    if text_eq (take 4 buffer) task_text
    then on_task now (atoi (drop 5 buffer)) w
    else if text_eq (take 6 buffer) status_text
    then on_status now w
    else (w, [])

-- The end of the task is only noticed when `select` returns.
unfoldable pub check_end : ℤ → Work → Work × List Reply
check_end now w =
    if w.busy
    then (if ltb_ℤ now w.task_end
        then (w, [])
        else (record w { busy = false; remaining_time = pos 0 }, available ∷ []))
    else (w, [])

abbrev pub on_event : ℤ → Event → Work → Work × List Reply
on_event now interrupted w = (w, [])
on_event now pipe_closed w = (w, [])
on_event now (message buffer) w = on_message now buffer w

-- One pass of the loop of `driver_process`, where the clock stands still while it is handled.
unfoldable pub driver_step : ℤ → Event → Work → Work × List Reply
unfolding check_end on_message
driver_step now e w =
    let (w1, sent) = check_end now w in
    let (w2, answered) = on_event now e w1 in (w2, sent ++ answered)

-- A driver as the server knows it; `status`, `task_end_time` and `task_timer` are set to 0 and not
-- used again, and the names of its pipes follow from its pid.
pub record Driver : Type 0 where
  pub pid : ℤ
  pub status : ℕ
  pub task_end_time : ℕ
  pub task_timer : ℤ

-- `create_driver` in the server, with what `fork` returned; the array has `max_drivers` elements and
-- `none` is a write behind it.
unfoldable pub create_driver : ℤ → List Driver → Option (List Driver)
create_driver pid ds =
    if ltb_ℤ pid (pos 0)
    then some ds
    else if ltb (length ds) max_drivers
    then some (ds ++ record { pid = pid; status = 0; task_end_time = 0; task_timer = pos 0 } ∷ [])
    else none

unfoldable pub find_driver : ℤ → List Driver → Bool
find_driver pid [] = false
find_driver pid (d ∷ ds) = let rest = find_driver pid ds in if eqb_ℤ d.pid pid then true else rest

-- What goes to a driver's pipe, or that no driver has the pid. The outcome of `open` is an argument.
pub data Sent : Type 0 where
  to_driver : ℤ → Text → Sent
  open_failed not_found : ℤ → Sent

unfoldable pub send_task : Bool → ℤ → ℤ → List Driver → Sent
unfolding find_driver
send_task opened pid timer ds =
    if find_driver pid ds
    then (if opened
        then to_driver pid (task_text ++ b' ' ∷ print_int timer (10 ∷ []))
        else open_failed pid)
    else not_found pid

unfoldable pub get_status : Bool → ℤ → List Driver → Sent
unfolding find_driver
get_status opened pid ds =
    if find_driver pid ds
    then (if opened then to_driver pid (status_text ++ 10 ∷ []) else open_failed pid)
    else not_found pid

abbrev pub get_drivers : Bool → List Driver → List Driver → List Sent
get_drivers opened [] ds = []
get_drivers opened (d ∷ rest) ds = get_status opened d.pid ds ∷ get_drivers opened rest ds

pub data Command : Type 0 where
  exit_command create_command drivers_command empty_line unknown task_usage status_usage : Command
  task_command : ℤ → ℤ → Command
  status_command : ℤ → Command

abbrev pub exit_word : Text
exit_word = b'e' ∷ b'x' ∷ b'i' ∷ b't' ∷ []

abbrev pub create_word : Text
create_word =
    b'c' ∷ b'r' ∷ b'e' ∷ b'a' ∷ b't' ∷ b'e' ∷ b'_' ∷ b'd' ∷ b'r' ∷ b'i' ∷ b'v' ∷ b'e' ∷ b'r' ∷ []

abbrev pub drivers_word : Text
drivers_word = b'g' ∷ b'e' ∷ b't' ∷ b'_' ∷ b'd' ∷ b'r' ∷ b'i' ∷ b'v' ∷ b'e' ∷ b'r' ∷ b's' ∷ []

abbrev pub task_word : Text
task_word = b's' ∷ b'e' ∷ b'n' ∷ b'd' ∷ b'_' ∷ b't' ∷ b'a' ∷ b's' ∷ b'k' ∷ b' ' ∷ []

abbrev pub status_word : Text
status_word = b'g' ∷ b'e' ∷ b't' ∷ b'_' ∷ b's' ∷ b't' ∷ b'a' ∷ b't' ∷ b'u' ∷ b's' ∷ b' ' ∷ []

abbrev pub second_number : ℤ → Option (ℤ × Text) → Option (ℤ × ℤ)
second_number a none = none
second_number a (some (b, rest)) = some (a, b)

-- After the first `%d`.
unfoldable pub after_first : Option (ℤ × Text) → Option (ℤ × ℤ)
after_first none = none
after_first (some (a, rest)) = second_number a (scan_int rest)

-- `sscanf(…, "%d %d", …) == 2`. A number outside of `int`, which C leaves undefined, is given as it is; that
-- the numbers are values of `int` is a hypothesis of the theorems on a line.
unfoldable pub two_numbers : Text → Option (ℤ × ℤ)
unfolding after_first
two_numbers s = after_first (scan_int s)

abbrev pub task_arguments : Option (ℤ × ℤ) → Command
task_arguments none = task_usage
task_arguments (some (pid, timer)) = task_command pid timer

abbrev pub status_argument : Option (ℤ × Text) → Command
status_argument none = status_usage
status_argument (some (pid, rest)) = status_command pid

-- The tests of `main` on a line without its newline.
unfoldable pub read_command : Text → Command
unfolding two_numbers text_eq
read_command input =
    if text_eq input exit_word
    then exit_command
    else if text_eq input create_word
    then create_command
    else if text_eq input drivers_word
    then drivers_command
    else if text_eq (take 10 input) task_word
    then task_arguments (two_numbers (drop 10 input))
    else if text_eq (take 11 input) status_word
    then status_argument (scan_int (drop 11 input))
    else if ltb 0 (length input)
    then unknown
    else empty_line

-- One pass of the loop of `main` in the server: the drivers, and what is sent. `forked` is what `fork`
-- returns where the command calls it. `none` is a write behind the array.
unfoldable pub run_command : Bool → ℤ → Command → List Driver → Option (List Driver × List Sent)
unfolding create_driver send_task get_status
run_command opened forked create_command ds = elim (create_driver forked ds) [
  | none ↦ none
  | some ds' ↦ some (ds', [])
]
run_command opened forked (task_command pid timer) ds =
    some (ds, send_task opened pid timer ds ∷ [])
run_command opened forked (status_command pid) ds = some (ds, get_status opened pid ds ∷ [])
run_command opened forked drivers_command ds = some (ds, get_drivers opened ds ds)
run_command opened forked exit_command ds = some (ds, [])
run_command opened forked empty_line ds = some (ds, [])
run_command opened forked unknown ds = some (ds, [])
run_command opened forked task_usage ds = some (ds, [])
run_command opened forked status_usage ds = some (ds, [])
