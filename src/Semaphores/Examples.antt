-- ===== src/Semaphores/Examples.antt =====
-- Tests and witnesses of the producer and several consumers.
use eltex_summer.Base.{◌+◌, ◌≤◌, ◌≡◌, refl, some, List, [], ◌∷◌, ◌++◌, get_elem?, arith}
use eltex_summer.Base.Int.{pos, negsuc}
use eltex_summer.DataFile.Processes.{Line, ready, finished}
use eltex_summer.DataFile.Sharing.{AllFit, in_write}
use eltex_summer.DataFile.{line_text, write_data_line, read_data_line, fgets, parse_numbers}
use eltex_summer.Text.Decimal.{print_int}
use eltex_summer.Semaphores.{Reader, forked, Actor, produce, consume, run_turns}
use eltex_summer.Semaphores.Sharing.{AllOf, sum_by, is_inside}
use eltex_summer.Semaphores.Turns.{run_turns-excludes, run_turns-one}
use eltex_summer.Semaphores.Hurried.{hurried, run_turns-hurried}

abbrev two_lines : List Line
two_lines = (pos 7 ∷ negsuc 2 ∷ []) ∷ (pos 5 ∷ []) ∷ []

two_lines-AllFit : AllFit two_lines
unfolding line_text print_int
two_lines-AllFit =
    ((omega arith, omega arith, omega arith), ((omega arith, omega arith, omega arith), tt))

abbrev some_turns : List Actor
some_turns =
    produce ∷ produce ∷ consume 1 ∷ produce ∷ produce ∷ consume 1 ∷ consume 0 ∷ consume 1 ∷ []

run_turns-excludes_example :
    (in_write (run_turns some_turns (forked 2 two_lines)).producer
        + sum_by is_inside (run_turns some_turns (forked 2 two_lines)).readers
      ≤ 1)
    × AllOf
        (λ r. (rest : List Line) × (r.processed ++ rest ≡ two_lines))
        (run_turns some_turns (forked 2 two_lines)).readers
run_turns-excludes_example = run_turns-excludes 2 two_lines some_turns two_lines-AllFit

run_turns-hurried_example :
    ((run_turns hurried (forked 2 two_lines)).producer ≡ ready ((pos 5 ∷ []) ∷ []))
    × (get_elem? (run_turns hurried (forked 2 two_lines)).readers 0
        ≡ some (record { state = finished; unread = []; processed = (pos 7 ∷ negsuc 2 ∷ []) ∷ [] }))
run_turns-hurried_example =
    run_turns-hurried 0 (pos 7 ∷ negsuc 2 ∷ []) ((pos 5 ∷ []) ∷ []) two_lines-AllFit.0

-- One consumer, both lines: a turn for each process in an order that ends.
abbrev whole_run : List Actor
whole_run =
    produce
    ∷ produce
    ∷ produce
    ∷ produce
    ∷ produce
    ∷ produce
    ∷ produce
    ∷ produce
    ∷ produce
    ∷ produce
    ∷ consume 0
    ∷ consume 0
    ∷ consume 0
    ∷ consume 0
    ∷ consume 0
    ∷ consume 0
    ∷ consume 0
    ∷ consume 0
    ∷ consume 0
    ∷ consume 0
    ∷ consume 0
    ∷ consume 0
    ∷ []

one_reads_all :
    (run_turns whole_run (forked 1 two_lines)).readers
    ≡ record { state = finished; unread = []; processed = two_lines } ∷ []
unfolding run_turns write_data_line read_data_line print_int fgets parse_numbers
one_reads_all = refl

abbrev one_reader : Reader
one_reader = record { state = finished; unread = []; processed = two_lines }

run_turns-one_example : one_reader.processed ≡ two_lines
unfolding run_turns write_data_line read_data_line print_int fgets parse_numbers
run_turns-one_example = run_turns-one two_lines whole_run one_reader two_lines-AllFit refl refl
