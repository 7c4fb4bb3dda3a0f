-- ===== src/DataFile/Processes.antt =====
-- The producer and the consumer of module3/09/src/sem.c as two processes that share the file and the
-- semaphores. A step is what a process does up to its next call on a semaphore, or a call that does not
-- wait; a process that waits has no step. The numbers of each line are given.
use eltex_summer.Base.{
  ℕ, zero, suc, ◌+◌, Bool, true, false, Option, none, some, List, [], ◌∷◌, ◌++◌,
}
use eltex_summer.Base.Int.{ℤ}
use eltex_summer.Text.{Text}
use eltex_summer.DataFile.{write_data_line, read_data_line}

abbrev pub Line : Type 0
Line = List ℤ

-- Where the producer stands, with the lines to come: at the top of the loop, inside `write_data_line`
-- behind its `sem_wait`, before its `sem_post`, before `sem_post(empty)`, behind the loop, and returned.
pub data Producer : Type 0 where
  ready : List Line → Producer
  writing : Line → List Line → Producer
  leaving : List Line → Producer
  posting : List Line → Producer
  ended : Producer
  returned : Producer

-- Where the consumer stands: before `sem_wait(empty)`, before and behind the `sem_wait` of
-- `read_data_line`, before its `sem_post` with a line and at the end of the file, and returned.
pub data Consumer : Type 0 where
  waiting : Consumer
  entering : Consumer
  reading : Consumer
  with_line : Line → Consumer
  at_end : Consumer
  finished : Consumer

-- `unread` is the file from the consumer's position on, `processed` what went to `process_data`.
pub record World : Type 0 where
  pub sem : ℕ
  pub empty : ℕ
  pub unread : Text
  pub producer : Producer
  pub consumer : Consumer
  pub processed : List Line

-- The file is made empty, the semaphores are 1 and 0.
abbrev pub forked : List Line → World
forked lines = record {
  sem = 1;
  empty = 0;
  unread = [];
  producer = ready lines;
  consumer = waiting;
  processed = [];
}

-- `sem_wait(sem)` and `sem_wait(empty)`, then on.
abbrev pub wait_sem : ℕ → (ℕ → World) → Option World
wait_sem zero next = none
wait_sem (suc n) next = some (next n)

abbrev pub written : Option Text → Text
written none = []
written (some x) = x

abbrev pub write_ready : World → Line → List Line → Option Text → Option World
write_ready s l todo none = some (record s { producer = posting todo })
write_ready s l todo (some x) =
    wait_sem s.sem (λ n. record s { sem = n; producer = writing l todo })

abbrev pub producer_at : World → Producer → Option World
producer_at s (ready []) = some (record s { producer = ended })
producer_at s (ready (l ∷ todo)) = write_ready s l todo (write_data_line l)
producer_at s (writing l todo) =
    some (record s { unread = s.unread ++ written (write_data_line l); producer = leaving todo })
producer_at s (leaving todo) = some (record s { sem = s.sem + 1; producer = posting todo })
producer_at s (posting todo) = some (record s { empty = s.empty + 1; producer = ready todo })
producer_at s ended = some (record s { empty = s.empty + 1; producer = returned })
producer_at s returned = none

unfoldable pub producer_step : World → Option World
producer_step s = producer_at s s.producer

abbrev pub read_of : World → Option (Line × Text) → World
read_of s none = record s { consumer = at_end }
read_of s (some (l, rest)) = record s { unread = rest; consumer = with_line l }

abbrev pub consumer_at : World → Consumer → Option World
consumer_at s waiting = wait_sem s.empty (λ n. record s { empty = n; consumer = entering })
consumer_at s entering = wait_sem s.sem (λ n. record s { sem = n; consumer = reading })
consumer_at s reading = some (read_of s (read_data_line s.unread))
consumer_at s (with_line l) =
    some (record s { sem = s.sem + 1; consumer = waiting; processed = s.processed ++ l ∷ [] })
consumer_at s at_end = some (record s { sem = s.sem + 1; consumer = finished })
consumer_at s finished = none

unfoldable pub consumer_step : World → Option World
consumer_step s = consumer_at s s.consumer

-- The two processes under a scheduler that says before each step who may go first.
abbrev pub first_of : Option World → Option World → Option World
first_of none b = b
first_of (some s) b = some s

unfoldable pub turn : Bool → World → Option World
turn true s = first_of (producer_step s) (consumer_step s)
turn false s = first_of (consumer_step s) (producer_step s)

-- At most so many steps.
unfoldable pub run_both : ℕ → (World → Bool) → World → World
run_both zero who s = s
run_both (suc f) who s = elim (turn (who s) s) [ none ↦ s | some t ↦ run_both f who t ]
