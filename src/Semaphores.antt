-- ===== src/Semaphores.antt =====
-- The producer and several consumers of module3/08/src/sem.c, which share a file and two System V
-- semaphores. A step is what a process does up to its next `semop`, or a `semop` that does not wait;
-- a process that waits has no step. The numbers of each line are given. The text of a line is written
-- and read as in module3/09 (DataFile).
pub mod Sharing
pub mod Producing
pub mod Reading
pub mod Steps
pub mod Turns
pub mod Hurried
mod Examples
use eltex_summer.Base.{
  ℕ, zero, suc, ◌+◌, Bool, true, false, Option, none, some, List, [], ◌∷◌, ◌++◌, length, map,
  replicate, get_elem?, set, ◌>>=◌,
}
use eltex_summer.Text.{Text}
use eltex_summer.DataFile.{write_data_line, read_data_line}
use eltex_summer.DataFile.Processes.{
  Line, Producer, ready, writing, leaving, posting, ended, returned, Consumer, waiting, entering,
  reading, with_line, at_end, finished,
}

-- `semop` with `lock` or `lock_empty`: waits at 0.
unfoldable pub semop_take : ℕ → Option ℕ
semop_take zero = none
semop_take (suc n) = some n

-- `semop` with both entries of `unlock`: waits until the value is 0, then makes it 1.
unfoldable pub semop_unlock : ℕ → Option ℕ
semop_unlock zero = some 1
semop_unlock (suc n) = none

-- A consumer: where it stands, the file from its position on, and what went to `process_data`.
pub record Reader : Type 0 where
  pub state : Consumer
  pub unread : Text
  pub processed : List Line

pub record World : Type 0 where
  pub mutex : ℕ
  pub empty : ℕ
  pub producer : Producer
  pub readers : List Reader

abbrev pub new_reader : Reader
new_reader = record { state = waiting; unread = []; processed = [] }

-- `main` up to the last `fork`: the file is made empty, the semaphores are 1 and 0.
abbrev pub forked : ℕ → List Line → World
forked pids_number lines = record {
  mutex = 1;
  empty = 0;
  producer = ready lines;
  readers = replicate pids_number new_reader;
}

-- A line that is refused is not written, and the consumers are not told.
abbrev pub write_ready : World → Line → List Line → Option Text → Option World
write_ready s l todo none = some (record s { producer = ready todo })
write_ready s l todo (some x) =
    semop_take s.mutex >>= λ n. some (record s { mutex = n; producer = writing l todo })

abbrev pub append_text : Option Text → Reader → Reader
append_text none r = r
append_text (some x) r = record r { unread = r.unread ++ x }

-- `unlock_empty.sem_op` is the number of consumers.
abbrev pub post_empty : World → World
post_empty s = record s { empty = s.empty + length s.readers }

abbrev pub producer_at : World → Producer → Option World
producer_at s (ready []) = some (record s { producer = ended })
producer_at s (ready (l ∷ todo)) = write_ready s l todo (write_data_line l)
producer_at s (writing l todo) = some (record s {
  readers = map (append_text (write_data_line l)) s.readers;
  producer = leaving todo;
})
producer_at s (leaving todo) =
    semop_unlock s.mutex >>= λ n. some (record s { mutex = n; producer = posting todo })
producer_at s (posting todo) = some (record (post_empty s) { producer = ready todo })
producer_at s ended = some (record (post_empty s) { producer = returned })
producer_at s returned = none

unfoldable pub producer_step : World → Option World
unfolding semop_take semop_unlock
producer_step s = producer_at s s.producer

abbrev pub read_of : Reader → Option (Line × Text) → Reader
read_of r none = record r { state = at_end }
read_of r (some (l, rest)) = record r { unread = rest; state = with_line l }

-- A consumer's step: the two semaphores before it, and what becomes of them and of it.
abbrev pub reader_at : ℕ → ℕ → Reader → Consumer → Option (ℕ × ℕ × Reader)
reader_at mutex empty r waiting =
    semop_take empty >>= λ n. some (mutex, n, record r { state = entering })
reader_at mutex empty r entering =
    semop_take mutex >>= λ n. some (n, empty, record r { state = reading })
reader_at mutex empty r reading = some (mutex, empty, read_of r (read_data_line r.unread))
reader_at mutex empty r (with_line l) = semop_unlock mutex >>= λ n.
    some (n, empty, record r { state = waiting; processed = r.processed ++ l ∷ [] })
reader_at mutex empty r at_end =
    semop_unlock mutex >>= λ n. some (n, empty, record r { state = finished })
reader_at mutex empty r finished = none

abbrev pub put_reader : World → ℕ → ℕ × ℕ × Reader → World
put_reader s i (m, e, r) = record s { mutex = m; empty = e; readers = set s.readers i r }

unfoldable pub reader_step : ℕ → World → Option World
unfolding semop_take semop_unlock
reader_step i s = do
  r ← get_elem? s.readers i
  t ← reader_at s.mutex s.empty r r.state
  some (put_reader s i t)

pub data Actor : Type 0 where
  produce : Actor
  consume : ℕ → Actor

unfoldable pub step : Actor → World → Option World
unfolding producer_step reader_step
step produce s = producer_step s
step (consume i) s = reader_step i s

-- A process whose turn it is while it waits does nothing.
abbrev pub stays : World → Option World → World
stays s none = s
stays s (some t) = t

-- The processes in the order in which they get their turns.
unfoldable pub run_turns : List Actor → World → World
unfolding step
run_turns [] s = s
run_turns (a ∷ turns) s = run_turns turns (stays s (step a s))
