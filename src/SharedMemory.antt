-- ===== src/SharedMemory.antt =====
-- The two processes of module3/10/src/shared_mem_sysv.c, which exchange numbers through a block of
-- shared memory under a mutex. A step is a `semop` that does not wait and what its process does up
-- to its next `semop`; a process that waits has no step. The numbers that `rand` gives are arguments.
pub mod Extremes
pub mod Rounds
pub mod Turns
pub mod Endings
pub mod Progress
mod Examples
use eltex_summer.Base.{
  ℕ, zero, suc, ◌+◌, ◌%◌, Bool, true, false, Option, none, some, List, [], ◌∷◌, ◌++◌, length, map,
  take, drop, ltb, ◌==◌, get_or, replicate, if◌then◌else◌, ◌>>=◌,
}
use eltex_summer.Semaphores.{semop_take, semop_unlock}

abbrev pub max_numbers : ℕ
max_numbers = 100

-- `SharedData`.
pub record SharedData : Type 0 where
  pub numbers : List ℕ
  pub count : ℕ
  pub max : ℕ
  pub min : ℕ
  pub done : Bool

-- The numbers of a round from the results of `rand`, the first of which says how many.
abbrev pub random_number : ℕ → ℕ
random_number r = r % 1000

abbrev pub drawn : ℕ → List ℕ → List ℕ
drawn r rs = map random_number (take (r % max_numbers + 1) rs)

-- `generate_data` with the numbers drawn: they overwrite the front of the array.
unfoldable pub generate_data : List ℕ → SharedData → SharedData
generate_data new block = record block {
  numbers = new ++ drop (length new) block.numbers;
  count = length new;
}

-- The loop of `process_data` over the numbers, on the greatest and the least so far.
unfoldable pub extremes : List ℕ → ℕ → ℕ → ℕ × ℕ
extremes [] max min = (max, min)
extremes (x ∷ xs) max min =
    extremes xs (if ltb max x then x else max) (if ltb x min then x else min)

abbrev pub put_extremes : SharedData → ℕ × ℕ → SharedData
put_extremes block (a, b) = record block { count = 0; max = a; min = b }

unfoldable pub process_data : SharedData → SharedData
unfolding extremes
process_data block =
    if ltb 0 block.count
    then put_extremes block (
        extremes (take block.count block.numbers) (get_or block.numbers 0 0)
          (get_or block.numbers 0 0))
    else block

-- Where the producer stands, with the numbers of its round and of those to come: before `semop` at the
-- top of its loop, or behind it where no round is left since SIGINT has come; with the lock, the numbers
-- written; before it asks; with the lock, the answer printed, or not there yet; with the lock, `done`
-- set; and returned.
pub data Producer : Type 0 where
  starting : List (List ℕ) → Producer
  filled : List ℕ → List (List ℕ) → Producer
  asking : List ℕ → List (List ℕ) → Producer
  answered : List (List ℕ) → Producer
  unanswered : List ℕ → List (List ℕ) → Producer
  marked : Producer
  returned : Producer

-- Where the consumer stands: before its `semop`; with the lock, the data processed, or `done` seen;
-- behind its loop with the memory given back; and after the access to that memory behind it.
pub data Consumer : Type 0 where
  entering : Consumer
  processed : Consumer
  told : Consumer
  detached : Consumer
  faulted : Consumer

pub record World : Type 0 where
  pub mutex : ℕ
  pub data_block : SharedData
  pub producer : Producer
  pub consumer : Consumer
  pub printed : List (ℕ × ℕ)

-- `main` up to `fork`; a new block is 0 throughout.
abbrev pub forked : List (List ℕ) → World
forked rounds = record {
  mutex = 1;
  data_block = record {
    numbers = replicate max_numbers 0;
    count = 0;
    max = 0;
    min = 0;
    done = false;
  };
  producer = starting rounds;
  consumer = entering;
  printed = [];
}

-- Lines 40 to 46 with the lock held.
abbrev pub ask : World → List ℕ → List (List ℕ) → World
ask s l todo =
    if s.data_block.count == 0
    then record s {
      producer = answered todo;
      printed = s.printed ++ (s.data_block.max, s.data_block.min) ∷ [];
    }
    else record s { producer = unanswered l todo }

abbrev pub producer_at : World → Producer → Option World
producer_at s (starting (l ∷ todo)) = semop_take s.mutex >>= λ n.
    some
      (record s { mutex = n; data_block = generate_data l s.data_block; producer = filled l todo })
producer_at s (filled l todo) =
    semop_unlock s.mutex >>= λ n. some (record s { mutex = n; producer = asking l todo })
producer_at s (asking l todo) =
    semop_take s.mutex >>= λ n. some (ask (record s { mutex = n }) l todo)
producer_at s (answered todo) =
    semop_unlock s.mutex >>= λ n. some (record s { mutex = n; producer = starting todo })
producer_at s (unanswered l todo) =
    semop_unlock s.mutex >>= λ n. some (record s { mutex = n; producer = asking l todo })
producer_at s (starting []) = semop_take s.mutex >>= λ n.
    some
      (record s { mutex = n; data_block = record s.data_block { done = true }; producer = marked })
producer_at s marked =
    semop_unlock s.mutex >>= λ n. some (record s { mutex = n; producer = returned })
producer_at s returned = none

unfoldable pub producer_step : World → Option World
unfolding semop_take semop_unlock generate_data
producer_step s = producer_at s s.producer

-- Lines 56 to 60 with the lock held, where the first argument is `done`.
abbrev pub look : Bool → World → World
look true s = record s { consumer = told }
look false s = record s { data_block = process_data s.data_block; consumer = processed }

-- Behind its loop the child goes on with `produce`, and with the end of `main`: either way it takes
-- the lock and then writes to the block that it has given back.
abbrev pub consumer_at : World → Consumer → Option World
consumer_at s entering =
    semop_take s.mutex >>= λ n. some (look s.data_block.done (record s { mutex = n }))
consumer_at s processed =
    semop_unlock s.mutex >>= λ n. some (record s { mutex = n; consumer = entering })
consumer_at s told =
    semop_unlock s.mutex >>= λ n. some (record s { mutex = n; consumer = detached })
consumer_at s detached =
    semop_take s.mutex >>= λ n. some (record s { mutex = n; consumer = faulted })
consumer_at s faulted = none

unfoldable pub consumer_step : World → Option World
unfolding semop_take semop_unlock process_data
consumer_step s = consumer_at s s.consumer

-- `true` for the producer; a process that waits keeps the world as it is.
abbrev pub step_or_stay : World → Option World → World
step_or_stay s none = s
step_or_stay s (some t) = t

unfoldable pub run_turns : List Bool → World → World
unfolding producer_step consumer_step
run_turns [] s = s
run_turns (true ∷ turns) s = run_turns turns (step_or_stay s (producer_step s))
run_turns (false ∷ turns) s = run_turns turns (step_or_stay s (consumer_step s))
