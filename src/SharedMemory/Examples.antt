-- ===== src/SharedMemory/Examples.antt =====
-- Tests and witnesses of the shared block.
use eltex_summer.Base.{ℕ, ◌+◌, ◌≤◌, ◌≡◌, ◌≢◌, refl, Bool, true, false, List, [], ◌∷◌, ◌++◌, arith}
use eltex_summer.SharedMemory.{forked, run_turns, faulted}
use eltex_summer.SharedMemory.Rounds.{in_producer, in_consumer, coming, AllExtremes}
use eltex_summer.SharedMemory.Progress.{Progress, run_turns-Progress}
use eltex_summer.SharedMemory.Turns.{run_turns-AllExtremes}

abbrev two_rounds : List (List ℕ)
two_rounds = (5 ∷ 3 ∷ 9 ∷ []) ∷ (7 ∷ []) ∷ []

-- The producer asks in vain once; the consumer meets the end and goes on.
abbrev whole : List Bool
whole =
    true ∷ true ∷ true ∷ true ∷ false ∷ false ∷ true ∷ true ∷ true ∷ true ∷ false ∷ false ∷ true
    ∷ true ∷ true ∷ true ∷ false ∷ false ∷ false ∷ []

run_turns-AllExtremes_example :
    (in_producer (run_turns whole (forked two_rounds)).producer
        + in_consumer (run_turns whole (forked two_rounds)).consumer
      ≤ 1)
    × ((past : List (List ℕ)) × (past ++ coming (run_turns whole (forked two_rounds)).producer
          ≡ two_rounds)
        × AllExtremes past (run_turns whole (forked two_rounds)).printed)
run_turns-AllExtremes_example =
    run_turns-AllExtremes two_rounds whole (omega arith, (omega arith, tt))

both_printed : (run_turns whole (forked two_rounds)).printed ≡ (9, 3) ∷ (7, 7) ∷ []
unfolding run_turns
both_printed = refl

-- The child writes to the block that it has given back.
child_faults : (run_turns whole (forked two_rounds)).consumer ≡ faulted
unfolding run_turns
child_faults = refl

-- The producer has written a round and asks; the consumer has not looked yet.
run_turns-Progress_example :
    Progress (run_turns (true ∷ true ∷ []) (forked two_rounds))
    × ((run_turns (true ∷ true ∷ []) (forked two_rounds)).consumer ≢ faulted)
unfolding run_turns
run_turns-Progress_example =
    run_turns-Progress two_rounds (true ∷ true ∷ []) (omega arith, (omega arith, tt)) (λ e. cc)
