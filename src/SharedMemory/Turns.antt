-- ===== src/SharedMemory/Turns.antt =====
-- The consumer keeps it too, and so does every order of turns.
use eltex_summer.Base.{
  ℕ, zero, suc, ◌+◌, ◌≤◌, ◌≡◌, refl, sym, ◌∙◌, inl, inr, Bool, true, false, Option, none, some,
  List, [], ◌∷◌, ◌++◌, ◌>>=◌, arith, subst,
}
use eltex_summer.Semaphores.{semop_take, semop_unlock}
use eltex_summer.SharedMemory.{
  SharedData, Producer, starting, filled, asking, answered, unanswered, marked, returned, Consumer,
  entering, processed, told, detached, faulted, World, forked, process_data, look, producer_at,
  producer_step, consumer_at, consumer_step, step_or_stay, run_turns,
}
use eltex_summer.SharedMemory.Extremes.{process_data-Answers, process_data-empty}
use eltex_summer.SharedMemory.Rounds.{
  in_producer, in_consumer, coming, Asked, BlockFits, AllFull, AllExtremes, Kept, KeptAfter,
  producer_at-Kept,
}

-- The consumer answers what is asked, and leaves a block without numbers as it is.
process_data-BlockFits :
    (p : Producer) (block : SharedData)
    → in_producer p ≡ 0
    → AllFull (coming p)
    → BlockFits p block
    → BlockFits p (process_data block)
process_data-BlockFits (starting todo) block z f h =
    subst (BlockFits (starting todo)) (sym (process_data-empty block h.0)) h
process_data-BlockFits (filled l todo) block z f h = absurd (omega arith)
process_data-BlockFits (asking l todo) block z f (inl (w, d)) =
    let (c, x, e) = process_data-Answers l block f.0 w in inr (c, x, e ∙ d)
process_data-BlockFits (asking l todo) block z f (inr (c, x, d)) =
    subst (Asked l) (sym (process_data-empty block c)) (inr (c, x, d))
process_data-BlockFits (answered todo) block z f h = absurd (omega arith)
process_data-BlockFits (unanswered l todo) block z f h = absurd (omega arith)
process_data-BlockFits marked block z f h = absurd (omega arith)
process_data-BlockFits returned block z f h =
    subst (BlockFits returned) (sym (process_data-empty block h.0)) h

module _ (rounds : List (List ℕ)) (s : World) where
  look-Kept :
      (n : ℕ) (done : Bool)
      → s.mutex ≡ n
      → Kept rounds s s.producer entering
      → KeptAfter rounds (semop_take n >>= λ n. some (look done (record s { mutex = n })))
  unfolding semop_take
  look-Kept zero done q h = tt
  look-Kept (suc n) true q h = record {
    one_inside = omega (arith, h.one_inside, q);
    block_fits = h.block_fits;
    full = h.full;
    answers = h.answers;
  }
  look-Kept (suc n) false q h =
      let z : in_producer s.producer ≡ 0 = omega (arith, h.one_inside, q) in
      record {
        one_inside = omega (arith, h.one_inside, q);
        block_fits = process_data-BlockFits s.producer s.data_block z h.full h.block_fits;
        full = h.full;
        answers = h.answers;
      }

  move-Kept :
      (c d : Consumer) (m : ℕ)
      → Kept rounds s s.producer c
      → m + in_consumer d ≡ s.mutex + in_consumer c
      → Kept rounds (record s { mutex = m; consumer = d }) s.producer d
  move-Kept c d m h e = record {
    one_inside = omega (arith, h.one_inside, e);
    block_fits = h.block_fits;
    full = h.full;
    answers = h.answers;
  }

  unlock_consumer-Kept :
      (c d : Consumer) (n : ℕ)
      → s.mutex ≡ n
      → in_consumer c ≡ 1
      → in_consumer d ≡ 0
      → Kept rounds s s.producer c
      → KeptAfter rounds (semop_unlock n >>= λ n. some (record s { mutex = n; consumer = d }))
  unfolding semop_unlock
  unlock_consumer-Kept c d zero q a b h = move-Kept c d 1 h (omega arith)
  unlock_consumer-Kept c d (suc n) q a b h = tt

  fault-Kept :
      (n : ℕ)
      → s.mutex ≡ n
      → Kept rounds s s.producer detached
      → KeptAfter rounds (semop_take n >>= λ n. some (record s { mutex = n; consumer = faulted }))
  unfolding semop_take
  fault-Kept zero q h = tt
  fault-Kept (suc n) q h = move-Kept detached faulted n h (omega arith)

  pub consumer_at-Kept :
      (c : Consumer) → Kept rounds s s.producer c → KeptAfter rounds (consumer_at s c)
  consumer_at-Kept entering h = look-Kept s.mutex s.data_block.done refl h
  consumer_at-Kept processed h = unlock_consumer-Kept processed entering s.mutex refl refl refl h
  consumer_at-Kept told h = unlock_consumer-Kept told detached s.mutex refl refl refl h
  consumer_at-Kept detached h = fault-Kept s.mutex refl h
  consumer_at-Kept faulted h = tt

  pub step_or_stay-Kept :
      (o : Option World)
      → KeptAfter rounds (some s)
      → KeptAfter rounds o
      → KeptAfter rounds (some (step_or_stay s o))
  step_or_stay-Kept none h k = h
  step_or_stay-Kept (some t) h k = k

run_turns-Kept :
    (rounds : List (List ℕ)) (turns : List Bool) (s : World)
    → KeptAfter rounds (some s)
    → KeptAfter rounds (some (run_turns turns s))
unfolding run_turns producer_step consumer_step
run_turns-Kept rounds [] s h = h
run_turns-Kept rounds (true ∷ turns) s h =
    run_turns-Kept rounds turns (step_or_stay s (producer_at s s.producer))
      (step_or_stay-Kept rounds s _ h (producer_at-Kept rounds s s.producer h))
run_turns-Kept rounds (false ∷ turns) s h =
    run_turns-Kept rounds turns (step_or_stay s (consumer_at s s.consumer))
      (step_or_stay-Kept rounds s _ h (consumer_at-Kept rounds s s.consumer h))

pub forked-Kept :
    (rounds : List (List ℕ)) → AllFull rounds → KeptAfter rounds (some (forked rounds))
forked-Kept rounds h = record {
  one_inside = omega arith;
  block_fits = (refl, refl);
  full = h;
  answers = ([], refl, tt);
}

-- Rounds of at least one number each: in whatever order the two processes get their turns, at most
-- one has the lock, and what is printed are the greatest and the least number of each of the first
-- rounds, in their order; these and the rounds that the producer has before it are all rounds.
pub run_turns-AllExtremes :
    (rounds : List (List ℕ)) (turns : List Bool)
    → AllFull rounds
    → let s = run_turns turns (forked rounds) in
      (in_producer s.producer + in_consumer s.consumer ≤ 1)
      × ((past : List (List ℕ)) × (past ++ coming s.producer ≡ rounds) × AllExtremes past s.printed)
run_turns-AllExtremes rounds turns h =
    let k = run_turns-Kept rounds turns (forked rounds) (forked-Kept rounds h) in
    (omega (arith, k.one_inside), k.answers)
