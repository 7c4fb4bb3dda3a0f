-- ===== src/SharedMemory/Progress.antt =====
-- No deadlock: while the producer has not returned, one of the two processes can go on.
use eltex_summer.Base.{
  ℕ, zero, suc, ◌+◌, ◌≡◌, ◌≢◌, refl, ◌⊎◌, inl, inr, Bool, Option, some, List, [], ◌∷◌, ◌>>=◌, ◌<◌,
  arith,
}
use eltex_summer.Semaphores.{semop_take, semop_unlock}
use eltex_summer.SharedMemory.{
  Producer, starting, filled, asking, answered, unanswered, marked, returned, Consumer, entering,
  processed, told, detached, faulted, World, forked, producer_at, producer_step, consumer_at,
  consumer_step, run_turns,
}
use eltex_summer.SharedMemory.Rounds.{in_consumer, AllFull, Kept}
use eltex_summer.SharedMemory.Turns.{forked-Kept}
use eltex_summer.SharedMemory.Endings.{Ended, run_turns-Ended}

-- There is a step.
abbrev pub Goes : Option World → Type 0
Goes o = (t : World) × (o ≡ some t)

take-Goes : (n : ℕ) (f : ℕ → World) → 0 < n → Goes (semop_take n >>= λ n. some (f n))
unfolding semop_take
take-Goes zero f h = absurd (omega arith)
take-Goes (suc n) f h = (f n, refl)

unlock-Goes : (n : ℕ) (f : ℕ → World) → n ≡ 0 → Goes (semop_unlock n >>= λ n. some (f n))
unfolding semop_unlock
unlock-Goes zero f h = (f 1, refl)
unlock-Goes (suc n) f h = absurd (omega arith)

-- A consumer with the lock gives it back.
consumer_at-Goes :
    (s : World) (c : Consumer) (p : Producer)
    → s.mutex + in_consumer c ≡ 1
    → Ended c p
    → p ≢ returned
    → (0 < s.mutex) ⊎ Goes (consumer_at s c)
consumer_at-Goes s entering p h e n = inl (omega arith)
consumer_at-Goes s processed p h e n = inr (unlock-Goes s.mutex _ (omega arith))
consumer_at-Goes s told p h e n = inr (unlock-Goes s.mutex _ (omega arith))
consumer_at-Goes s detached p h e n = inl (omega arith)
consumer_at-Goes s faulted p h e n = absurd (n e)

abbrev pub Progress : World → Type 0
Progress s = Goes (producer_step s) ⊎ Goes (consumer_step s)

take-Progress :
    (s : World) (p : Producer) (f : ℕ → World)
    → s.mutex + in_consumer s.consumer ≡ 1
    → Ended s.consumer p
    → p ≢ returned
    → Goes (semop_take s.mutex >>= λ n. some (f n)) ⊎ Goes (consumer_at s s.consumer)
take-Progress s p f h e n = elim (consumer_at-Goes s s.consumer p h e n) [
  | inl m ↦ inl (take-Goes s.mutex f m)
  | inr g ↦ inr g
]

progress_at :
    (rounds : List (List ℕ)) (s : World) (p : Producer)
    → Kept rounds s p s.consumer
    → Ended s.consumer p
    → p ≢ returned
    → Goes (producer_at s p) ⊎ Goes (consumer_at s s.consumer)
progress_at rounds s (starting []) h e n =
    take-Progress s (starting []) _ (omega (arith, h.one_inside)) e n
progress_at rounds s (starting (l ∷ todo)) h e n =
    take-Progress s (starting (l ∷ todo)) _ (omega (arith, h.one_inside)) e n
progress_at rounds s (asking l todo) h e n =
    take-Progress s (asking l todo) _ (omega (arith, h.one_inside)) e n
progress_at rounds s (filled l todo) h e n =
    inl (unlock-Goes s.mutex _ (omega (arith, h.one_inside)))
progress_at rounds s (answered todo) h e n =
    inl (unlock-Goes s.mutex _ (omega (arith, h.one_inside)))
progress_at rounds s (unanswered l todo) h e n =
    inl (unlock-Goes s.mutex _ (omega (arith, h.one_inside)))
progress_at rounds s marked h e n = inl (unlock-Goes s.mutex _ (omega (arith, h.one_inside)))
progress_at rounds s returned h e n = absurd (n refl)

Ended-sound : (c : Consumer) (p : Producer) → Ended c p → p ≢ returned → c ≢ faulted
Ended-sound entering p e n = λ f. cc
Ended-sound processed p e n = λ f. cc
Ended-sound told p e n = absurd (n e)
Ended-sound detached p e n = absurd (n e)
Ended-sound faulted p e n = absurd (n e)

-- No deadlock: with rounds of at least one number each, in whatever order the processes have had their
-- turns, one of them can take a step as long as the producer has not returned, and the child has not
-- faulted till then.
pub run_turns-Progress :
    (rounds : List (List ℕ)) (turns : List Bool)
    → AllFull rounds
    → (run_turns turns (forked rounds)).producer ≢ returned
    → Progress (run_turns turns (forked rounds))
      × ((run_turns turns (forked rounds)).consumer ≢ faulted)
unfolding producer_step consumer_step
run_turns-Progress rounds turns h n =
    let (k, e) = run_turns-Ended rounds turns (forked rounds) (forked-Kept rounds h) tt in
    (progress_at rounds (run_turns turns (forked rounds)) _ k e n, Ended-sound _ _ e n)
