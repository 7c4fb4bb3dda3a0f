-- ===== src/SharedMemory/Endings.antt =====
-- The consumer leaves its loop only behind the producer's end, whoever has its turn.
use eltex_summer.Base.{
  ℕ, zero, suc, ◌≡◌, ◌≢◌, refl, inl, inr, Bool, true, false, Option, none, some, List, [], ◌∷◌,
  ◌>>=◌, ◌==◌, Bool-cases, arith,
}
use eltex_summer.Semaphores.{semop_take, semop_unlock}
use eltex_summer.SharedMemory.{
  SharedData, Producer, starting, filled, asking, answered, unanswered, marked, returned, Consumer,
  entering, processed, told, detached, faulted, World, look, ask, producer_at, producer_step,
  consumer_at, consumer_step, step_or_stay, run_turns,
}
use eltex_summer.SharedMemory.Rounds.{in_producer, BlockFits, Kept, KeptAfter, producer_at-Kept}
use eltex_summer.SharedMemory.Turns.{step_or_stay-Kept, consumer_at-Kept}

-- The consumer leaves its loop only behind the producer's end.
abbrev pub Ended : Consumer → Producer → Type 0
Ended entering p = Unit
Ended processed p = Unit
Ended told p = p ≡ returned
Ended detached p = p ≡ returned
Ended faulted p = p ≡ returned

abbrev pub EndedAfter : Option World → Type 0
EndedAfter none = Unit
EndedAfter (some t) = Ended t.consumer t.producer

-- Whatever the producer becomes, where it has not returned.
Ended-move : (c : Consumer) (p q : Producer) → p ≢ returned → Ended c p → Ended c q
Ended-move entering p q n h = tt
Ended-move processed p q n h = tt
Ended-move told p q n h = absurd (n h)
Ended-move detached p q n h = absurd (n h)
Ended-move faulted p q n h = absurd (n h)

-- `done` is set only behind the producer's end.
returned-of_done :
    (p : Producer) (block : SharedData)
    → in_producer p ≡ 0
    → block.done ≡ true
    → BlockFits p block
    → p ≡ returned
returned-of_done (starting todo) block z d h = absurd cc
returned-of_done (filled l todo) block z d h = absurd (omega arith)
returned-of_done (asking l todo) block z d (inl h) = absurd cc
returned-of_done (asking l todo) block z d (inr h) = absurd cc
returned-of_done (answered todo) block z d h = absurd (omega arith)
returned-of_done (unanswered l todo) block z d h = absurd (omega arith)
returned-of_done marked block z d h = absurd (omega arith)
returned-of_done returned block z d h = refl

Ended-bind :
    (o : Option ℕ) (f : ℕ → World)
    → ((n : ℕ) → EndedAfter (some (f n)))
    → EndedAfter (o >>= λ n. some (f n))
Ended-bind none f h = tt
Ended-bind (some n) f h = h n

module _ (rounds : List (List ℕ)) (s : World) where
  look-Ended :
      (n : ℕ) (done : Bool)
      → s.mutex ≡ n
      → s.data_block.done ≡ done
      → Kept rounds s s.producer entering
      → EndedAfter (semop_take n >>= λ n. some (look done (record s { mutex = n })))
  unfolding semop_take
  look-Ended zero done q d h = tt
  look-Ended (suc n) true q d h =
      returned-of_done s.producer s.data_block (omega (arith, h.one_inside, q)) d h.block_fits
  look-Ended (suc n) false q d h = tt

  consumer_at-Ended :
      (c : Consumer)
      → Kept rounds s s.producer c
      → Ended c s.producer
      → EndedAfter (consumer_at s c)
  consumer_at-Ended entering h e = look-Ended s.mutex s.data_block.done refl refl h
  consumer_at-Ended processed h e = Ended-bind (semop_unlock s.mutex) _ (λ n. tt)
  consumer_at-Ended told h e = Ended-bind (semop_unlock s.mutex) _ (λ n. e)
  consumer_at-Ended detached h e = Ended-bind (semop_take s.mutex) _ (λ n. e)
  consumer_at-Ended faulted h e = tt

ask-Ended :
    (s : World) (l : List ℕ) (todo : List (List ℕ))
    → Ended s.consumer (asking l todo)
    → EndedAfter (some (ask s l todo))
ask-Ended s l todo e = elim (Bool-cases (s.data_block.count == 0)) [
  | inl q ↦ rw q (Ended-move s.consumer (asking l todo) (answered todo) (λ r. cc) e)
  | inr q ↦ rw q (Ended-move s.consumer (asking l todo) (unanswered l todo) (λ r. cc) e)
]

producer_at-Ended : (s : World) (p : Producer) → Ended s.consumer p → EndedAfter (producer_at s p)
producer_at-Ended s (starting []) e =
    Ended-bind (semop_take s.mutex) _ (λ n. Ended-move s.consumer (starting []) marked (λ r. cc) e)
producer_at-Ended s (starting (l ∷ todo)) e =
    Ended-bind (semop_take s.mutex) _
      (λ n. Ended-move s.consumer (starting (l ∷ todo)) (filled l todo) (λ r. cc) e)
producer_at-Ended s (filled l todo) e =
    Ended-bind (semop_unlock s.mutex) _
      (λ n. Ended-move s.consumer (filled l todo) (asking l todo) (λ r. cc) e)
producer_at-Ended s (asking l todo) e =
    Ended-bind (semop_take s.mutex) _ (λ n. ask-Ended (record s { mutex = n }) l todo e)
producer_at-Ended s (answered todo) e =
    Ended-bind (semop_unlock s.mutex) _
      (λ n. Ended-move s.consumer (answered todo) (starting todo) (λ r. cc) e)
producer_at-Ended s (unanswered l todo) e =
    Ended-bind (semop_unlock s.mutex) _
      (λ n. Ended-move s.consumer (unanswered l todo) (asking l todo) (λ r. cc) e)
producer_at-Ended s marked e =
    Ended-bind (semop_unlock s.mutex) _ (λ n. Ended-move s.consumer marked returned (λ r. cc) e)
producer_at-Ended s returned e = tt

stays-Ended :
    (s : World) (o : Option World)
    → EndedAfter (some s)
    → EndedAfter o
    → EndedAfter (some (step_or_stay s o))
stays-Ended s none h k = h
stays-Ended s (some t) h k = k

pub run_turns-Ended :
    (rounds : List (List ℕ)) (turns : List Bool) (s : World)
    → KeptAfter rounds (some s)
    → EndedAfter (some s)
    → KeptAfter rounds (some (run_turns turns s)) × EndedAfter (some (run_turns turns s))
unfolding run_turns producer_step consumer_step
run_turns-Ended rounds [] s h e = (h, e)
run_turns-Ended rounds (true ∷ turns) s h e =
    run_turns-Ended rounds turns (step_or_stay s (producer_at s s.producer))
      (step_or_stay-Kept rounds s _ h (producer_at-Kept rounds s s.producer h))
      (stays-Ended s _ e (producer_at-Ended s s.producer e))
run_turns-Ended rounds (false ∷ turns) s h e =
    run_turns-Ended rounds turns (step_or_stay s (consumer_at s s.consumer))
      (step_or_stay-Kept rounds s _ h (consumer_at-Kept rounds s s.consumer h))
      (stays-Ended s _ e (consumer_at-Ended rounds s s.consumer h e))
