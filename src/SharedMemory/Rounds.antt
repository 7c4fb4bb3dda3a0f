-- ===== src/SharedMemory/Rounds.antt =====
-- What the two processes keep, whoever has its turn, and what the producer prints.
use eltex_summer.Base.{
  ℕ, zero, suc, ◌+◌, ◌<◌, ◌≡◌, refl, ◌∙◌, ◌⊎◌, inl, inr, Bool, true, false, Option, none, some,
  List, [], ◌∷◌, ◌++◌, length, ◌==◌, ◌>>=◌, ==_iff, arith, subst,
}
use mathlib.Core.List.{append_assoc}
use eltex_summer.Semaphores.{semop_take, semop_unlock}
use eltex_summer.SharedMemory.{
  SharedData, Producer, starting, filled, asking, answered, unanswered, marked, returned, Consumer,
  entering, processed, told, detached, faulted, World, generate_data, ask, producer_at,
}
use eltex_summer.SharedMemory.Extremes.{IsExtremes, Holds, Answers, generate_data-Holds}

-- 1 with the lock.
abbrev pub in_producer : Producer → ℕ
in_producer (starting todo) = 0
in_producer (filled l todo) = 1
in_producer (asking l todo) = 0
in_producer (answered todo) = 1
in_producer (unanswered l todo) = 1
in_producer marked = 1
in_producer returned = 0

abbrev pub in_consumer : Consumer → ℕ
in_consumer entering = 0
in_consumer processed = 1
in_consumer told = 1
in_consumer detached = 0
in_consumer faulted = 1

-- The rounds whose answer is not printed.
abbrev pub coming : Producer → List (List ℕ)
coming (starting todo) = todo
coming (filled l todo) = l ∷ todo
coming (asking l todo) = l ∷ todo
coming (answered todo) = todo
coming (unanswered l todo) = l ∷ todo
coming marked = []
coming returned = []

-- The numbers are there and not looked at, or they are answered.
abbrev pub Asked : List ℕ → SharedData → Type 0
Asked l block = (Holds l block × (block.done ≡ false)) ⊎ Answers l false block

abbrev pub Idle : Bool → SharedData → Type 0
Idle done block = (block.count ≡ 0) × (block.done ≡ done)

abbrev pub BlockFits : Producer → SharedData → Type 0
BlockFits (starting todo) block = Idle false block
BlockFits (filled l todo) block = Asked l block
BlockFits (asking l todo) block = Asked l block
BlockFits (answered todo) block = Idle false block
BlockFits (unanswered l todo) block = Asked l block
BlockFits marked block = Idle true block
BlockFits returned block = Idle true block

abbrev pub AllFull : List (List ℕ) → Type 0
AllFull [] = Unit
AllFull (l ∷ ls) = (0 < length l) × AllFull ls

-- One pair of extremes for each round.
abbrev pub AllExtremes : List (List ℕ) → List (ℕ × ℕ) → Type 0
AllExtremes [] [] = Unit
AllExtremes [] (o ∷ os) = true ≡ false
AllExtremes (l ∷ ls) [] = true ≡ false
AllExtremes (l ∷ ls) (o ∷ os) = IsExtremes l o × AllExtremes ls os

AllExtremes-append :
    (ls : List (List ℕ)) (os : List (ℕ × ℕ)) (l : List ℕ) (o : ℕ × ℕ)
    → AllExtremes ls os
    → IsExtremes l o
    → AllExtremes (ls ++ l ∷ []) (os ++ o ∷ [])
AllExtremes-append [] [] l o h k = (k, tt)
AllExtremes-append [] (p ∷ os) l o h k = absurd cc
AllExtremes-append (x ∷ ls) [] l o h k = absurd cc
AllExtremes-append (x ∷ ls) (p ∷ os) l o h k = (h.0, AllExtremes-append ls os l o (h.1) k)

pub record Kept (rounds : List (List ℕ)) (s : World) (p : Producer) (c : Consumer) : Type 0 where
  pub one_inside : s.mutex + in_producer p + in_consumer c ≡ 1
  pub block_fits : BlockFits p s.data_block
  pub full : AllFull (coming p)
  pub answers : (past : List (List ℕ)) × (past ++ coming p ≡ rounds) × AllExtremes past s.printed

abbrev pub KeptAfter : List (List ℕ) → Option World → Type 0
KeptAfter rounds none = Unit
KeptAfter rounds (some t) = Kept rounds t t.producer t.consumer

module _ (rounds : List (List ℕ)) (s : World) where
  start-Kept :
      (l : List ℕ) (todo : List (List ℕ)) (n : ℕ)
      → s.mutex ≡ n
      → Kept rounds s (starting (l ∷ todo)) s.consumer
      → KeptAfter rounds (
          semop_take n >>= λ n. some (record s {
            mutex = n;
            data_block = generate_data l s.data_block;
            producer = filled l todo;
          }))
  unfolding semop_take generate_data
  start-Kept l todo zero q h = tt
  start-Kept l todo (suc n) q h = record {
    one_inside = omega (arith, h.one_inside, q);
    block_fits = inl (generate_data-Holds l s.data_block, h.block_fits.1);
    full = h.full;
    answers = h.answers;
  }

  ask-Kept :
      (l : List ℕ) (todo : List (List ℕ)) (n : ℕ)
      → s.mutex ≡ suc n
      → Kept rounds s (asking l todo) s.consumer
      → Asked l s.data_block
      → KeptAfter rounds (some (ask (record s { mutex = n }) l todo))
  ask-Kept l todo n q h (inl ((rest, e, c), d)) =
      let z : (s.data_block.count == 0) ≡ false = ground (arith, h.full.0, c) in
      rw z (record {
        one_inside = omega (arith, h.one_inside, q);
        block_fits = inl ((rest, e, c), d);
        full = h.full;
        answers = h.answers;
      })
  ask-Kept l todo n q h (inr (c, x, d)) =
      let z : (s.data_block.count == 0) ≡ true = (==_iff s.data_block.count 0).1 c in
      let (past, o, a) = h.answers in
      rw z (record {
        one_inside = omega (arith, h.one_inside, q);
        block_fits = (c, d);
        full = h.full.1;
        answers = (
          past ++ l ∷ [],
          append_assoc past (l ∷ []) todo ∙ o,
          AllExtremes-append past s.printed l _ a x,
        );
      })

  take_ask-Kept :
      (l : List ℕ) (todo : List (List ℕ)) (n : ℕ)
      → s.mutex ≡ n
      → Kept rounds s (asking l todo) s.consumer
      → KeptAfter rounds (semop_take n >>= λ n. some (ask (record s { mutex = n }) l todo))
  unfolding semop_take
  take_ask-Kept l todo zero q h = tt
  take_ask-Kept l todo (suc n) q h = ask-Kept l todo n q h h.block_fits

  stop-Kept :
      (n : ℕ)
      → s.mutex ≡ n
      → Kept rounds s (starting []) s.consumer
      → KeptAfter rounds (
          semop_take n >>= λ n. some (record s {
            mutex = n;
            data_block = record s.data_block { done = true };
            producer = marked;
          }))
  unfolding semop_take
  stop-Kept zero q h = tt
  stop-Kept (suc n) q h = record {
    one_inside = omega (arith, h.one_inside, q);
    block_fits = (h.block_fits.0, refl);
    full = tt;
    answers = h.answers;
  }

  -- The lock is given back, and nothing else changes.
  unlock-Kept :
      (p q : Producer) (n : ℕ)
      → s.mutex ≡ n
      → in_producer p ≡ 1
      → in_producer q ≡ 0
      → BlockFits p ≡ BlockFits q
      → coming p ≡ coming q
      → Kept rounds s p s.consumer
      → KeptAfter rounds (semop_unlock n >>= λ n. some (record s { mutex = n; producer = q }))
  unfolding semop_unlock
  unlock-Kept p q zero e a b f c h = record {
    one_inside = omega (arith, h.one_inside, e, a, b);
    block_fits = subst (λ (F : SharedData → Type 0). F s.data_block) f h.block_fits;
    full = subst AllFull c h.full;
    answers =
        subst
          (λ (ls : List (List ℕ)).
            (past : List (List ℕ)) × (past ++ ls ≡ rounds) × AllExtremes past s.printed)
          c h.answers;
  }
  unlock-Kept p q (suc n) e a b f c h = tt

  pub producer_at-Kept :
      (p : Producer) → Kept rounds s p s.consumer → KeptAfter rounds (producer_at s p)
  producer_at-Kept (starting []) h = stop-Kept s.mutex refl h
  producer_at-Kept (starting (l ∷ todo)) h = start-Kept l todo s.mutex refl h
  producer_at-Kept (filled l todo) h =
      unlock-Kept (filled l todo) (asking l todo) s.mutex refl refl refl refl refl h
  producer_at-Kept (asking l todo) h = take_ask-Kept l todo s.mutex refl h
  producer_at-Kept (answered todo) h =
      unlock-Kept (answered todo) (starting todo) s.mutex refl refl refl refl refl h
  producer_at-Kept (unanswered l todo) h =
      unlock-Kept (unanswered l todo) (asking l todo) s.mutex refl refl refl refl refl h
  producer_at-Kept marked h = unlock-Kept marked returned s.mutex refl refl refl refl refl h
  producer_at-Kept returned h = tt
