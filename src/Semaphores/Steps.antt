-- ===== src/Semaphores/Steps.antt =====
-- Every step keeps what the processes keep, and so does every order of turns.
use eltex_summer.Base.{
  ℕ, zero, suc, ◌+◌, ◌*◌, ◌≡◌, ap, Option, none, some, List, [], ◌∷◌, length, arith, get_elem?,
  ◌>>=◌, Option-cases, inl, inr,
}
use eltex_summer.DataFile.Processes.{Line}
use eltex_summer.DataFile.Sharing.{coming, owed, last_post}
use eltex_summer.Semaphores.{
  Reader, World, producer_step, reader_at, put_reader, reader_step, Actor, produce, consume, step,
  stays, run_turns,
}
use eltex_summer.Semaphores.Sharing.{AllOf-get, sum_by, used, Kept, KeptAfter}
use eltex_summer.Semaphores.Producing.{producer_at-Kept}
use eltex_summer.Semaphores.Reading.{Kept-put, Replaces, OneUnits, reader_at-Replaces}

sum_by_one :
    (rs : List Reader) (i : ℕ) (r : Reader)
    → get_elem? rs i ≡ some r
    → length rs ≡ 1
    → sum_by used rs ≡ used r
sum_by_one [] i r e l = absurd cc
sum_by_one (x ∷ []) zero r e l = let q : x ≡ r = cc in omega (arith, ap used q)
sum_by_one (x ∷ []) (suc i) r e l = absurd cc
sum_by_one (x ∷ y ∷ rs) i r e l = absurd (omega arith)

module _ (lines : List Line) (s : World) where
  put-Kept :
      (i : ℕ) (r : Reader) (o : Option (ℕ × ℕ × Reader))
      → Kept lines s.mutex s.empty s.producer s.readers
      → get_elem? s.readers i ≡ some r
      → Replaces lines s.producer (length s.readers) s.mutex s.empty r o
      → KeptAfter lines (o >>= λ t. some (put_reader s i t))
  put-Kept i r none h g f = tt
  put-Kept i r (some (m, e, x)) h g (a, b, f) =
      Kept-put lines s.mutex s.empty m e s.producer s.readers i r x h g a b f

  reader_step-Kept :
      (i : ℕ) → Kept lines s.mutex s.empty s.producer s.readers → KeptAfter lines (reader_step i s)
  unfolding reader_step
  reader_step-Kept i h = elim (Option-cases (get_elem? s.readers i)) [
    | inl e ↦ rw e tt
    | inr (r, e) ↦
        let units : OneUnits lines s.producer (length s.readers) s.empty r = λ one.
          let k = sum_by_one s.readers i r e one in
          let l : length s.readers * (length (coming s.producer) + owed s.producer)
              ≡ length (coming s.producer) + owed s.producer =
            rw one (omega arith) in
          let l2 : length s.readers * (length lines + last_post s.producer)
              ≡ length lines + last_post s.producer =
            rw one (omega arith) in
          omega (arith, h.units, k, l, l2) in
        let f = AllOf-get _ s.readers i h.each e in
        rw e (
          put-Kept i r (reader_at s.mutex s.empty r r.state) h e (
            reader_at-Replaces lines s.producer (length s.readers) r.unread r.processed s.mutex
              s.empty r.state units f))
  ]

  stays-Kept :
      (o : Option World)
      → Kept lines s.mutex s.empty s.producer s.readers
      → KeptAfter lines o
      → KeptAfter lines (some (stays s o))
  stays-Kept none h k = h
  stays-Kept (some t) h k = k

  step-Kept :
      (a : Actor) → Kept lines s.mutex s.empty s.producer s.readers → KeptAfter lines (step a s)
  unfolding step producer_step
  step-Kept produce h = producer_at-Kept lines s s.producer h
  step-Kept (consume i) h = reader_step-Kept i h

pub run_turns-Kept :
    (lines : List Line) (turns : List Actor) (s : World)
    → KeptAfter lines (some s)
    → KeptAfter lines (some (run_turns turns s))
unfolding run_turns
run_turns-Kept lines [] s h = h
run_turns-Kept lines (a ∷ turns) s h =
    run_turns-Kept lines turns (stays s (step a s))
      (stays-Kept lines s (step a s) h (step-Kept lines s a h))
