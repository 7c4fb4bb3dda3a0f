-- ===== src/Semaphores/Turns.antt =====
-- What holds for every order of turns, and what several consumers may meet.
use eltex_summer.Base.{
  ℕ, zero, suc, ◌+◌, ◌≤◌, ◌≡◌, refl, sym, ap, ◌∙◌, Option, none, some, List, [], ◌∷◌, ◌++◌, length,
  arith, get_elem?, replicate, subst, Option-cases, inl, inr, length-map, length-set,
}
use mathlib.Core.List.{append-nil}
use eltex_summer.DataFile.{write_data_line}
use eltex_summer.DataFile.Processes.{
  Line, Producer, ready, writing, leaving, posting, ended, returned, Consumer, finished,
}
use eltex_summer.DataFile.Sharing.{AllFit, coming, held, in_write, Over}
use eltex_summer.Semaphores.{
  Reader, World, new_reader, forked, Actor, produce, consume, run_turns, append_text, producer_at,
  producer_step, reader_at, reader_step, step, stays, semop_take, semop_unlock,
}
use eltex_summer.Semaphores.Sharing.{
  AllOf-get, AllOf, AllOf-weaken, sum_by, is_inside, used, KeptAfter,
}
use eltex_summer.Semaphores.Steps.{run_turns-Kept}

sum_by_new : (f : Reader → ℕ) (n : ℕ) → f new_reader ≡ 0 → sum_by f (replicate n new_reader) ≡ 0
sum_by_new f zero e = refl
sum_by_new f (suc n) e = omega (arith, e, sum_by_new f n e)

AllOf-replicate : (P : Reader → Type 0) (n : ℕ) (r : Reader) → P r → AllOf P (replicate n r)
AllOf-replicate P zero r h = tt
AllOf-replicate P (suc n) r h = (h, AllOf-replicate P n r h)

forked-Kept : (n : ℕ) (lines : List Line) → AllFit lines → KeptAfter lines (some (forked n lines))
forked-Kept n lines h =
    let i = sum_by_new is_inside n refl in
    let u = sum_by_new used n refl in
    record {
      one_inside = omega (arith, i);
      units = omega (arith, u);
      each = AllOf-replicate _ n new_reader ([], refl, refl, tt, λ one. tt);
      fits_coming = h;
    }

after :
    (n : ℕ) (lines : List Line) (turns : List Actor)
    → AllFit lines
    → KeptAfter lines (some (run_turns turns (forked n lines)))
after n lines turns h = run_turns-Kept lines turns (forked n lines) (forked-Kept n lines h)

-- Where every line has 1 to 20 numbers and at most 254 bytes, then whatever the order of turns, and for
-- any number of consumers, at most one process is between the lock of the mutex and its unlock; what
-- each consumer has processed is a front part of the lines, in their order.
pub run_turns-excludes :
    (n : ℕ) (lines : List Line) (turns : List Actor)
    → AllFit lines
    → let s = run_turns turns (forked n lines) in
      (in_write s.producer + sum_by is_inside s.readers ≤ 1)
      × AllOf (λ r. (rest : List Line) × (r.processed ++ rest ≡ lines)) s.readers
run_turns-excludes n lines turns h =
    let k = after n lines turns h in
    (omega (arith, k.one_inside), AllOf-weaken _ _ _ (λ r f. (_, f.2)) k.each)

-- Nothing is lost where the consumer has met the end behind the producer's end.
Over-all :
    (lines done between : List Line) (c : Consumer) (p : Producer)
    → c ≡ finished
    → Over c p between
    → done ++ (held c ++ (between ++ coming p)) ≡ lines
    → done ≡ lines
Over-all lines done between c p e o h =
    let (b, q) = subst (λ (x : Consumer). Over x p between) e o in
    sym (append-nil done) ∙ ap (λ (x : List Line). done ++ x) (rw (e, b, q) refl) ∙ h

-- No consumer is lost or added.
abbrev Counts : ℕ → Option World → Type 0
Counts n none = Unit
Counts n (some t) = length t.readers ≡ n

producer_at-Counts : (s : World) (p : Producer) → Counts (length s.readers) (producer_at s p)
unfolding semop_take semop_unlock
producer_at-Counts s (ready []) = refl
producer_at-Counts s (ready (l ∷ todo)) = elim (Option-cases (write_data_line l)) [
  | inl e ↦ rw e refl
  | inr (x, e) ↦ elim (Option-cases (semop_take s.mutex)) [
    | inl f ↦ rw (e, f) tt
    | inr (m, f) ↦ rw (e, f) refl
  ]
]
producer_at-Counts s (writing l todo) = length-map s.readers (append_text (write_data_line l))
producer_at-Counts s (leaving todo) = elim (Option-cases (semop_unlock s.mutex)) [
  | inl f ↦ rw f tt
  | inr (m, f) ↦ rw f refl
]
producer_at-Counts s (posting todo) = refl
producer_at-Counts s ended = refl
producer_at-Counts s returned = tt

reader_step-Counts : (i : ℕ) (s : World) → Counts (length s.readers) (reader_step i s)
unfolding reader_step
reader_step-Counts i s = elim (Option-cases (get_elem? s.readers i)) [
  | inl e ↦ rw e tt
  | inr (r, e) ↦ elim (Option-cases (reader_at s.mutex s.empty r r.state)) [
    | inl f ↦ rw (e, f) tt
    | inr ((m, k, x), f) ↦ rw (e, f) (length-set s.readers i x)
  ]
]

step-Counts : (a : Actor) (s : World) → Counts (length s.readers) (step a s)
unfolding step producer_step
step-Counts produce s = producer_at-Counts s s.producer
step-Counts (consume i) s = reader_step-Counts i s

stays-Counts :
    (s : World) (o : Option World)
    → Counts (length s.readers) o
    → length ((stays s o).readers) ≡ length s.readers
stays-Counts s none h = refl
stays-Counts s (some t) h = h

length-run_turns :
    (turns : List Actor) (s : World) → length ((run_turns turns s).readers) ≡ length s.readers
unfolding run_turns
length-run_turns [] s = refl
length-run_turns (a ∷ turns) s =
    length-run_turns turns (stays s (step a s)) ∙ stays-Counts s (step a s) (step-Counts a s)

-- With one consumer, and where every line has 1 to 20 numbers and at most 254 bytes: where it has
-- returned, in whatever order of turns, it has processed every line.
pub run_turns-one :
    (lines : List Line) (turns : List Actor) (r : Reader)
    → AllFit lines
    → get_elem? (run_turns turns (forked 1 lines)).readers 0 ≡ some r
    → r.state ≡ finished
    → r.processed ≡ lines
run_turns-one lines turns r h g e =
    let k = after 1 lines turns h in
    let f = AllOf-get _ _ 0 k.each g in
    Over-all lines r.processed f.0 r.state _ e (f.4 (length-run_turns turns (forked 1 lines))) f.2
