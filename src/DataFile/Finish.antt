-- ===== src/DataFile/Finish.antt =====
-- The two processes from the start to the end.
use eltex_summer.Base.{
  ℕ, zero, suc, ◌+◌, ◌*◌, ◌≤◌, ◌≡◌, refl, sym, ap, ◌∙◌, Bool, true, false, Option, none, some, List,
  [], ◌++◌, length, arith, ◌⊎◌, inl, inr,
}
use mathlib.Core.List.{append-nil}
use eltex_summer.DataFile.Processes.{
  Line, Producer, ready, writing, leaving, posting, ended, returned, Consumer, waiting, entering,
  reading, with_line, at_end, finished, World, forked, producer_step, consumer_step, first_of, turn,
  run_both,
}
use eltex_summer.DataFile.Sharing.{AllFit, coming, held, in_write, in_read, Shares}
use eltex_summer.DataFile.Writes.{
  left, Within, Goes, goes, waits, ProducerWaits, ConsumerWaits, producer_at-Goes,
}
use eltex_summer.DataFile.Turns.{consumer_at-Goes}

abbrev pub Finished : List Line → World → Type 0
Finished lines s = (s.producer ≡ returned) × (s.consumer ≡ finished) × (s.processed ≡ lines)

done_order :
    (done between lines : List Line) → between ≡ [] → done ++ (between ++ []) ≡ lines → done ≡ lines
done_order done between lines e o =
    sym (ap (λ (x : List Line). done ++ (x ++ [])) e ∙ append-nil done) ∙ o

-- Both wait only where both have returned, with the lines processed in order.
both_wait :
    (lines between : List Line) (s : World) (p : Producer) (c : Consumer)
    → Shares lines between s p c
    → ProducerWaits s p
    → ConsumerWaits s c
    → (p ≡ returned) × (c ≡ finished) × (s.processed ≡ lines)
both_wait lines between s (ready todo) waiting h a b = absurd (omega (arith, h.one_inside, a))
both_wait lines between s (ready todo) entering h a b = absurd (omega (arith, h.one_inside, a))
both_wait lines between s (ready todo) finished h a b = absurd (omega (arith, h.one_inside, a))
both_wait lines between s (ready todo) reading h a b = absurd cc
both_wait lines between s (ready todo) (with_line l) h a b = absurd cc
both_wait lines between s (ready todo) at_end h a b = absurd cc
both_wait lines between s (writing l todo) c h a b = absurd cc
both_wait lines between s (leaving todo) c h a b = absurd cc
both_wait lines between s (posting todo) c h a b = absurd cc
both_wait lines between s ended c h a b = absurd cc
both_wait lines between s returned waiting h a b = absurd (omega (arith, h.tokens, b))
both_wait lines between s returned entering h a b = absurd (omega (arith, h.one_inside, b))
both_wait lines between s returned reading h a b = absurd cc
both_wait lines between s returned (with_line l) h a b = absurd cc
both_wait lines between s returned at_end h a b = absurd cc
both_wait lines between s returned finished h a b =
    (refl, refl, done_order s.processed between lines h.over.0 h.order)

data Turned (lines : List Line) (k : ℕ) (s : World) : Option World → Type 0 where
  moves : {t : World} → Within lines k t → Turned lines k s (some t)
  rests : Finished lines s → Turned lines k s none

Within-mono :
    (lines : List Line) (j k : ℕ) (s : World) → j ≤ k → Within lines j s → Within lines k s
Within-mono lines j k s b (between, h, m) = (between, h, omega (arith, b, m))

module _ (lines : List Line) (j k : ℕ) (s : World) (b : j ≤ k) {P Q : Type 0}
    (finish : P → Q → Finished lines s) where
  first_of-Turned :
      {m n : Option World} → Goes lines j P m → Goes lines j Q n → Turned lines k s (first_of m n)
  first_of-Turned (goes w) g = moves (Within-mono lines j k _ b w)
  first_of-Turned (waits p) (goes w) = moves (Within-mono lines j k _ b w)
  first_of-Turned (waits p) (waits q) = rests (finish p q)

  second_of-Turned :
      {m n : Option World} → Goes lines j P m → Goes lines j Q n → Turned lines k s (first_of n m)
  second_of-Turned g (goes w) = moves (Within-mono lines j k _ b w)
  second_of-Turned (goes w) (waits q) = moves (Within-mono lines j k _ b w)
  second_of-Turned (waits p) (waits q) = rests (finish p q)

turn-Turned :
    (lines : List Line) (k : ℕ) (b : Bool) (s : World)
    → Within lines (suc k) s
    → Turned lines k s (turn b s)
unfolding turn producer_step consumer_step
turn-Turned lines k true s (between, h, m) =
    first_of-Turned lines (left between s.producer s.consumer) k s (omega arith)
      (both_wait lines between s s.producer s.consumer h)
      (producer_at-Goes lines between s s.producer h)
      (consumer_at-Goes lines between s s.consumer h)
turn-Turned lines k false s (between, h, m) =
    second_of-Turned lines (left between s.producer s.consumer) k s (omega arith)
      (both_wait lines between s s.producer s.consumer h)
      (producer_at-Goes lines between s s.producer h)
      (consumer_at-Goes lines between s s.consumer h)

Turned-cases :
    (lines : List Line) (k : ℕ) (s : World) (m : Option World)
    → Turned lines k s m
    → ((t : World) × (m ≡ some t) × Within lines k t) ⊎ ((m ≡ none) × Finished lines s)
Turned-cases lines k s m (moves {t} w) = inl (t, refl, w)
Turned-cases lines k s m (rests d) = inr (refl, d)

-- Enough steps lead to the end.
run_both-Finished :
    (lines : List Line) (k f : ℕ) (who : World → Bool) (s : World)
    → k ≤ f
    → Within lines k s
    → Finished lines (run_both f who s)
unfolding run_both
run_both-Finished lines zero f who s b (between, h, m) = elim m [ ]
run_both-Finished lines (suc k) zero who s b w = absurd (omega arith)
run_both-Finished lines (suc k) (suc f) who s b w =
    elim (Turned-cases lines k s (turn (who s) s) (turn-Turned lines k (who s) s w)) [
      | inl (t, e, v) ↦ rw (e, run_both) (run_both-Finished lines k f who t (omega arith) v)
      | inr (e, d) ↦ rw (e, run_both) d
    ]

-- However many steps are made, the state is one that the semaphores keep.
abbrev Kept : List Line → World → Type 0
Kept lines s = (k : ℕ) × Within lines k s

run_both-Kept :
    (lines : List Line) (f k : ℕ) (who : World → Bool) (s : World)
    → Within lines k s
    → Kept lines (run_both f who s)
unfolding run_both
run_both-Kept lines zero k who s w = (k, w)
run_both-Kept lines (suc f) zero who s (between, h, m) = elim m [ ]
run_both-Kept lines (suc f) (suc k) who s w =
    elim (Turned-cases lines k s (turn (who s) s) (turn-Turned lines k (who s) s w)) [
      | inl (t, e, v) ↦ rw (e, run_both) (run_both-Kept lines f k who t v)
      | inr (e, d) ↦ rw (e, run_both) (suc k, w)
    ]

forked-Within :
    (lines : List Line) → AllFit lines → Within lines (8 * length lines + 7) (forked lines)
forked-Within lines a = (
  [],
  record {
    text = refl;
    order = refl;
    one_inside = refl;
    tokens = refl;
    over = tt;
    fits = tt;
    fits_coming = a;
  },
  omega arith,
)

-- Where every line has 1 to 20 numbers and at most 254 bytes, and whoever of the two processes is let go
-- first at each step, no more than 8 steps for each line and 7 more lead to the state in which both have
-- returned, and the consumer has processed all lines in the order of the producer.
pub run_both-finishes :
    (lines : List Line) (f : ℕ) (who : World → Bool)
    → AllFit lines
    → 8 * length lines + 7 ≤ f
    → Finished lines (run_both f who (forked lines))
run_both-finishes lines f who a b =
    run_both-Finished lines (8 * length lines + 7) f who (forked lines) b (forked-Within lines a)

-- Where every line has 1 to 20 numbers and at most 254 bytes, then after any number of steps, whoever goes
-- first at each: the two processes are never both between `sem_wait(sem)` and `sem_post(sem)`, `sem` is 1
-- exactly where neither is, and the lines processed so far are the first of the producer's, in order.
pub run_both-excludes :
    (lines : List Line) (f : ℕ) (who : World → Bool)
    → AllFit lines
    → let s = run_both f who (forked lines) in
      (s.sem + in_write s.producer + in_read s.consumer ≡ 1)
      × ((rest : List Line) × (s.processed ++ rest ≡ lines))
run_both-excludes lines f who a =
    let (k, (between, h, m)) =
      run_both-Kept lines f (8 * length lines + 7) who (forked lines) (forked-Within lines a) in
    let s = run_both f who (forked lines) in
    (h.one_inside, (held s.consumer ++ (between ++ coming s.producer), h.order))
