-- ===== src/Semaphores/Hurried.antt =====
-- Several consumers, one of which takes units that are meant for another.
use eltex_summer.Base.{
  ℕ, suc, ◌+◌, ◌≡◌, refl, ap, ◌∙◌, Option, some, List, [], ◌∷◌, ◌++◌, length, map, arith, get_elem?,
  replicate, length-map, length-replicate,
}
use eltex_summer.Text.{Text}
use eltex_summer.DataFile.{write_data_line, read_data_line, line_text}
use eltex_summer.DataFile.Lines.{read_data_line-write_data_line}
use eltex_summer.DataFile.Processes.{Line, Producer, ready, posting, Consumer, waiting, finished}
use eltex_summer.DataFile.Sharing.{Fits}
use eltex_summer.Semaphores.{
  Reader, World, new_reader, forked, Actor, produce, consume, run_turns, step, append_text,
  producer_step, reader_step, semop_take, semop_unlock,
}

-- The producer writes one line and tells the consumers; the first consumer then takes two units.
abbrev pub hurried : List Actor
hurried =
    produce
    ∷ produce
    ∷ produce
    ∷ produce
    ∷ consume 0
    ∷ consume 0
    ∷ consume 0
    ∷ consume 0
    ∷ consume 0
    ∷ consume 0
    ∷ consume 0
    ∷ consume 0
    ∷ []

-- All processes, the first consumer apart from the others.
abbrev world : ℕ → ℕ → Producer → Consumer → Text → List Line → List Reader → World
world m e p c u d others = record {
  mutex = m;
  empty = e;
  producer = p;
  readers = record { state = c; unread = u; processed = d } ∷ others;
}

module _ (rest : List Line) (others : List Reader) where
  written_once :
      (l : Line) (x : Text) (turns : List Actor)
      → write_data_line l ≡ some x
      → run_turns
          (produce ∷ produce ∷ produce ∷ turns)
          (world 1 0 (ready (l ∷ rest)) waiting [] [] others)
        ≡ run_turns turns
            (world 1 0 (posting rest) waiting x [] (map (append_text (some x)) others))
  unfolding step producer_step semop_take semop_unlock run_turns
  written_once l x turns e = rw e (
      rw e (
        ap
          (λ (o : Option Text).
            run_turns turns (world 1 0 (posting rest) waiting x [] (map (append_text o) others)))
          e))

  -- A consumer that gets a unit reads one line, or meets the end.
  read_line :
      (k : ℕ) (p : Producer) (u : Text) (l : Line) (turns : List Actor)
      → read_data_line u ≡ some (l, [])
      → run_turns
          (consume 0 ∷ consume 0 ∷ consume 0 ∷ consume 0 ∷ turns)
          (world 1 (suc k) p waiting u [] others)
        ≡ run_turns turns (world 1 k p waiting [] (l ∷ []) others)
  unfolding step reader_step semop_take semop_unlock run_turns
  read_line k p u l turns e = rw e refl

  meet_end :
      (k : ℕ) (p : Producer) (d : List Line)
      → run_turns
          (consume 0 ∷ consume 0 ∷ consume 0 ∷ consume 0 ∷ [])
          (world 1 (suc k) p waiting [] d others)
        ≡ world 1 k p finished [] d others
  unfolding step reader_step semop_take semop_unlock run_turns read_data_line
  meet_end k p d = refl

  -- The producer gives as many units as there are consumers.
  units_given :
      (x : Text) (turns : List Actor) (k : ℕ)
      → length others ≡ suc k
      → run_turns (produce ∷ turns) (world 1 0 (posting rest) waiting x [] others)
        ≡ run_turns turns (world 1 (suc (suc k)) (ready rest) waiting x [] others)
  unfolding step producer_step run_turns
  units_given x turns k e =
      let n : 0 + suc (length others) ≡ suc (suc k) = omega (arith, e) in
      ap (λ (m : ℕ). run_turns turns (world 1 m (ready rest) waiting x [] others)) n

-- With two consumers or more there is an order of turns in which the first of them returns when it has
-- processed only the first line, which fits, while the producer still has the others to write.
pub run_turns-hurried :
    (n : ℕ) (l : Line) (rest : List Line)
    → Fits l
    → let s = run_turns hurried (forked (suc (suc n)) (l ∷ rest)) in
      (s.producer ≡ ready rest)
      × (get_elem? s.readers 0
          ≡ some (record { state = finished; unread = []; processed = l ∷ [] }))
run_turns-hurried n l rest h =
    let x = line_text l ++ 10 ∷ [] in
    let (w, q) = read_data_line-write_data_line l [] h.0 h.1 h.2 in
    let others = replicate (suc n) new_reader in
    let more = map (append_text (some x)) others in
    let c : length more ≡ suc n = ap suc (length-map _ _ ∙ length-replicate n new_reader) in
    let all : run_turns hurried (forked (suc (suc n)) (l ∷ rest))
        ≡ world 1 n (ready rest) finished [] (l ∷ []) more =
      written_once rest others l x _ w
      ∙ units_given rest more x _ n c
      ∙ read_line rest more (suc n) (ready rest) x l _ q
      ∙ meet_end rest more n (ready rest) (l ∷ []) in
    rw all (refl, refl)
