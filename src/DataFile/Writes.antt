-- ===== src/DataFile/Writes.antt =====
-- The steps of the producer keep what the semaphores keep, and bring the end nearer.
use eltex_summer.Base.{
  ℕ, zero, suc, ◌+◌, ◌*◌, ◌<◌, ◌≡◌, ◌≢◌, refl, ap, ◌∙◌, true, false, Option, none, some, List, [],
  ◌∷◌, ◌++◌, length, length-append, arith,
}
use eltex_summer.Text.{Text}
use eltex_summer.DataFile.{line_text, write_data_line}
use eltex_summer.DataFile.Lines.{read_data_line-write_data_line}
use eltex_summer.DataFile.Processes.{
  Line, Producer, ready, writing, leaving, posting, ended, returned, Consumer, waiting, entering,
  reading, with_line, at_end, finished, World, written, wait_sem, producer_at,
}
use eltex_summer.DataFile.Sharing.{
  AllFit-append, texts, texts_end, coming, held, Over, Shares, written_order,
}

-- Steps that are left.
abbrev pub producer_left : Producer → ℕ
producer_left (ready todo) = 4 * length todo + 2
producer_left (writing l todo) = 4 * length todo + 5
producer_left (leaving todo) = 4 * length todo + 4
producer_left (posting todo) = 4 * length todo + 3
producer_left ended = 1
producer_left returned = 0

abbrev pub consumer_left : ℕ → Consumer → ℕ
consumer_left n waiting = 4 * n + 4
consumer_left n entering = 4 * n + 3
consumer_left n reading = 4 * n + 2
consumer_left n (with_line l) = 4 * n + 5
consumer_left n at_end = 1
consumer_left n finished = 0

abbrev pub left : List Line → Producer → Consumer → ℕ
left between p c = producer_left p + consumer_left (length between + length (coming p)) c

-- The state keeps the order and has fewer steps left than `k`.
abbrev pub Within : List Line → ℕ → World → Type 0
Within lines k s =
    (between : List Line) × Shares lines between s s.producer s.consumer
    × (left between s.producer s.consumer < k)

-- A process goes on, or waits for a reason.
pub data Goes (lines : List Line) (k : ℕ) (reason : Type 0) : Option World → Type 0 where
  goes : {t : World} → Within lines k t → Goes lines k reason (some t)
  waits : reason → Goes lines k reason none

-- Why a process may wait.
abbrev pub ProducerWaits : World → Producer → Type 0
ProducerWaits s (ready todo) = s.sem ≡ 0
ProducerWaits s (writing l todo) = true ≡ false
ProducerWaits s (leaving todo) = true ≡ false
ProducerWaits s (posting todo) = true ≡ false
ProducerWaits s ended = true ≡ false
ProducerWaits s returned = Unit

abbrev pub ConsumerWaits : World → Consumer → Type 0
ConsumerWaits s waiting = s.empty ≡ 0
ConsumerWaits s entering = s.sem ≡ 0
ConsumerWaits s reading = true ≡ false
ConsumerWaits s (with_line l) = true ≡ false
ConsumerWaits s at_end = true ≡ false
ConsumerWaits s finished = Unit

pub Over-moved :
    (c : Consumer) (p p' : Producer) (b b' : List Line) → p ≢ returned → Over c p b → Over c p' b'
Over-moved waiting p p' b b' n o = tt
Over-moved entering p p' b b' n o = tt
Over-moved reading p p' b b' n o = tt
Over-moved (with_line l) p p' b b' n o = tt
Over-moved at_end p p' b b' n (e, f) = absurd (n f)
Over-moved finished p p' b b' n (e, f) = absurd (n f)

module _ (lines between : List Line) (s : World) where
  enter-Goes :
      (l : Line) (todo : List Line) (x : Text) (n : ℕ)
      → s.sem ≡ n
      → Shares lines between s (ready (l ∷ todo)) s.consumer
      → Goes lines
          (left between (ready (l ∷ todo)) s.consumer)
          (s.sem ≡ 0)
          (wait_sem n (λ n. record s { sem = n; producer = writing l todo }))
  enter-Goes l todo x zero q h = waits q
  enter-Goes l todo x (suc n) q h = goes (
    between,
    record {
      text = h.text;
      order = h.order;
      one_inside = omega (arith, h.one_inside, q);
      tokens = h.tokens;
      over =
          Over-moved s.consumer (ready (l ∷ todo)) (writing l todo) between between (λ e. cc)
            h.over;
      fits = h.fits;
      fits_coming = h.fits_coming;
    },
    omega arith,
  )

  pub producer_at-Goes :
      (p : Producer)
      → Shares lines between s p s.consumer
      → Goes lines (left between p s.consumer) (ProducerWaits s p) (producer_at s p)
  producer_at-Goes (ready []) h = goes (
    between,
    record {
      text = h.text;
      order = h.order;
      one_inside = h.one_inside;
      tokens = h.tokens;
      over = Over-moved s.consumer (ready []) ended between between (λ e. cc) h.over;
      fits = h.fits;
      fits_coming = tt;
    },
    omega arith,
  )
  producer_at-Goes (ready (l ∷ todo)) h =
      let (w, r) =
        read_data_line-write_data_line l [] h.fits_coming.0.0 h.fits_coming.0.1 h.fits_coming.0.2 in
      rw w (enter-Goes l todo (line_text l ++ 10 ∷ []) s.sem refl h)
  producer_at-Goes (writing l todo) h =
      let more = between ++ l ∷ [] in
      let n : length more + length todo ≡ length between + suc (length todo) =
        omega (arith, length-append between (l ∷ [])) in
      let t : s.unread ++ written (write_data_line l) ≡ texts more =
        ap (λ (x : Text). x ++ written (write_data_line l)) h.text ∙ texts_end between l in
      let o : s.processed ++ (held s.consumer ++ (more ++ todo)) ≡ lines =
        written_order s.processed (held s.consumer) between todo lines l h.order in
      let m : left more (leaving todo) s.consumer < left between (writing l todo) s.consumer =
        rw n (omega arith) in
      goes (
        more,
        record {
          text = t;
          order = o;
          one_inside = h.one_inside;
          tokens = omega (arith, h.tokens, length-append between (l ∷ []));
          over =
              Over-moved s.consumer (writing l todo) (leaving todo) between more (λ e. cc) h.over;
          fits = AllFit-append between l h.fits h.fits_coming.0;
          fits_coming = h.fits_coming.1;
        },
        m,
      )
  producer_at-Goes (leaving todo) h = goes (
    between,
    record {
      text = h.text;
      order = h.order;
      one_inside = omega (arith, h.one_inside);
      tokens = h.tokens;
      over = Over-moved s.consumer (leaving todo) (posting todo) between between (λ e. cc) h.over;
      fits = h.fits;
      fits_coming = h.fits_coming;
    },
    omega arith,
  )
  producer_at-Goes (posting todo) h = goes (
    between,
    record {
      text = h.text;
      order = h.order;
      one_inside = h.one_inside;
      tokens = omega (arith, h.tokens);
      over = Over-moved s.consumer (posting todo) (ready todo) between between (λ e. cc) h.over;
      fits = h.fits;
      fits_coming = h.fits_coming;
    },
    omega arith,
  )
  producer_at-Goes ended h = goes (
    between,
    record {
      text = h.text;
      order = h.order;
      one_inside = h.one_inside;
      tokens = omega (arith, h.tokens);
      over = Over-moved s.consumer ended returned between between (λ e. cc) h.over;
      fits = h.fits;
      fits_coming = tt;
    },
    omega arith,
  )
  producer_at-Goes returned h = waits tt
