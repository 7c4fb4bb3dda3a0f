-- ===== src/Semaphores/Producing.antt =====
-- The steps of the producer keep what the processes keep.
use eltex_summer.Base.{
  ℕ, zero, suc, ◌≡◌, ◌≢◌, refl, sym, ap, ◌∙◌, some, List, [], ◌∷◌, ◌++◌, length, map, arith,
  length-map, subst, ◌>>=◌,
}
use eltex_summer.Text.{Text}
use eltex_summer.DataFile.{write_data_line, line_text}
use eltex_summer.DataFile.Lines.{read_data_line-write_data_line}
use eltex_summer.DataFile.Processes.{
  Line, Producer, ready, writing, leaving, posting, ended, returned, written,
}
use eltex_summer.DataFile.Sharing.{
  AllFit, Fits, texts, texts_end, AllFit-append, coming, held, written_order,
}
use eltex_summer.DataFile.Writes.{Over-moved}
use eltex_summer.Semaphores.{Reader, World, semop_take, semop_unlock, append_text, producer_at}
use eltex_summer.Semaphores.Sharing.{
  AllOf-map, AllOf-weaken, sum_by-map, is_inside, used, Follows, Kept, KeptAfter,
}

-- A step after which the same lines are to come.
Follows-step :
    (lines : List Line) (p q : Producer) (n : ℕ) (r : Reader)
    → p ≢ returned
    → coming p ≡ coming q
    → Follows lines p n r
    → Follows lines q n r
Follows-step lines p q n r d e (between, t, o, f, v) = (
  between,
  t,
  subst (λ (x : List Line). r.processed ++ (held r.state ++ (between ++ x)) ≡ lines) e o,
  f,
  λ one. Over-moved r.state p q between between d (v one),
)

Follows-write :
    (lines todo : List Line) (l : Line) (n : ℕ) (x : Text) (r : Reader)
    → write_data_line l ≡ some x
    → AllFit (l ∷ todo)
    → Follows lines (writing l todo) n r
    → Follows lines (leaving todo) n (append_text (some x) r)
Follows-write lines todo l n x r e (g, k) (between, t, o, f, v) =
    let w : written (write_data_line l) ≡ x = ap written e in
    (
      between ++ l ∷ [],
      ap (λ (y : Text). y ++ x) t ∙ ap (◌++◌ (texts between)) (sym w) ∙ texts_end between l,
      written_order r.processed (held r.state) between todo lines l o,
      AllFit-append between l f g,
      λ one.
          Over-moved r.state (writing l todo) (leaving todo) between (between ++ l ∷ []) (λ q. cc)
            (v one),
    )

-- The text of a line that fits.
pub write_data_line-Fits : (l : Line) → Fits l → write_data_line l ≡ some (line_text l ++ 10 ∷ [])
write_data_line-Fits l (a, b, c) = (read_data_line-write_data_line l [] a b c).0

module _ (lines : List Line) (s : World) where
  enter-Kept :
      (l : Line) (todo : List Line) (n : ℕ)
      → s.mutex ≡ n
      → Kept lines s.mutex s.empty (ready (l ∷ todo)) s.readers
      → KeptAfter lines
          (semop_take n >>= λ n. some (record s { mutex = n; producer = writing l todo }))
  unfolding semop_take
  enter-Kept l todo zero q h = tt
  enter-Kept l todo (suc n) q h = record {
    one_inside = omega (arith, h.one_inside, q);
    units = h.units;
    each =
        AllOf-weaken _ _ s.readers
          (λ r. Follows-step lines (ready (l ∷ todo)) (writing l todo) _ r (λ q. cc) refl) h.each;
    fits_coming = h.fits_coming;
  }

  write-Kept :
      (l : Line) (todo : List Line) (x : Text)
      → write_data_line l ≡ some x
      → Kept lines s.mutex s.empty (writing l todo) s.readers
      → Kept lines s.mutex s.empty (leaving todo) (map (append_text (some x)) s.readers)
  write-Kept l todo x e h =
      let f = append_text (some x) in
      let n : length (map f s.readers) ≡ length s.readers = length-map s.readers f in
      let i = sum_by-map is_inside f s.readers (λ r. refl) in
      let u = sum_by-map used f s.readers (λ r. refl) in
      record {
        one_inside = omega (arith, h.one_inside, i);
        units = rw (n, u) (omega (arith, h.units));
        each = rw n (
            AllOf-map _ _ f s.readers (λ r. Follows-write lines todo l _ x r e h.fits_coming)
              h.each);
        fits_coming = h.fits_coming.1;
      }

  leave-Kept :
      (todo : List Line) (n : ℕ)
      → s.mutex ≡ n
      → Kept lines s.mutex s.empty (leaving todo) s.readers
      → KeptAfter lines
          (semop_unlock n >>= λ n. some (record s { mutex = n; producer = posting todo }))
  unfolding semop_unlock
  leave-Kept todo zero q h = record {
    one_inside = omega (arith, h.one_inside, q);
    units = h.units;
    each =
        AllOf-weaken _ _ s.readers
          (λ r. Follows-step lines (leaving todo) (posting todo) _ r (λ q. cc) refl) h.each;
    fits_coming = h.fits_coming;
  }
  leave-Kept todo (suc n) q h = tt

  pub producer_at-Kept :
      (p : Producer) → Kept lines s.mutex s.empty p s.readers → KeptAfter lines (producer_at s p)
  producer_at-Kept (ready []) h = record {
    one_inside = h.one_inside;
    units = h.units;
    each =
        AllOf-weaken _ _ s.readers (λ r. Follows-step lines (ready []) ended _ r (λ q. cc) refl)
          h.each;
    fits_coming = tt;
  }
  producer_at-Kept (ready (l ∷ todo)) h =
      rw (write_data_line-Fits l h.fits_coming.0) (enter-Kept l todo s.mutex refl h)
  producer_at-Kept (writing l todo) h =
      let e = write_data_line-Fits l h.fits_coming.0 in rw e (write-Kept l todo _ e h)
  producer_at-Kept (leaving todo) h = leave-Kept todo s.mutex refl h
  producer_at-Kept (posting todo) h = record {
    one_inside = h.one_inside;
    units = omega (arith, h.units);
    each =
        AllOf-weaken _ _ s.readers
          (λ r. Follows-step lines (posting todo) (ready todo) _ r (λ q. cc) refl) h.each;
    fits_coming = h.fits_coming;
  }
  producer_at-Kept ended h = record {
    one_inside = h.one_inside;
    units = omega (arith, h.units);
    each =
        AllOf-weaken _ _ s.readers (λ r. Follows-step lines ended returned _ r (λ q. cc) refl)
          h.each;
    fits_coming = tt;
  }
  producer_at-Kept returned h = tt
