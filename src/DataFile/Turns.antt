-- ===== src/DataFile/Turns.antt =====
-- So do the steps of the consumer.
use eltex_summer.Base.{
  ℕ, zero, suc, ◌+◌, ◌≡◌, refl, sym, ap, ◌∙◌, subst, true, false, some, List, [], ◌∷◌, ◌++◌, length,
  arith,
}
use eltex_summer.Text.{Text}
use eltex_summer.DataFile.{read_data_line}
use eltex_summer.DataFile.Processes.{
  Line, returned, Consumer, waiting, entering, reading, with_line, at_end, finished, World,
  wait_sem, read_of, consumer_at,
}
use eltex_summer.DataFile.Sharing.{
  AllFit, texts, read_first, coming, last_post, Shares, read_order, returned-of_tokens,
}
use eltex_summer.DataFile.Writes.{ConsumerWaits, Goes, left, goes, waits}

module _ (lines between : List Line) (s : World) where
  take-Goes :
      (n : ℕ)
      → s.empty ≡ n
      → Shares lines between s s.producer waiting
      → Goes lines
          (left between s.producer waiting)
          (s.empty ≡ 0)
          (wait_sem n (λ n. record s { empty = n; consumer = entering }))
  take-Goes zero q h = waits q
  take-Goes (suc n) q h = goes (
    between,
    record {
      text = h.text;
      order = h.order;
      one_inside = h.one_inside;
      tokens = omega (arith, h.tokens, q);
      over = tt;
      fits = h.fits;
      fits_coming = h.fits_coming;
    },
    omega arith,
  )

  enter_read-Goes :
      (n : ℕ)
      → s.sem ≡ n
      → Shares lines between s s.producer entering
      → Goes lines
          (left between s.producer entering)
          (s.sem ≡ 0)
          (wait_sem n (λ n. record s { sem = n; consumer = reading }))
  enter_read-Goes zero q h = waits q
  enter_read-Goes (suc n) q h = goes (
    between,
    record {
      text = h.text;
      order = h.order;
      one_inside = omega (arith, h.one_inside, q);
      tokens = h.tokens;
      over = tt;
      fits = h.fits;
      fits_coming = h.fits_coming;
    },
    omega arith,
  )

  read-Goes :
      (b : List Line)
      → between ≡ b
      → Shares lines between s s.producer reading
      → Goes lines
          (left between s.producer reading)
          (true ≡ false)
          (some (read_of s (read_data_line s.unread)))
  unfolding read_data_line
  read-Goes [] q h =
      let t : s.unread ≡ [] = h.text ∙ ap texts q in
      let p : s.producer ≡ returned =
        returned-of_tokens s.producer s.empty
          (h.tokens ∙ ap (λ (x : List Line). length x + last_post s.producer) q) in
      rw t (
        goes (
          between,
          record {
            text = ap texts (sym q);
            order = h.order;
            one_inside = h.one_inside;
            tokens = h.tokens;
            over = (q, p);
            fits = h.fits;
            fits_coming = h.fits_coming;
          },
          omega arith,
        ))
  read-Goes (b ∷ bs) q h =
      let f = subst AllFit q h.fits in
      let n : length between ≡ suc (length bs) = ap (λ (x : List Line). length x) q in
      let r : read_data_line s.unread ≡ some (b, texts bs) =
        ap (λ (x : Text). read_data_line x) (h.text ∙ ap texts q) ∙ read_first b bs f.0 in
      rw r (
        goes (
          bs,
          record {
            text = refl;
            order =
                ap (λ (x : List Line). s.processed ++ (x ++ coming s.producer)) (sym q) ∙ h.order;
            one_inside = h.one_inside;
            tokens = omega (arith, h.tokens, n);
            over = tt;
            fits = f.1;
            fits_coming = h.fits_coming;
          },
          omega (arith, n),
        ))

  pub consumer_at-Goes :
      (c : Consumer)
      → Shares lines between s s.producer c
      → Goes lines (left between s.producer c) (ConsumerWaits s c) (consumer_at s c)
  consumer_at-Goes waiting h = take-Goes s.empty refl h
  consumer_at-Goes entering h = enter_read-Goes s.sem refl h
  consumer_at-Goes reading h = read-Goes between refl h
  consumer_at-Goes (with_line l) h =
      let o : (s.processed ++ l ∷ []) ++ (between ++ coming s.producer) ≡ lines =
        read_order s.processed (between ++ coming s.producer) lines l h.order in
      goes (
        between,
        record {
          text = h.text;
          order = o;
          one_inside = omega (arith, h.one_inside);
          tokens = h.tokens;
          over = tt;
          fits = h.fits;
          fits_coming = h.fits_coming;
        },
        omega arith,
      )
  consumer_at-Goes at_end h = goes (
    between,
    record {
      text = h.text;
      order = h.order;
      one_inside = omega (arith, h.one_inside);
      tokens = h.tokens;
      over = h.over;
      fits = h.fits;
      fits_coming = h.fits_coming;
    },
    omega arith,
  )
  consumer_at-Goes finished h = waits tt
