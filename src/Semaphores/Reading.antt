-- ===== src/Semaphores/Reading.antt =====
-- So do the steps of a consumer.
use eltex_summer.Base.{
  ℕ, zero, suc, ◌+◌, ◌≡◌, refl, ap, Option, none, some, List, [], ◌∷◌, ◌++◌, length, arith,
  length-set, length-append, get_elem?, set, ◌>>=◌,
}
use eltex_summer.Text.{Text}
use eltex_summer.DataFile.{read_data_line}
use eltex_summer.DataFile.Processes.{
  Line, Producer, Consumer, waiting, entering, reading, with_line, at_end, finished,
}
use eltex_summer.DataFile.Sharing.{
  AllFit, texts, read_first, coming, owed, last_post, read_order, returned-of_tokens,
}
use eltex_summer.Semaphores.{Reader, semop_take, semop_unlock, read_of, reader_at}
use eltex_summer.Semaphores.Sharing.{AllOf-set, sum_by-set, is_inside, used, Follows, Kept}

-- A consumer that takes the place of another one which has the lock and the units it has.
pub Kept-put :
    (lines : List Line) (m e m' e' : ℕ) (p : Producer) (rs : List Reader) (i : ℕ) (r x : Reader)
    → Kept lines m e p rs
    → get_elem? rs i ≡ some r
    → m' + is_inside x ≡ m + is_inside r
    → e' + used x ≡ e + used r
    → Follows lines p (length rs) x
    → Kept lines m' e' p (set rs i x)
Kept-put lines m e m' e' p rs i r x h g a b f =
    let n = length-set rs i x in
    let s1 = sum_by-set is_inside rs i r x g in
    let s2 = sum_by-set used rs i r x g in
    record {
      one_inside = omega (arith, h.one_inside, s1, a);
      units = rw n (omega (arith, h.units, s2, b));
      each = rw n (AllOf-set _ rs i x h.each f);
      fits_coming = h.fits_coming;
    }

-- What a consumer's step leaves, in place of `r`.
abbrev pub Replaces : List Line → Producer → ℕ → ℕ → ℕ → Reader → Option (ℕ × ℕ × Reader) → Type 0
Replaces lines p n m e r none = Unit
Replaces lines p n m e r (some (m', e', x)) =
    (m' + is_inside x ≡ m + is_inside r) × (e' + used x ≡ e + used r) × Follows lines p n x

abbrev pub reader : Consumer → Text → List Line → Reader
reader c u done = record { state = c; unread = u; processed = done }

-- With one consumer, the units of `empty` are those of the lines.
abbrev pub OneUnits : List Line → Producer → ℕ → ℕ → Reader → Type 0
OneUnits lines p n e r =
    n ≡ 1 → e + used r + (length (coming p) + owed p) ≡ length lines + last_post p

module _ (lines : List Line) (p : Producer) (n : ℕ) (u : Text) (done : List Line) where
  wait-Replaces :
      (m e : ℕ)
      → Follows lines p n (reader waiting u done)
      → Replaces lines p n m e
          (reader waiting u done)
          (semop_take e >>= λ k. some (m, k, reader entering u done))
  unfolding semop_take
  wait-Replaces m zero f = tt
  wait-Replaces m (suc e) (between, t, o, g, v) = (refl, omega arith, (between, t, o, g, λ one. tt))

  lock-Replaces :
      (m e : ℕ)
      → Follows lines p n (reader entering u done)
      → Replaces lines p n m e
          (reader entering u done)
          (semop_take m >>= λ k. some (k, e, reader reading u done))
  unfolding semop_take
  lock-Replaces zero e f = tt
  lock-Replaces (suc m) e (between, t, o, g, v) = (omega arith, refl, (between, t, o, g, λ one. tt))

  read-Replaces :
      (m e : ℕ) (between : List Line)
      → OneUnits lines p n e (reader reading u done)
      → u ≡ texts between
      → done ++ (between ++ coming p) ≡ lines
      → AllFit between
      → Replaces lines p n m e
          (reader reading u done)
          (some (m, e, read_of (reader reading u done) (read_data_line u)))
  unfolding read_data_line
  read-Replaces m e [] w t o g = rw t (
    refl,
    refl,
    (
      [],
      refl,
      o,
      tt,
      λ one.
          let k = w one in
          let l : length done + length (coming p) ≡ length lines =
            omega (arith, length-append done (coming p), ap (λ (x : List Line). length x) o) in
          (refl, returned-of_tokens p e (omega (arith, k, l))),
    ),
  )
  read-Replaces m e (l ∷ between) w t o (g, k) =
      let q = read_first l between g in rw (t, q) (refl, refl, (between, refl, o, k, λ one. tt))

  process-Replaces :
      (m e : ℕ) (l : Line)
      → Follows lines p n (reader (with_line l) u done)
      → Replaces lines p n m e
          (reader (with_line l) u done)
          (semop_unlock m >>= λ k. some (k, e, reader waiting u (done ++ l ∷ [])))
  unfolding semop_unlock
  process-Replaces zero e l (between, t, o, g, v) = (
    refl,
    omega (arith, length-append done (l ∷ [])),
    (between, t, read_order done (between ++ coming p) lines l o, g, λ one. tt),
  )
  process-Replaces (suc m) e l f = tt

  leave-Replaces :
      (m e : ℕ)
      → Follows lines p n (reader at_end u done)
      → Replaces lines p n m e
          (reader at_end u done)
          (semop_unlock m >>= λ k. some (k, e, reader finished u done))
  unfolding semop_unlock
  leave-Replaces zero e f = (refl, refl, f)
  leave-Replaces (suc m) e f = tt

  pub reader_at-Replaces :
      (m e : ℕ) (c : Consumer)
      → OneUnits lines p n e (reader c u done)
      → Follows lines p n (reader c u done)
      → Replaces lines p n m e (reader c u done) (reader_at m e (reader c u done) c)
  reader_at-Replaces m e waiting w f = wait-Replaces m e f
  reader_at-Replaces m e entering w f = lock-Replaces m e f
  reader_at-Replaces m e reading w (between, t, o, g, v) = read-Replaces m e between w t o g
  reader_at-Replaces m e (with_line l) w f = process-Replaces m e l f
  reader_at-Replaces m e at_end w f = leave-Replaces m e f
  reader_at-Replaces m e finished w f = tt
