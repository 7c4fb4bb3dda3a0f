-- ===== src/Interpreter/Pipes/Children.antt =====
-- The children of a pipeline: what each reads and writes, and that no other pipe end stays open.
use eltex_summer.Base.{
  ℕ, zero, suc, ◌-◌, ◌≤◌, ◌≡◌, refl, sym, ap, ◌∙◌, Bool, true, false, none, some, List, [], ◌∷◌,
  ◌++◌, arith, ltb, if◌then◌else◌, set, ltb→lt, Bool-cases, inl, inr, subst,
}
use eltex_summer.Text.{Text}
use eltex_summer.Interpreter.Files.{files}
use eltex_summer.Interpreter.Pipes.{
  Stream, Table, Child, close, close_pipes, child_input, child_output, child, then_close,
  then_output,
}
use eltex_summer.Interpreter.Pipes.Child.{runs}
use eltex_summer.Interpreter.Pipes.Stream.{
  read_end, write_end, terminal, opened_to_read, opened_to_write,
}
use eltex_summer.Interpreter.Pipes.Ends.{
  Closed, pipe_ends, pairs, close_pipes-Closed, close_pipes-front,
}
use eltex_summer.Interpreter.Pipes.Streams.{
  std, tail, tail-Closed, dup2-read_end, dup2-write_end, redirect_to-input, redirect_to-output,
}
use mathlib.Core.List.{append-nil}

-- What a command reads and writes, in a pipeline with `m` pipes.
abbrev pub stdin : ℕ → Text → Stream
stdin zero [] = terminal
stdin zero (c ∷ f) = opened_to_read (c ∷ f)
stdin (suc i) f = read_end i

abbrev pub named_output : Text → Stream
named_output [] = terminal
named_output (c ∷ f) = opened_to_write (c ∷ f)

abbrev pub stdout : ℕ → ℕ → Text → Stream
stdout m i f = if ltb i m then write_end i else named_output f

-- A redirection, where the command has one, is to a file that can be opened.
abbrev pub Opens : (Text → Bool) → ℕ → Text → Type 0
Opens can zero [] = Unit
Opens can zero (c ∷ f) = can (c ∷ f) ≡ true
Opens can (suc i) f = Unit

-- The table of a command: the standard descriptors, and nothing open behind them.
abbrev pub HasOnly : Stream → Stream → Table → Type 0
HasOnly x y u = (t : Table) × (u ≡ std x y terminal t) × Closed t

abbrev pub Runs : Stream → Stream → Child → Type 0
Runs x y c = (u : Table) × (c ≡ runs u) × HasOnly x y u

set-Closed : (t : Table) (i : ℕ) → Closed t → Closed (set t i none)
set-Closed [] i h = tt
set-Closed (x ∷ t) zero h = (refl, h.1)
set-Closed (x ∷ t) (suc i) h = (h.0, set-Closed t i (h.1))

close-HasOnly : (a : ℕ) (x y : Stream) (u : Table) → 3 ≤ a → HasOnly x y u → HasOnly x y (close a u)
close-HasOnly zero x y u h o = absurd (omega arith)
close-HasOnly (suc zero) x y u h o = absurd (omega arith)
close-HasOnly (suc (suc zero)) x y u h o = absurd (omega arith)
close-HasOnly (suc (suc (suc a))) x y u h (t, e, c) =
    (set t a none, ap (close (suc (suc (suc a)))) e, set-Closed t a c)

close_pipes-append :
    (ps qs : List (ℕ × ℕ)) (t : Table)
    → close_pipes (ps ++ qs) t ≡ close_pipes qs (close_pipes ps t)
unfolding close_pipes
close_pipes-append [] qs t = refl
close_pipes-append ((r, w) ∷ ps) qs t = close_pipes-append ps qs (close w (close r t))

-- The loop over the pipes that were made closes all of their ends and nothing else.
pub close_pipes-HasOnly :
    (m : ℕ) (x y : Stream) (t : Table)
    → Closed t
    → HasOnly x y (close_pipes (pairs 3 m) (std x y terminal (pipe_ends 0 m ++ t)))
close_pipes-HasOnly m x y t c =
    let (u, e, d) = close_pipes-Closed 0 m t c in
    (
      u,
      close_pipes-front (some x) 2 m _
          ∙ ap (◌∷◌ (some x)) (
              close_pipes-front (some y) 1 m _
              ∙ ap (◌∷◌ (some y))
                  (close_pipes-front (some terminal) 0 m _ ∙ ap (◌∷◌ (some terminal)) e)),
      d,
    )

close_pipes-unset :
    (m a b : ℕ) (x y : Stream) (t : Table)
    → 3 ≤ a
    → 3 ≤ b
    → Closed t
    → HasOnly x y (close_pipes (pairs 3 m ++ (a, b) ∷ []) (std x y terminal (pipe_ends 0 m ++ t)))
unfolding close_pipes
close_pipes-unset m a b x y t ha hb c =
    rw (close_pipes-append (pairs 3 m) ((a, b) ∷ []) (std x y terminal (pipe_ends 0 m ++ t)))
      (close-HasOnly b x y _ hb (close-HasOnly a x y _ ha (close_pipes-HasOnly m x y t c)))

module _ (can_read can_write : Text → Bool) (m : ℕ) where
  -- The table of a child before its closing loop.
  abbrev Before : Stream → Stream → Child → Type 0
  Before x y c = (t : Table) × (c ≡ runs (std x y terminal (pipe_ends 0 m ++ t))) × Closed t

  child_input-Before :
      (i : ℕ) (f : Text) (t : Table)
      → i ≤ m
      → Opens can_read i f
      → Closed t
      → Before (stdin i f) terminal (
          child_input can_read can_write i
            (pairs 3 m)
            f
            (std terminal terminal terminal (pipe_ends 0 m ++ t)))
  unfolding child_input
  child_input-Before zero [] t h o k = (t, refl, k)
  child_input-Before zero (c ∷ f) t h o k = (
    none ∷ tail t,
    rw o (ap runs (redirect_to-input m (opened_to_read (c ∷ f)) terminal terminal terminal t k)),
    tail-Closed t k,
  )
  child_input-Before (suc i) f t h o k =
      (t, ap runs (dup2-read_end m i terminal terminal terminal t (omega arith)), k)

  child_output-last :
      (i : ℕ) (f : Text) (x : Stream) (t : Table)
      → ltb i (suc m - 1) ≡ false
      → Opens can_write 0 f
      → Closed t
      → Before x (named_output f) (
          child_output can_read can_write
            (suc m)
            i
            (pairs 3 m)
            f
            (std x terminal terminal (pipe_ends 0 m ++ t)))
  unfolding child_output
  child_output-last i [] x t e o k = (t, rw e refl, k)
  child_output-last i (c ∷ f) x t e o k = (
    none ∷ tail t,
    rw (e, o) (ap runs (redirect_to-output m (opened_to_write (c ∷ f)) x terminal terminal t k)),
    tail-Closed t k,
  )

  child_output-Before :
      (i : ℕ) (f : Text) (x : Stream) (t : Table)
      → Opens can_write (m - i) f
      → Closed t
      → Before x (stdout m i f) (
          child_output can_read can_write
            (suc m)
            i
            (pairs 3 m)
            f
            (std x terminal terminal (pipe_ends 0 m ++ t)))
  unfolding child_output
  child_output-Before i f x t o k =
      let n : suc m - 1 ≡ m = omega arith in
      elim (Bool-cases (ltb i m)) [
        | inl e ↦
            let d = dup2-write_end m i x terminal terminal t (ltb→lt i m e) in
            (t, rw (ap (ltb i) n ∙ e, e) (ap runs d), k)
        | inr e ↦
            let z : m - i ≡ 0 = ground arith in
            rw e (
              child_output-last i f x t (ap (ltb i) n ∙ e)
                (subst (λ (j : ℕ). Opens can_write j f) z o) k)
      ]

  -- Every child reads and writes as it should, and has no other pipe end open.
  pub child-Runs :
      (i a b : ℕ) (input output : Text)
      → i ≤ m
      → Opens can_read i input
      → Opens can_write (m - i) output
      → 3 ≤ a
      → 3 ≤ b
      → Runs (stdin i input) (stdout m i output) (
          child can_read can_write
            (suc m)
            i
            (pairs 3 m)
            (a, b)
            (files input output)
            (std terminal terminal terminal (pipe_ends 0 m)))
  unfolding child
  child-Runs i a b input output h o q ha hb =
      let (t, e, k) = child_input-Before i input [] h o tt in
      let (u, d, l) = child_output-Before i output (stdin i input) t q k in
      let c = close_pipes-unset m a b (stdin i input) (stdout m i output) u ha hb l in
      let all = pairs 3 m ++ (a, b) ∷ [] in
      (
        _,
        ap
              (λ (r : Table). then_close can_read can_write all (
                then_output can_read can_write (suc m) i (pairs 3 m) output (
                  child_input can_read can_write i (pairs 3 m) input
                    (std terminal terminal terminal r))))
              (sym (append-nil (pipe_ends 0 m)))
            ∙ ap
                (λ (r : Child).
                  then_close can_read can_write all
                    (then_output can_read can_write (suc m) i (pairs 3 m) output r))
                e
            ∙ ap (then_close can_read can_write all) d,
        c,
      )
