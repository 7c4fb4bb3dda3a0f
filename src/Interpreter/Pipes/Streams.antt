-- ===== src/Interpreter/Pipes/Streams.antt =====
-- What the standard descriptors of a command stand for when it is run.
use eltex_summer.Base.{
  ℕ, zero, suc, ◌+◌, ◌<◌, ◌≡◌, refl, sym, ap, ◌∙◌, Option, none, some, [], ◌∷◌, ◌++◌, arith,
  get_elem?, get_or, set, length, length-set,
}
use mathlib.Core.List.{append-nil}
use eltex_summer.Interpreter.Pipes.{Stream, Table, take_lowest, dup2, redirect_to}
use eltex_summer.Interpreter.Pipes.Stream.{read_end, write_end}
use eltex_summer.Interpreter.Pipes.Ends.{
  Full, Closed, pipe_ends, pairs, take_lowest-Full, take_lowest-end, pipe_ends-Full,
}

-- The first three descriptors before the others.
abbrev pub std : Stream → Stream → Stream → Table → Table
std x y z r = some x ∷ some y ∷ some z ∷ r

abbrev pub tail : Table → Table
tail [] = []
tail (x ∷ t) = t

pub tail-Closed : (t : Table) → Closed t → Closed (none ∷ tail t)
tail-Closed [] h = (refl, tt)
tail-Closed (x ∷ t) h = (refl, h.1)

take_lowest-Closed :
    (f t : Table) (s : Stream)
    → Full f
    → Closed t
    → take_lowest (f ++ t) s ≡ (length f, f ++ some s ∷ tail t)
take_lowest-Closed f [] s h c = rw (append-nil f) (take_lowest-end f s h)
take_lowest-Closed f (x ∷ t) s h c = rw (c.0) (take_lowest-Full f t s h)

get_elem?-middle : (f r : Table) (x : Option Stream) → get_elem? (f ++ x ∷ r) (length f) ≡ some x
get_elem?-middle [] r x = refl
get_elem?-middle (y ∷ f) r x = get_elem?-middle f r x

set-middle : (f r : Table) (x y : Option Stream) → set (f ++ x ∷ r) (length f) y ≡ f ++ y ∷ r
set-middle [] r x y = refl
set-middle (z ∷ f) r x y = ap (◌∷◌ z) (set-middle f r x y)

set-front :
    (f r : Table) (i : ℕ) (x : Option Stream) → i < length f → set (f ++ r) i x ≡ set f i x ++ r
set-front [] r i x h = absurd (omega arith)
set-front (z ∷ f) r zero x h = refl
set-front (z ∷ f) r (suc i) x h = ap (◌∷◌ z) (set-front f r i x (omega arith))

dup2-open :
    (old new : ℕ) (t : Table) (s : Stream)
    → get_elem? t old ≡ some (some s)
    → dup2 old new t ≡ set t new (some s)
unfolding dup2
dup2-open old new t s e = rw (e, dup2) refl

redirect_to-Closed :
    (k : ℕ) (s : Stream) (f t : Table)
    → Full f
    → Closed t
    → k < length f
    → redirect_to k s (f ++ t) ≡ set f k (some s) ++ none ∷ tail t
unfolding redirect_to
redirect_to-Closed k s f t h c l =
    let e = take_lowest-Closed f t s h c in
    let d =
      dup2-open (length f) k (f ++ some s ∷ tail t) s (get_elem?-middle f (tail t) (some s)) in
    let g = set-front f (some s ∷ tail t) k (some s) l in
    let m = set-middle (set f k (some s)) (tail t) (some s) none in
    let n : set (set f k (some s) ++ some s ∷ tail t) (length f) none
        ≡ set f k (some s) ++ none ∷ tail t =
      ap (λ (j : ℕ). set (set f k (some s) ++ some s ∷ tail t) j none)
        (sym (length-set f k (some s)))
      ∙ m in
    rw (e, redirect_to, d, g) n

abbrev twice : ℕ → ℕ
twice zero = 0
twice (suc n) = suc (suc (twice n))

get_elem?-read_end :
    (k m i : ℕ) (t : Table)
    → i < m
    → get_elem? (pipe_ends k m ++ t) (twice i) ≡ some (some (read_end (k + i)))
get_elem?-read_end k zero i t h = absurd (omega arith)
get_elem?-read_end k (suc m) zero t h = ap (λ (x : ℕ). some (some (read_end x))) (omega arith)
get_elem?-read_end k (suc m) (suc i) t h =
    get_elem?-read_end (suc k) m i t (omega arith)
    ∙ ap (λ (x : ℕ). some (some (read_end x))) (omega arith)

get_elem?-write_end :
    (k m i : ℕ) (t : Table)
    → i < m
    → get_elem? (pipe_ends k m ++ t) (suc (twice i)) ≡ some (some (write_end (k + i)))
get_elem?-write_end k zero i t h = absurd (omega arith)
get_elem?-write_end k (suc m) zero t h = ap (λ (x : ℕ). some (some (write_end x))) (omega arith)
get_elem?-write_end k (suc m) (suc i) t h =
    get_elem?-write_end (suc k) m i t (omega arith)
    ∙ ap (λ (x : ℕ). some (some (write_end x))) (omega arith)

get_or-pairs :
    (a m i : ℕ) (d : ℕ × ℕ) → i < m → get_or (pairs a m) i d ≡ (a + twice i, suc (a + twice i))
get_or-pairs a zero i d h = absurd (omega arith)
get_or-pairs a (suc m) zero d h = ap (λ (x : ℕ). (x, suc x)) (omega arith)
get_or-pairs a (suc m) (suc i) d h =
    get_or-pairs (suc (suc a)) m i d (omega arith) ∙ ap (λ (x : ℕ). (x, suc x)) (omega arith)

pub dup2-read_end :
    (m i : ℕ) (x y z : Stream) (t : Table)
    → i < m
    → dup2 ((get_or (pairs 3 m) i (0, 0)).0) 0 (std x y z (pipe_ends 0 m ++ t))
      ≡ std (read_end i) y z (pipe_ends 0 m ++ t)
dup2-read_end m i x y z t h =
    ap (λ (p : ℕ × ℕ). dup2 (p.0) 0 (std x y z (pipe_ends 0 m ++ t)))
      (get_or-pairs 3 m i (0, 0) h ∙ ap (λ (n : ℕ). (n, suc n)) (omega arith))
    ∙ dup2-open (suc (suc (suc (twice i)))) 0 (std x y z (pipe_ends 0 m ++ t)) (read_end i)
        (get_elem?-read_end 0 m i t h ∙ ap (λ (n : ℕ). some (some (read_end n))) (omega arith))

pub dup2-write_end :
    (m i : ℕ) (x y z : Stream) (t : Table)
    → i < m
    → dup2 ((get_or (pairs 3 m) i (0, 0)).1) 1 (std x y z (pipe_ends 0 m ++ t))
      ≡ std x (write_end i) z (pipe_ends 0 m ++ t)
dup2-write_end m i x y z t h =
    ap (λ (p : ℕ × ℕ). dup2 (p.1) 1 (std x y z (pipe_ends 0 m ++ t)))
      (get_or-pairs 3 m i (0, 0) h ∙ ap (λ (n : ℕ). (n, suc n)) (omega arith))
    ∙ dup2-open (suc (suc (suc (suc (twice i))))) 1 (std x y z (pipe_ends 0 m ++ t)) (write_end i)
        (get_elem?-write_end 0 m i t h ∙ ap (λ (n : ℕ). some (some (write_end n))) (omega arith))

pub redirect_to-input :
    (m : ℕ) (s x y z : Stream) (t : Table)
    → Closed t
    → redirect_to 0 s (std x y z (pipe_ends 0 m ++ t)) ≡ std s y z (pipe_ends 0 m ++ none ∷ tail t)
redirect_to-input m s x y z t c =
    redirect_to-Closed 0 s (std x y z (pipe_ends 0 m)) t (pipe_ends-Full 0 m) c (omega arith)

pub redirect_to-output :
    (m : ℕ) (s x y z : Stream) (t : Table)
    → Closed t
    → redirect_to 1 s (std x y z (pipe_ends 0 m ++ t)) ≡ std x s z (pipe_ends 0 m ++ none ∷ tail t)
redirect_to-output m s x y z t c =
    redirect_to-Closed 1 s (std x y z (pipe_ends 0 m)) t (pipe_ends-Full 0 m) c (omega arith)
