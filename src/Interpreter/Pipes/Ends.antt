-- ===== src/Interpreter/Pipes/Ends.antt =====
-- The table with the ends of all pipes, and what is left of it when they are closed.
use eltex_summer.Base.{
  ℕ, zero, suc, ◌≡◌, refl, sym, ap, ◌∙◌, true, false, Option, none, some, List, [], ◌∷◌, ◌++◌,
  arith, length, length-append,
}
use eltex_summer.Interpreter.Pipes.{Stream, Table, take_lowest, make_pipes, close_pipes}
use eltex_summer.Interpreter.Pipes.Stream.{read_end, write_end}
use mathlib.Core.List.{append_assoc, append-nil}

-- Every descriptor is in use, or none is.
abbrev pub Full : Table → Type 0
Full [] = Unit
Full (none ∷ t) = true ≡ false
Full (some s ∷ t) = Full t

abbrev pub Closed : Table → Type 0
Closed [] = Unit
Closed (x ∷ t) = (x ≡ none) × Closed t

-- The ends of `m` pipes, the first of them number `k`, and their descriptors from `a` on.
abbrev pub pipe_ends : ℕ → ℕ → Table
pipe_ends k zero = []
pipe_ends k (suc m) = some (read_end k) ∷ some (write_end k) ∷ pipe_ends (suc k) m

abbrev pub pairs : ℕ → ℕ → List (ℕ × ℕ)
pairs a zero = []
pairs a (suc m) = (a, suc a) ∷ pairs (suc (suc a)) m

pub take_lowest-Full :
    (t u : Table) (s : Stream)
    → Full t
    → take_lowest (t ++ none ∷ u) s ≡ (length t, t ++ some s ∷ u)
unfolding take_lowest
take_lowest-Full [] u s h = refl
take_lowest-Full (none ∷ t) u s h = absurd cc
take_lowest-Full (some x ∷ t) u s h = rw (take_lowest-Full t u s h) refl

pub take_lowest-end :
    (t : Table) (s : Stream) → Full t → take_lowest t s ≡ (length t, t ++ some s ∷ [])
unfolding take_lowest
take_lowest-end [] s h = refl
take_lowest-end (none ∷ t) s h = absurd cc
take_lowest-end (some x ∷ t) s h = rw (take_lowest-end t s h) refl

Full-append : (t u : Table) → Full t → Full u → Full (t ++ u)
Full-append [] u h k = k
Full-append (none ∷ t) u h k = absurd cc
Full-append (some x ∷ t) u h k = Full-append t u h k

pub pipe_ends-Full : (k m : ℕ) → Full (pipe_ends k m)
pipe_ends-Full k zero = tt
pipe_ends-Full k (suc m) = pipe_ends-Full (suc k) m

pub make_pipes-Full :
    (m k : ℕ) (t : Table) → Full t → make_pipes m k t ≡ (pairs (length t) m, t ++ pipe_ends k m)
unfolding make_pipes
make_pipes-Full zero k t h = ap (λ (x : Table). ([], x)) (sym (append-nil t))
make_pipes-Full (suc m) k t h =
    let u = t ++ some (read_end k) ∷ [] in
    let new = some (read_end k) ∷ some (write_end k) ∷ [] in
    let e1 = take_lowest-end t (read_end k) h in
    let e2 = take_lowest-end u (write_end k) (Full-append t (some (read_end k) ∷ []) h tt) in
    let l : length u ≡ suc (length t) = length-append t (some (read_end k) ∷ []) ∙ omega arith in
    let ih = make_pipes-Full m (suc k) (t ++ new) (Full-append t new h tt) in
    let l2 : length (t ++ new) ≡ suc (suc (length t)) = length-append t new ∙ omega arith in
    rw
      (
        e1,
        make_pipes,
        e2,
        l,
        append_assoc t (some (read_end k) ∷ []) (some (write_end k) ∷ []),
        ih,
        l2,
        append_assoc t new (pipe_ends (suc k) m),
      )
      refl

-- Closing leaves what stands in front alone.
pub close_pipes-front :
    (x : Option Stream) (a m : ℕ) (t : Table)
    → close_pipes (pairs (suc a) m) (x ∷ t) ≡ x ∷ close_pipes (pairs a m) t
unfolding close_pipes
close_pipes-front x a zero t = refl
close_pipes-front x a (suc m) t = close_pipes-front x (suc (suc a)) m _

pub close_pipes-Closed :
    (k m : ℕ) (t : Table)
    → Closed t
    → (u : Table) × (close_pipes (pairs 0 m) (pipe_ends k m ++ t) ≡ u) × Closed u
unfolding close_pipes
close_pipes-Closed k zero t h = (t, refl, h)
close_pipes-Closed k (suc m) t h =
    let (u, e, c) = close_pipes-Closed (suc k) m t h in
    (
      none ∷ none ∷ u,
      close_pipes-front none 1 m _ ∙ ap (◌∷◌ none) (close_pipes-front none 0 m _ ∙ ap (◌∷◌ none) e),
      (refl, (refl, c)),
    )
