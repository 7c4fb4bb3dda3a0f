-- ===== src/Semaphores/Sharing.antt =====
-- What the producer and the consumers keep, whoever has its turn.
use eltex_summer.Base.{
  ℕ, zero, suc, ◌+◌, ◌*◌, ◌≡◌, refl, ap, Option, none, some, List, [], ◌∷◌, ◌++◌, length, map,
  arith, get_elem?, set, subst,
}
use eltex_summer.DataFile.Processes.{
  Line, Producer, Consumer, waiting, entering, reading, with_line, at_end, finished,
}
use eltex_summer.DataFile.Sharing.{
  AllFit, texts, coming, held, in_write, in_read, owed, last_post, Over,
}
use eltex_summer.Semaphores.{Reader, World}

abbrev pub AllOf : (Reader → Type 0) → List Reader → Type 0
AllOf P [] = Unit
AllOf P (r ∷ rs) = P r × AllOf P rs

abbrev pub sum_by : (Reader → ℕ) → List Reader → ℕ
sum_by f [] = 0
sum_by f (r ∷ rs) = f r + sum_by f rs

pub AllOf-get :
    (P : Reader → Type 0) (rs : List Reader) (i : ℕ) {r : Reader}
    → AllOf P rs
    → get_elem? rs i ≡ some r
    → P r
AllOf-get P [] i h e = absurd cc
AllOf-get P (x ∷ rs) zero h e = subst P (cc) (h.0)
AllOf-get P (x ∷ rs) (suc i) h e = AllOf-get P rs i (h.1) e

pub AllOf-set :
    (P : Reader → Type 0) (rs : List Reader) (i : ℕ) (r : Reader)
    → AllOf P rs
    → P r
    → AllOf P (set rs i r)
AllOf-set P [] i r h k = tt
AllOf-set P (x ∷ rs) zero r h k = (k, h.1)
AllOf-set P (x ∷ rs) (suc i) r h k = (h.0, AllOf-set P rs i r (h.1) k)

pub AllOf-map :
    (P Q : Reader → Type 0) (f : Reader → Reader) (rs : List Reader)
    → ((r : Reader) → P r → Q (f r))
    → AllOf P rs
    → AllOf Q (map f rs)
AllOf-map P Q f [] g h = tt
AllOf-map P Q f (r ∷ rs) g h = (g r (h.0), AllOf-map P Q f rs g (h.1))

pub AllOf-weaken :
    (P Q : Reader → Type 0) (rs : List Reader)
    → ((r : Reader) → P r → Q r)
    → AllOf P rs
    → AllOf Q rs
AllOf-weaken P Q [] g h = tt
AllOf-weaken P Q (r ∷ rs) g h = (g r (h.0), AllOf-weaken P Q rs g (h.1))

pub sum_by-set :
    (f : Reader → ℕ) (rs : List Reader) (i : ℕ) (r x : Reader)
    → get_elem? rs i ≡ some r
    → sum_by f (set rs i x) + f r ≡ sum_by f rs + f x
sum_by-set f [] i r x e = absurd cc
sum_by-set f (y ∷ rs) zero r x e = let q : y ≡ r = cc in omega (arith, ap f q)
sum_by-set f (y ∷ rs) (suc i) r x e = omega (arith, sum_by-set f rs i r x e)

pub sum_by-map :
    (f : Reader → ℕ) (g : Reader → Reader) (rs : List Reader)
    → ((r : Reader) → f (g r) ≡ f r)
    → sum_by f (map g rs) ≡ sum_by f rs
sum_by-map f g [] h = refl
sum_by-map f g (r ∷ rs) h = omega (arith, h r, sum_by-map f g rs h)

-- 1 between the semaphore's lock and its unlock; the units of `empty` that a consumer has taken.
abbrev pub is_inside : Reader → ℕ
is_inside r = in_read r.state

abbrev pub drawn : Consumer → ℕ
drawn waiting = 0
drawn entering = 1
drawn reading = 1
drawn (with_line l) = 1
drawn at_end = 1
drawn finished = 1

abbrev pub used : Reader → ℕ
used r = length (r.processed) + drawn r.state

-- The file from a consumer's position on holds the lines `between`; with one consumer, it has met the
-- end only where nothing is to come.
abbrev pub Follows : List Line → Producer → ℕ → Reader → Type 0
Follows lines p n r =
    (between : List Line) × (r.unread ≡ texts between)
    × (r.processed ++ (held r.state ++ (between ++ coming p)) ≡ lines)
    × AllFit between
    × (n ≡ 1 → Over r.state p between)

pub record Kept (lines : List Line) (mutex empty : ℕ) (p : Producer) (rs : List Reader)
    : Type 0 where
  pub one_inside : mutex + in_write p + sum_by is_inside rs ≡ 1
  pub units :
      empty + sum_by used rs + length rs * (length (coming p) + owed p)
      ≡ length rs * (length lines + last_post p)
  pub each : AllOf (Follows lines p (length rs)) rs
  pub fits_coming : AllFit (coming p)

abbrev pub KeptAfter : List Line → Option World → Type 0
KeptAfter lines none = Unit
KeptAfter lines (some t) = Kept lines t.mutex t.empty t.producer t.readers
