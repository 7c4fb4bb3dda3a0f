-- ===== src/Heap/Chain.antt =====
-- What a chain of nodes holds: the addresses and values in order, linked both ways.
use eltex_summer.Base.{
  suc, ◌≡◌, ◌≢◌, refl, sym, ap, ◌∙◌, Bool, true, false, Option, none, some, List, [], ◌∷◌, ◌++◌,
  length, arith, ◌==◌, ◌||◌, ◌>>=◌, Bool-cases, inl, inr,
}
use eltex_summer.Heap.{
  Ptr, null, Node, node, Heap, Ends, ends, write, load, set_next, set_prev, free,
}

abbrev pub Cells : Type 0 → Type 0
Cells V = List (Ptr × V)

-- A run that ends, with what it leaves.
pub data Gives {A : Type 0} (P : A → Type 0) : Option A → Type 0 where
  gives : {a : A} → P a → Gives P (some a)

pub Gives-eq : {A : Type 0} {P : A → Type 0} {m : Option A} {a : A} → m ≡ some a → P a → Gives P m
Gives-eq e p = rw e (gives p)

pub mono :
    {A : Type 0} {P Q : A → Type 0} {m : Option A} → Gives P m → ((a : A) → P a → Q a) → Gives Q m
mono (gives p) weaken = gives (weaken _ p)

module _ {A B : Type 0} {P : A → Type 0} {Q : B → Type 0} where
  pub bind :
      {m : Option A} {k : A → Option B}
      → Gives P m
      → ((a : A) → P a → Gives Q (k a))
      → Gives Q (m >>= k)
  bind (gives p) next = next _ p

pub some-ne-none : {A : Type 0} (a : A) → some a ≢ none
some-ne-none a e = cc

false-ne-true : false ≢ true
false-ne-true e = cc

pub or_eq_false : (a b : Bool) → (a || b) ≡ false → (a ≡ false) × (b ≡ false)
or_eq_false true b h = cc
or_eq_false false b h = (refl, h)

module _ {V : Type 0} where
  abbrev pub values : Cells V → List V
  values [] = []
  values ((a, v) ∷ xs) = v ∷ values xs

  abbrev pub final : V → List V → V
  final v [] = v
  final v (w ∷ ws) = final w ws

  abbrev pub has : Ptr → Cells V → Bool
  has a [] = false
  has a ((p, v) ∷ xs) = (a == p) || has a xs

  -- The first address, and the last; or another where there is none.
  abbrev pub first : Ptr → Cells V → Ptr
  first stop [] = stop
  first stop ((a, v) ∷ xs) = a

  abbrev pub last : Ptr → Cells V → Ptr
  last start [] = start
  last start ((a, v) ∷ xs) = last a xs

  abbrev pub Apart : Cells V → Cells V → Type 0
  Apart [] ys = Unit
  Apart ((a, v) ∷ xs) ys = (has a ys ≡ false) × Apart xs ys

  -- Distinct nodes, linked both ways, between two addresses.
  abbrev pub Chain : Heap V → Ptr → Ptr → Cells V → Type 0
  Chain h start stop [] = Unit
  Chain h start stop ((a, v) ∷ xs) =
      ((a == null) ≡ false)
      × (h a ≡ some (node v (first stop xs) start))
      × (has a xs ≡ false)
      × Chain h a stop xs

  -- The queue or list that starts and ends at the pointers.
  pub record IsList (h : Heap V) (e : Ends) (xs : Cells V) : Type 0 where
    pub chain : Chain h null null xs
    pub at_head : e.head ≡ first null xs
    pub at_tail : e.tail ≡ last null xs

  -- The two pointers are those of the chain.
  pub ends_of :
      (h : Heap V) (e : Ends) (xs : Cells V)
      → IsList h e xs
      → e ≡ ends (first null xs) (last null xs)
  ends_of h e xs l = ground (arith, l.at_head, l.at_tail)

  pub has-append : (a : Ptr) (xs ys : Cells V) → has a (xs ++ ys) ≡ (has a xs || has a ys)
  has-append a [] ys = refl
  has-append a ((p, v) ∷ xs) ys = ground (arith, has-append a xs ys)

  pub first-append : (s : Ptr) (xs ys : Cells V) → first s (xs ++ ys) ≡ first (first s ys) xs
  first-append s [] ys = refl
  first-append s ((p, v) ∷ xs) ys = refl

  pub last-append : (s : Ptr) (xs ys : Cells V) → last s (xs ++ ys) ≡ last (last s xs) ys
  last-append s [] ys = refl
  last-append s ((p, v) ∷ xs) ys = last-append p xs ys

  pub values-append : (xs ys : Cells V) → values (xs ++ ys) ≡ values xs ++ values ys
  values-append [] ys = refl
  values-append ((p, v) ∷ xs) ys = ap (◌∷◌ v) (values-append xs ys)

  pub length-values : (xs : Cells V) → length (values xs) ≡ length xs
  length-values [] = refl
  length-values ((p, v) ∷ xs) = ap suc (length-values xs)

  -- Where there is no node there is none of a chain.
  pub has-none :
      (h : Heap V) (n start stop : Ptr) (xs : Cells V)
      → h n ≡ none
      → Chain h start stop xs
      → has n xs ≡ false
  has-none h n start stop [] e c = refl
  has-none h n start stop ((a, v) ∷ xs) e (m, q, o, c) = elim (Bool-cases (n == a)) [
    | inl i ↦ let j : n ≡ a = ground arith in absurd (some-ne-none _ (sym q ∙ ap h (sym j) ∙ e))
    | inr i ↦ rw i (has-none h n a stop xs e c)
  ]

  -- A heap that agrees on the chain's own addresses has the chain.
  pub frame :
      {h g : Heap V} (start stop : Ptr) (xs : Cells V)
      → ((a : Ptr) → has a xs ≡ true → g a ≡ h a)
      → Chain h start stop xs
      → Chain g start stop xs
  frame start stop [] same c = tt
  frame {h = h} {g = g} start stop ((a, v) ∷ xs) same (n, e, o, c) =
      (n, same a (ground arith) ∙ e, o, frame a stop xs (λ b i. same b (ground arith)) c)

  has-eq : (a b : Ptr) (xs : Cells V) → has a xs ≡ false → has b xs ≡ true → (b == a) ≡ false
  has-eq a b xs o i = elim (Bool-cases (b == a)) [
    | inl e ↦
        let q : b ≡ a = ground arith in
        absurd (false-ne-true (sym o ∙ ap (λ (c : Ptr). has c xs) (sym q) ∙ i))
    | inr e ↦ e
  ]

  pub frame-write :
      (h : Heap V) (start stop : Ptr) (xs : Cells V) (a : Ptr) (c : Option (Node V))
      → has a xs ≡ false
      → Chain h start stop xs
      → Chain (write h a c) start stop xs
  unfolding write
  frame-write h start stop xs a c o = frame start stop xs (λ b i. rw (has-eq a b xs o i) refl)

  -- Nothing but the addresses of the chain has changed.
  abbrev pub Outside : Cells V → Heap V → Heap V → Type 0
  Outside xs h g = (a : Ptr) → has a xs ≡ false → g a ≡ h a

  pub Apart-sym : (us ws : Cells V) (b : Ptr) → Apart us ws → has b ws ≡ true → has b us ≡ false
  Apart-sym [] ws b h i = refl
  Apart-sym ((a, v) ∷ us) ws b (o, h) i =
      let ih = Apart-sym us ws b h i in rw (has-eq a b ws o i) ih

  pub frame-Outside :
      (h g : Heap V) (us ws : Cells V) (start stop : Ptr)
      → Apart us ws
      → Outside us h g
      → Chain h start stop ws
      → Chain g start stop ws
  frame-Outside h g us ws start stop d o = frame start stop ws (λ b i. o b (Apart-sym us ws b d i))

  pub frame-Outside_left :
      (h g : Heap V) (us ws : Cells V) (start stop : Ptr)
      → Apart us ws
      → Outside ws h g
      → Chain h start stop us
      → Chain g start stop us
  frame-Outside_left h g [] ws start stop d o c = tt
  frame-Outside_left h g ((a, v) ∷ us) ws start stop (q, d) o (n, e, m, c) =
      (n, o a q ∙ e, m, frame-Outside_left h g us ws a stop d o c)

  -- The chain of two runs is that of each, with the bounds at the seam.
  pub split :
      (h : Heap V) (start stop : Ptr) (us ws : Cells V)
      → Chain h start stop (us ++ ws)
      → Chain h start (first stop ws) us × Chain h (last start us) stop ws × Apart us ws
  split h start stop [] ws c = (tt, c, tt)
  split h start stop ((a, v) ∷ us) ws (n, e, o, c) =
      let (l, r, d) = split h a stop us ws c in
      let m = has-append a us ws in
      let f : h a ≡ some (node v (first (first stop ws) us) start) =
        e ∙ ap (λ (q : Ptr). some (node v q start)) (first-append stop us ws) in
      let (inside, outside) = or_eq_false (has a us) (has a ws) (sym m ∙ o) in
      ((n, f, inside, l), r, (outside, d))

  pub join :
      (h : Heap V) (start stop : Ptr) (us ws : Cells V)
      → Chain h start (first stop ws) us
      → Chain h (last start us) stop ws
      → Apart us ws
      → Chain h start stop (us ++ ws)
  join h start stop [] ws l r d = r
  join h start stop ((a, v) ∷ us) ws (n, e, o, l) r (q, d) = (
    n,
    e ∙ ap (λ (b : Ptr). some (node v b start)) (sym (first-append stop us ws)),
    has-append a us ws ∙ rw (o, q) refl,
    join h a stop us ws l r d,
  )

  module _ (h : Heap V) (p : Ptr) (c : Node V) (n : (p == null) ≡ false) (e : h p ≡ some c) where
    pub load-eq : load h p ≡ some c
    unfolding load
    load-eq = rw n e

    pub set_next-eq : (q : Ptr) → set_next h p q ≡ some (write h p (some (record c { next = q })))
    unfolding set_next
    set_next-eq q = rw load-eq refl

    pub set_prev-eq : (q : Ptr) → set_prev h p q ≡ some (write h p (some (record c { prev = q })))
    unfolding set_prev
    set_prev-eq q = rw load-eq refl

    pub free-eq : free h p ≡ some (write h p none)
    unfolding free
    free-eq = rw load-eq refl

  pub write_self : (h : Heap V) (p : Ptr) (c : Option (Node V)) → write h p c p ≡ c
  unfolding write
  write_self h p c = ground arith

  pub write-ne :
      (h : Heap V) (p a : Ptr) (c : Option (Node V)) → (a == p) ≡ false → write h p c a ≡ h a
  unfolding write
  write-ne h p a c e = rw e refl

  -- `last->next = q` moves the end of a chain, `first->prev = q` its start.
  pub set_next-last :
      (h : Heap V) (start stop q a : Ptr) (v : V) (xs : Cells V)
      → Chain h start stop ((a, v) ∷ xs)
      → Gives
          (λ g. Chain g start q ((a, v) ∷ xs) × Outside ((a, v) ∷ xs) h g)
          (set_next h (last a xs) q)
  set_next-last h start stop q a v [] (n, e, o, c) =
      Gives-eq (set_next-eq h a (node v stop start) n e q)
        ((n, write_self h a _, o, tt), λ b out. write-ne h a b _ (or_eq_false (b == a) false out).0)
  set_next-last h start stop q a v ((b, w) ∷ xs) (n, e, o, c) =
      mono (set_next-last h a stop q b w xs c) (λ g (d, same). (
        (n, same a o ∙ e, o, d),
        λ x out. same x (or_eq_false (x == a) (has x ((b, w) ∷ xs)) out).1,
      ))

  pub set_prev-first :
      (h : Heap V) (start stop q a : Ptr) (v : V) (xs : Cells V)
      → Chain h start stop ((a, v) ∷ xs)
      → Gives (λ g. Chain g q stop ((a, v) ∷ xs) × Outside ((a, v) ∷ xs) h g) (set_prev h a q)
  set_prev-first h start stop q a v xs (n, e, o, c) =
      Gives-eq (set_prev-eq h a (node v (first stop xs) start) n e q) (
        (n, write_self h a _, o, frame-write h a stop xs a _ o c),
        λ b out. write-ne h a b _ (or_eq_false (b == a) (has b xs) out).0,
      )
