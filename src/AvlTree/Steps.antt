-- ===== src/AvlTree/Steps.antt =====
-- How a call of `insert_node`, `remove_min` or `delete_node` that does not fault has come to its
-- result: one recursive call and one `make_balance`.
use eltex_summer.Base.{
  ◌>>=◌, ℕ, ◌≡◌, refl, ◌≢◌, ◌⊎◌, inl, inr, Ordering, lt, eq, gt, some, >>=-eq-some,
}
use eltex_summer.AvlTree.{
  AvlTree, node, make_balance, remove_min, leftmost, insert_node, replace_node, delete_node,
}

pub Ordering-cases : (o : Ordering) → (o ≡ lt) ⊎ (o ≡ eq) ⊎ (o ≡ gt)
Ordering-cases lt = inl refl
Ordering-cases eq = inr (inl refl)
Ordering-cases gt = inr (inr refl)

module _ {V : Type 0} (cmp : V → V → Ordering) where
  -- The new value has gone to the left, where it compares greater, or to the right.
  pub data Inserted (v : V) (h : ℕ) (l r : AvlTree V) (x : V) (t : AvlTree V) : Type 0 where
    left :
        (l' : AvlTree V)
        → cmp x v ≡ gt
        → insert_node cmp l x ≡ some l'
        → make_balance (node v h l' r) ≡ some t
        → Inserted v h l r x t
    right :
        (r' : AvlTree V)
        → cmp x v ≢ gt
        → insert_node cmp r x ≡ some r'
        → make_balance (node v h l r') ≡ some t
        → Inserted v h l r x t

  pub insert_node-Inserted :
      (v : V) (h : ℕ) (l r : AvlTree V) (x : V) {t : AvlTree V}
      → insert_node cmp (node v h l r) x ≡ some t
      → Inserted v h l r x t
  unfolding insert_node
  insert_node-Inserted v h l r x e = elim (Ordering-cases (cmp x v)) [
    | inl c ↦
        let (r', a, b) = >>=-eq-some (insert_node cmp r x) _ (rw (c, insert_node) at e) in
        right r' (λ d. cc) a b
    | inr (inl c) ↦
        let (r', a, b) = >>=-eq-some (insert_node cmp r x) _ (rw (c, insert_node) at e) in
        right r' (λ d. cc) a b
    | inr (inr c) ↦
        let (l', a, b) = >>=-eq-some (insert_node cmp l x) _ (rw (c, insert_node) at e) in
        left l' c a b
  ]

module _ {V : Type 0} where
  -- `remove_min` of a node that has a left child.
  pub remove_min-left :
      (v : V) (h : ℕ) (lv : V) (lh : ℕ) (ll lr r : AvlTree V) {t : AvlTree V}
      → remove_min (node v h (node lv lh ll lr) r) ≡ some t
      → (l' : AvlTree V) × (remove_min (node lv lh ll lr) ≡ some l')
        × (make_balance (node v h l' r) ≡ some t)
  unfolding remove_min
  remove_min-left v h lv lh ll lr r e = >>=-eq-some (remove_min (node lv lh ll lr)) _ e

  pub replace_node-right :
      (kept : AvlTree V) (rv : V) (rh : ℕ) (rl rr : AvlTree V) {t : AvlTree V}
      → replace_node kept (node rv rh rl rr) ≡ some t
      → (rest : AvlTree V) × (remove_min (node rv rh rl rr) ≡ some rest)
        × (make_balance (node (leftmost rv rl) rh kept rest) ≡ some t)
  unfolding replace_node
  replace_node-right kept rv rh rl rr e = >>=-eq-some (remove_min (node rv rh rl rr)) _ e

module _ {V K : Type 0} (cmp : V → K → Ordering) where
  pub data Deleted (v : V) (h : ℕ) (l r : AvlTree V) (k : K) (t : AvlTree V) : Type 0 where
    left :
        (l' : AvlTree V)
        → cmp v k ≡ lt
        → delete_node cmp l k ≡ some l'
        → make_balance (node v h l' r) ≡ some t
        → Deleted v h l r k t
    right :
        (r' : AvlTree V)
        → cmp v k ≡ gt
        → delete_node cmp r k ≡ some r'
        → make_balance (node v h l r') ≡ some t
        → Deleted v h l r k t
    here : cmp v k ≡ eq → replace_node l r ≡ some t → Deleted v h l r k t

  pub delete_node-Deleted :
      (v : V) (h : ℕ) (l r : AvlTree V) (k : K) {t : AvlTree V}
      → delete_node cmp (node v h l r) k ≡ some t
      → Deleted v h l r k t
  unfolding delete_node
  delete_node-Deleted v h l r k e = elim (Ordering-cases (cmp v k)) [
    | inl c ↦
        let (l', a, b) = >>=-eq-some (delete_node cmp l k) _ (rw (c, delete_node) at e) in
        left l' c a b
    | inr (inl c) ↦ here c (rw (c, delete_node) at e)
    | inr (inr c) ↦
        let (r', a, b) = >>=-eq-some (delete_node cmp r k) _ (rw (c, delete_node) at e) in
        right r' c a b
  ]

  -- The three branches of `delete_node`, as equations.
  pub delete_node-lt :
      (v : V) (h : ℕ) (l r : AvlTree V) (k : K)
      → cmp v k ≡ lt
      → delete_node cmp (node v h l r) k
        ≡ (delete_node cmp l k >>= λ l'. make_balance (node v h l' r))
  unfolding delete_node
  delete_node-lt v h l r k c = rw (c, delete_node) refl

  pub delete_node-gt :
      (v : V) (h : ℕ) (l r : AvlTree V) (k : K)
      → cmp v k ≡ gt
      → delete_node cmp (node v h l r) k
        ≡ (delete_node cmp r k >>= λ r'. make_balance (node v h l r'))
  unfolding delete_node
  delete_node-gt v h l r k c = rw (c, delete_node) refl

  pub delete_node-eq :
      (v : V) (h : ℕ) (l r : AvlTree V) (k : K)
      → cmp v k ≡ eq
      → delete_node cmp (node v h l r) k ≡ replace_node l r
  unfolding delete_node
  delete_node-eq v h l r k c = rw (c, delete_node) refl
