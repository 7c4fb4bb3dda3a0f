-- ===== src/AvlTree/Faults.antt =====
-- When the operations read through NULL. The balance factor is narrowed to `unsigned char`, so a
-- left subtree of height 254 beside an empty right one looks like a tree that leans to the right,
-- and the code reads the missing right child.
use eltex_summer.Base.{
  ℕ, ◌≤◌, ◌<◌, ◌≡◌, refl, true, false, Ordering, Option, some, arith, inl, inr, Bool-cases,
}
use eltex_summer.AvlTree.{
  AvlTree, null, node, height, make_balance, remove_min, leftmost, insert_node, replace_node,
  delete_node,
}
use eltex_summer.AvlTree.Shape.{
  count, size, IsMeasured, height-le-size, fixed, leans_right, make_balance-null, make_balance-node,
}
use eltex_summer.AvlTree.Steps.{Ordering-cases}
use eltex_summer.AvlTree.Contents.{
  size-insert_node, insert_node-IsMeasured, count-remove_min, remove_min-IsMeasured,
  count-delete_node, delete_node-IsMeasured,
}

module _ {V : Type 0} where
  Runs : Option (AvlTree V) → Type 0
  Runs o = (t : AvlTree V) × (o ≡ some t)

  count-true : (t : AvlTree V) → count (λ _. true) t ≡ size t
  count-true null = refl
  count-true (node v h l r) = omega (arith, count-true l, count-true r)

  make_balance_total :
      (v : V) (h : ℕ) (l r : AvlTree V)
      → height l < 254
      → (t : AvlTree V) × (make_balance (node v h l r) ≡ some t)
  make_balance_total v h l null b =
      let e : leans_right l null ≡ false = ground arith in
      (fixed v l null, rw (make_balance-null, e))
  make_balance_total v h l (node rv rh rl rr) b =
      elim (Bool-cases (leans_right l (node rv rh rl rr))) [
        | inl e ↦ (fixed rv (fixed v l rl) rr, rw (make_balance-node, e))
        | inr e ↦ (fixed v l (node rv rh rl rr), rw (make_balance-node, e))
      ]

module _ {V : Type 0} (cmp : V → V → Ordering) where
  -- On a tree of fewer than 254 nodes whose stored heights are right, `insert_node` returns a tree,
  -- whatever the comparator says.
  pub insert_node_total :
      (t : AvlTree V) (x : V)
      → IsMeasured t
      → size t < 254
      → (t' : AvlTree V) × (insert_node cmp t x ≡ some t')
  unfolding insert_node
  insert_node_total null x m s = (node x 1 null null, refl)
  insert_node_total (node v h l r) x m s =
      let (l', el) = insert_node_total l x m.1 (omega arith) in
      let (r', er) = insert_node_total r x m.2 (omega arith) in
      let ml = insert_node-IsMeasured cmp l x el m.1 in
      let (tl, bl) =
        make_balance_total v h l' r
          (omega (arith, height-le-size l' ml, size-insert_node cmp l x el)) in
      let (tr, br) = make_balance_total v h l r' (omega (arith, height-le-size l m.1)) in
      elim (Ordering-cases (cmp x v)) [
        | inl c ↦ (tr, rw (c, insert_node, er) br)
        | inr (inl c) ↦ (tr, rw (c, insert_node, er) br)
        | inr (inr c) ↦ (tl, rw (c, insert_node, el) bl)
      ]

module _ {V : Type 0} where
  remove_min_total :
      (v : V) (h : ℕ) (l r : AvlTree V)
      → IsMeasured (node v h l r)
      → size (node v h l r) < 255
      → (t : AvlTree V) × (remove_min (node v h l r) ≡ some t)
  unfolding remove_min
  remove_min_total v h null r m s = (r, refl)
  remove_min_total v h (node lv lh ll lr) r m s =
      let (l', e) = remove_min_total lv lh ll lr m.1 (omega arith) in
      let ml = remove_min-IsMeasured lv lh ll lr e m.1 in
      let (t, b) = make_balance_total v h l' r (
        omega (
          arith,
          height-le-size l' ml,
          count-true l',
          count-true (node lv lh ll lr),
          count-remove_min (λ _. true) lv lh ll lr e,
        )) in
      (t, rw e b)

  replace_node_total :
      (l r : AvlTree V)
      → IsMeasured l
      → IsMeasured r
      → size l < 254
      → size r < 255
      → (t : AvlTree V) × (replace_node l r ≡ some t)
  unfolding replace_node
  replace_node_total l null ml mr sl sr = (l, refl)
  replace_node_total l (node rv rh rl rr) ml mr sl sr =
      let (rest, e) = remove_min_total rv rh rl rr mr sr in
      let (t, b) =
        make_balance_total (leftmost rv rl) rh l rest (omega (arith, height-le-size l ml)) in
      (t, rw e b)

module _ {V K : Type 0} (cmp : V → K → Ordering) where
  size-delete_node :
      (t : AvlTree V) (k : K) {t' : AvlTree V} → delete_node cmp t k ≡ some t' → size t' ≤ size t
  size-delete_node t k {t'} e =
      omega (arith, count-true t, count-true t', count-delete_node cmp (λ _. true) t k e)

  -- On a tree of fewer than 255 nodes whose stored heights are right, `delete_node` returns a tree,
  -- whatever the comparator says.
  pub delete_node_total :
      (t : AvlTree V) (k : K)
      → IsMeasured t
      → size t < 255
      → (t' : AvlTree V) × (delete_node cmp t k ≡ some t')
  unfolding delete_node
  delete_node_total null k m s = (null, refl)
  delete_node_total (node v h l r) k m s =
      let (l', el) = delete_node_total l k m.1 (omega arith) in
      let (r', er) = delete_node_total r k m.2 (omega arith) in
      let ml = delete_node-IsMeasured cmp l k el m.1 in
      let (tl, bl) =
        make_balance_total v h l' r
          (omega (arith, height-le-size l' ml, size-delete_node l k el)) in
      let (tr, br) = make_balance_total v h l r' (omega (arith, height-le-size l m.1)) in
      let (t, e) = replace_node_total l r m.1 m.2 (omega arith) (omega arith) in
      elim (Ordering-cases (cmp v k)) [
        | inl c ↦ (tl, rw (c, delete_node, el) bl)
        | inr (inl c) ↦ (t, rw (c, delete_node) e)
        | inr (inr c) ↦ (tr, rw (c, delete_node, er) br)
      ]
