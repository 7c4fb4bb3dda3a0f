-- ===== src/AvlTree/Order.antt =====
-- The search order: values with greater keys stand to the left, equal keys on either side (a
-- rotation can move an equal key over). The comparators are those that compare a number in the
-- value, as `contact_compare_by_id` and `contact_compare_with_id` do.
use eltex_summer.Base.{ℕ, ◌≤◌, ◌≡◌, Ordering, compare, some, arith}
use mathlib.Core.Path.{subst}
use mathlib.Core.Option.{some-injective}
use eltex_summer.AvlTree.{
  AvlTree, null, node, make_balance, remove_min, leftmost, insert_node, replace_node,
}
use eltex_summer.AvlTree.Shape.{make_balance_ind}
use eltex_summer.AvlTree.Steps.{Inserted, insert_node-Inserted, remove_min-left, replace_node-right}

module _ {V : Type 0} where
  abbrev pub All : (V → Type 0) → AvlTree V → Type 0
  All P null = Unit
  All P (node v h l r) = P v × All P l × All P r

  pub All-imp : {P Q : V → Type 0} → ((x : V) → P x → Q x) → (t : AvlTree V) → All P t → All Q t
  All-imp f null a = tt
  All-imp f (node v h l r) (pv, pl, pr) = (f v pv, All-imp f l pl, All-imp f r pr)

  pub All-make_balance :
      (P : V → Type 0) (v : V) (h : ℕ) (l r : AvlTree V) {t : AvlTree V}
      → make_balance (node v h l r) ≡ some t
      → P v
      → All P l
      → All P r
      → All P t
  All-make_balance P v h l r e pv pl pr =
      make_balance_ind (All P) v h l r e (pv, pl, pr)
        λ rv rh rl rr q. let a = subst (All P) q pr in (a.0, (pv, pl, a.1), a.2)

  pub All-remove_min :
      (P : V → Type 0) (v : V) (h : ℕ) (l r : AvlTree V) {t : AvlTree V}
      → remove_min (node v h l r) ≡ some t
      → All P (node v h l r)
      → P (leftmost v l) × All P t
  unfolding remove_min leftmost
  All-remove_min P v h null r e a = (a.0, subst (All P) (some-injective _ _ e) a.2)
  All-remove_min P v h (node lv lh ll lr) r e a =
      let (l', q, b) = remove_min-left v h lv lh ll lr r e in
      let (least, rest) = All-remove_min P lv lh ll lr q a.1 in
      (least, All-make_balance P v h l' r b a.0 rest a.2)

  pub All-replace_node :
      (P : V → Type 0) (l r : AvlTree V) {t : AvlTree V}
      → replace_node l r ≡ some t
      → All P l
      → All P r
      → All P t
  unfolding replace_node
  All-replace_node P l null e pl pr = subst (All P) (some-injective _ _ e) pl
  All-replace_node P l (node rv rh rl rr) e pl pr =
      let (rest, q, b) = replace_node-right l rv rh rl rr e in
      let (least, a) = All-remove_min P rv rh rl rr q pr in
      All-make_balance P (leftmost rv rl) rh l rest b least pl a

module _ {V : Type 0} (key : V → ℕ) where
  abbrev pub AtLeast : ℕ → AvlTree V → Type 0
  AtLeast k t = All (λ x. k ≤ key x) t

  abbrev pub AtMost : ℕ → AvlTree V → Type 0
  AtMost k t = All (λ x. key x ≤ k) t

  abbrev pub IsOrdered : AvlTree V → Type 0
  IsOrdered null = Unit
  IsOrdered (node v h l r) = AtLeast (key v) l × AtMost (key v) r × IsOrdered l × IsOrdered r

  pub IsOrdered-make_balance :
      (v : V) (h : ℕ) (l r : AvlTree V) {t : AvlTree V}
      → make_balance (node v h l r) ≡ some t
      → IsOrdered (node v h l r)
      → IsOrdered t
  IsOrdered-make_balance v h l r e o = make_balance_ind IsOrdered v h l r e o λ rv rh rl rr q.
      let (above, below, ol, orr) = subst IsOrdered q o.3 in
      let bound = subst (AtMost (key v)) q o.1 in
      ((bound.0, All-imp (λ x p. omega arith) l o.0, above), below, (o.0, bound.1, o.2, ol), orr)

  pub remove_min-IsOrdered :
      (v : V) (h : ℕ) (l r : AvlTree V) {t : AvlTree V}
      → remove_min (node v h l r) ≡ some t
      → IsOrdered (node v h l r)
      → AtMost (key (leftmost v l)) t × IsOrdered t
  unfolding remove_min leftmost
  remove_min-IsOrdered v h null r e o =
      let q = some-injective _ _ e in (subst (AtMost (key v)) q o.1, subst IsOrdered q o.3)
  remove_min-IsOrdered v h (node lv lh ll lr) r e o =
      let (l', q, b) = remove_min-left v h lv lh ll lr r e in
      let (below, ol) = remove_min-IsOrdered lv lh ll lr q o.2 in
      let (least, above) = All-remove_min (λ x. key v ≤ key x) lv lh ll lr q o.0 in
      (
        All-make_balance (λ x. key x ≤ key (leftmost lv ll)) v h l' r b least below
            (All-imp (λ x p. omega arith) r o.1),
        IsOrdered-make_balance v h l' r b (above, o.1, ol, o.3),
      )

  pub replace_node-IsOrdered :
      (v : V) (l r : AvlTree V) {t : AvlTree V}
      → replace_node l r ≡ some t
      → IsOrdered (node v 0 l r)
      → IsOrdered t
  unfolding replace_node
  replace_node-IsOrdered v l null e o = subst IsOrdered (some-injective _ _ e) o.2
  replace_node-IsOrdered v l (node rv rh rl rr) e o =
      let (rest, q, b) = replace_node-right l rv rh rl rr e in
      let (below, ordered) = remove_min-IsOrdered rv rh rl rr q o.3 in
      let (least, _) = All-remove_min (λ x. key x ≤ key v) rv rh rl rr q o.1 in
      IsOrdered-make_balance (leftmost rv rl) rh l rest b
        (All-imp (λ x p. omega arith) l o.0, below, o.2, ordered)

  module _ (cmp : V → V → Ordering) (by_key : (x y : V) → cmp x y ≡ compare (key x) (key y)) where
    pub All-insert_node :
        (P : V → Type 0) (t : AvlTree V) (x : V) {t' : AvlTree V}
        → insert_node cmp t x ≡ some t'
        → P x
        → All P t
        → All P t'
    unfolding insert_node
    All-insert_node P null x e px a = subst (All P) (some-injective _ _ e) (px, tt, tt)
    All-insert_node P (node v h l r) x e px a = elim (insert_node-Inserted cmp v h l r x e) [
      | Inserted.left l' c q b ↦
          All-make_balance P v h l' r b a.0 (All-insert_node P l x q px a.1) a.2
      | Inserted.right r' c q b ↦
          All-make_balance P v h l r' b a.0 a.1 (All-insert_node P r x q px a.2)
    ]

    -- `insert_node` keeps the search order.
    pub insert_node-IsOrdered :
        (t : AvlTree V) (x : V) {t' : AvlTree V}
        → insert_node cmp t x ≡ some t'
        → IsOrdered t
        → IsOrdered t'
    unfolding insert_node
    insert_node-IsOrdered null x e o = subst IsOrdered (some-injective _ _ e) (tt, tt, tt, tt)
    insert_node-IsOrdered (node v h l r) x e o = elim (insert_node-Inserted cmp v h l r x e) [
      | Inserted.left l' c q b ↦ IsOrdered-make_balance v h l' r b (
        All-insert_node (λ y. key v ≤ key y) l x q (ground (arith, by_key x v)) o.0,
        o.1,
        insert_node-IsOrdered l x q o.2,
        o.3,
      )
      | Inserted.right r' c q b ↦ IsOrdered-make_balance v h l r' b (
        o.0,
        All-insert_node (λ y. key y ≤ key v) r x q (ground (arith, by_key x v)) o.1,
        o.2,
        insert_node-IsOrdered r x q o.3,
      )
    ]
