-- ===== src/AvlTree.antt =====
-- The search tree of module2/task3/4.3/src/avltree.c. A tree is owned by one pointer, so a function
-- that relinks nodes and returns the new root is a function from trees to trees. `none` is a fault:
-- a read through NULL. malloc is taken to succeed: the code does not test what it returns.
pub mod Shape
pub mod Steps
pub mod Contents
pub mod Order
pub mod Search
pub mod Faults
pub mod Spine
mod Examples
use eltex_summer.Base.{
  ℕ, ◌+◌, ◌-◌, ◌%◌, Ordering, lt, eq, gt, Option, none, some, ltb, if◌then◌else◌, ◌>>=◌,
}
use eltex_summer.Base.Int.{pos, negsuc, ltb_ℤ, eqb_ℤ}

-- `AvlTree *`: NULL, or a node with its four fields.
pub data AvlTree {ℓ} (V : Type ℓ) : Type ℓ where
  null : AvlTree V
  node : V → ℕ → AvlTree V → AvlTree V → AvlTree V

-- An `unsigned char` holds the remainder modulo 256.
abbrev pub u8 : ℕ → ℕ
u8 n = n % 256

-- The height that `fix_height` stores.
unfoldable pub grown : ℕ → ℕ → ℕ
grown leftheight rightheight =
    if ltb leftheight rightheight then u8 (rightheight + 1) else u8 (leftheight + 1)

module _ {ℓ} {V : Type ℓ} where
  unfoldable pub node_constructor : V → AvlTree V
  node_constructor x = node x 1 null null

  abbrev pub height : AvlTree V → ℕ
  height null = 0
  height (node v h l r) = h

  -- The difference of two `unsigned char`s, narrowed to `unsigned char` by the return type.
  unfoldable pub balance_check : AvlTree V → Option ℕ
  balance_check null = none
  balance_check (node v h l r) = some (u8 (height r + 256 - height l))

  unfoldable pub fix_height : AvlTree V → Option (AvlTree V)
  unfolding grown
  fix_height null = none
  fix_height (node v h l r) = some (node v (grown (height l) (height r)) l r)

  unfoldable pub right_rotation : AvlTree V → Option (AvlTree V)
  unfolding fix_height
  right_rotation (node v h (node lv lh ll lr) r) = do
    p ← fix_height (node v h lr r)
    fix_height (node lv lh ll p)
  right_rotation _ = none

  unfoldable pub left_rotation : AvlTree V → Option (AvlTree V)
  unfolding fix_height
  left_rotation (node v h l (node rv rh rl rr)) = do
    p ← fix_height (node v h l rl)
    fix_height (node rv rh p rr)
  left_rotation _ = none

  -- The branch `bFactor == 2` of `make_balance`.
  unfoldable pub lean_right : AvlTree V → Option (AvlTree V)
  unfolding balance_check left_rotation right_rotation
  lean_right null = none
  lean_right (node v h l r) = do
    b ← balance_check r
    r' ← if ltb_ℤ (pos b) (pos 0) then right_rotation r else some r
    left_rotation (node v h l r')

  -- The branch `bFactor == -2`.
  unfoldable pub lean_left : AvlTree V → Option (AvlTree V)
  unfolding balance_check left_rotation right_rotation
  lean_left null = none
  lean_left (node v h l r) = do
    b ← balance_check l
    l' ← if ltb_ℤ (pos 0) (pos b) then left_rotation l else some l
    right_rotation (node v h l' r)

  -- The tests compare `int`s: the `unsigned char` is promoted, and is never negative.
  unfoldable pub make_balance : AvlTree V → Option (AvlTree V)
  unfolding fix_height balance_check lean_right lean_left
  make_balance t = do
    p ← fix_height t
    b ← balance_check p
    if eqb_ℤ (pos b) (pos 2)
        then lean_right p
        else (if eqb_ℤ (pos b) (negsuc 1) then lean_left p else some p)

  unfoldable pub remove_min : AvlTree V → Option (AvlTree V)
  remove_min null = none
  remove_min (node v h null r) = some r
  remove_min (node v h (node lv lh ll lr) r) = do
    l' ← remove_min (node lv lh ll lr)
    make_balance (node v h l' r)

  -- The loop of `delete_node` that walks to the last left child.
  unfoldable pub leftmost : V → AvlTree V → V
  leftmost v null = v
  leftmost v (node lv lh ll lr) = leftmost lv ll

  -- `l != NULL ? l : r`
  abbrev pub or_else : AvlTree V → AvlTree V → AvlTree V
  or_else null r = r
  or_else (node v h ll lr) r = node v h ll lr

  -- The node that replaces the deleted one: `left` alone if there is no right subtree.
  unfoldable pub replace_node : AvlTree V → AvlTree V → Option (AvlTree V)
  unfolding remove_min make_balance leftmost
  replace_node left null = some left
  replace_node left (node rv rh rl rr) = do
    rest ← remove_min (node rv rh rl rr)
    make_balance (node (leftmost rv rl) rh left rest)

-- `compare` is the `int (*)(void *, void *)` argument, read by the sign of what it returns.
module _ {ℓ} {V : Type ℓ} (compare : V → V → Ordering) where
  unfoldable pub insert_node : AvlTree V → V → Option (AvlTree V)
  unfolding node_constructor
  insert_node null x = some (node_constructor x)
  insert_node (node v h l r) x = elim (compare x v) [
    | gt ↦ insert_node l x >>= λ l'. make_balance (node v h l' r)
    | _ ↦ insert_node r x >>= λ r'. make_balance (node v h l r')
  ]

-- In the look-ups the second argument is a key of another type.
module _ {ℓ κ} {V : Type ℓ} {K : Type κ} (compare : V → K → Ordering) where
  unfoldable pub search_node : AvlTree V → K → AvlTree V
  search_node null k = null
  search_node (node v h l r) k = elim (compare v k) [
    | eq ↦ node v h l r
    | lt ↦ search_node l k
    | gt ↦ search_node r k
  ]

  unfoldable pub dfs : AvlTree V → K → AvlTree V
  unfolding search_node
  dfs null k = null
  dfs (node v h l r) k = elim (compare v k) [
    | eq ↦ node v h l r
    | _ ↦ or_else (search_node l k) (search_node r k)
  ]

  unfoldable pub delete_node : AvlTree V → K → Option (AvlTree V)
  unfolding replace_node
  delete_node null k = some null
  delete_node (node v h l r) k = elim (compare v k) [
    | lt ↦ delete_node l k >>= λ l'. make_balance (node v h l' r)
    | gt ↦ delete_node r k >>= λ r'. make_balance (node v h l r')
    | eq ↦ replace_node l r
  ]
