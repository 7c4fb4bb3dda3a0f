-- ===== src/AvlTree/Examples.antt =====
-- The theorems about the search tree at small trees of numbers.
use eltex_summer.Base.{
  ℕ, zero, suc, ◌≤◌, ◌+◌, ◌≡◌, refl, compare, none, some, List, [], ◌∷◌, arith, ltb,
}
use eltex_summer.AvlTree.{AvlTree, null, node, grown, make_balance, insert_node, delete_node}
use eltex_summer.AvlTree.Shape.{count, IsMeasured}
use eltex_summer.AvlTree.Contents.{count-insert_node, bit}
use eltex_summer.AvlTree.Order.{IsOrdered, insert_node-IsOrdered}
use eltex_summer.AvlTree.Search.{delete_node-present, delete_node-IsOrdered}
use eltex_summer.AvlTree.Faults.{insert_node_total, delete_node_total}
use eltex_summer.AvlTree.Spine.{spine, IsAbove, insert_node-spine_fault}

abbrev three : AvlTree ℕ
three = node 2 2 (node 5 1 null null) (node 1 1 null null)

abbrev self : ℕ → ℕ
self n = n

-- An insert on the right that rotates: 5, 3 and 1 in descending order.
abbrev pair : AvlTree ℕ
pair = node 5 2 null (node 3 1 null null)

rotated : insert_node compare pair 1 ≡ some (node 3 2 (node 5 1 null null) (node 1 1 null null))
unfolding insert_node make_balance
rotated = refl

count-insert_node_example :
    count (λ n. ltb n 4) (node 3 2 (node 5 1 null null) (node 1 1 null null))
    ≡ count (λ n. ltb n 4) pair + bit (ltb 1 4)
count-insert_node_example = count-insert_node compare (λ n. ltb n 4) pair 1 rotated

insert_node-IsOrdered_example : IsOrdered self (node 3 2 (node 5 1 null null) (node 1 1 null null))
insert_node-IsOrdered_example =
    insert_node-IsOrdered self compare (λ x y. refl) pair 1 rotated (omega arith)

-- The root's successor on the right takes its place.
deleted : delete_node compare three 2 ≡ some (node 1 2 (node 5 1 null null) null)
unfolding delete_node
deleted = refl

delete_node-IsOrdered_example : IsOrdered self (node 1 2 (node 5 1 null null) null)
delete_node-IsOrdered_example =
    delete_node-IsOrdered self compare (λ x y. refl) three 2 deleted (omega arith)

delete_node-present_example : ◌≡◌ {A = ℕ} (0 + 1) 1
delete_node-present_example =
    delete_node-present self compare (λ x y. refl) three 2 2 deleted (omega arith)

three-IsMeasured : IsMeasured three
unfolding grown
three-IsMeasured = (refl, (refl, tt, tt), (refl, tt, tt))

insert_node_total_example : (t : AvlTree ℕ) × (insert_node compare three 9 ≡ some t)
insert_node_total_example = insert_node_total compare three 9 three-IsMeasured (omega arith)

delete_node_total_example : (t : AvlTree ℕ) × (delete_node compare three 5 ≡ some t)
delete_node_total_example = delete_node_total compare three 5 three-IsMeasured (omega arith)

abbrev ascending : ℕ → ℕ → List ℕ
ascending zero k = []
ascending (suc n) k = k ∷ ascending n (k + 1)

IsAbove-ascending : (n k x : ℕ) → k + n ≤ x → IsAbove compare x (ascending n k)
IsAbove-ascending zero k x h = tt
IsAbove-ascending (suc n) k x h = (ground arith, IsAbove-ascending n (k + 1) x (omega arith))

insert_node-spine_fault_example : insert_node compare (spine (ascending 254 0)) 254 ≡ none
insert_node-spine_fault_example =
    insert_node-spine_fault compare (ascending 254 0) 254
      (IsAbove-ascending 254 0 254 (omega arith)) refl
