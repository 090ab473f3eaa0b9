-- ===== src/Avl/Remove.antt =====
-- `avl_remove` of src/common/avl.c with its helpers.
mod Shrink
mod Sequence
mod Unlink
mod Rest
pub mod Refine
use Prim.Native.Nat.{compare, Ordering}
use Prim.Native.Nat.Ordering.{lt, eq, gt}
use olsr.Prelude.{
  ℕ, ◌+◌, ◌-◌, Bool, true, false, not, ◌&&◌, ◌==◌, if◌then◌else◌, List, [], ◌∷◌, Option, none, some,
}
use olsr.Prelude.Int.{ℤ, pos, negsuc, ◌+ℤ◌, ◌-ℤ◌}
use olsr.Avl.{
  Element, Tree, leaf, node, AvlTree, element, is_null, eq_ℤ, balance_of, rotate_left, rotate_right,
  behind,
}

-- `int_avl_post_delete` for a left child, on the parent, and the same steps of
-- `int_avl_delete_worker` below a left leaf: the subtree and whether they go on with its parent.
unfoldable pub post_delete_left : Tree × Bool → ℕ → ℕ → ℤ → Tree → Tree × Bool
post_delete_left (child, false) i k b r = (node child i k b r, false)
post_delete_left (child, true) i k b r =
    let balance = b +ℤ pos 1 in
    if eq_ℤ balance (pos 0)
    then (node child i k balance r, true)
    else if eq_ℤ balance (pos 1)
    then (node child i k balance r, false)
    else if eq_ℤ (balance_of r) (pos 0)
    then (rotate_left (node child i k balance r), false)
    else if eq_ℤ (balance_of r) (pos 1)
    then (rotate_left (node child i k balance r), true)
    else (rotate_left (node child i k balance (rotate_right r)), true)

unfoldable pub post_delete_right : Tree → ℕ → ℕ → ℤ → Tree × Bool → Tree × Bool
post_delete_right l i k b (child, false) = (node l i k b child, false)
post_delete_right l i k b (child, true) =
    let balance = b -ℤ pos 1 in
    if eq_ℤ balance (pos 0)
    then (node l i k balance child, true)
    else if eq_ℤ balance (negsuc 0)
    then (node l i k balance child, false)
    else if eq_ℤ (balance_of l) (pos 0)
    then (rotate_right (node l i k balance child), false)
    else if eq_ℤ (balance_of l) (negsuc 0)
    then (rotate_right (node l i k balance child), true)
    else (rotate_right (node (rotate_left l) i k balance child), true)

-- The address and the key of the left-most node, which the last case never is.
unfoldable pub local_min : Tree → ℕ × ℕ
local_min leaf = (0, 0)
local_min (node l i k b r) = let below = local_min l in if is_null l then (i, k) else below

-- `int_avl_delete_worker` on the left-most node, whose right child takes its place.
unfoldable pub delete_min : Tree → Tree × Bool
delete_min leaf = (leaf, false)
delete_min (node l i k b r) =
    let below = delete_min l in if is_null l then (r, true) else post_delete_left below i k b r

-- `int_avl_delete_worker` on a node: a child takes its place, or the left-most node on its right.
-- The code puts that node in after the subtrees are balanced again, which looks at no key.
unfoldable pub delete_here : Tree → ℤ → Tree → Tree × Bool
delete_here l b r =
    let (i, k) = local_min r in
    if is_null l
    then (r, true)
    else if is_null r
    then (l, true)
    else post_delete_right l i k b (delete_min r)

-- The tree below a node after the node with the key is deleted, up the parents of that node.
unfoldable pub delete_below : Tree → ℕ → Tree × Bool
delete_below leaf q = (leaf, false)
delete_below (node l i k b r) q = elim (compare q k) [
  | lt ↦ post_delete_left (delete_below l q) i k b r
  | eq ↦ delete_here l b r
  | gt ↦ post_delete_right l i k b (delete_below r q)
]

-- The element `next` takes the node of its key over.
unfoldable pub take_over : ℕ → ℕ → Tree → Tree
take_over next q leaf = leaf
take_over next q (node l i k b r) = elim (compare q k) [
  | lt ↦ node (take_over next q l) i k b r
  | eq ↦ node l next k b r
  | gt ↦ node l i k b (take_over next q r)
]

unfoldable pub list_remove : ℕ → List Element → List Element
list_remove id [] = []
list_remove id (x ∷ xs) = if x.id == id then xs else x ∷ list_remove id xs

unfoldable pub set_leader : ℕ → List Element → List Element
set_leader id [] = []
set_leader id (x ∷ xs) = if x.id == id then element x.id x.key true ∷ xs else x ∷ set_leader id xs

-- The next element of the list, where it hangs on the same leader.
unfoldable pub next_dup : List Element → Option ℕ
next_dup [] = none
next_dup (next ∷ rest) = if next.leader then none else some next.id

unfoldable pub avl_remove : AvlTree → Element → AvlTree
avl_remove tree e =
    let next = if tree.allow_dups then next_dup (behind e.id tree.list) else none in
    let (root, list) =
      if e.leader
      then (elim next [
        | some dup ↦ (take_over dup e.key tree.root, set_leader dup tree.list)
        | none ↦ ((delete_below tree.root e.key).0, tree.list)
      ])
      else (tree.root, tree.list) in
    record tree { root = root; list = list_remove e.id list; count = tree.count - 1 }
