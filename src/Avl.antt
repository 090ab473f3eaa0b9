-- ===== src/Avl.antt =====
-- The containers of src/common/avl.c: a search tree balanced by height whose elements also hang in a
-- doubly linked list. The tree keeps the first element of each key, its leader; an element with
-- the same key hangs in the list only. An element is known by its address, `id`. A key stands for
-- its rank in the order of the tree's comparator.
pub mod Balance
pub mod Order
pub mod Chain
pub mod Member
pub mod Place
pub mod Valid
pub mod Insert
pub mod Find
pub mod Lookup
pub mod Walk
pub mod Nearest
pub mod Remove
mod Tests
use Prim.Native.Nat.{compare, Ordering}
use Prim.Native.Nat.Ordering.{lt, eq, gt}
use olsr.Prelude.{
  ℕ, suc, ◌+◌, Bool, true, false, not, ◌&&◌, ◌==◌, if◌then◌else◌, List, [], ◌∷◌, Option, none, some,
}
use olsr.Prelude.Int.{ℤ, pos, negsuc, ◌+ℤ◌, ◌-ℤ◌, ltb_ℤ, pos_part, neg_part}

-- `struct avl_node` as the list sees it.
pub record Element : Type 0 where
  pub id : ℕ
  pub key : ℕ
  pub leader : Bool

-- `struct avl_node` as the tree sees it: left child, address, key, balance, right child.
pub data Tree : Type 0 where
  leaf : Tree
  node : Tree → ℕ → ℕ → ℤ → Tree → Tree

-- `struct avl_tree`.
pub record AvlTree : Type 0 where
  pub root : Tree
  pub list : List Element
  pub count : ℕ
  pub allow_dups : Bool

unfoldable pub avl_init : Bool → AvlTree
avl_init allow_dups = record { root = leaf; list = []; count = 0; allow_dups = allow_dups }

-- What `int_avl_find_rec` returns: the node and the last comparison.
pub record Found : Type 0 where
  pub id : ℕ
  pub key : ℕ
  pub balance : ℤ
  pub diff : Ordering

-- The node reached before an empty child is the answer; there is none for an empty tree.
unfoldable pub find_rec : Option Found → Tree → ℕ → Option Found
find_rec found leaf q = found
find_rec found (node l i k b r) q =
    let here = some (record { id = i; key = k; balance = b; diff = compare q k }) in
    elim (compare q k) [ lt ↦ find_rec here l q | eq ↦ here | gt ↦ find_rec here r q ]

-- The element of the key that leads, by its address.
unfoldable pub avl_find : AvlTree → ℕ → Option ℕ
avl_find tree key = elim (find_rec none tree.root key) [
  | none ↦ none
  | some f ↦ elim f.diff [ eq ↦ some f.id | _ ↦ none ]
]

unfoldable pub int_avl_max : ℤ → ℤ → ℤ
int_avl_max x y = if ltb_ℤ y x then x else y

unfoldable pub int_avl_min : ℤ → ℤ → ℤ
int_avl_min x y = if ltb_ℤ x y then x else y

-- The code rotates only where the child is there.
unfoldable pub rotate_right : Tree → Tree
rotate_right (node (node ll li lk lb lr) i k b r) =
    let b' = b +ℤ (pos 1 -ℤ int_avl_min lb (pos 0)) in
    let lb' = lb +ℤ (pos 1 +ℤ int_avl_max b' (pos 0)) in node ll li lk lb' (node lr i k b' r)
rotate_right t = t

unfoldable pub rotate_left : Tree → Tree
rotate_left (node l i k b (node rl ri rk rb rr)) =
    let b' = b -ℤ (pos 1 +ℤ int_avl_max rb (pos 0)) in
    let rb' = rb -ℤ (pos 1 -ℤ int_avl_min b' (pos 0)) in node (node l i k b' rl) ri rk rb' rr
rotate_left t = t

unfoldable pub balance_of : Tree → ℤ
balance_of leaf = pos 0
balance_of (node l i k b r) = b

unfoldable pub is_null : Tree → Bool
is_null leaf = true
is_null (node l i k b r) = false

unfoldable pub eq_ℤ : ℤ → ℤ → Bool
eq_ℤ a b = pos_part a == pos_part b && neg_part a == neg_part b

-- `int_post_insert` for a left child, on the parent: the subtree and whether it goes on with the
-- parent's parent. Nothing is done where it was not called for the child.
unfoldable pub post_insert_left : Tree × Bool → ℕ → ℕ → ℤ → Tree → Tree × Bool
post_insert_left (child, false) i k b r = (node child i k b r, false)
post_insert_left (child, true) i k b r =
    let balance = b -ℤ pos 1 in
    if eq_ℤ balance (pos 0)
    then (node child i k balance r, false)
    else if eq_ℤ balance (negsuc 0)
    then (node child i k balance r, true)
    else if eq_ℤ (balance_of child) (negsuc 0)
    then (rotate_right (node child i k balance r), false)
    else (rotate_right (node (rotate_left child) i k balance r), false)

unfoldable pub post_insert_right : Tree → ℕ → ℕ → ℤ → Tree × Bool → Tree × Bool
post_insert_right l i k b (child, false) = (node l i k b child, false)
post_insert_right l i k b (child, true) =
    let balance = b +ℤ pos 1 in
    if eq_ℤ balance (pos 0)
    then (node l i k balance child, false)
    else if eq_ℤ balance (pos 1)
    then (node l i k balance child, true)
    else if eq_ℤ (balance_of child) (pos 1)
    then (rotate_left (node l i k balance child), false)
    else (rotate_left (node l i k balance (rotate_right child)), false)

unfoldable pub new_node : ℕ → ℕ → Tree
new_node id key = node leaf id key (pos 0) leaf

-- `avl_insert` at the node that was found: the side follows from the balance, or else from the
-- comparison. The Boolean tells whether `int_post_insert` is called.
unfoldable pub attach : Tree → Bool → Tree → ℕ → ℕ → ℤ → Tree → Tree × Bool
attach new less l i k b r =
    if eq_ℤ b (pos 1)
    then (node new i k (pos 0) r, false)
    else if eq_ℤ b (negsuc 0)
    then (node l i k (pos 0) new, false)
    else if less
    then (node new i k (negsuc 0) r, true)
    else (node l i k (pos 1) new, true)

-- The tree below a node after the insertion, along the way that `find_rec` takes.
unfoldable pub insert_below : Tree → ℕ → ℕ → Tree × Bool
insert_below leaf id q = (leaf, false)
insert_below (node l i k b r) id q = elim (compare q k) [
  | lt ↦
      let below = insert_below l id q in
      if is_null l then attach (new_node id q) true l i k b r else post_insert_left below i k b r
  | eq ↦ (node l i k b r, false)
  | gt ↦
      let below = insert_below r id q in
      if is_null r then attach (new_node id q) false l i k b r else post_insert_right l i k b below
]

unfoldable pub insert_before : ℕ → Element → List Element → List Element
insert_before pos_id new [] = []
insert_before pos_id new (x ∷ xs) =
    if x.id == pos_id then new ∷ x ∷ xs else x ∷ insert_before pos_id new xs

unfoldable pub insert_after : ℕ → Element → List Element → List Element
insert_after pos_id new [] = []
insert_after pos_id new (x ∷ xs) =
    if x.id == pos_id then x ∷ new ∷ xs else x ∷ insert_after pos_id new xs

-- What follows an element in the list.
unfoldable pub behind : ℕ → List Element → List Element
behind id [] = []
behind id (x ∷ xs) = if x.id == id then xs else behind id xs

-- The last element that hangs on the same leader: the address of the element before the next
-- leader.
unfoldable pub last_dup : ℕ → List Element → ℕ
last_dup last [] = last
last_dup last (next ∷ rest) = if next.leader then last else last_dup next.id rest

abbrev pub element : ℕ → ℕ → Bool → Element
element id key leader = record { id = id; key = key; leader = leader }

-- The element is linked before the node that was found or behind its last duplicate.
unfoldable pub link_new : Found → ℕ → ℕ → List Element → List Element
link_new f id key list =
    let new = element id key true in
    let last = last_dup f.id (behind f.id list) in
    if eq_ℤ f.balance (pos 1)
    then insert_before f.id new list
    else if eq_ℤ f.balance (negsuc 0)
    then insert_after last new list
    else elim f.diff [ lt ↦ insert_before f.id new list | _ ↦ insert_after last new list ]

-- `none` is the return value -1, a collision of keys; `some` is 0.
unfoldable pub avl_insert : AvlTree → ℕ → ℕ → Option AvlTree
avl_insert tree id key = elim (find_rec none tree.root key) [
  | none ↦
      some
        (record tree { list = element id key true ∷ tree.list; root = new_node id key; count = 1 })
  | some f ↦ elim f.diff [
    | eq ↦
        if not tree.allow_dups
        then none
        else some (record tree {
          list =
              insert_after (last_dup f.id (behind f.id tree.list)) (element id key false) tree.list;
          count = suc tree.count;
        })
    | _ ↦ some (record tree {
      list = link_new f id key tree.list;
      root = (insert_below tree.root id key).0;
      count = suc tree.count;
    })
  ]
]
