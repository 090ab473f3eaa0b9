-- ===== src/Avl/Balance.antt =====
-- The balance of a node of src/common/avl.c is the height of its right child less that of its
-- left one, and the two differ by at most 1.
use olsr.Prelude.{ℕ, zero, suc, ◌+◌, ◌≤◌, ◌≡◌, refl, max, Bool, true, false, if◌then◌else◌, arith}
use olsr.Prelude.Int.{ℤ, pos, negsuc, ◌+ℤ◌, ◌-ℤ◌, pos_part, neg_part}
use olsr.Avl.{
  Tree, leaf, node, int_avl_max, int_avl_min, rotate_right, rotate_left, balance_of, is_null, eq_ℤ,
  post_insert_left, post_insert_right, new_node, attach, insert_below,
}

unfoldable pub height : Tree → ℕ
height leaf = 0
height (node l i k b r) = suc (max (height l) (height r))

abbrev pub Leans : ℤ → ℕ → ℕ → Type 0
Leans b hl hr = (pos_part b ≤ 1) × (neg_part b ≤ 1) × (hl + pos_part b ≡ hr + neg_part b)

abbrev pub IsBalanced : Tree → Type 0
IsBalanced leaf = Unit
IsBalanced (node l i k b r) = IsBalanced l × IsBalanced r × Leans b (height l) (height r)

abbrev pub bit : Bool → ℕ
bit b = if b then 1 else 0

-- What holds of a subtree that has grown by an insertion: it is balanced, it is higher by one
-- where its parent has to be told, and it then leans to a side.
abbrev pub HasGrown : ℕ → Tree × Bool → Type 0
HasGrown h (t, told) =
    IsBalanced t
    × (height t ≡ h + bit told)
    × (told ≡ true → 1 ≤ pos_part (balance_of t) + neg_part (balance_of t))

attach-HasGrown :
    (n q : ℕ) (less : Bool) (l : Tree) (i k : ℕ) (b : ℤ) (r : Tree)
    → IsBalanced (node l i k b r)
    → (less ≡ true → l ≡ leaf)
    → (less ≡ false → r ≡ leaf)
    → HasGrown (height (node l i k b r)) (attach (new_node n q) less l i k b r)
unfolding attach new_node height eq_ℤ balance_of
attach-HasGrown n q less l i k b r v hl hr = ground arith

post_insert_left-HasGrown :
    (h : ℕ) (below : Tree × Bool) (i k : ℕ) (b : ℤ) (r : Tree)
    → HasGrown h below
    → IsBalanced r
    → Leans b h (height r)
    → HasGrown (suc (max h (height r))) (post_insert_left below i k b r)
unfolding post_insert_left height eq_ℤ balance_of rotate_right rotate_left int_avl_max int_avl_min
    ◌+ℤ◌ ◌-ℤ◌
post_insert_left-HasGrown h (child, false) i k b r g v w = ground arith
post_insert_left-HasGrown h (leaf, true) i k b r g v w = ground arith
post_insert_left-HasGrown h (node ll li lk lb lr, true) i k (pos zero) r g v w = ground arith
post_insert_left-HasGrown h (node ll li lk lb lr, true) i k (pos (suc zero)) r g v w = ground arith
post_insert_left-HasGrown h (node ll li lk lb lr, true) i k (pos (suc (suc n))) r g v w =
    ground arith
post_insert_left-HasGrown h (node ll li lk lb lr, true) i k (negsuc (suc n)) r g v w = ground arith
post_insert_left-HasGrown h (node ll li lk (negsuc zero) lr, true) i k (negsuc zero) r g v w =
    ground arith
post_insert_left-HasGrown h (node ll li lk (pos zero) lr, true) i k (negsuc zero) r g v w =
    ground arith
post_insert_left-HasGrown h (node ll li lk (pos (suc (suc n))) lr, true) i k (negsuc zero) r g v w =
    ground arith
post_insert_left-HasGrown h (node ll li lk (negsuc (suc n)) lr, true) i k (negsuc zero) r g v w =
    ground arith
post_insert_left-HasGrown h (node ll li lk (pos (suc zero)) leaf, true) i k (negsuc zero) r g v w =
    ground arith
post_insert_left-HasGrown h (node ll li lk (pos (suc zero)) (node a x y (pos zero) c), true) i k
      (negsuc zero) r g v w =
    ground arith
post_insert_left-HasGrown h (node ll li lk (pos (suc zero)) (node a x y (pos (suc zero)) c), true) i
      k (negsuc zero) r g v w =
    ground arith
post_insert_left-HasGrown h (node ll li lk (pos (suc zero)) (node a x y (negsuc zero) c), true) i k
      (negsuc zero) r g v w =
    ground arith
post_insert_left-HasGrown h
      (node ll li lk (pos (suc zero)) (node a x y (pos (suc (suc n))) c), true) i k (negsuc zero) r
      g v w =
    ground arith
post_insert_left-HasGrown h (node ll li lk (pos (suc zero)) (node a x y (negsuc (suc n)) c), true) i
      k (negsuc zero) r g v w =
    ground arith

post_insert_right-HasGrown :
    (h : ℕ) (l : Tree) (i k : ℕ) (b : ℤ) (below : Tree × Bool)
    → HasGrown h below
    → IsBalanced l
    → Leans b (height l) h
    → HasGrown (suc (max (height l) h)) (post_insert_right l i k b below)
unfolding post_insert_right height eq_ℤ balance_of rotate_right rotate_left int_avl_max int_avl_min
    ◌+ℤ◌ ◌-ℤ◌
post_insert_right-HasGrown h l i k b (child, false) g v w = ground arith
post_insert_right-HasGrown h l i k b (leaf, true) g v w = ground arith
post_insert_right-HasGrown h l i k (pos zero) (node rl ri rk rb rr, true) g v w = ground arith
post_insert_right-HasGrown h l i k (negsuc zero) (node rl ri rk rb rr, true) g v w = ground arith
post_insert_right-HasGrown h l i k (pos (suc (suc n))) (node rl ri rk rb rr, true) g v w =
    ground arith
post_insert_right-HasGrown h l i k (negsuc (suc n)) (node rl ri rk rb rr, true) g v w = ground arith
post_insert_right-HasGrown h l i k (pos (suc zero)) (node rl ri rk (pos (suc zero)) rr, true) g v
      w =
    ground arith
post_insert_right-HasGrown h l i k (pos (suc zero)) (node rl ri rk (pos zero) rr, true) g v w =
    ground arith
post_insert_right-HasGrown h l i k (pos (suc zero)) (node rl ri rk (pos (suc (suc n))) rr, true) g v
      w =
    ground arith
post_insert_right-HasGrown h l i k (pos (suc zero)) (node rl ri rk (negsuc (suc n)) rr, true) g v
      w =
    ground arith
post_insert_right-HasGrown h l i k (pos (suc zero)) (node leaf ri rk (negsuc zero) rr, true) g v w =
    ground arith
post_insert_right-HasGrown h l i k (pos (suc zero))
      (node (node a x y (pos zero) c) ri rk (negsuc zero) rr, true) g v w =
    ground arith
post_insert_right-HasGrown h l i k (pos (suc zero))
      (node (node a x y (pos (suc zero)) c) ri rk (negsuc zero) rr, true) g v w =
    ground arith
post_insert_right-HasGrown h l i k (pos (suc zero))
      (node (node a x y (negsuc zero) c) ri rk (negsuc zero) rr, true) g v w =
    ground arith
post_insert_right-HasGrown h l i k (pos (suc zero))
      (node (node a x y (pos (suc (suc n))) c) ri rk (negsuc zero) rr, true) g v w =
    ground arith
post_insert_right-HasGrown h l i k (pos (suc zero))
      (node (node a x y (negsuc (suc n)) c) ri rk (negsuc zero) rr, true) g v w =
    ground arith

pub is_null-leaf : (t : Tree) → is_null t ≡ true → t ≡ leaf
unfolding is_null
is_null-leaf leaf h = refl
is_null-leaf (node l i k b r) h = cc

pub insert_below-HasGrown :
    (t : Tree) (n q : ℕ) → IsBalanced t → HasGrown (height t) (insert_below t n q)
unfolding insert_below height
insert_below-HasGrown leaf n q v = ground arith
insert_below-HasGrown (node l i k b r) n q v = ground (
  arith,
  insert_below-HasGrown l n q v.0,
  insert_below-HasGrown r n q v.1,
  is_null-leaf l,
  is_null-leaf r,
  attach-HasGrown n q true l i k b r v,
  attach-HasGrown n q false l i k b r v,
  post_insert_left-HasGrown (height l) (insert_below l n q) i k b r,
  post_insert_right-HasGrown (height r) l i k b (insert_below r n q),
)
