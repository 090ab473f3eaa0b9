-- ===== src/Avl/Remove/Shrink.antt =====
-- A deletion of src/common/avl.c keeps the tree balanced.
use olsr.Prelude.{ℕ, zero, suc, ◌+◌, ◌≡◌, refl, max, Bool, true, false, arith}
use olsr.Prelude.Int.{ℤ, pos, negsuc, ◌+ℤ◌, ◌-ℤ◌}
use olsr.Avl.{
  Tree, leaf, node, int_avl_max, int_avl_min, rotate_right, rotate_left, balance_of, eq_ℤ,
}
use olsr.Avl.Balance.{height, Leans, IsBalanced, bit, is_null-leaf}
use olsr.Avl.Remove.{
  post_delete_left, post_delete_right, local_min, delete_min, delete_here, delete_below, take_over,
}

-- What holds of a subtree after a deletion: it is balanced, and it is lower by one where its parent
-- has to be told.
abbrev pub HasShrunk : ℕ → Tree × Bool → Type 0
HasShrunk h (t, told) = IsBalanced t × (height t + bit told ≡ h)

post_delete_left-HasShrunk :
    (h : ℕ) (below : Tree × Bool) (i k : ℕ) (b : ℤ) (r : Tree)
    → HasShrunk h below
    → IsBalanced r
    → Leans b h (height r)
    → HasShrunk (suc (max h (height r))) (post_delete_left below i k b r)
unfolding post_delete_left height eq_ℤ balance_of rotate_right rotate_left int_avl_max int_avl_min
    ◌+ℤ◌ ◌-ℤ◌
post_delete_left-HasShrunk h (c, false) i k b r g v w = ground arith
post_delete_left-HasShrunk h (c, true) i k (pos zero) r g v w = ground arith
post_delete_left-HasShrunk h (c, true) i k (negsuc zero) r g v w = ground arith
post_delete_left-HasShrunk h (c, true) i k (pos (suc (suc n))) r g v w = ground arith
post_delete_left-HasShrunk h (c, true) i k (negsuc (suc n)) r g v w = ground arith
post_delete_left-HasShrunk h (c, true) i k (pos (suc zero)) leaf g v w = ground arith
post_delete_left-HasShrunk h (c, true) i k (pos (suc zero)) (node l x y (pos zero) r) g v w =
    ground arith
post_delete_left-HasShrunk h (c, true) i k (pos (suc zero)) (node l x y (pos (suc zero)) r) g v w =
    ground arith
post_delete_left-HasShrunk h (c, true) i k (pos (suc zero)) (node l x y (pos (suc (suc n))) r) g v
      w =
    ground arith
post_delete_left-HasShrunk h (c, true) i k (pos (suc zero)) (node l x y (negsuc (suc n)) r) g v w =
    ground arith
post_delete_left-HasShrunk h (c, true) i k (pos (suc zero)) (node leaf x y (negsuc zero) r) g v w =
    ground arith
post_delete_left-HasShrunk h (c, true) i k (pos (suc zero))
      (node (node p u t (pos zero) q) x y (negsuc zero) r) g v w =
    ground arith
post_delete_left-HasShrunk h (c, true) i k (pos (suc zero))
      (node (node p u t (pos (suc zero)) q) x y (negsuc zero) r) g v w =
    ground arith
post_delete_left-HasShrunk h (c, true) i k (pos (suc zero))
      (node (node p u t (negsuc zero) q) x y (negsuc zero) r) g v w =
    ground arith
post_delete_left-HasShrunk h (c, true) i k (pos (suc zero))
      (node (node p u t (pos (suc (suc n))) q) x y (negsuc zero) r) g v w =
    ground arith
post_delete_left-HasShrunk h (c, true) i k (pos (suc zero))
      (node (node p u t (negsuc (suc n)) q) x y (negsuc zero) r) g v w =
    ground arith

post_delete_right-HasShrunk :
    (h : ℕ) (l : Tree) (i k : ℕ) (b : ℤ) (below : Tree × Bool)
    → HasShrunk h below
    → IsBalanced l
    → Leans b (height l) h
    → HasShrunk (suc (max (height l) h)) (post_delete_right l i k b below)
unfolding post_delete_right height eq_ℤ balance_of rotate_right rotate_left int_avl_max int_avl_min
    ◌+ℤ◌ ◌-ℤ◌
post_delete_right-HasShrunk h l i k b (c, false) g v w = ground arith
post_delete_right-HasShrunk h l i k (pos zero) (c, true) g v w = ground arith
post_delete_right-HasShrunk h l i k (pos (suc zero)) (c, true) g v w = ground arith
post_delete_right-HasShrunk h l i k (pos (suc (suc n))) (c, true) g v w = ground arith
post_delete_right-HasShrunk h l i k (negsuc (suc n)) (c, true) g v w = ground arith
post_delete_right-HasShrunk h leaf i k (negsuc zero) (c, true) g v w = ground arith
post_delete_right-HasShrunk h (node l x y (pos zero) r) i k (negsuc zero) (c, true) g v w =
    ground arith
post_delete_right-HasShrunk h (node l x y (negsuc zero) r) i k (negsuc zero) (c, true) g v w =
    ground arith
post_delete_right-HasShrunk h (node l x y (pos (suc (suc n))) r) i k (negsuc zero) (c, true) g v w =
    ground arith
post_delete_right-HasShrunk h (node l x y (negsuc (suc n)) r) i k (negsuc zero) (c, true) g v w =
    ground arith
post_delete_right-HasShrunk h (node l x y (pos (suc zero)) leaf) i k (negsuc zero) (c, true) g v w =
    ground arith
post_delete_right-HasShrunk h (node l x y (pos (suc zero)) (node p u t (pos zero) q)) i k
      (negsuc zero) (c, true) g v w =
    ground arith
post_delete_right-HasShrunk h (node l x y (pos (suc zero)) (node p u t (pos (suc zero)) q)) i k
      (negsuc zero) (c, true) g v w =
    ground arith
post_delete_right-HasShrunk h (node l x y (pos (suc zero)) (node p u t (negsuc zero) q)) i k
      (negsuc zero) (c, true) g v w =
    ground arith
post_delete_right-HasShrunk h (node l x y (pos (suc zero)) (node p u t (pos (suc (suc n))) q)) i k
      (negsuc zero) (c, true) g v w =
    ground arith
post_delete_right-HasShrunk h (node l x y (pos (suc zero)) (node p u t (negsuc (suc n)) q)) i k
      (negsuc zero) (c, true) g v w =
    ground arith

delete_min-HasShrunk : (t : Tree) → IsBalanced t → HasShrunk (height t) (delete_min t)
unfolding delete_min height
delete_min-HasShrunk leaf v = ground arith
delete_min-HasShrunk (node l i k b r) v = ground (
  arith,
  is_null-leaf l,
  delete_min-HasShrunk l v.0,
  post_delete_left-HasShrunk (height l) (delete_min l) i k b r,
)

delete_here-HasShrunk :
    (l : Tree) (i k : ℕ) (b : ℤ) (r : Tree)
    → IsBalanced (node l i k b r)
    → HasShrunk (height (node l i k b r)) (delete_here l b r)
unfolding delete_here height
delete_here-HasShrunk l i k b r v = ground (
  arith,
  is_null-leaf l,
  is_null-leaf r,
  delete_min-HasShrunk r v.1,
  post_delete_right-HasShrunk (height r) l (local_min r).0 (local_min r).1 b (delete_min r),
)

pub delete_below-HasShrunk :
    (t : Tree) (q : ℕ) → IsBalanced t → HasShrunk (height t) (delete_below t q)
unfolding delete_below height
delete_below-HasShrunk leaf q v = ground arith
delete_below-HasShrunk (node l i k b r) q v = ground (
  arith,
  delete_below-HasShrunk l q v.0,
  delete_below-HasShrunk r q v.1,
  delete_here-HasShrunk l i k b r v,
  post_delete_left-HasShrunk (height l) (delete_below l q) i k b r,
  post_delete_right-HasShrunk (height r) l i k b (delete_below r q),
)

pub take_over-IsBalanced :
    (next q : ℕ) (t : Tree)
    → IsBalanced t
    → IsBalanced (take_over next q t) × (height (take_over next q t) ≡ height t)
unfolding take_over height
take_over-IsBalanced next q leaf v = (tt, refl)
take_over-IsBalanced next q (node l i k b r) v =
    ground (arith, take_over-IsBalanced next q l v.0, take_over-IsBalanced next q r v.1)
