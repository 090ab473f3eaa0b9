-- ===== src/Avl/Remove/Sequence.antt =====
-- What a deletion of src/common/avl.c does to the sequence of the nodes.
use olsr.Prelude.{
  ℕ, ◌≤◌, ◌<◌, ◌≡◌, ◌≢◌, refl, ◌∙◌, Bool, true, false, List, [], ◌∷◌, All, ◌==◌, if◌then◌else◌,
  arith,
}
use olsr.Prelude.Int.{ℤ, pos, ◌+ℤ◌, ◌-ℤ◌}
use olsr.Avl.{Tree, leaf, node, is_null, rotate_left, rotate_right}
use olsr.Avl.Balance.{is_null-leaf}
use olsr.Avl.Order.{
  inorder, AllNodes, IsOrdered, inorder-All, inorder-rotate_left, inorder-rotate_right,
}
use olsr.Avl.Remove.{
  post_delete_left, post_delete_right, local_min, delete_min, delete_here, delete_below, take_over,
}

inorder-post_delete_left :
    (below : Tree × Bool) (i k : ℕ) (b : ℤ) (r : Tree) (rest : List (ℕ × ℕ))
    → inorder (post_delete_left below i k b r).0 rest ≡ inorder below.0 ((i, k) ∷ inorder r rest)
unfolding inorder post_delete_left
inorder-post_delete_left (t, false) i k b r rest = refl
inorder-post_delete_left (t, true) i k b r rest = ground (
  arith,
  inorder-rotate_left (node t i k (b +ℤ pos 1) r) rest,
  inorder-rotate_left (node t i k (b +ℤ pos 1) (rotate_right r)) rest,
  inorder-rotate_right r rest,
)

inorder-post_delete_right :
    (l : Tree) (i k : ℕ) (b : ℤ) (below : Tree × Bool) (rest : List (ℕ × ℕ))
    → inorder (post_delete_right l i k b below).0 rest ≡ inorder l ((i, k) ∷ inorder below.0 rest)
unfolding inorder post_delete_right
inorder-post_delete_right l i k b (t, false) rest = refl
inorder-post_delete_right l i k b (t, true) rest = ground (
  arith,
  inorder-rotate_right (node l i k (b -ℤ pos 1) t) rest,
  inorder-rotate_right (node (rotate_left l) i k (b -ℤ pos 1) t) rest,
  inorder-rotate_left l ((i, k) ∷ inorder t rest),
)

inorder-delete_min :
    (t : Tree) (rest : List (ℕ × ℕ))
    → is_null t ≡ false
    → ((local_min t).0, (local_min t).1) ∷ inorder (delete_min t).0 rest ≡ inorder t rest
unfolding inorder local_min delete_min is_null
inorder-delete_min leaf rest full = cc
inorder-delete_min (node l i k b r) rest full = ground (
  arith,
  is_null-leaf l,
  inorder-delete_min l ((i, k) ∷ inorder r rest),
  inorder-post_delete_left (delete_min l) i k b r rest,
)

inorder-delete_here :
    (l : Tree) (b : ℤ) (r : Tree) (rest : List (ℕ × ℕ))
    → inorder (delete_here l b r).0 rest ≡ inorder l (inorder r rest)
unfolding inorder delete_here
inorder-delete_here l b r rest = ground (
  arith,
  is_null-leaf l,
  is_null-leaf r,
  inorder-delete_min r rest,
  inorder-post_delete_right l (local_min r).0 (local_min r).1 b (delete_min r) rest,
)

-- A change of the sequence at the node with a key.
unfoldable pub at_key : ℕ → (ℕ × ℕ → List (ℕ × ℕ) → List (ℕ × ℕ)) → List (ℕ × ℕ) → List (ℕ × ℕ)
at_key q change [] = []
at_key q change (p ∷ ps) =
    let rest = at_key q change ps in if p.1 == q then change p ps else p ∷ rest

abbrev pub drop_node : ℕ × ℕ → List (ℕ × ℕ) → List (ℕ × ℕ)
drop_node p ps = ps

abbrev pub give_node : ℕ → ℕ × ℕ → List (ℕ × ℕ) → List (ℕ × ℕ)
give_node next p ps = (next, p.1) ∷ ps

module _ (q : ℕ) (change : ℕ × ℕ → List (ℕ × ℕ) → List (ℕ × ℕ)) where
  at_key_absent : (ps : List (ℕ × ℕ)) → All (λ p. p.1 ≢ q) ps → at_key q change ps ≡ ps
  unfolding at_key
  at_key_absent [] a = refl
  at_key_absent (p ∷ ps) a = ground (arith, at_key_absent ps a.1, a.0)

  at_key-inorder :
      (t : Tree) (rest : List (ℕ × ℕ))
      → AllNodes (λ p. p.1 ≢ q) t
      → at_key q change (inorder t rest) ≡ inorder t (at_key q change rest)
  unfolding at_key inorder
  at_key-inorder leaf rest a = refl
  at_key-inorder (node l i k b r) rest a =
      ground (arith, at_key-inorder l ((i, k) ∷ inorder r rest) a.0, at_key-inorder r rest a.2, a.1)

  AllNodes-less : (k : ℕ) (t : Tree) → k ≤ q → AllNodes (λ p. p.1 < k) t → AllNodes (λ p. p.1 ≢ q) t
  AllNodes-less k leaf h a = tt
  AllNodes-less k (node l i x b r) h a =
      (AllNodes-less k l h a.0, (λ e. omega arith), AllNodes-less k r h a.2)

  AllNodes-more : (k : ℕ) (t : Tree) → q ≤ k → AllNodes (λ p. k < p.1) t → AllNodes (λ p. p.1 ≢ q) t
  AllNodes-more k leaf h a = tt
  AllNodes-more k (node l i x b r) h a =
      (AllNodes-more k l h a.0, (λ e. omega arith), AllNodes-more k r h a.2)

  -- Where the search for the key goes, the sequence is changed.
  at_key-node :
      (l : Tree) (i k : ℕ) (b : ℤ) (r : Tree) (rest : List (ℕ × ℕ))
      → IsOrdered (node l i k b r)
      → All (λ p. p.1 ≢ q) rest
      → (q < k → All (λ p. p.1 ≢ q) ((i, k) ∷ inorder r rest))
        × (q ≡ k
            → at_key q change (inorder l ((i, k) ∷ inorder r rest))
              ≡ inorder l (change (i, k) (inorder r rest)))
        × (k < q
            → at_key q change (inorder l ((i, k) ∷ inorder r rest))
              ≡ inorder l ((i, k) ∷ at_key q change (inorder r rest)))
  unfolding at_key
  at_key-node l i k b r rest o a = (
    (λ h. (
      (λ e. omega arith),
      inorder-All (λ p. p.1 ≢ q) r rest (AllNodes-more k r (omega arith) o.1) a,
    )),
    (λ h.
        at_key-inorder l ((i, k) ∷ inorder r rest) (AllNodes-less k l (omega arith) o.0)
        ∙ ground (arith, h)),
    (λ h.
        at_key-inorder l ((i, k) ∷ inorder r rest) (AllNodes-less k l (omega arith) o.0)
        ∙ ground (arith, h)),
  )

pub inorder-delete_below :
    (t : Tree) (q : ℕ) (rest : List (ℕ × ℕ))
    → IsOrdered t
    → All (λ p. p.1 ≢ q) rest
    → inorder (delete_below t q).0 rest ≡ at_key q drop_node (inorder t rest)
unfolding inorder delete_below
inorder-delete_below leaf q rest o a = ground (arith, at_key_absent q drop_node rest a)
inorder-delete_below (node l i k b r) q rest o a = ground (
  arith,
  at_key-node q drop_node l i k b r rest o a,
  inorder-delete_below l q ((i, k) ∷ inorder r rest) o.2,
  inorder-delete_below r q rest o.3 a,
  inorder-delete_here l b r rest,
  inorder-post_delete_left (delete_below l q) i k b r rest,
  inorder-post_delete_right l i k b (delete_below r q) rest,
)

pub inorder-take_over :
    (next : ℕ) (t : Tree) (q : ℕ) (rest : List (ℕ × ℕ))
    → IsOrdered t
    → All (λ p. p.1 ≢ q) rest
    → inorder (take_over next q t) rest ≡ at_key q (give_node next) (inorder t rest)
unfolding inorder take_over
inorder-take_over next leaf q rest o a = ground (arith, at_key_absent q (give_node next) rest a)
inorder-take_over next (node l i k b r) q rest o a = ground (
  arith,
  at_key-node q (give_node next) l i k b r rest o a,
  inorder-take_over next l q ((i, k) ∷ inorder r rest) o.2,
  inorder-take_over next r q rest o.3 a,
)
