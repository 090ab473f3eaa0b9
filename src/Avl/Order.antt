-- ===== src/Avl/Order.antt =====
-- The order of the search tree of src/common/avl.c: what a rotation and an insertion do to the
-- sequence of its nodes, and where `int_avl_find_rec` stops.
use olsr.Prelude.{
  ℕ, ◌<◌, ◌≡◌, ◌≢◌, refl, Bool, true, false, List, [], ◌∷◌, All, ltb, if◌then◌else◌, arith,
}
use olsr.Prelude.Int.{ℤ, pos, ◌+ℤ◌, ◌-ℤ◌}
use olsr.Avl.{
  Tree, leaf, node, rotate_right, rotate_left, is_null, eq_ℤ, post_insert_left, post_insert_right,
  new_node, attach, insert_below,
}
use olsr.Avl.Balance.{height, IsBalanced, is_null-leaf}

-- The nodes of a tree from left to right, each by its address and its key, with what follows.
unfoldable pub inorder : Tree → List (ℕ × ℕ) → List (ℕ × ℕ)
inorder leaf rest = rest
inorder (node l i k b r) rest = inorder l ((i, k) ∷ inorder r rest)

-- A node goes before the first one with a greater key.
unfoldable pub place : ℕ → ℕ → List (ℕ × ℕ) → List (ℕ × ℕ)
place id key [] = (id, key) ∷ []
place id key ((i, k) ∷ xs) = if ltb key k then (id, key) ∷ (i, k) ∷ xs else (i, k) ∷ place id key xs

abbrev pub AllNodes {ℓ} : (ℕ × ℕ → Type ℓ) → Tree → Type ℓ
AllNodes P leaf = Unit
AllNodes P (node l i k b r) = AllNodes P l × P (i, k) × AllNodes P r

abbrev pub IsOrdered : Tree → Type 0
IsOrdered leaf = Unit
IsOrdered (node l i k b r) =
    AllNodes (λ p. p.1 < k) l × AllNodes (λ p. k < p.1) r × IsOrdered l × IsOrdered r

abbrev pub IsIncreasing : List (ℕ × ℕ) → Type 0
IsIncreasing [] = Unit
IsIncreasing ((i, k) ∷ xs) = All (λ p. k < p.1) xs × IsIncreasing xs

pub inorder-rotate_right :
    (t : Tree) (rest : List (ℕ × ℕ)) → inorder (rotate_right t) rest ≡ inorder t rest
unfolding inorder rotate_right
inorder-rotate_right leaf rest = refl
inorder-rotate_right (node leaf i k b r) rest = refl
inorder-rotate_right (node (node ll li lk lb lr) i k b r) rest = refl

pub inorder-rotate_left :
    (t : Tree) (rest : List (ℕ × ℕ)) → inorder (rotate_left t) rest ≡ inorder t rest
unfolding inorder rotate_left
inorder-rotate_left leaf rest = refl
inorder-rotate_left (node l i k b leaf) rest = refl
inorder-rotate_left (node l i k b (node rl ri rk rb rr)) rest = refl

inorder-post_insert_left :
    (below : Tree × Bool) (i k : ℕ) (b : ℤ) (r : Tree) (rest : List (ℕ × ℕ))
    → inorder (post_insert_left below i k b r).0 rest ≡ inorder below.0 ((i, k) ∷ inorder r rest)
unfolding inorder post_insert_left
inorder-post_insert_left (t, false) i k b r rest = refl
inorder-post_insert_left (t, true) i k b r rest = ground (
  arith,
  inorder-rotate_right (node t i k (b -ℤ pos 1) r) rest,
  inorder-rotate_right (node (rotate_left t) i k (b -ℤ pos 1) r) rest,
  inorder-rotate_left t ((i, k) ∷ inorder r rest),
)

inorder-post_insert_right :
    (l : Tree) (i k : ℕ) (b : ℤ) (below : Tree × Bool) (rest : List (ℕ × ℕ))
    → inorder (post_insert_right l i k b below).0 rest ≡ inorder l ((i, k) ∷ inorder below.0 rest)
unfolding inorder post_insert_right
inorder-post_insert_right l i k b (t, false) rest = refl
inorder-post_insert_right l i k b (t, true) rest = ground (
  arith,
  inorder-rotate_left (node l i k (b +ℤ pos 1) t) rest,
  inorder-rotate_left (node l i k (b +ℤ pos 1) (rotate_right t)) rest,
  inorder-rotate_right t rest,
)

-- What comes next has a greater key.
abbrev pub Precedes : ℕ → List (ℕ × ℕ) → Type 0
Precedes q [] = Unit
Precedes q (p ∷ ps) = q < p.1

place-inorder :
    (t : Tree) (id q : ℕ) (rest : List (ℕ × ℕ))
    → AllNodes (λ p. p.1 < q) t
    → place id q (inorder t rest) ≡ inorder t (place id q rest)
unfolding place inorder
place-inorder leaf id q rest a = refl
place-inorder (node l i k b r) id q rest a =
    ground
      (arith, place-inorder l id q ((i, k) ∷ inorder r rest) a.0, place-inorder r id q rest a.2)

place-Precedes :
    (id q : ℕ) (rest : List (ℕ × ℕ)) → Precedes q rest → place id q rest ≡ (id, q) ∷ rest
unfolding place
place-Precedes id q [] h = refl
place-Precedes id q ((i, k) ∷ xs) h = ground arith

inorder-attach :
    (n q : ℕ) (less : Bool) (l : Tree) (i k : ℕ) (b : ℤ) (r : Tree) (rest : List (ℕ × ℕ))
    → IsBalanced (node l i k b r)
    → (less ≡ true → l ≡ leaf)
    → (less ≡ false → r ≡ leaf)
    → inorder (attach (new_node n q) less l i k b r).0 rest
      ≡ (if less then (n, q) ∷ (i, k) ∷ inorder r rest else inorder l ((i, k) ∷ (n, q) ∷ rest))
unfolding inorder attach new_node eq_ℤ height
inorder-attach n q less l i k b r rest v hl hr = ground arith

pub AllNodes-below :
    (k q : ℕ) (t : Tree) → k < q → AllNodes (λ p. p.1 < k) t → AllNodes (λ p. p.1 < q) t
AllNodes-below k q leaf h a = tt
AllNodes-below k q (node l i x b r) h a =
    (AllNodes-below k q l h a.0, omega arith, AllNodes-below k q r h a.2)

pub AllNodes-above :
    (k q : ℕ) (t : Tree) → k < q → AllNodes (λ p. q < p.1) t → AllNodes (λ p. k < p.1) t
AllNodes-above k q leaf h a = tt
AllNodes-above k q (node l i x b r) h a =
    (AllNodes-above k q l h a.0, omega arith, AllNodes-above k q r h a.2)

-- An insertion puts the new node at its place in the sequence of the nodes.
pub inorder-insert_below :
    (t : Tree) (n q : ℕ) (rest : List (ℕ × ℕ))
    → is_null t ≡ false
    → IsBalanced t
    → IsOrdered t
    → AllNodes (λ p. p.1 ≢ q) t
    → Precedes q rest
    → inorder (insert_below t n q).0 rest ≡ place n q (inorder t rest)
unfolding inorder insert_below is_null place
inorder-insert_below leaf n q rest full v o new before = cc
inorder-insert_below (node l i k b r) n q rest full v o new before = ground (
  arith,
  is_null-leaf l,
  is_null-leaf r,
  inorder-insert_below l n q ((i, k) ∷ inorder r rest),
  inorder-insert_below r n q rest,
  inorder-attach n q true l i k b r rest v,
  inorder-attach n q false l i k b r rest v,
  inorder-post_insert_left (insert_below l n q) i k b r rest,
  inorder-post_insert_right l i k b (insert_below r n q) rest,
  place-inorder l n q ((i, k) ∷ inorder r rest),
  AllNodes-below k q l,
  place-Precedes n q rest before,
)

pub All-inorder {ℓ} :
    (P : ℕ × ℕ → Type ℓ) (t : Tree) (rest : List (ℕ × ℕ))
    → All P (inorder t rest)
    → AllNodes P t × All P rest
unfolding inorder
All-inorder P leaf rest a = (tt, a)
All-inorder P (node l i k b r) rest a =
    let (left, more) = All-inorder P l ((i, k) ∷ inorder r rest) a in
    let (right, after) = All-inorder P r rest more.1 in ((left, more.0, right), after)

IsIncreasing-below :
    (t : Tree) (i k : ℕ) (rest : List (ℕ × ℕ))
    → IsIncreasing (inorder t ((i, k) ∷ rest))
    → AllNodes (λ p. p.1 < k) t × IsIncreasing ((i, k) ∷ rest)
unfolding inorder
IsIncreasing-below leaf i k rest s = (tt, s)
IsIncreasing-below (node l x y b r) i k rest s =
    let (left, more) = IsIncreasing-below l x y (inorder r ((i, k) ∷ rest)) s in
    let (right, tail) = IsIncreasing-below r i k rest more.1 in
    let less = (All-inorder (λ p. y < p.1) r ((i, k) ∷ rest) more.0).1.0 in
    ((AllNodes-below y k l less left, less, right), tail)

IsIncreasing-rest :
    (t : Tree) (rest : List (ℕ × ℕ)) → IsIncreasing (inorder t rest) → IsIncreasing rest
unfolding inorder
IsIncreasing-rest leaf rest s = s
IsIncreasing-rest (node l x y b r) rest s =
    IsIncreasing-rest r rest (IsIncreasing-below l x y (inorder r rest) s).1.1

-- A tree whose sequence increases is a search tree.
pub IsOrdered-inorder :
    (t : Tree) (rest : List (ℕ × ℕ)) → IsIncreasing (inorder t rest) → IsOrdered t
unfolding inorder
IsOrdered-inorder leaf rest s = tt
IsOrdered-inorder (node l i k b r) rest s =
    let (left, more) = IsIncreasing-below l i k (inorder r rest) s in
    (
      left,
      (All-inorder (λ p. k < p.1) r rest more.0).0,
      IsOrdered-inorder l ((i, k) ∷ inorder r rest) s,
      IsOrdered-inorder r rest more.1,
    )

pub inorder-All {ℓ} :
    (P : ℕ × ℕ → Type ℓ) (t : Tree) (rest : List (ℕ × ℕ))
    → AllNodes P t
    → All P rest
    → All P (inorder t rest)
unfolding inorder
inorder-All P leaf rest a b = b
inorder-All P (node l i k b r) rest a c =
    inorder-All P l ((i, k) ∷ inorder r rest) a.0 (a.1, inorder-All P r rest a.2 c)
