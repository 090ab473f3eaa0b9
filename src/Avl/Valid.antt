-- ===== src/Avl/Valid.antt =====
-- The invariant of the containers of src/common/avl.c, and what `int_avl_find_rec` tells of the list.
use Prim.Native.Nat.Ordering.{lt, eq, gt}
use olsr.Prelude.{
  ℕ, ◌<◌, ◌≡◌, ◌≢◌, ◌⊎◌, inl, inr, refl, sym, subst, ap, ◌∙◌, true, false, List, [], ◌∷◌, All,
  length, arith, if_cases,
}
use olsr.Prelude.Int.{pos_part, neg_part}
use olsr.Avl.{Element, Tree, leaf, node, AvlTree, Found, is_null}
use olsr.Avl.Balance.{IsBalanced, is_null-leaf}
use olsr.Avl.Order.{inorder, AllNodes, IsOrdered, IsOrdered-inorder, inorder-All}
use olsr.Avl.Find.{IsNode, Fits, compare-cases}
use olsr.Avl.Chain.{IsChain, leaders, IsUnique, has_key, leaders-IsIncreasing}
use olsr.Avl.Member.{In, In-leaders, All-leaders_chain, All-imp}

-- The list is sorted by the key with its leaders marked, no element stands in it twice, the tree
-- is balanced and has the leaders from left to right, the elements are counted, and without
-- duplicates all of them lead.
pub record IsAvl (t : AvlTree) : Type 0 where
  pub chain : IsChain t.list
  pub unique : IsUnique t.list
  pub nodes : inorder t.root [] ≡ leaders t.list
  pub balanced : IsBalanced t.root
  pub counted : t.count ≡ length t.list
  pub single : t.allow_dups ≡ false → All (λ x. x.leader ≡ true) t.list

pub IsAvl-IsOrdered : (t : AvlTree) → IsAvl t → IsOrdered t.root
IsAvl-IsOrdered t v = IsOrdered-inorder t.root [] (rw v.nodes (leaders-IsIncreasing t.list v.chain))

In-inorder :
    (id key : ℕ) (t : Tree) (rest : List (ℕ × ℕ))
    → IsNode id key t ⊎ In id key rest
    → In id key (inorder t rest)
unfolding inorder
In-inorder id key leaf rest (inl h) = absurd h
In-inorder id key leaf rest (inr h) = h
In-inorder id key (node l i k b r) rest (inl (inl h)) =
    In-inorder id key l ((i, k) ∷ inorder r rest) (inl h)
In-inorder id key (node l i k b r) rest (inl (inr (inl h))) =
    In-inorder id key l ((i, k) ∷ inorder r rest) (inr (inl h))
In-inorder id key (node l i k b r) rest (inl (inr (inr h))) =
    In-inorder id key l ((i, k) ∷ inorder r rest) (inr (inr (In-inorder id key r rest (inl h))))
In-inorder id key (node l i k b r) rest (inr h) =
    In-inorder id key l ((i, k) ∷ inorder r rest) (inr (inr (In-inorder id key r rest (inr h))))

-- What holds of the keys of the nodes holds of the keys of the elements, and back.
pub AllNodes-list :
    (P : ℕ → Type 0) (t : AvlTree)
    → IsAvl t
    → AllNodes (λ p. P p.1) t.root
    → All (λ y. P y.key) t.list
AllNodes-list P t v a =
    All-leaders_chain P t.list v.chain
      (subst (All (λ p. P p.1)) v.nodes (inorder-All (λ p. P p.1) t.root [] a tt))

pub leaders-absent :
    (key : ℕ) (xs : List Element) → has_key key xs ≡ false → All (λ p. p.1 ≢ key) (leaders xs)
unfolding has_key leaders
leaders-absent key [] h = tt
leaders-absent key (x ∷ xs) h =
    if_cases (λ (r : List (ℕ × ℕ)). All (λ p. p.1 ≢ key) r) x.leader _ _
      (λ leads. (ground (arith, h), leaders-absent key xs (ground (arith, h))))
      (λ hangs. leaders-absent key xs (ground (arith, h)))

has_key-absent : (key : ℕ) (xs : List Element) → All (λ y. y.key ≢ key) xs → has_key key xs ≡ false
unfolding has_key
has_key-absent key [] a = refl
has_key-absent key (x ∷ xs) a = ground (arith, has_key-absent key xs a.1, a.0)

pub has_key-leaders :
    (id key : ℕ) (xs : List Element) → In id key (leaders xs) → has_key key xs ≡ true
unfolding has_key leaders
has_key-leaders id key [] h = absurd h
has_key-leaders id key (x ∷ xs) h = elim (In-leaders id key x xs h) [
  | inl here ↦ ground (arith, here)
  | inr more ↦ ground (arith, has_key-leaders id key xs more)
]

chain_empty : (xs : List Element) → IsChain xs → [] ≡ leaders xs → xs ≡ []
unfolding leaders
chain_empty [] h same = refl
chain_empty (x ∷ xs) h same = ground (arith, h.0)

-- A tree without nodes has no elements.
pub empty_list : (t : AvlTree) → IsAvl t → is_null t.root ≡ true → (t.root ≡ leaf) × (t.list ≡ [])
unfolding inorder
empty_list t v h =
    let root = is_null-leaf t.root h in
    (root, chain_empty t.list v.chain (sym (ap (λ x. inorder x []) root) ∙ v.nodes))

-- The node that was found is a leader, and a comparison other than equal shows that the key is new.
pub found_leader :
    (t : AvlTree) (f : Found) (key : ℕ)
    → IsAvl t
    → Fits key t.root f
    → In f.id f.key (leaders t.list)
found_leader t f key v fits =
    subst (In f.id f.key) v.nodes (In-inorder f.id f.key t.root [] (inl fits.0))

pub found_below :
    (t : AvlTree) (f : Found) (key : ℕ)
    → IsAvl t
    → Fits key t.root f
    → f.diff ≡ lt
    → (neg_part f.balance ≡ 0) × (key < f.key) × All (λ y. y.key < f.key → y.key < key) t.list
found_below t f key v fits h =
    let room = fits.2 h in
    (room.0, ground (arith, fits.1, h), AllNodes-list (λ k. k < f.key → k < key) t v room.1)

pub found_above :
    (t : AvlTree) (f : Found) (key : ℕ)
    → IsAvl t
    → Fits key t.root f
    → f.diff ≡ gt
    → (pos_part f.balance ≡ 0) × (f.key < key) × All (λ y. f.key < y.key → key < y.key) t.list
found_above t f key v fits h =
    let room = fits.3 h in
    (room.0, ground (arith, fits.1, h), AllNodes-list (λ k. f.key < k → key < k) t v room.1)

pub found_absent :
    (t : AvlTree) (f : Found) (key : ℕ)
    → IsAvl t
    → Fits key t.root f
    → f.diff ≢ eq
    → has_key key t.list ≡ false
found_absent t f key v fits new =
    let absent = has_key-absent key t.list in
    elim (compare-cases key f.key) [
      | inl (less, h) ↦
          let below = (found_below t f key v fits (fits.1 ∙ less)).2 in
          absent (
            All-imp (λ y. y.key < f.key → y.key < key) (λ y. y.key ≢ key) t.list
              (λ y b e. absurd (omega (arith, b (omega arith)))) below)
      | inr (inl (same, h)) ↦ absurd (new (fits.1 ∙ same))
      | inr (inr (more, h)) ↦
          let above = (found_above t f key v fits (fits.1 ∙ more)).2 in
          absent (
            All-imp (λ y. f.key < y.key → key < y.key) (λ y. y.key ≢ key) t.list
              (λ y b e. absurd (omega (arith, b (omega arith)))) above)
    ]
