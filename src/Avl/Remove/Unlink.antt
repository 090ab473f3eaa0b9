-- ===== src/Avl/Remove/Unlink.antt =====
-- What the removal of an element does to the linked list of src/common/avl.c.
use olsr.Prelude.{
  ℕ, ◌≡◌, ◌⊎◌, inl, inr, refl, sym, subst, ap, ◌∙◌, true, false, List, [], ◌∷◌, none, some, ◌==◌,
  arith, Bool-cases, if_rule, ==_iff,
}
use olsr.Avl.{Element, element, behind}
use olsr.Avl.Chain.{Follows, IsChain, leaders, IsFresh, IsUnique}
use olsr.Avl.Member.{In, In-here, In-behind}
use olsr.Avl.Remove.{list_remove, set_leader, next_dup}
use olsr.Avl.Remove.Sequence.{at_key, drop_node, give_node}

-- An element stands in the list.
abbrev pub Has : Element → List Element → Type 0
Has e [] = ⊥
Has e (x ∷ xs) = ((x.id ≡ e.id) × (x.key ≡ e.key) × (x.leader ≡ e.leader)) ⊎ Has e xs

IsFresh-Has : (e : Element) (xs : List Element) → IsFresh e.id xs → Has e xs → ⊥
IsFresh-Has e [] f h = h
IsFresh-Has e (x ∷ xs) f (inl here) = ground (arith, f.0, here)
IsFresh-Has e (x ∷ xs) f (inr more) = IsFresh-Has e xs f.1 more

Has-here :
    (e x : Element) (xs : List Element)
    → IsUnique (x ∷ xs)
    → Has e (x ∷ xs)
    → (x.id == e.id) ≡ true
    → (x.key ≡ e.key) × (x.leader ≡ e.leader)
Has-here e x xs u (inl here) same = (here.1, here.2)
Has-here e x xs u (inr more) same =
    absurd (IsFresh-Has e xs (subst (λ i. IsFresh i xs) ((==_iff x.id e.id).0 same) u.0) more)

pub Has-behind :
    (e x : Element) (xs : List Element) → Has e (x ∷ xs) → (x.id == e.id) ≡ false → Has e xs
Has-behind e x xs (inl here) other = absurd (ground (arith, here, other))
Has-behind e x xs (inr more) other = more

pub In-Has :
    (e : Element) (xs : List Element) → e.leader ≡ true → Has e xs → In e.id e.key (leaders xs)
unfolding leaders
In-Has e [] leads h = h
In-Has e (x ∷ xs) leads (inl here) = ground (arith, leads, here)
In-Has e (x ∷ xs) leads (inr more) =
    if_rule (In e.id e.key) x.leader ((x.id, x.key) ∷ leaders xs) (leaders xs)
      (inr (In-Has e xs leads more)) (In-Has e xs leads more)

-- An element that hangs on a leader leaves the rest as it is.
list_remove-Follows :
    (e x : Element) (xs : List Element)
    → Follows x xs
    → IsUnique xs
    → Has e xs
    → e.leader ≡ false
    → Follows x (list_remove e.id xs) × (leaders (list_remove e.id xs) ≡ leaders xs)
unfolding list_remove leaders
list_remove-Follows e x [] h u there hangs = absurd there
list_remove-Follows e x (y ∷ []) h u there hangs =
    ground (arith, Has-here e y [] u there, Has-behind e y [] there)
list_remove-Follows e x (y ∷ z ∷ zs) h u there hangs = ground (
  arith,
  Has-here e y (z ∷ zs) u there,
  Has-behind e y (z ∷ zs) there,
  list_remove-Follows e y (z ∷ zs) h.2 u.1,
)

pub list_remove-IsChain :
    (e : Element) (xs : List Element)
    → IsChain xs
    → IsUnique xs
    → Has e xs
    → e.leader ≡ false
    → IsChain (list_remove e.id xs) × (leaders (list_remove e.id xs) ≡ leaders xs)
unfolding list_remove leaders
list_remove-IsChain e [] h u there hangs = absurd there
list_remove-IsChain e (x ∷ xs) h u there hangs =
    ground
      (arith, Has-here e x xs u there, Has-behind e x xs there, list_remove-Follows e x xs h.1 u.1)

-- A leader that nothing hangs on leaves with its node.
drop_leader-Follows :
    (id key : ℕ) (x : Element) (xs : List Element)
    → Follows x xs
    → IsUnique xs
    → In id key (leaders xs)
    → next_dup (behind id xs) ≡ none
    → Follows x (list_remove id xs)
      × (leaders (list_remove id xs) ≡ at_key key drop_node (leaders xs))
unfolding list_remove leaders at_key behind next_dup
drop_leader-Follows id key x [] h u found last = absurd found
drop_leader-Follows id key x (y ∷ []) h u found last =
    ground (arith, In-here id key y [] u found, In-behind id key y [] h.2 found)
drop_leader-Follows id key x (y ∷ z ∷ zs) h u found last = ground (
  arith,
  In-here id key y (z ∷ zs) u found,
  In-behind id key y (z ∷ zs) h.2 found,
  drop_leader-Follows id key y (z ∷ zs) h.2 u.1,
)

pub drop_leader-IsChain :
    (id key : ℕ) (xs : List Element)
    → IsChain xs
    → IsUnique xs
    → In id key (leaders xs)
    → next_dup (behind id xs) ≡ none
    → IsChain (list_remove id xs)
      × (leaders (list_remove id xs) ≡ at_key key drop_node (leaders xs))
unfolding list_remove leaders at_key behind next_dup
drop_leader-IsChain id key [] h u found last = absurd found
drop_leader-IsChain id key (x ∷ []) h u found last =
    ground (arith, In-here id key x [] u found, In-behind id key x [] h.1 found)
drop_leader-IsChain id key (x ∷ y ∷ ys) h u found last = ground (
  arith,
  In-here id key x (y ∷ ys) u found,
  In-behind id key x (y ∷ ys) h.1 found,
  drop_leader-Follows id key x (y ∷ ys) h.1 u.1,
)

next_dup-IsFresh :
    (id pos dup : ℕ) (xs : List Element)
    → IsFresh id xs
    → next_dup (behind pos xs) ≡ some dup
    → (id == dup) ≡ false
unfolding next_dup behind
next_dup-IsFresh id pos dup [] f h = cc
next_dup-IsFresh id pos dup (x ∷ []) f h = ground (arith, h)
next_dup-IsFresh id pos dup (x ∷ y ∷ ys) f h =
    ground (arith, next_dup-IsFresh id pos dup (y ∷ ys) f.1, f.1.0, h)

behind-none : (x : Element) (id : ℕ) → next_dup (behind id (x ∷ [])) ≡ none
unfolding behind next_dup
behind-none x id = ground arith

give_here :
    (id dup : ℕ) (x y : Element) (ys : List Element)
    → (x.id == id) ≡ true
    → IsFresh x.id (y ∷ ys)
    → next_dup (behind id (x ∷ y ∷ ys)) ≡ some dup
    → (y.leader ≡ false)
      × (y.id ≡ dup)
      × (list_remove id (set_leader dup (x ∷ y ∷ ys)) ≡ element y.id y.key true ∷ ys)
unfolding list_remove set_leader next_dup behind
give_here id dup x y ys same f next =
    let (hangs, at) : (y.leader ≡ false) × (y.id ≡ dup) = ground (arith, next, same) in
    let other : (x.id == dup) ≡ false = ground (arith, f.0, at) in
    let here : (y.id == dup) ≡ true = ground (arith, at) in
    (hangs, at, rw (other, here, list_remove, same) refl)

give_further :
    (id dup : ℕ) (x : Element) (xs : List Element)
    → (x.id == id) ≡ false
    → (x.id == dup) ≡ false
    → list_remove id (set_leader dup (x ∷ xs)) ≡ x ∷ list_remove id (set_leader dup xs)
unfolding list_remove set_leader
give_further id dup x xs other first = rw (first, list_remove, other) refl

behind_further :
    (id : ℕ) (x : Element) (xs : List Element)
    → (x.id == id) ≡ false
    → behind id (x ∷ xs) ≡ behind id xs
unfolding behind
behind_further id x xs other = ground (arith, other)

Follows-marked :
    (x : Element) (xs : List Element) → Follows x xs → Follows (element x.id x.key true) xs
Follows-marked x [] h = tt
Follows-marked x (y ∷ ys) h = h

-- The first duplicate of a leader takes its node over.
give_leader-Follows :
    (id key dup : ℕ) (x : Element) (xs : List Element)
    → Follows x xs
    → IsUnique xs
    → In id key (leaders xs)
    → next_dup (behind id xs) ≡ some dup
    → Follows x (list_remove id (set_leader dup xs))
      × (leaders (list_remove id (set_leader dup xs)) ≡ at_key key (give_node dup) (leaders xs))
unfolding leaders at_key
give_leader-Follows id key dup x [] h u found next = absurd found
give_leader-Follows id key dup x (y ∷ []) h u found next =
    ground
      (arith, In-here id key y [] u found, In-behind id key y [] h.2 found, next, behind-none y id)
give_leader-Follows id key dup x (y ∷ z ∷ zs) h u found next = elim (Bool-cases (y.id == id)) [
  | inl same ↦
      let (hangs, at, cut) = give_here id dup y z zs same u.0 next in
      let here = In-here id key y (z ∷ zs) u found same in
      let marked = Follows-marked z zs h.2.2 in
      rw cut (
        (ground (arith, here, hangs, h), ground (arith, here, hangs, h), marked),
        ground (arith, here, hangs, at),
      )
  | inr other ↦
      let (more, less) = In-behind id key y (z ∷ zs) h.2 found other in
      let next' = sym (ap next_dup (behind_further id y (z ∷ zs) other)) ∙ next in
      let first = next_dup-IsFresh y.id id dup (z ∷ zs) u.0 next' in
      rw (give_further id dup y (z ∷ zs) other first)
        (ground (arith, less, give_leader-Follows id key dup y (z ∷ zs) h.2 u.1 more next'))
]

pub give_leader-IsChain :
    (id key dup : ℕ) (xs : List Element)
    → IsChain xs
    → IsUnique xs
    → In id key (leaders xs)
    → next_dup (behind id xs) ≡ some dup
    → IsChain (list_remove id (set_leader dup xs))
      × (leaders (list_remove id (set_leader dup xs)) ≡ at_key key (give_node dup) (leaders xs))
unfolding leaders at_key
give_leader-IsChain id key dup [] h u found next = absurd found
give_leader-IsChain id key dup (x ∷ []) h u found next =
    ground
      (arith, In-here id key x [] u found, In-behind id key x [] h.1 found, next, behind-none x id)
give_leader-IsChain id key dup (x ∷ y ∷ ys) h u found next = elim (Bool-cases (x.id == id)) [
  | inl same ↦
      let (hangs, at, cut) = give_here id dup x y ys same u.0 next in
      let here = In-here id key x (y ∷ ys) u found same in
      let marked = Follows-marked y ys h.1.2 in
      rw cut ((refl, marked), ground (arith, here, hangs, at))
  | inr other ↦
      let (more, less) = In-behind id key x (y ∷ ys) h.1 found other in
      let next' = sym (ap next_dup (behind_further id x (y ∷ ys) other)) ∙ next in
      let first = next_dup-IsFresh x.id id dup (y ∷ ys) u.0 next' in
      rw (give_further id dup x (y ∷ ys) other first)
        (ground (arith, less, give_leader-Follows id key dup x (y ∷ ys) h.1 u.1 more next'))
]
