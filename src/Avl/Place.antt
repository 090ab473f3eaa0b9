-- ===== src/Avl/Place.antt =====
-- `avl_insert` of src/common/avl.c links the new element at the place of its key: before the node
-- that was found, or behind the last of its duplicates.
use Prim.Native.Nat.Ordering.{lt, eq, gt}
use olsr.Prelude.{
  ℕ, ◌≤◌, ◌<◌, ◌≡◌, ◌≢◌, inl, inr, refl, true, false, List, [], ◌∷◌, All, ◌==◌, if◌then◌else◌,
  arith, Bool-cases, if_rule,
}
use olsr.Prelude.Int.{pos_part, neg_part}
use olsr.Avl.{
  Element, Found, element, insert_before, insert_after, behind, last_dup, link_new, eq_ℤ,
}
use olsr.Avl.Member.{In, In-here, In-behind, All-each}
use olsr.Avl.Chain.{Follows, IsChain, leaders, IsFresh, IsUnique, insert_element}

-- Before the leader: for a smaller key that is greater than all before.
insert_before-Follows :
    (id key : ℕ) (new x : Element) (xs : List Element)
    → Follows x xs
    → IsUnique (x ∷ xs)
    → In id key (leaders (x ∷ xs))
    → new.key < key
    → All (λ y. y.key < key → y.key < new.key) (x ∷ xs)
    → insert_before id new (x ∷ xs) ≡ insert_element new (x ∷ xs)
unfolding insert_before insert_element leaders
insert_before-Follows id key new x [] h u found less a =
    ground (arith, In-here id key x [] u found, In-behind id key x [] h found)
insert_before-Follows id key new x (y ∷ ys) h u found less a = ground (
  arith,
  In-here id key x (y ∷ ys) u found,
  In-behind id key x (y ∷ ys) h found,
  insert_before-Follows id key new y ys h.2 u.1,
)

-- `insert_after` behind the duplicates of the element in front.
unfoldable skip_dups : Element → List Element → List Element
skip_dups new [] = new ∷ []
skip_dups new (x ∷ xs) = if x.leader then new ∷ x ∷ xs else x ∷ skip_dups new xs

IsFresh-last_dup :
    (id last : ℕ) (xs : List Element)
    → (last == id) ≡ false
    → IsFresh id xs
    → (last_dup last xs == id) ≡ false
unfolding last_dup
IsFresh-last_dup id last [] h f = h
IsFresh-last_dup id last (x ∷ xs) h f = ground (arith, h, IsFresh-last_dup id x.id xs f.0 f.1)

insert_after-skip_dups :
    (new x : Element) (xs : List Element)
    → IsUnique (x ∷ xs)
    → insert_after (last_dup x.id xs) new (x ∷ xs) ≡ x ∷ skip_dups new xs
unfolding insert_after last_dup skip_dups
insert_after-skip_dups new x [] u = ground arith
insert_after-skip_dups new x (y ∷ ys) u =
    ground (arith, insert_after-skip_dups new y ys u.1, IsFresh-last_dup x.id y.id ys u.0.0 u.0.1)

pub IsFresh-behind : (id pos : ℕ) (xs : List Element) → IsFresh id xs → IsFresh id (behind pos xs)
unfolding behind
IsFresh-behind id pos [] f = tt
IsFresh-behind id pos (x ∷ xs) f =
    if_rule (IsFresh id) (x.id == pos) xs (behind pos xs) f.1 (IsFresh-behind id pos xs f.1)

skip_dups-Follows :
    (key : ℕ) (new x : Element) (xs : List Element)
    → Follows x xs
    → x.key ≡ key
    → key ≤ new.key
    → All (λ y. key < y.key → new.key < y.key) xs
    → skip_dups new xs ≡ insert_element new xs
unfolding skip_dups insert_element
skip_dups-Follows key new x [] h same le a = refl
skip_dups-Follows key new x (y ∷ ys) h same le a =
    ground (arith, skip_dups-Follows key new y ys h.2)

-- Behind the duplicates of the leader, at the leader itself and further on.
insert_after_here :
    (id key : ℕ) (new x : Element) (xs : List Element)
    → Follows x xs
    → IsUnique (x ∷ xs)
    → x.id ≡ id
    → x.key ≡ key
    → key ≤ new.key
    → All (λ y. key < y.key → new.key < y.key) xs
    → insert_after (last_dup id (behind id (x ∷ xs))) new (x ∷ xs) ≡ insert_element new (x ∷ xs)
unfolding insert_element behind
insert_after_here id key new x xs h u here same le a = ground (
  arith,
  here,
  same,
  insert_after-skip_dups new x xs u,
  skip_dups-Follows key new x xs h same le a,
)

insert_after_further :
    (id : ℕ) (new x : Element) (xs : List Element)
    → IsFresh x.id xs
    → (x.id == id) ≡ false
    → insert_after (last_dup id (behind id (x ∷ xs))) new (x ∷ xs)
      ≡ x ∷ insert_after (last_dup id (behind id xs)) new xs
unfolding insert_after behind
insert_after_further id new x xs f other = ground (
  arith,
  other,
  IsFresh-last_dup x.id id (behind id xs) (ground (arith, other)) (IsFresh-behind x.id id xs f),
)

-- The place is that for a key that is not less than the leader's, less than all that are greater.
insert_after-Follows :
    (id key : ℕ) (new x : Element) (xs : List Element)
    → Follows x xs
    → IsUnique (x ∷ xs)
    → In id key (leaders (x ∷ xs))
    → key ≤ new.key
    → All (λ y. key < y.key → new.key < y.key) (x ∷ xs)
    → insert_after (last_dup id (behind id (x ∷ xs))) new (x ∷ xs) ≡ insert_element new (x ∷ xs)
unfolding insert_element leaders
insert_after-Follows id key new x [] h u found le a = elim (Bool-cases (x.id == id)) [
  | inl same ↦
      let (leads, here, at) = In-here id key x [] u found same in
      insert_after_here id key new x [] h u here at le tt
  | inr other ↦ absurd (In-behind id key x [] h found other).0
]
insert_after-Follows id key new x (y ∷ ys) h u found le a = elim (Bool-cases (x.id == id)) [
  | inl same ↦
      let (leads, here, at) = In-here id key x (y ∷ ys) u found same in
      insert_after_here id key new x (y ∷ ys) h u here at le a.1
  | inr other ↦
      let (more, less) = In-behind id key x (y ∷ ys) h found other in
      ground (
        arith,
        insert_after_further id new x (y ∷ ys) u.0 other,
        insert_after-Follows id key new y ys h.2 u.1 more le a.1,
      )
]

-- `avl_insert` links the element of a new key at its place.
pub link_new-insert_element :
    (f : Found) (id key : ℕ) (xs : List Element)
    → IsChain xs
    → IsUnique xs
    → In f.id f.key (leaders xs)
    → (f.diff ≡ lt
        → (neg_part f.balance ≡ 0) × (key < f.key) × All (λ y. y.key < f.key → y.key < key) xs)
    → (f.diff ≡ gt
        → (pos_part f.balance ≡ 0) × (f.key < key) × All (λ y. f.key < y.key → key < y.key) xs)
    → f.diff ≢ eq
    → link_new f id key xs ≡ insert_element (element id key true) xs
unfolding link_new eq_ℤ leaders
link_new-insert_element f id key [] h u found less more new = absurd found
link_new-insert_element f id key (x ∷ xs) h u found less more new = ground (
  arith,
  insert_before-Follows f.id f.key (element id key true) x xs h.1 u found,
  insert_after-Follows f.id f.key (element id key true) x xs h.1 u found,
)

-- So it does the element of a key that is there.
pub insert_after-insert_element :
    (id key : ℕ) (new : Element) (xs : List Element)
    → IsChain xs
    → IsUnique xs
    → In id key (leaders xs)
    → new.key ≡ key
    → insert_after (last_dup id (behind id xs)) new xs ≡ insert_element new xs
unfolding leaders
insert_after-insert_element id key new [] h u found same = absurd found
insert_after-insert_element id key new (x ∷ xs) h u found same =
    insert_after-Follows id key new x xs h.1 u found (omega arith)
      (All-each (λ y. key < y.key → new.key < y.key) (x ∷ xs) (λ y less. omega arith))
