-- ===== src/Avl/Chain.antt =====
-- The linked list of src/common/avl.c: sorted by the key, and the first element of each key leads.
use olsr.Prelude.{
  ℕ, suc, ◌≤◌, ◌<◌, ◌≡◌, refl, Bool, true, false, not, List, [], ◌∷◌, All, length, ◌==◌, ltb,
  if◌then◌else◌, if_cases, if_rule, arith,
}
use olsr.Avl.{Element, element}
use olsr.Avl.Order.{IsIncreasing, place}

abbrev pub Follows : Element → List Element → Type 0
Follows x [] = Unit
Follows x (y ∷ ys) = (x.key ≤ y.key) × (y.leader ≡ not (x.key == y.key)) × Follows y ys

abbrev pub IsChain : List Element → Type 0
IsChain [] = Unit
IsChain (x ∷ xs) = (x.leader ≡ true) × Follows x xs

unfoldable pub leaders : List Element → List (ℕ × ℕ)
leaders [] = []
leaders (x ∷ xs) = let rest = leaders xs in if x.leader then (x.id, x.key) ∷ rest else rest

abbrev pub IsFresh : ℕ → List Element → Type 0
IsFresh id xs = All (λ x. (x.id == id) ≡ false) xs

abbrev pub IsUnique : List Element → Type 0
IsUnique [] = Unit
IsUnique (x ∷ xs) = IsFresh x.id xs × IsUnique xs

-- A new element goes behind all that have its key or a smaller one.
unfoldable pub insert_element : Element → List Element → List Element
insert_element new [] = new ∷ []
insert_element new (x ∷ xs) = if ltb new.key x.key then new ∷ x ∷ xs else x ∷ insert_element new xs

unfoldable pub has_key : ℕ → List Element → Bool
has_key key [] = false
has_key key (x ∷ xs) = let rest = has_key key xs in if x.key == key then true else rest

All-less : (a b : ℕ) (xs : List (ℕ × ℕ)) → a ≤ b → All (λ p. b < p.1) xs → All (λ p. a < p.1) xs
All-less a b [] h l = tt
All-less a b (x ∷ xs) h l = (omega arith, All-less a b xs h l.1)

pub leaders-Follows :
    (x : Element) (xs : List Element)
    → Follows x xs
    → All (λ p. x.key < p.1) (leaders xs) × IsIncreasing (leaders xs)
unfolding leaders
leaders-Follows x [] h = (tt, tt)
leaders-Follows x (y ∷ ys) h =
    let (above, increasing) = leaders-Follows y ys h.2 in
    let more = All-less x.key y.key (leaders ys) h.0 above in
    if_cases (λ (r : List (ℕ × ℕ)). All (λ p. x.key < p.1) r × IsIncreasing r) y.leader _ _
      (λ leads. ((ground (arith, leads, h.1), more), (above, increasing)))
      (λ hangs. (more, increasing))

-- The keys of the leaders increase.
pub leaders-IsIncreasing : (xs : List Element) → IsChain xs → IsIncreasing (leaders xs)
unfolding leaders
leaders-IsIncreasing [] h = tt
leaders-IsIncreasing (x ∷ xs) h = ground (arith, leaders-Follows x xs h.1)

Follows-has_key :
    (x : Element) (xs : List Element) (key : ℕ)
    → Follows x xs
    → key < x.key
    → has_key key xs ≡ false
unfolding has_key
Follows-has_key x [] key h less = refl
Follows-has_key x (y ∷ ys) key h less = ground (arith, Follows-has_key y ys key h.2)

-- A new key keeps the list a chain, and its element joins the leaders at its place.
pub insert_element-Follows :
    (x : Element) (id key : ℕ) (xs : List Element)
    → Follows x xs
    → x.key < key
    → has_key key xs ≡ false
    → Follows x (insert_element (element id key true) xs)
      × (leaders (insert_element (element id key true) xs) ≡ place id key (leaders xs))
unfolding insert_element leaders has_key place
insert_element-Follows x id key [] h less new = ground arith
insert_element-Follows x id key (y ∷ ys) h less new =
    ground (arith, insert_element-Follows x id key ys, insert_element-Follows y id key ys)

pub insert_element-IsChain :
    (id key : ℕ) (xs : List Element)
    → IsChain xs
    → has_key key xs ≡ false
    → IsChain (insert_element (element id key true) xs)
      × (leaders (insert_element (element id key true) xs) ≡ place id key (leaders xs))
unfolding insert_element leaders has_key place
insert_element-IsChain id key [] h new = ground arith
insert_element-IsChain id key (x ∷ xs) h new =
    ground (arith, insert_element-Follows x id key xs h.1)

-- An element with a key that is there does not lead.
insert_element-Follows_dup :
    (x : Element) (id key : ℕ) (xs : List Element)
    → Follows x xs
    → x.key ≤ key
    → has_key key (x ∷ xs) ≡ true
    → Follows x (insert_element (element id key false) xs)
      × (leaders (insert_element (element id key false) xs) ≡ leaders xs)
unfolding insert_element leaders has_key
insert_element-Follows_dup x id key [] h le there = ground arith
insert_element-Follows_dup x id key (y ∷ ys) h le there =
    ground (arith, insert_element-Follows_dup y id key ys h.2, Follows-has_key y ys key h.2)

pub insert_element-IsChain_dup :
    (id key : ℕ) (xs : List Element)
    → IsChain xs
    → has_key key xs ≡ true
    → IsChain (insert_element (element id key false) xs)
      × (leaders (insert_element (element id key false) xs) ≡ leaders xs)
unfolding insert_element leaders has_key
insert_element-IsChain_dup id key [] h there = cc
insert_element-IsChain_dup id key (x ∷ xs) h there =
    ground (arith, insert_element-Follows_dup x id key xs h.1, Follows-has_key x xs key h.1)

pub All-insert_element {ℓ} :
    (P : Element → Type ℓ) (new : Element) (xs : List Element)
    → P new
    → All P xs
    → All P (insert_element new xs)
unfolding insert_element
All-insert_element P new [] p a = (p, tt)
All-insert_element P new (x ∷ xs) p a =
    if_rule (All P) (ltb new.key x.key) (new ∷ x ∷ xs) (x ∷ insert_element new xs) (p, a)
      (a.0, All-insert_element P new xs p a.1)

pub insert_element-IsUnique :
    (new : Element) (xs : List Element)
    → IsFresh new.id xs
    → IsUnique xs
    → IsUnique (insert_element new xs)
unfolding insert_element
insert_element-IsUnique new [] f u = (tt, tt)
insert_element-IsUnique new (x ∷ xs) f u =
    if_rule IsUnique (ltb new.key x.key) (new ∷ x ∷ xs) (x ∷ insert_element new xs) (f, u)
      (
        All-insert_element (λ y. (y.id == x.id) ≡ false) new xs (ground (arith, f.0)) u.0,
        insert_element-IsUnique new xs f.1 u.1,
      )

pub length-insert_element :
    (new : Element) (xs : List Element) → length (insert_element new xs) ≡ suc (length xs)
unfolding insert_element
length-insert_element new [] = refl
length-insert_element new (x ∷ xs) = ground (arith, length-insert_element new xs)
