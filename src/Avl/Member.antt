-- ===== src/Avl/Member.antt =====
-- The leaders among the elements of the linked list of src/common/avl.c.
use olsr.Prelude.{
  ℕ, ◌<◌, ◌≡◌, ◌⊎◌, inl, inr, sym, subst, true, false, List, [], ◌∷◌, All, ◌==◌, arith, Bool-cases,
  if_cases, ==_iff,
}
use olsr.Avl.{Element}
use olsr.Avl.Chain.{Follows, IsChain, leaders, leaders-Follows, IsFresh, IsUnique}

abbrev pub In : ℕ → ℕ → List (ℕ × ℕ) → Type 0
In id key [] = ⊥
In id key (p ∷ ps) = ((p.0 ≡ id) × (p.1 ≡ key)) ⊎ In id key ps

pub In-All :
    (P : ℕ × ℕ → Type 0) (id key : ℕ) (ps : List (ℕ × ℕ)) → All P ps → In id key ps → P (id, key)
In-All P id key [] a h = absurd h
In-All P id key (p ∷ ps) a (inl h) = rw (sym h.0, sym h.1) a.0
In-All P id key (p ∷ ps) a (inr h) = In-All P id key ps a.1 h

pub In-leaders :
    (id key : ℕ) (x : Element) (xs : List Element)
    → In id key (leaders (x ∷ xs))
    → (x.leader ≡ true) × (x.id ≡ id) × (x.key ≡ key) ⊎ In id key (leaders xs)
unfolding leaders
In-leaders id key x xs =
    if_cases
      (λ (r : List (ℕ × ℕ)).
        In id key r → (x.leader ≡ true) × (x.id ≡ id) × (x.key ≡ key) ⊎ In id key (leaders xs))
      x.leader _ _ (λ leads h. elim h [ inl e ↦ inl (leads, e.0, e.1) | inr more ↦ inr more ])
      (λ hangs h. inr h)

IsFresh-leaders : (id key : ℕ) (xs : List Element) → IsFresh id xs → In id key (leaders xs) → ⊥
unfolding leaders
IsFresh-leaders id key [] f h = h
IsFresh-leaders id key (x ∷ xs) f h = elim (In-leaders id key x xs h) [
  | inl here ↦ ground (arith, f.0, here)
  | inr more ↦ IsFresh-leaders id key xs f.1 more
]

-- The element with the address of a leader is that leader.
pub In-here :
    (id key : ℕ) (x : Element) (xs : List Element)
    → IsUnique (x ∷ xs)
    → In id key (leaders (x ∷ xs))
    → (x.id == id) ≡ true
    → (x.leader ≡ true) × (x.id ≡ id) × (x.key ≡ key)
In-here id key x xs u h same = elim (In-leaders id key x xs h) [
  | inl here ↦ here
  | inr more ↦ absurd (IsFresh-leaders id key xs (rw (sym ((==_iff x.id id).0 same)) u.0) more)
]

-- An element with another address has the leader behind it.
pub In-behind :
    (id key : ℕ) (x : Element) (xs : List Element)
    → Follows x xs
    → In id key (leaders (x ∷ xs))
    → (x.id == id) ≡ false
    → In id key (leaders xs) × (x.key < key)
In-behind id key x xs h found other = elim (In-leaders id key x xs found) [
  | inl here ↦ ground (arith, here)
  | inr more ↦ (more, In-All (λ p. x.key < p.1) id key (leaders xs) (leaders-Follows x xs h).0 more)
]

leaders-All :
    (P : ℕ × ℕ → Type 0) (x : Element) (xs : List Element)
    → All P (leaders (x ∷ xs))
    → (x.leader ≡ true → P (x.id, x.key)) × All P (leaders xs)
unfolding leaders
leaders-All P x xs =
    if_cases
      (λ (r : List (ℕ × ℕ)). All P r → (x.leader ≡ true → P (x.id, x.key)) × All P (leaders xs))
      x.leader _ _ (λ leads a. ((λ h. a.0), a.1)) (λ hangs a. ((λ h. cc), a))

-- What holds of the keys of the leaders holds of all keys.
All-leaders :
    (P : ℕ → Type 0) (x : Element) (xs : List Element)
    → Follows x xs
    → P x.key
    → All (λ p. P p.1) (leaders xs)
    → All (λ y. P y.key) xs
unfolding leaders
All-leaders P x [] h p a = tt
All-leaders P x (y ∷ ys) h p a =
    let (leads, more) = leaders-All (λ p. P p.1) y ys a in
    elim (Bool-cases y.leader) [
      | inl leading ↦ (leads leading, All-leaders P y ys h.2 (leads leading) more)
      | inr hangs ↦
          let same : x.key ≡ y.key = ground (arith, h.1, hangs) in
          let here = subst P same p in (here, All-leaders P y ys h.2 here more)
    ]

pub All-leaders_chain :
    (P : ℕ → Type 0) (xs : List Element)
    → IsChain xs
    → All (λ p. P p.1) (leaders xs)
    → All (λ y. P y.key) xs
All-leaders_chain P [] h a = tt
All-leaders_chain P (x ∷ xs) h a =
    let (leads, more) = leaders-All (λ p. P p.1) x xs a in
    (leads h.0, All-leaders P x xs h.1 (leads h.0) more)

pub All-each {ℓ κ} : {A : Type ℓ} (P : A → Type κ) (xs : List A) → ((x : A) → P x) → All P xs
All-each P [] f = tt
All-each P (x ∷ xs) f = (f x, All-each P xs f)

pub All-imp {ℓ κ μ} :
    {A : Type ℓ} (P : A → Type κ) (Q : A → Type μ) (xs : List A)
    → ((x : A) → P x → Q x)
    → All P xs
    → All Q xs
All-imp P Q [] f a = tt
All-imp P Q (x ∷ xs) f a = (f x a.0, All-imp P Q xs f a.1)
