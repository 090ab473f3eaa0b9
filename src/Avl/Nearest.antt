-- ===== src/Avl/Nearest.antt =====
-- `avl_find_lessequal` and `avl_find_greaterequal` of src/common/avl.c against a scan of the list.
use olsr.Prelude.{
  ℕ, ◌≤◌, ◌<◌, ◌≡◌, inl, inr, refl, sym, subst, ap, ◌∙◌, List, [], ◌∷◌, Option, none, some, ◌==◌,
  leb, if◌then◌else◌, arith, Bool-cases,
}
use olsr.Avl.{Element, AvlTree, is_null}
use olsr.Avl.Walk.{
  split_at, go_right, less_left, avl_find_lessequal, go_left, greater_right, avl_find_greaterequal,
}
use olsr.Avl.Find.{find_rec_null, find_rec_lem}
use olsr.Avl.Chain.{Follows, IsChain, leaders}
use olsr.Avl.Member.{In, In-leaders}
use olsr.Avl.Valid.{IsAvl, IsAvl-IsOrdered, empty_list, found_leader}

-- The last element whose key is not greater.
unfoldable pub last_lessequal : ℕ → List Element → Option ℕ
last_lessequal key [] = none
last_lessequal key (x ∷ xs) = elim (last_lessequal key xs) [
  | some id ↦ some id
  | none ↦ if leb x.key key then some x.id else none
]

-- The first element whose key is not less.
unfoldable pub first_greaterequal : ℕ → List Element → Option ℕ
first_greaterequal key [] = none
first_greaterequal key (x ∷ xs) =
    let rest = first_greaterequal key xs in if leb key x.key then some x.id else rest

-- The list around an element: what is before it in reverse, and the rest.
unfoldable rejoin : List Element → List Element → List Element
rejoin [] xs = xs
rejoin (b ∷ before) xs = rejoin before (b ∷ xs)

rejoin-Follows :
    (before : List Element) (x : Element) (after : List Element)
    → IsChain (rejoin before (x ∷ after))
    → Follows x after
unfolding rejoin
rejoin-Follows [] x after h = h.1
rejoin-Follows (b ∷ before) x after h = (rejoin-Follows before b (x ∷ after) h).2

split_at-rejoin :
    (id key : ℕ) (before xs : List Element)
    → In id key (leaders xs)
    → (left : List Element) × (x : Element) × (right : List Element) × (split_at id before xs
        ≡ some (left, x, right))
      × (rejoin left (x ∷ right) ≡ rejoin before xs)
unfolding split_at rejoin leaders
split_at-rejoin id key before [] found = absurd found
split_at-rejoin id key before (x ∷ xs) found = elim (Bool-cases (x.id == id)) [
  | inl same ↦ (before, x, xs, ground (arith, same), refl)
  | inr other ↦ elim (In-leaders id key x xs found) [
    | inl here ↦ absurd (ground (arith, here, other))
    | inr more ↦
        let (left, y, right, cut, whole) = split_at-rejoin id key (x ∷ before) xs more in
        (left, y, right, ground (arith, other, cut), whole)
  ]
]

last_lessequal-rejoin :
    (key id : ℕ) (before xs : List Element)
    → last_lessequal key xs ≡ some id
    → last_lessequal key (rejoin before xs) ≡ some id
unfolding last_lessequal rejoin
last_lessequal-rejoin key id [] xs h = h
last_lessequal-rejoin key id (b ∷ before) xs h =
    last_lessequal-rejoin key id before (b ∷ xs) (ground (arith, h))

last_lessequal-none :
    (key : ℕ) (x : Element) (xs : List Element)
    → Follows x xs
    → key < x.key
    → last_lessequal key (x ∷ xs) ≡ none
unfolding last_lessequal
last_lessequal-none key x [] h less = ground arith
last_lessequal-none key x (y ∷ ys) h less = ground (arith, last_lessequal-none key y ys h.2)

go_right-last_lessequal :
    (key : ℕ) (x : Element) (after : List Element)
    → Follows x after
    → x.key ≤ key
    → (id : ℕ) × (go_right key x after ≡ some id) × (last_lessequal key (x ∷ after) ≡ some id)
unfolding go_right last_lessequal
go_right-last_lessequal key x [] h le = (x.id, refl, ground arith)
go_right-last_lessequal key x (y ∷ ys) h le = elim (Bool-cases (leb y.key key)) [
  | inl more ↦
      let (id, go, last) = go_right-last_lessequal key y ys h.2 (ground (arith, more)) in
      (id, ground (arith, more, go), ground (arith, last))
  | inr stop ↦ (x.id, ground (arith, stop), ground (arith, last_lessequal-none key y ys h.2, stop))
]

stays_right :
    (key : ℕ) (before : List Element) (x : Element) (after : List Element)
    → IsChain (rejoin before (x ∷ after))
    → x.key ≤ key
    → go_right key x after ≡ last_lessequal key (rejoin before (x ∷ after))
stays_right key before x after h le =
    let (id, go, last) = go_right-last_lessequal key x after (rejoin-Follows before x after h) le in
    go ∙ sym (last_lessequal-rejoin key id before (x ∷ after) last)

less_left-last_lessequal :
    (key : ℕ) (before : List Element) (x : Element) (after : List Element)
    → IsChain (rejoin before (x ∷ after))
    → less_left key before x after ≡ last_lessequal key (rejoin before (x ∷ after))
unfolding less_left rejoin
less_left-last_lessequal key [] x after h = ground (
  arith,
  stays_right key [] x after h,
  last_lessequal-none key x after (rejoin-Follows [] x after h),
)
less_left-last_lessequal key (prev ∷ before) x after h = ground (
  arith,
  stays_right key (prev ∷ before) x after h,
  less_left-last_lessequal key before prev (x ∷ after) h,
)

avl_find_lessequal-last :
    (t : AvlTree) (key : ℕ) → IsAvl t → avl_find_lessequal t key ≡ last_lessequal key t.list
unfolding avl_find_lessequal last_lessequal rejoin
avl_find_lessequal-last t key v = elim (Bool-cases (is_null t.root)) [
  | inl null ↦
      rw (find_rec_null none t.root key null, (empty_list t v null).1, avl_find_lessequal) refl
  | inr full ↦
      let (f, found, fits) = find_rec_lem none t.root key full v.balanced (IsAvl-IsOrdered t v) in
      let (before, x, after, cut, whole) =
        split_at-rejoin f.id f.key [] t.list (found_leader t f key v fits) in
      rw (found, cut, avl_find_lessequal)
        (less_left-last_lessequal key before x after (subst IsChain (sym whole) v.chain)
          ∙ ap (last_lessequal key) whole)
]

first_greaterequal-rejoin :
    (key : ℕ) (before : List Element) (b : Element) (xs : List Element)
    → IsChain (rejoin before (b ∷ xs))
    → b.key < key
    → first_greaterequal key (rejoin before (b ∷ xs)) ≡ first_greaterequal key xs
unfolding first_greaterequal rejoin
first_greaterequal-rejoin key [] b xs h less = ground arith
first_greaterequal-rejoin key (c ∷ before) b xs h less =
    let below = (rejoin-Follows before c (b ∷ xs) h).0 in
    first_greaterequal-rejoin key before c (b ∷ xs) h (omega arith) ∙ ground (arith, less)

go_left-first_greaterequal :
    (key : ℕ) (before : List Element) (x : Element) (after : List Element)
    → IsChain (rejoin before (x ∷ after))
    → key ≤ x.key
    → go_left key before x ≡ first_greaterequal key (rejoin before (x ∷ after))
unfolding go_left first_greaterequal rejoin
go_left-first_greaterequal key [] x after h le = ground arith
go_left-first_greaterequal key (b ∷ before) x after h le = ground (
  arith,
  go_left-first_greaterequal key before b (x ∷ after) h,
  first_greaterequal-rejoin key before b (x ∷ after) h,
)

greater_right-first_greaterequal :
    (key : ℕ) (before : List Element) (x : Element) (after : List Element)
    → IsChain (rejoin before (x ∷ after))
    → greater_right key before x after ≡ first_greaterequal key (rejoin before (x ∷ after))
unfolding greater_right rejoin first_greaterequal
greater_right-first_greaterequal key before x [] h = ground (
  arith,
  go_left-first_greaterequal key before x [] h,
  first_greaterequal-rejoin key before x [] h,
)
greater_right-first_greaterequal key before x (y ∷ ys) h = ground (
  arith,
  go_left-first_greaterequal key before x (y ∷ ys) h,
  greater_right-first_greaterequal key (x ∷ before) y ys h,
)

avl_find_greaterequal-first :
    (t : AvlTree) (key : ℕ) → IsAvl t → avl_find_greaterequal t key ≡ first_greaterequal key t.list
unfolding avl_find_greaterequal first_greaterequal rejoin
avl_find_greaterequal-first t key v = elim (Bool-cases (is_null t.root)) [
  | inl null ↦
      rw (find_rec_null none t.root key null, (empty_list t v null).1, avl_find_greaterequal) refl
  | inr full ↦
      let (f, found, fits) = find_rec_lem none t.root key full v.balanced (IsAvl-IsOrdered t v) in
      let (before, x, after, cut, whole) =
        split_at-rejoin f.id f.key [] t.list (found_leader t f key v fits) in
      rw (found, cut, avl_find_greaterequal)
        (greater_right-first_greaterequal key before x after (subst IsChain (sym whole) v.chain)
          ∙ ap (first_greaterequal key) whole)
]

-- In a valid container `avl_find_lessequal` gives the last element of the list whose key is not
-- greater, and `avl_find_greaterequal` the first whose key is not less; each gives none if there is
-- no such element.
pub avl_find_nearest :
    (t : AvlTree) (key : ℕ)
    → IsAvl t
    → (avl_find_lessequal t key ≡ last_lessequal key t.list)
      × (avl_find_greaterequal t key ≡ first_greaterequal key t.list)
avl_find_nearest t key v = (avl_find_lessequal-last t key v, avl_find_greaterequal-first t key v)
