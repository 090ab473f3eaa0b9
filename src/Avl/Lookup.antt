-- ===== src/Avl/Lookup.antt =====
-- `avl_find` of src/common/avl.c against a scan of the list.
use olsr.Prelude.{
  ℕ, ◌<◌, ◌≡◌, inl, inr, refl, sym, subst, ◌∙◌, false, List, [], ◌∷◌, Option, none, some, ◌==◌,
  if◌then◌else◌, arith, Bool-cases,
}
use olsr.Avl.{Element, AvlTree, is_null, avl_find}
use olsr.Avl.Find.{find_rec_null, find_rec_lem, compare-cases}
use olsr.Avl.Chain.{Follows, IsChain, leaders, has_key, leaders-Follows}
use olsr.Avl.Member.{In, In-All, In-leaders}
use olsr.Avl.Valid.{IsAvl, IsAvl-IsOrdered, empty_list, found_leader, found_absent}

-- The first element of the list that has the key.
unfoldable pub first_of : ℕ → List Element → Option ℕ
first_of key [] = none
first_of key (x ∷ xs) = let rest = first_of key xs in if x.key == key then some x.id else rest

first_of_absent : (key : ℕ) (xs : List Element) → has_key key xs ≡ false → first_of key xs ≡ none
unfolding first_of has_key
first_of_absent key [] h = refl
first_of_absent key (x ∷ xs) h = ground (arith, first_of_absent key xs)

first_of-Follows :
    (id key : ℕ) (x : Element) (xs : List Element)
    → Follows x xs
    → In id key (leaders (x ∷ xs))
    → first_of key (x ∷ xs) ≡ some id
unfolding first_of leaders
first_of-Follows id key x [] h found = elim (In-leaders id key x [] found) [
  | inl here ↦ ground (arith, here)
  | inr more ↦ absurd more
]
first_of-Follows id key x (y ∷ ys) h found = elim (In-leaders id key x (y ∷ ys) found) [
  | inl here ↦ ground (arith, here)
  | inr more ↦
      let less : x.key < key =
        In-All (λ p. x.key < p.1) id key (leaders (y ∷ ys)) (leaders-Follows x (y ∷ ys) h).0 more in
      ground (arith, less, first_of-Follows id key y ys h.2 more)
]

first_of-leaders :
    (id key : ℕ) (xs : List Element)
    → IsChain xs
    → In id key (leaders xs)
    → first_of key xs ≡ some id
unfolding leaders
first_of-leaders id key [] h found = absurd found
first_of-leaders id key (x ∷ xs) h found = first_of-Follows id key x xs h.1 found

-- In a valid container `avl_find` gives the first element of the list that has the key, and none if
-- no element has it.
pub avl_find-first_of : (t : AvlTree) (key : ℕ) → IsAvl t → avl_find t key ≡ first_of key t.list
unfolding avl_find first_of
avl_find-first_of t key v = elim (Bool-cases (is_null t.root)) [
  | inl null ↦ rw (find_rec_null none t.root key null, (empty_list t v null).1, avl_find) refl
  | inr full ↦
      let (f, found, fits) = find_rec_lem none t.root key full v.balanced (IsAvl-IsOrdered t v) in
      let absent = found_absent t f key v fits in
      elim (compare-cases key f.key) [
        | inl (less, h) ↦
            let diff = fits.1 ∙ less in
            rw (found, diff, first_of_absent key t.list (absent (ground (arith, diff))), avl_find)
              refl
        | inr (inl (same, h)) ↦
            let diff = fits.1 ∙ same in
            let there = first_of-leaders f.id f.key t.list v.chain (found_leader t f key v fits) in
            rw (found, diff, subst (λ k. first_of k t.list ≡ some f.id) (sym h) there, avl_find)
              refl
        | inr (inr (more, h)) ↦
            let diff = fits.1 ∙ more in
            rw (found, diff, first_of_absent key t.list (absent (ground (arith, diff))), avl_find)
              refl
      ]
]
