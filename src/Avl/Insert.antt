-- ===== src/Avl/Insert.antt =====
-- `avl_insert` of src/common/avl.c against a sorted list.
use Prim.Native.Nat.Ordering.{eq}
use olsr.Prelude.{
  ℕ, suc, ◌≡◌, ◌≢◌, ◌⊎◌, inl, inr, refl, sym, subst, ap, ◌∙◌, true, false, not, [], ◌∷◌, Option,
  none, some, All, arith, Bool-cases,
}
use olsr.Avl.{
  AvlTree, Found, element, find_rec, is_null, new_node, insert_below, link_new, insert_after,
  last_dup, behind, avl_insert,
}
use olsr.Avl.Balance.{height, insert_below-HasGrown}
use olsr.Avl.Order.{inorder, place, inorder-insert_below, All-inorder}
use olsr.Avl.Find.{Fits, find_rec_null, find_rec_lem, compare-cases}
use olsr.Avl.Chain.{
  leaders, IsFresh, insert_element, has_key, insert_element-IsChain, insert_element-IsChain_dup,
  insert_element-IsUnique, length-insert_element, All-insert_element,
}
use olsr.Avl.Place.{link_new-insert_element, insert_after-insert_element}
use olsr.Avl.Valid.{
  IsAvl, IsAvl-IsOrdered, leaders-absent, has_key-leaders, empty_list, found_leader, found_below,
  found_above, found_absent,
}

-- What an insertion that succeeds gives: the element is in the list behind all that have its key or
-- a smaller one, and it leads if it is the first of its key.
abbrev pub Inserted : AvlTree → ℕ → ℕ → AvlTree → Type 0
Inserted t id key r =
    (r.list ≡ insert_element (element id key (not (has_key key t.list))) t.list)
    × (r.allow_dups ≡ t.allow_dups)
    × IsAvl r

inorder-insert_new :
    (t : AvlTree) (id key : ℕ)
    → IsAvl t
    → is_null t.root ≡ false
    → has_key key t.list ≡ false
    → inorder (insert_below t.root id key).0 [] ≡ place id key (leaders t.list)
inorder-insert_new t id key v full absent =
    let new = subst (All (λ p. p.1 ≢ key)) (sym v.nodes) (leaders-absent key t.list absent) in
    inorder-insert_below t.root id key [] full v.balanced (IsAvl-IsOrdered t v)
      (All-inorder (λ p. p.1 ≢ key) t.root [] new).0 tt
    ∙ ap (place id key) v.nodes

insert_new :
    (t : AvlTree) (id key : ℕ) (f : Found)
    → IsAvl t
    → IsFresh id t.list
    → is_null t.root ≡ false
    → Fits key t.root f
    → f.diff ≢ eq
    → (has_key key t.list ≡ false)
      × Inserted t id key (record t {
        list = link_new f id key t.list;
        root = (insert_below t.root id key).0;
        count = suc t.count;
      })
insert_new t id key f v fresh full fits new =
    let absent = found_absent t f key v fits new in
    let linked =
      link_new-insert_element f id key t.list v.chain v.unique (found_leader t f key v fits)
        (found_below t f key v fits) (found_above t f key v fits) new in
    let (chain, joined) = insert_element-IsChain id key t.list v.chain absent in
    (
      absent,
      (
        rw (absent, linked) refl,
        refl,
        record {
          chain = rw linked chain;
          unique = rw linked (insert_element-IsUnique (element id key true) t.list fresh v.unique);
          nodes = inorder-insert_new t id key v full absent ∙ rw (linked, joined) refl;
          balanced = (insert_below-HasGrown t.root id key v.balanced).0;
          counted =
              rw linked
                (omega (arith, v.counted, length-insert_element (element id key true) t.list));
          single = λ h. rw linked (
              All-insert_element (λ x. x.leader ≡ true) (element id key true) t.list refl
                (v.single h));
        },
      ),
    )

found_there :
    (t : AvlTree) (f : Found) (key : ℕ)
    → IsAvl t
    → Fits key t.root f
    → f.diff ≡ eq
    → has_key key t.list ≡ true
found_there t f key v fits same =
    subst (λ k. has_key k t.list ≡ true) (sym (ground (arith, fits.1, same)))
      (has_key-leaders f.id f.key t.list (found_leader t f key v fits))

insert_dup :
    (t : AvlTree) (id key : ℕ) (f : Found)
    → IsAvl t
    → IsFresh id t.list
    → Fits key t.root f
    → f.diff ≡ eq
    → t.allow_dups ≡ true
    → (has_key key t.list ≡ true)
      × Inserted t id key (record t {
        list = insert_after (last_dup f.id (behind f.id t.list)) (element id key false) t.list;
        count = suc t.count;
      })
insert_dup t id key f v fresh fits same allowed =
    let found = found_leader t f key v fits in
    let at : key ≡ f.key = ground (arith, fits.1, same) in
    let there = found_there t f key v fits same in
    let linked =
      insert_after-insert_element f.id f.key (element id key false) t.list v.chain v.unique found
        at in
    let (chain, joined) = insert_element-IsChain_dup id key t.list v.chain there in
    (
      there,
      (
        rw (there, linked) refl,
        refl,
        record {
          chain = rw linked chain;
          unique = rw linked (insert_element-IsUnique (element id key false) t.list fresh v.unique);
          nodes = v.nodes ∙ rw (linked, joined) refl;
          balanced = v.balanced;
          counted =
              rw linked
                (omega (arith, v.counted, length-insert_element (element id key false) t.list));
          single = λ h. cc;
        },
      ),
    )

insert_first :
    (t : AvlTree) (id key : ℕ)
    → IsAvl t
    → is_null t.root ≡ true
    → (has_key key t.list ≡ false)
      × Inserted t id key
          (record t { list = element id key true ∷ t.list; root = new_node id key; count = 1 })
unfolding has_key insert_element inorder leaders new_node height
insert_first t id key v null =
    let none_there = (empty_list t v null).1 in
    (
      rw none_there refl,
      (
        rw none_there refl,
        refl,
        record {
          chain = rw none_there (refl, tt);
          unique = rw none_there (tt, tt);
          nodes = rw none_there refl;
          balanced = ground arith;
          counted = rw none_there refl;
          single = λ h. rw none_there (refl, tt);
        },
      ),
    )

-- A collision without duplicates, or an insertion.
abbrev pub Outcome : AvlTree → ℕ → ℕ → Option AvlTree → Type 0
Outcome t id key o =
    (o ≡ none) × (has_key key t.list ≡ true) × (t.allow_dups ≡ false)
    ⊎ ((r : AvlTree) × (o ≡ some r)
        × (has_key key t.list ≡ true → t.allow_dups ≡ true)
        × Inserted t id key r)

avl_insert_found :
    (t : AvlTree) (id key : ℕ) (f : Found)
    → IsAvl t
    → IsFresh id t.list
    → is_null t.root ≡ false
    → Fits key t.root f
    → find_rec none t.root key ≡ some f
    → Outcome t id key (avl_insert t id key)
unfolding avl_insert
avl_insert_found t id key f v fresh full fits found =
    let new = insert_new t id key f v fresh full fits in
    let dup = insert_dup t id key f v fresh fits in
    elim (compare-cases key f.key) [
      | inl (less, h) ↦
          let diff = fits.1 ∙ less in
          let (absent, done) = new (ground (arith, diff)) in
          inr (_, ground (arith, found, diff), (λ there. cc), done)
      | inr (inl (same, h)) ↦
          let diff = fits.1 ∙ same in
          elim (Bool-cases t.allow_dups) [
            | inl allowed ↦
                let (there, done) = dup diff allowed in
                inr (_, ground (arith, found, diff, allowed), (λ _. allowed), done)
            | inr refused ↦
                let there = found_there t f key v fits diff in
                inl (ground (arith, found, diff, refused), there, refused)
          ]
      | inr (inr (more, h)) ↦
          let diff = fits.1 ∙ more in
          let (absent, done) = new (ground (arith, diff)) in
          inr (_, ground (arith, found, diff), (λ there. cc), done)
    ]

-- `avl_insert` fails exactly if the key is there and the tree takes no duplicates. Otherwise the new
-- element, whose address is not in the list, goes behind all elements that have its key or a smaller
-- one and leads if it is the first of its key, and the list stays sorted with its leaders marked,
-- the tree stays balanced with the leaders from left to right, and the count is the length of the
-- list.
pub avl_insert_refines :
    (t : AvlTree) (id key : ℕ)
    → IsAvl t
    → IsFresh id t.list
    → Outcome t id key (avl_insert t id key)
unfolding avl_insert
avl_insert_refines t id key v fresh = elim (Bool-cases (is_null t.root)) [
  | inl null ↦
      let (absent, done) = insert_first t id key v null in
      inr (_, rw (find_rec_null none t.root key null, avl_insert) refl, (λ there. cc), done)
  | inr full ↦
      let (f, found, fits) = find_rec_lem none t.root key full v.balanced (IsAvl-IsOrdered t v) in
      avl_insert_found t id key f v fresh full fits found
]
