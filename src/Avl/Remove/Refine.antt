-- ===== src/Avl/Remove/Refine.antt =====
-- `avl_remove` of src/common/avl.c against the removal from a list.
use olsr.Prelude.{
  ℕ, ◌-◌, ◌≡◌, inl, inr, refl, sym, subst, ap, ◌∙◌, true, false, [], none, some, arith, Bool-cases,
  Option-cases,
}
use olsr.Avl.{Element, AvlTree, behind}
use olsr.Avl.Valid.{IsAvl, IsAvl-IsOrdered}
use olsr.Avl.Remove.{delete_below, take_over, list_remove, set_leader, next_dup, avl_remove}
use olsr.Avl.Remove.Shrink.{delete_below-HasShrunk, take_over-IsBalanced}
use olsr.Avl.Remove.Sequence.{at_key, drop_node, give_node, inorder-delete_below, inorder-take_over}
use olsr.Avl.Remove.Unlink.{
  Has, In-Has, list_remove-IsChain, drop_leader-IsChain, give_leader-IsChain,
}
use olsr.Avl.Remove.Rest.{
  list_remove-IsUnique, All-list_remove, entries, entries-set_leader, length_same,
  length-list_remove, set_leader-IsUnique, next_dup-none,
}

-- What a removal gives: the rest of the list in its order, the marks of the leaders aside.
abbrev pub Removed : AvlTree → Element → AvlTree → Type 0
Removed t e r =
    (entries r.list ≡ entries (list_remove e.id t.list)) × (r.allow_dups ≡ t.allow_dups) × IsAvl r

remove_dup :
    (t : AvlTree) (e : Element)
    → IsAvl t
    → Has e t.list
    → e.leader ≡ false
    → Removed t e (record t { list = list_remove e.id t.list; count = t.count - 1 })
remove_dup t e v there hangs =
    let (chain, same) = list_remove-IsChain e t.list v.chain v.unique there hangs in
    (
      refl,
      refl,
      record {
        chain = chain;
        unique = list_remove-IsUnique e.id t.list v.unique;
        nodes = v.nodes ∙ sym same;
        balanced = v.balanced;
        counted = omega (arith, v.counted, length-list_remove e t.list there);
        single = λ h. All-list_remove (λ x. x.leader ≡ true) e.id t.list (v.single h);
      },
    )

remove_last :
    (t : AvlTree) (e : Element)
    → IsAvl t
    → Has e t.list
    → e.leader ≡ true
    → next_dup (behind e.id t.list) ≡ none
    → Removed t e (record t {
      root = (delete_below t.root e.key).0;
      list = list_remove e.id t.list;
      count = t.count - 1;
    })
remove_last t e v there leads last =
    let found = In-Has e t.list leads there in
    let (chain, same) = drop_leader-IsChain e.id e.key t.list v.chain v.unique found last in
    (
      refl,
      refl,
      record {
        chain = chain;
        unique = list_remove-IsUnique e.id t.list v.unique;
        nodes =
            inorder-delete_below t.root e.key [] (IsAvl-IsOrdered t v) tt
            ∙ ap (at_key e.key drop_node) v.nodes
            ∙ sym same;
        balanced = (delete_below-HasShrunk t.root e.key v.balanced).0;
        counted = omega (arith, v.counted, length-list_remove e t.list there);
        single = λ h. All-list_remove (λ x. x.leader ≡ true) e.id t.list (v.single h);
      },
    )

remove_leader :
    (t : AvlTree) (e : Element) (dup : ℕ)
    → IsAvl t
    → Has e t.list
    → e.leader ≡ true
    → t.allow_dups ≡ true
    → next_dup (behind e.id t.list) ≡ some dup
    → Removed t e (record t {
      root = take_over dup e.key t.root;
      list = list_remove e.id (set_leader dup t.list);
      count = t.count - 1;
    })
remove_leader t e dup v there leads allowed next =
    let found = In-Has e t.list leads there in
    let (chain, same) = give_leader-IsChain e.id e.key dup t.list v.chain v.unique found next in
    let rest = entries-set_leader e.id dup t.list in
    (
      rest,
      refl,
      record {
        chain = chain;
        unique =
            list_remove-IsUnique e.id (set_leader dup t.list)
              (set_leader-IsUnique dup t.list v.unique);
        nodes =
            inorder-take_over dup t.root e.key [] (IsAvl-IsOrdered t v) tt
            ∙ ap (at_key e.key (give_node dup)) v.nodes
            ∙ sym same;
        balanced = (take_over-IsBalanced dup e.key t.root v.balanced).0;
        counted = omega (
          arith,
          v.counted,
          length_same (list_remove e.id (set_leader dup t.list)) (list_remove e.id t.list) rest,
          length-list_remove e t.list there,
        );
        single = λ h. cc;
      },
    )

-- `avl_remove` of an element of a valid container leaves all others in their order and the container
-- valid: the list sorted with its leaders marked, the tree balanced with the leaders from left to
-- right, and the count right.
pub avl_remove_refines :
    (t : AvlTree) (e : Element) → IsAvl t → Has e t.list → Removed t e (avl_remove t e)
unfolding avl_remove
avl_remove_refines t e v there = elim (Bool-cases e.leader) [
  | inr hangs ↦ subst (Removed t e) (rw (hangs, avl_remove) refl) (remove_dup t e v there hangs)
  | inl leads ↦ elim (Bool-cases t.allow_dups) [
    | inr single ↦
        subst (Removed t e) (rw (leads, single, avl_remove) refl)
          (remove_last t e v there leads (next_dup-none e.id t.list (v.single single)))
    | inl allowed ↦ elim (Option-cases (next_dup (behind e.id t.list))) [
      | inl last ↦
          subst (Removed t e) (rw (leads, allowed, last, avl_remove) refl)
            (remove_last t e v there leads last)
      | inr (dup, next) ↦
          subst (Removed t e) (rw (leads, allowed, next, avl_remove) refl)
            (remove_leader t e dup v there leads allowed next)
    ]
  ]
]
