-- ===== src/Avl/Tests.antt =====
-- Runs of the containers of src/common/avl.c, and the theorems at them.
use olsr.Prelude.{arith, ◌≡◌, refl, inl, inr, true, false, [], ◌∷◌, Option, some}
use olsr.Prelude.Int.{pos, ◌+ℤ◌, ◌-ℤ◌}
use olsr.Avl.{
  AvlTree, leaf, node, element, avl_insert, avl_find, find_rec, insert_below, attach,
  post_insert_left, post_insert_right, rotate_left, rotate_right, int_avl_max, int_avl_min, eq_ℤ,
  balance_of, is_null, new_node, link_new, insert_before, insert_after, behind, last_dup,
}
use olsr.Avl.Balance.{height}
use olsr.Avl.Order.{inorder}
use olsr.Avl.Chain.{leaders}
use olsr.Avl.Valid.{IsAvl}
use olsr.Avl.Insert.{Outcome, avl_insert_refines}
use olsr.Avl.Lookup.{first_of, avl_find-first_of}
use olsr.Avl.Walk.{avl_find_lessequal, avl_find_greaterequal}
use olsr.Avl.Nearest.{last_lessequal, first_greaterequal, avl_find_nearest}
use olsr.Avl.Remove.{avl_remove}
use olsr.Avl.Remove.Refine.{Removed, avl_remove_refines}

-- Two keys, 10 and 20, the second one twice.
abbrev three_elements : AvlTree
three_elements = record {
  root = node leaf 1 10 (pos 1) (node leaf 2 20 (pos 0) leaf);
  list = element 1 10 true ∷ element 2 20 true ∷ element 3 20 false ∷ [];
  count = 3;
  allow_dups = true;
}

three_elements-IsAvl : IsAvl three_elements
unfolding inorder leaders height
three_elements-IsAvl = record {
  chain = ground arith;
  unique = ground arith;
  nodes = refl;
  balanced = ground arith;
  counted = refl;
  single = λ h. cc;
}

-- A third key, 30, turns the root to the left.
insert_example : Option AvlTree
insert_example = avl_insert three_elements 4 30

insert_example_runs :
    insert_example
    ≡ some (record {
      root = node (node leaf 1 10 (pos 0) leaf) 2 20 (pos 0) (node leaf 4 30 (pos 0) leaf);
      list = element 1 10 true ∷ element 2 20 true ∷ element 3 20 false ∷ element 4 30 true ∷ [];
      count = 4;
      allow_dups = true;
    })
unfolding insert_example avl_insert find_rec insert_below attach post_insert_left post_insert_right
    rotate_left rotate_right int_avl_max int_avl_min eq_ℤ balance_of is_null new_node link_new
    insert_before insert_after behind last_dup ◌+ℤ◌ ◌-ℤ◌
insert_example_runs = refl

avl_insert_refines_example : Outcome three_elements 4 30 (avl_insert three_elements 4 30)
avl_insert_refines_example =
    avl_insert_refines three_elements 4 30 three_elements-IsAvl (refl, (refl, (refl, tt)))

avl_find-first_of_example : avl_find three_elements 20 ≡ first_of 20 three_elements.list
avl_find-first_of_example = avl_find-first_of three_elements 20 three_elements-IsAvl

avl_find_nearest_example :
    (avl_find_lessequal three_elements 25 ≡ last_lessequal 25 three_elements.list)
    × (avl_find_greaterequal three_elements 25 ≡ first_greaterequal 25 three_elements.list)
avl_find_nearest_example = avl_find_nearest three_elements 25 three_elements-IsAvl

avl_remove_refines_example :
    Removed three_elements (element 2 20 true) (avl_remove three_elements (element 2 20 true))
avl_remove_refines_example =
    avl_remove_refines three_elements (element 2 20 true) three_elements-IsAvl
      (inr (inl (refl, refl, refl)))
