-- ===== src/Avl/Walk.antt =====
-- `avl_find_lessequal` and `avl_find_greaterequal` of src/common/avl.c, which walk along the list
-- from the node that `int_avl_find_rec` gives.
use Prim.Native.Nat.{compare}
use Prim.Native.Nat.Ordering.{lt, gt}
use olsr.Prelude.{ℕ, ◌==◌, if◌then◌else◌, List, [], ◌∷◌, Option, none, some}
use olsr.Avl.{Element, AvlTree, find_rec}

-- The elements before an address, the nearest first, the element and what follows it.
unfoldable pub split_at :
    ℕ → List Element → List Element → Option (List Element × Element × List Element)
split_at id before [] = none
split_at id before (x ∷ xs) =
    if x.id == id then some (before, x, xs) else split_at id (x ∷ before) xs

-- The loops of `avl_find_lessequal` over the list: to the left as long as the key is less, and then
-- to the right as long as the next key is not greater.
unfoldable pub go_right : ℕ → Element → List Element → Option ℕ
go_right key x [] = some x.id
go_right key x (next ∷ after) = elim (compare key next.key) [
  | lt ↦ some x.id
  | _ ↦ go_right key next after
]

unfoldable pub less_left : ℕ → List Element → Element → List Element → Option ℕ
less_left key [] x after = elim (compare key x.key) [ lt ↦ none | _ ↦ go_right key x after ]
less_left key (prev ∷ before) x after = elim (compare key x.key) [
  | lt ↦ less_left key before prev (x ∷ after)
  | _ ↦ go_right key x after
]

unfoldable pub avl_find_lessequal : AvlTree → ℕ → Option ℕ
avl_find_lessequal tree key = elim (find_rec none tree.root key) [
  | none ↦ none
  | some f ↦ elim (split_at f.id [] tree.list) [
    | none ↦ none
    | some (before, x, after) ↦ less_left key before x after
  ]
]

-- Those of `avl_find_greaterequal`: to the right as long as the key is greater, and then to the left
-- as long as the next key is not less.
unfoldable pub go_left : ℕ → List Element → Element → Option ℕ
go_left key [] x = some x.id
go_left key (next ∷ before) x = elim (compare key next.key) [
  | gt ↦ some x.id
  | _ ↦ go_left key before next
]

unfoldable pub greater_right : ℕ → List Element → Element → List Element → Option ℕ
greater_right key before x [] = elim (compare key x.key) [ gt ↦ none | _ ↦ go_left key before x ]
greater_right key before x (next ∷ after) = elim (compare key x.key) [
  | gt ↦ greater_right key (x ∷ before) next after
  | _ ↦ go_left key before x
]

unfoldable pub avl_find_greaterequal : AvlTree → ℕ → Option ℕ
avl_find_greaterequal tree key = elim (find_rec none tree.root key) [
  | none ↦ none
  | some f ↦ elim (split_at f.id [] tree.list) [
    | none ↦ none
    | some (before, x, after) ↦ greater_right key before x after
  ]
]
