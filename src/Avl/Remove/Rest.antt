-- ===== src/Avl/Remove/Rest.antt =====
-- What stays in the linked list of src/common/avl.c after a removal.
use olsr.Prelude.{
  ℕ, suc, ◌≡◌, refl, sym, ap, ◌∙◌, true, false, List, [], ◌∷◌, none, All, length, ◌==◌, arith,
  if_rule, if_cases,
}
use olsr.Avl.{Element, element, behind}
use olsr.Avl.Chain.{IsFresh, IsUnique}
use olsr.Avl.Remove.{list_remove, set_leader, next_dup}
use olsr.Avl.Remove.Unlink.{Has, Has-behind}

pub All-list_remove {ℓ} :
    (P : Element → Type ℓ) (id : ℕ) (xs : List Element) → All P xs → All P (list_remove id xs)
unfolding list_remove
All-list_remove P id [] a = tt
All-list_remove P id (x ∷ xs) a =
    if_rule (All P) (x.id == id) xs (x ∷ list_remove id xs) a.1 (a.0, All-list_remove P id xs a.1)

pub list_remove-IsUnique : (id : ℕ) (xs : List Element) → IsUnique xs → IsUnique (list_remove id xs)
unfolding list_remove
list_remove-IsUnique id [] u = tt
list_remove-IsUnique id (x ∷ xs) u =
    if_rule IsUnique (x.id == id) xs (x ∷ list_remove id xs) u.1
      (All-list_remove (λ y. (y.id == x.id) ≡ false) id xs u.0, list_remove-IsUnique id xs u.1)

-- The marks of the leaders aside, the list is the same.
unfoldable pub entries : List Element → List (ℕ × ℕ)
entries [] = []
entries (x ∷ xs) = (x.id, x.key) ∷ entries xs

entries-set_leader_whole : (dup : ℕ) (xs : List Element) → entries (set_leader dup xs) ≡ entries xs
unfolding set_leader entries
entries-set_leader_whole dup [] = refl
entries-set_leader_whole dup (x ∷ xs) =
    if_cases (λ (r : List Element). entries r ≡ entries (x ∷ xs)) (x.id == dup)
      (element x.id x.key true ∷ xs) (x ∷ set_leader dup xs) (λ this. refl)
      (λ other. ap (λ r. (x.id, x.key) ∷ r) (entries-set_leader_whole dup xs))

pub entries-set_leader :
    (id dup : ℕ) (xs : List Element)
    → entries (list_remove id (set_leader dup xs)) ≡ entries (list_remove id xs)
unfolding set_leader entries list_remove
entries-set_leader id dup [] = refl
entries-set_leader id dup (x ∷ xs) =
    if_cases (λ (r : List Element). entries (list_remove id r) ≡ entries (list_remove id (x ∷ xs)))
      (x.id == dup) (element x.id x.key true ∷ xs) (x ∷ set_leader dup xs) (λ this. ground arith)
      (λ other. ground (arith, entries-set_leader id dup xs, entries-set_leader_whole dup xs))

length-entries : (xs : List Element) → length (entries xs) ≡ length xs
unfolding entries
length-entries [] = refl
length-entries (x ∷ xs) = ap suc (length-entries xs)

pub length_same : (xs ys : List Element) → entries xs ≡ entries ys → length xs ≡ length ys
length_same xs ys same = sym (length-entries xs) ∙ ap length same ∙ length-entries ys

pub length-list_remove :
    (e : Element) (xs : List Element) → Has e xs → suc (length (list_remove e.id xs)) ≡ length xs
unfolding list_remove
length-list_remove e [] there = absurd there
length-list_remove e (x ∷ xs) there =
    ground (arith, Has-behind e x xs there, length-list_remove e xs)

IsFresh-set_leader :
    (id dup : ℕ) (xs : List Element) → IsFresh id xs → IsFresh id (set_leader dup xs)
unfolding set_leader
IsFresh-set_leader id dup [] f = tt
IsFresh-set_leader id dup (x ∷ xs) f =
    if_rule (IsFresh id) (x.id == dup) (element x.id x.key true ∷ xs) (x ∷ set_leader dup xs) f
      (f.0, IsFresh-set_leader id dup xs f.1)

pub set_leader-IsUnique : (dup : ℕ) (xs : List Element) → IsUnique xs → IsUnique (set_leader dup xs)
unfolding set_leader
set_leader-IsUnique dup [] u = tt
set_leader-IsUnique dup (x ∷ xs) u =
    if_rule IsUnique (x.id == dup) (element x.id x.key true ∷ xs) (x ∷ set_leader dup xs) u
      (IsFresh-set_leader x.id dup xs u.0, set_leader-IsUnique dup xs u.1)

-- Where all elements lead, none hangs on another.
pub next_dup-none :
    (id : ℕ) (xs : List Element) → All (λ x. x.leader ≡ true) xs → next_dup (behind id xs) ≡ none
unfolding next_dup behind
next_dup-none id [] a = refl
next_dup-none id (x ∷ []) a = ground arith
next_dup-none id (x ∷ y ∷ ys) a = ground (arith, a.1.0, next_dup-none id (y ∷ ys) a.1)
