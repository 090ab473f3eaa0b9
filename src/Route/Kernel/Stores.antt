-- ===== src/Route/Kernel/Stores.antt =====
-- The trees of paths and of route entries of src/routing_table.c under the operations that insert,
-- write through a pointer and remove.
use olsr.Prelude.{
  ℕ, ◌≡◌, refl, inl, inr, true, false, ◌||◌, ◌==◌, if◌then◌else◌, Bool-cases, if_rule, if_cases,
  Option, none, some, arith, List, [], ◌∷◌, ap, subst, sym, ◌∙◌, All,
}
use olsr.Prelude.Int.{pos, ltb_ℤ}
use olsr.Spf.Nodes.{mem, IsNodup}
use olsr.Route.{
  RtPath, RtEntry, RtConfig, comp_addr_origin, comp_prefix, insert_path, insert_entry, write_path,
  remove_path, find_entry, write_entry, alloc_rt_entry,
}
use olsr.Route.Kernel.{has_interface}
use olsr.Route.Kernel.Reliable.{installed, dsts}
use olsr.Route.Kernel.Tree.{ids}

pub insert_path-All {κ} :
    (Q : RtPath → Type κ) (cfg : RtConfig) (new : RtPath) (ps : List RtPath)
    → Q new
    → All Q ps
    → All Q (insert_path cfg new ps)
unfolding insert_path
insert_path-All Q cfg new [] here all = (here, tt)
insert_path-All Q cfg new (p ∷ ps) here all =
    if_rule (All Q) (ltb_ℤ (comp_addr_origin cfg new p) (pos 0)) (new ∷ p ∷ ps)
      (p ∷ insert_path cfg new ps) (here, all) (all.0, insert_path-All Q cfg new ps here all.1)

pub mem-insert_path :
    (a : ℕ) (cfg : RtConfig) (new : RtPath) (ps : List RtPath)
    → mem a (ids (insert_path cfg new ps)) ≡ (a == new.id || mem a (ids ps))
unfolding insert_path mem
mem-insert_path a cfg new [] = refl
mem-insert_path a cfg new (p ∷ ps) =
    let rest = mem-insert_path a cfg new ps in
    elim (Bool-cases (ltb_ℤ (comp_addr_origin cfg new p) (pos 0))) [
      | inl before ↦ rw before refl
      | inr behind ↦ rw behind (ground (arith, rest))
    ]

pub insert_path-IsNodup :
    (cfg : RtConfig) (new : RtPath) (ps : List RtPath)
    → mem new.id (ids ps) ≡ false
    → IsNodup (ids ps)
    → IsNodup (ids (insert_path cfg new ps))
unfolding insert_path mem
insert_path-IsNodup cfg new [] apart n = (refl, tt)
insert_path-IsNodup cfg new (p ∷ ps) apart n =
    if_rule (λ l. IsNodup (ids l)) (ltb_ℤ (comp_addr_origin cfg new p) (pos 0)) (new ∷ p ∷ ps)
      (p ∷ insert_path cfg new ps) (apart, n)
      (
        mem-insert_path p.id cfg new ps ∙ ground (arith, apart, n.0),
        insert_path-IsNodup cfg new ps (ground (arith, apart)) n.1,
      )

pub mem-insert_entry :
    (a : ℕ) (new : RtEntry) (es : List RtEntry)
    → mem a (dsts (insert_entry new es)) ≡ (a == new.dst || mem a (dsts es))
unfolding insert_entry mem
mem-insert_entry a new [] = refl
mem-insert_entry a new (e ∷ es) =
    let rest = mem-insert_entry a new es in
    elim (Bool-cases (ltb_ℤ (comp_prefix new.dst e.dst) (pos 0))) [
      | inl before ↦ rw before refl
      | inr behind ↦ rw behind (ground (arith, rest))
    ]

pub insert_entry-IsNodup :
    (new : RtEntry) (es : List RtEntry)
    → mem new.dst (dsts es) ≡ false
    → IsNodup (dsts es)
    → IsNodup (dsts (insert_entry new es))
unfolding insert_entry mem
insert_entry-IsNodup new [] apart n = (refl, tt)
insert_entry-IsNodup new (e ∷ es) apart n =
    if_rule (λ l. IsNodup (dsts l)) (ltb_ℤ (comp_prefix new.dst e.dst) (pos 0)) (new ∷ e ∷ es)
      (e ∷ insert_entry new es) (apart, n)
      (
        mem-insert_entry e.dst new es ∙ ground (arith, apart, n.0),
        insert_entry-IsNodup new es (ground (arith, apart)) n.1,
      )

find_entry-insert_entry :
    (a : ℕ) (new : RtEntry) (es : List RtEntry)
    → find_entry new.dst es ≡ none
    → find_entry a (insert_entry new es) ≡ (if new.dst == a then some new else find_entry a es)
unfolding insert_entry find_entry
find_entry-insert_entry a new [] h = refl
find_entry-insert_entry a new (e ∷ es) h =
    let off : (e.dst == new.dst) ≡ false = ground (arith, h) in
    let rest = find_entry-insert_entry a new es (ground (arith, h, off)) in
    if_rule (λ l. find_entry a l ≡ (if new.dst == a then some new else find_entry a (e ∷ es)))
      (ltb_ℤ (comp_prefix new.dst e.dst) (pos 0)) (new ∷ e ∷ es) (e ∷ insert_entry new es) refl
      (elim (Bool-cases (e.dst == a)) [
        | inl at ↦
            let other : (new.dst == a) ≡ false = ground (arith, off, at) in rw (at, other) refl
        | inr on ↦ rw on rest
      ])

-- A fresh entry has no route in the kernel.
pub installed-insert_entry :
    (a dst : ℕ) (es : List RtEntry)
    → find_entry dst es ≡ none
    → installed (find_entry a (insert_entry (alloc_rt_entry dst) es)) ≡ installed (find_entry a es)
unfolding has_interface
installed-insert_entry a dst es h =
    ap installed (find_entry-insert_entry a (alloc_rt_entry dst) es h)
    ∙ elim (Bool-cases (dst == a)) [
      | inl at ↦
          let same : dst ≡ a = ground (arith, at) in
          rw at (sym (ap installed (subst (λ d. find_entry d es ≡ none) same h)))
      | inr on ↦ rw on refl
    ]

-- A new best path changes no route.
pub dsts_best :
    (dst : ℕ) (best : Option ℕ) (es : List RtEntry)
    → dsts (write_entry dst (λ e. record e { best = best }) es) ≡ dsts es
unfolding write_entry
dsts_best dst best [] = refl
dsts_best dst best (e ∷ es) = elim (Bool-cases (e.dst == dst)) [
  | inl at ↦ rw at refl
  | inr on ↦ rw on (ap (λ ds. e.dst ∷ ds) (dsts_best dst best es))
]

pub installed_best :
    (a dst : ℕ) (best : Option ℕ) (es : List RtEntry)
    → installed (find_entry a (write_entry dst (λ e. record e { best = best }) es))
      ≡ installed (find_entry a es)
unfolding write_entry find_entry
installed_best a dst best [] = refl
installed_best a dst best (e ∷ es) = elim (Bool-cases (e.dst == dst)) [
  | inl at ↦
      rw at (elim (Bool-cases (e.dst == a)) [ inl here ↦ rw here refl | inr off ↦ rw off refl ])
  | inr on ↦ rw on (elim (Bool-cases (e.dst == a)) [
    | inl here ↦ rw here refl
    | inr off ↦ rw off (installed_best a dst best es)
  ])
]

pub ids-write_path :
    (id : ℕ) (write : RtPath → RtPath) (ps : List RtPath)
    → ((p : RtPath) → (write p).id ≡ p.id)
    → ids (write_path id write ps) ≡ ids ps
unfolding write_path
ids-write_path id write [] same = refl
ids-write_path id write (p ∷ ps) same = elim (Bool-cases (p.id == id)) [
  | inl at ↦ rw at (ap (λ i. i ∷ ids ps) (same p))
  | inr on ↦ rw on (ap (λ is. p.id ∷ is) (ids-write_path id write ps same))
]

-- What no operation on a path changes.
abbrev pub key : RtPath → ℕ × ℕ × ℕ
key p = (p.id, p.originator, p.dst)

abbrev pub keys : List RtPath → List (ℕ × ℕ × ℕ)
keys [] = []
keys (p ∷ ps) = key p ∷ keys ps

pub keys-write_path :
    (id : ℕ) (write : RtPath → RtPath) (ps : List RtPath)
    → ((p : RtPath) → key (write p) ≡ key p)
    → keys (write_path id write ps) ≡ keys ps
unfolding write_path
keys-write_path id write [] same = refl
keys-write_path id write (p ∷ ps) same = elim (Bool-cases (p.id == id)) [
  | inl at ↦ rw at (ap (λ i. i ∷ keys ps) (same p))
  | inr on ↦ rw on (ap (λ is. key p ∷ is) (keys-write_path id write ps same))
]

key-All : (Q : ℕ × ℕ × ℕ → Type 0) (ps : List RtPath) → All (λ p. Q (key p)) ps → All Q (keys ps)
key-All Q [] all = tt
key-All Q (p ∷ ps) all = (all.0, key-All Q ps all.1)

keys-All : (Q : ℕ × ℕ × ℕ → Type 0) (ps : List RtPath) → All Q (keys ps) → All (λ p. Q (key p)) ps
keys-All Q [] all = tt
keys-All Q (p ∷ ps) all = (all.0, keys-All Q ps all.1)

pub All-keys :
    (Q : ℕ × ℕ × ℕ → Type 0) (ps qs : List RtPath)
    → keys ps ≡ keys qs
    → All (λ p. Q (key p)) ps
    → All (λ p. Q (key p)) qs
All-keys Q ps qs same all = keys-All Q qs (subst (All Q) same (key-All Q ps all))

-- The write at a path that is there needs what is known of that path alone.
pub write_path_at {κ} :
    (P Q : RtPath → Type κ) (id : ℕ) (write : RtPath → RtPath) (ps : List RtPath)
    → ((p : RtPath) → (p.id == id) ≡ true → P p → Q (write p))
    → All P ps
    → All Q ps
    → All Q (write_path id write ps)
unfolding write_path
write_path_at P Q id write [] step all_p all = tt
write_path_at P Q id write (p ∷ ps) step all_p all =
    if_cases (All Q) (p.id == id) (write p ∷ ps) (p ∷ write_path id write ps)
      (λ at. (step p at all_p.0, all.1))
      (λ on. (all.0, write_path_at P Q id write ps step all_p.1 all.1))

pub apart-All :
    (id : ℕ) (ps : List RtPath) → mem id (ids ps) ≡ false → All (λ p. (p.id == id) ≡ false) ps
unfolding mem
apart-All id [] h = tt
apart-All id (p ∷ ps) h = (ground (arith, h), apart-All id ps (ground (arith, h)))

unhit :
    (R : RtPath → Type 0) (id : ℕ) (ps : List RtPath)
    → All (λ p. (p.id == id) ≡ false) ps
    → All (λ p. (p.id == id) ≡ true → R p) ps
unhit R id [] all = tt
unhit R id (p ∷ ps) all = (λ h. absurd (ground (arith, h, all.0)), unhit R id ps all.1)

-- What the write makes true of the path at the pointer; a path is at its own pointer only.
pub write_path_hit {κ} :
    (P : RtPath → Type κ) (R : RtPath → Type 0) (id : ℕ) (write : RtPath → RtPath)
    (ps : List RtPath)
    → IsNodup (ids ps)
    → ((p : RtPath) → (p.id == id) ≡ true → P p → R (write p))
    → All P ps
    → All (λ p. (p.id == id) ≡ true → R p) (write_path id write ps)
unfolding write_path
write_path_hit P R id write [] n step all = tt
write_path_hit P R id write (p ∷ ps) n step all =
    if_cases (All (λ p. (p.id == id) ≡ true → R p)) (p.id == id) (write p ∷ ps)
      (p ∷ write_path id write ps)
      (λ at.
        let same : p.id ≡ id = ground (arith, at) in
        (
          λ h. step p at all.0,
          unhit R id ps (apart-All id ps (subst (λ i. mem i (ids ps) ≡ false) same n.0)),
        ))
      (λ on. (λ h. absurd (ground (arith, h, on)), write_path_hit P R id write ps n.1 step all.1))

pub remove_path-All {κ} :
    (Q : RtPath → Type κ) (id : ℕ) (ps : List RtPath) → All Q ps → All Q (remove_path id ps)
unfolding remove_path
remove_path-All Q id [] all = tt
remove_path-All Q id (p ∷ ps) all =
    if_rule (All Q) (p.id == id) ps (p ∷ remove_path id ps) all.1
      (all.0, remove_path-All Q id ps all.1)

mem-remove_path :
    (a id : ℕ) (ps : List RtPath) → mem a (ids ps) ≡ false → mem a (ids (remove_path id ps)) ≡ false
unfolding remove_path mem
mem-remove_path a id [] h = refl
mem-remove_path a id (p ∷ ps) h =
    if_rule (λ l. mem a (ids l) ≡ false) (p.id == id) ps (p ∷ remove_path id ps) (ground (arith, h))
      (ground (arith, h, mem-remove_path a id ps))

pub remove_path-IsNodup :
    (id : ℕ) (ps : List RtPath) → IsNodup (ids ps) → IsNodup (ids (remove_path id ps))
unfolding remove_path
remove_path-IsNodup id [] n = tt
remove_path-IsNodup id (p ∷ ps) n =
    if_rule (λ l. IsNodup (ids l)) (p.id == id) ps (p ∷ remove_path id ps) n.1
      (mem-remove_path p.id id ps n.0, remove_path-IsNodup id ps n.1)
