-- ===== src/Mpr/Cover.antt =====
-- The loop over the two-hop neighbors of `olsr_calculate_lq_mpr2`: how each round changes the table,
-- and what it covers.
use olsr.Prelude.{
  ℕ, ◌<◌, ◌≡◌, refl, if_cases, if◌then◌else◌, true, false, some, List, [], ◌∷◌, ◌⊎◌, inl, inr,
  arith, Option-cases, ◌∙◌, sym,
}
use olsr.Spf.Nodes.{mem, update, IsNodup}
use olsr.Spf.{link_cost_broken}
use olsr.Mpr.{
  Table, NbrEntry, NbrCon, Nbr2Entry, Setting, is_eligible, found_better_path, clear_skip,
  direct_cost, cover, cover_all, for_all_nbr,
}
use olsr.Mpr.Pick.{ConIn}
use olsr.Mpr.Select.{
  Covered, Grows, Grows-refl, Grows-trans, select-Grows, select-sym, select-Covered,
}

abbrev pub Nbr2In : Nbr2Entry → List Nbr2Entry → Type 0
Nbr2In x [] = ⊥
Nbr2In x (y ∷ ys) = (x ≡ y) ⊎ Nbr2In x ys

-- Each entry of the tree is changed, and no other.
pub for_all_nbr_lem :
    (f : NbrEntry → NbrEntry) (ns : List ℕ) (nbr : Table) (n : ℕ)
    → IsNodup ns
    → for_all_nbr f ns nbr n ≡ (if mem n ns then f (nbr n) else nbr n)
unfolding for_all_nbr mem
for_all_nbr_lem f [] nbr n nodup = refl
for_all_nbr_lem f (m ∷ ms) nbr n nodup =
    for_all_nbr_lem f ms (update m (f (nbr m)) nbr) n nodup.1 ∙ ground (arith, nodup.0)

clear_skip-Grows : (con : List NbrCon) (nbr : Table) → Grows nbr (clear_skip con nbr)
unfolding clear_skip
clear_skip-Grows [] nbr = Grows-refl nbr
clear_skip-Grows (w ∷ ws) nbr =
    Grows-trans
      (record {
        relay = λ n h. ground arith;
        sym_same = λ n. ground arith;
        was_same = λ n. ground arith;
      })
      (clear_skip-Grows ws (update w.nbr (record (nbr w.nbr) { skip = false }) nbr))

clear_skip_same :
    (con : List NbrCon) (nbr : Table) (n : ℕ)
    → ((clear_skip con nbr n).is_mpr ≡ (nbr n).is_mpr)
      × ((clear_skip con nbr n).is_sym ≡ (nbr n).is_sym)
unfolding clear_skip
clear_skip_same [] nbr n = (refl, refl)
clear_skip_same (w ∷ ws) nbr n =
    let (mpr, sym_n) =
      clear_skip_same ws (update w.nbr (record (nbr w.nbr) { skip = false }) nbr) n in
    (mpr ∙ ground arith, sym_n ∙ ground arith)

clear_skip-keeps :
    (con : List NbrCon) (nbr : Table) (n : ℕ)
    → (nbr n).skip ≡ false
    → (clear_skip con nbr n).skip ≡ false
unfolding clear_skip
clear_skip-keeps [] nbr n h = h
clear_skip-keeps (w ∷ ws) nbr n h = clear_skip-keeps ws _ n (ground arith)

clear_skip-clears :
    (con : List NbrCon) (nbr : Table) (c : NbrCon)
    → ConIn c con
    → (clear_skip con nbr c.nbr).skip ≡ false
unfolding clear_skip
clear_skip-clears [] nbr c h = absurd h
clear_skip-clears (w ∷ ws) nbr c (inl same) = clear_skip-keeps ws _ c.nbr (rw same (ground arith))
clear_skip-clears (w ∷ ws) nbr c (inr later) = clear_skip-clears ws _ c later

found_better_path_lem :
    (con : List NbrCon) (bound : ℕ) (c : NbrCon)
    → ConIn c con
    → c.path_linkcost < bound
    → found_better_path con bound ≡ true
unfolding found_better_path
found_better_path_lem [] bound c h low = absurd h
found_better_path_lem (w ∷ ws) bound c (inl same) low = let low_w = rw same at low in ground arith
found_better_path_lem (w ∷ ws) bound c (inr later) low =
    ground (arith, found_better_path_lem ws bound c later low)

module _ (set : Setting) where
  cover-Grows : (nbr2 : Nbr2Entry) (nbr : Table) → Grows nbr (cover set nbr2 nbr)
  unfolding cover
  cover-Grows nbr2 nbr = elim (Option-cases (direct_cost set nbr nbr2.nbr2_addr)) [
    | inl without ↦ rw (without, cover) (Grows-refl nbr)
    | inr (bound, direct) ↦
        rw (direct, cover)
          (if_cases (Grows nbr) (found_better_path nbr2.con_tree bound) _ _
            (λ _.
              Grows-trans (clear_skip-Grows nbr2.con_tree nbr)
                (select-Grows set.mpr_coverage nbr2.con_tree bound _))
            (λ _. Grows-refl nbr))
  ]

  pub cover_all-Grows : (nbr2s : List Nbr2Entry) (nbr : Table) → Grows nbr (cover_all set nbr2s nbr)
  unfolding cover_all
  cover_all-Grows [] nbr = Grows-refl nbr
  cover_all-Grows (x ∷ xs) nbr =
      Grows-trans (cover-Grows x nbr) (cover_all-Grows xs (cover set x nbr))

  Covered-Grows :
      (k : ℕ) (con : List NbrCon) (nbr after : Table) (c : NbrCon)
      → Grows nbr after
      → Covered k con nbr c
      → Covered k con after c
  Covered-Grows k con nbr after c g (inl relay) = inl (g.relay c.nbr relay)
  Covered-Grows k con nbr after c g (inr r) = inr (record {
    chosen = r.chosen;
    enough = r.enough;
    distinct = r.distinct;
    relays = λ n h. g.relay n (r.relays n h);
    ways = r.ways;
  })

  pub direct_cost-Grows :
      (nbr after : Table) (addr : ℕ)
      → Grows nbr after
      → direct_cost set after addr ≡ direct_cost set nbr addr
  unfolding direct_cost
  direct_cost-Grows nbr after addr g = rw (g.sym_same addr) refl

  cover-Covered :
      (nbr2 : Nbr2Entry) (nbr : Table) (c : NbrCon) (bound : ℕ)
      → direct_cost set nbr nbr2.nbr2_addr ≡ some bound
      → ConIn c nbr2.con_tree
      → (nbr c.nbr).is_sym ≡ true
      → c.second_hop_linkcost < link_cost_broken
      → c.path_linkcost < bound
      → Covered set.mpr_coverage nbr2.con_tree (cover set nbr2 nbr) c
  unfolding cover is_eligible
  cover-Covered nbr2 nbr c bound direct has sym_c hop low =
      let better = found_better_path_lem nbr2.con_tree bound c has low in
      rw (direct, cover, better)
        (select-Covered nbr2.con_tree bound set.mpr_coverage (clear_skip nbr2.con_tree nbr) c has
          (ground (
            arith,
            clear_skip-clears nbr2.con_tree nbr c has,
            (clear_skip-Grows nbr2.con_tree nbr).sym_same c.nbr,
          ))
          low)

  pub cover_all-Covered :
      (nbr2s : List Nbr2Entry) (nbr2 : Nbr2Entry) (nbr : Table) (c : NbrCon) (bound : ℕ)
      → Nbr2In nbr2 nbr2s
      → direct_cost set nbr nbr2.nbr2_addr ≡ some bound
      → ConIn c nbr2.con_tree
      → (nbr c.nbr).is_sym ≡ true
      → c.second_hop_linkcost < link_cost_broken
      → c.path_linkcost < bound
      → Covered set.mpr_coverage nbr2.con_tree (cover_all set nbr2s nbr) c
  unfolding cover_all
  cover_all-Covered [] nbr2 nbr c bound h direct has sym_c hop low = absurd h
  cover_all-Covered (x ∷ xs) nbr2 nbr c bound (inl same) direct has sym_c hop low =
      Covered-Grows set.mpr_coverage nbr2.con_tree (cover set x nbr) _ c
        (cover_all-Grows xs (cover set x nbr))
        (rw (sym same) (cover-Covered nbr2 nbr c bound direct has sym_c hop low))
  cover_all-Covered (x ∷ xs) nbr2 nbr c bound (inr later) direct has sym_c hop low =
      let g = cover-Grows x nbr in
      cover_all-Covered xs nbr2 (cover set x nbr) c bound later
        (direct_cost-Grows nbr (cover set x nbr) nbr2.nbr2_addr g ∙ direct) has
        (g.sym_same c.nbr ∙ sym_c) hop low

  -- Only symmetric neighbors become relays.
  cover-sym :
      (nbr2 : Nbr2Entry) (nbr : Table) (n : ℕ)
      → ((nbr n).is_mpr ≡ true → (nbr n).is_sym ≡ true)
      → (cover set nbr2 nbr n).is_mpr ≡ true
      → (nbr n).is_sym ≡ true
  unfolding cover
  cover-sym nbr2 nbr n before = elim (Option-cases (direct_cost set nbr nbr2.nbr2_addr)) [
    | inl without ↦ rw (without, cover) before
    | inr (bound, direct) ↦
        rw (direct, cover)
          (if_cases (λ (t : Table). (t n).is_mpr ≡ true → (nbr n).is_sym ≡ true)
            (found_better_path nbr2.con_tree bound) _ _
            (λ _ h. ground (
              arith,
              select-sym nbr2.con_tree bound set.mpr_coverage (clear_skip nbr2.con_tree nbr) n h,
              clear_skip_same nbr2.con_tree nbr n,
              before,
            ))
            (λ _. before))
  ]

  pub cover_all-sym :
      (nbr2s : List Nbr2Entry) (nbr : Table) (n : ℕ)
      → ((nbr n).is_mpr ≡ true → (nbr n).is_sym ≡ true)
      → (cover_all set nbr2s nbr n).is_mpr ≡ true
      → (nbr n).is_sym ≡ true
  unfolding cover_all
  cover_all-sym [] nbr n before h = before h
  cover_all-sym (x ∷ xs) nbr n before h =
      let g = cover-Grows x nbr in
      ground (
        arith,
        g.sym_same n,
        cover_all-sym xs (cover set x nbr) n (λ r. g.sym_same n ∙ cover-sym x nbr n before r) h,
      )
