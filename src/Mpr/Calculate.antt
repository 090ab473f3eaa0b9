-- ===== src/Mpr/Calculate.antt =====
-- `olsr_calculate_lq_mpr2` and `olsr_calculate_lq_mpr`: which neighbors are relays in the end, and
-- what the links learn of it.
use olsr.Prelude.{
  ℕ, ◌<◌, ◌≡◌, ◌≢◌, refl, ltb, if_cases, if◌then◌else◌, Bool, true, false, not, ◌&&◌, some, List,
  [], ◌∷◌, inl, inr, arith, Bool-cases, ◌∙◌, sym, ◌↔◌,
}
use olsr.Spf.Nodes.{mem, IsNodup}
use olsr.Link.{LinkEntry}
use olsr.Spf.{link_cost_broken}
use olsr.Link.Best.{LinkIn}
use olsr.Mpr.{
  Table, NbrCon, Nbr2Entry, Setting, MprState, direct_cost, clear_mpr, for_all_nbr, store_old,
  calculate_lq_mpr2, calculate_lq_mpr, mpr_changes, copy_mpr, differ, will_always,
}
use olsr.Mpr.Pick.{ConIn}
use olsr.Mpr.Select.{Covered}
use olsr.Mpr.Cover.{Nbr2In, for_all_nbr_lem, cover_all-Grows, cover_all-Covered, cover_all-sym}

module _ (set : Setting) (nodup : IsNodup set.nbr_tree) (nbr2_tree : List Nbr2Entry)
    (nbr : Table) where
  first_pass : Table
  first_pass = for_all_nbr clear_mpr set.nbr_tree nbr

  first_pass-sym : (n : ℕ) → (first_pass n).is_sym ≡ (nbr n).is_sym
  unfolding first_pass clear_mpr
  first_pass-sym n = ground (arith, for_all_nbr_lem clear_mpr set.nbr_tree nbr n nodup)

  first_pass-direct : (addr : ℕ) → direct_cost set first_pass addr ≡ direct_cost set nbr addr
  unfolding direct_cost
  first_pass-direct addr = rw (first_pass-sym addr) refl

  -- After `olsr_calculate_lq_mpr2`, on a neighbor tree without duplicates, each connector of each
  -- two-hop neighbor that leads over a symmetric neighbor, by a second hop that is not broken, at a
  -- path cost below that of the direct link if there is one, is covered: its neighbor is a relay, or
  -- `mpr_coverage` different neighbors that lead to the same two-hop neighbor are relays, each at a
  -- path cost that is no higher.
  pub calculate_lq_mpr2-Covered :
      (nbr2 : Nbr2Entry) (c : NbrCon) (best_1hop : ℕ)
      → Nbr2In nbr2 nbr2_tree
      → direct_cost set nbr nbr2.nbr2_addr ≡ some best_1hop
      → ConIn c nbr2.con_tree
      → (nbr c.nbr).is_sym ≡ true
      → c.second_hop_linkcost < link_cost_broken
      → c.path_linkcost < best_1hop
      → Covered set.mpr_coverage nbr2.con_tree (calculate_lq_mpr2 set nbr2_tree nbr) c
  unfolding calculate_lq_mpr2 first_pass
  calculate_lq_mpr2-Covered nbr2 c best_1hop listed direct has sym_c hop low =
      cover_all-Covered set nbr2_tree nbr2 first_pass c best_1hop listed
        (first_pass-direct nbr2.nbr2_addr ∙ direct) has (first_pass-sym c.nbr ∙ sym_c) hop low

  -- After `olsr_calculate_lq_mpr2`, on a neighbor tree without duplicates, a neighbor of the tree that
  -- is a relay is symmetric; and each symmetric one of any willingness but `WILL_ALWAYS` is a relay,
  -- whatever the two-hop neighbors are. (The comment in the code says that the pass which makes it one
  -- is for the neighbors of willingness `WILL_ALWAYS`.)
  pub calculate_lq_mpr2_relays :
      (n : ℕ)
      → mem n set.nbr_tree ≡ true
      → ((calculate_lq_mpr2 set nbr2_tree nbr n).is_mpr ≡ true → (nbr n).is_sym ≡ true)
        × ((nbr n).is_sym ≡ true
            → (nbr n).willingness ≢ will_always
            → (calculate_lq_mpr2 set nbr2_tree nbr n).is_mpr ≡ true)
  unfolding calculate_lq_mpr2 first_pass clear_mpr
  calculate_lq_mpr2_relays n listed =
      let entry = for_all_nbr_lem clear_mpr set.nbr_tree nbr n nodup in
      (
        (λ h.
            sym (first_pass-sym n)
            ∙ cover_all-sym set nbr2_tree first_pass n (λ r. ground (arith, entry, listed)) h),
        (λ sym_n other.
            (cover_all-Grows set nbr2_tree first_pass).relay n
              (ground (arith, entry, listed, sym_n, other))),
      )

-- The flags of the links are those of their neighbors, which are in the tree.
pub record Agrees (nbr_tree : List ℕ) (s : MprState) : Type 0 where
  pub in_tree : (l : LinkEntry) → LinkIn l s.links → mem l.neighbor nbr_tree ≡ true
  pub same : (l : LinkEntry) → LinkIn l s.links → l.is_mpr ≡ (s.nbr l.neighbor).is_mpr

differ_lem : (a b : Bool) → differ a b ≡ true → a ≢ b
unfolding differ
differ_lem true b h = ground arith
differ_lem false b h = ground arith

no_mpr_changes :
    (ns : List ℕ) (nbr : Table) (n : ℕ)
    → mpr_changes ns nbr ≡ false
    → mem n ns ≡ true
    → (nbr n).was_mpr ≡ (nbr n).is_mpr
unfolding mpr_changes differ mem
no_mpr_changes [] nbr n h listed = cc
no_mpr_changes (m ∷ ms) nbr n h listed = ground (arith, no_mpr_changes ms nbr n)

some_mpr_change :
    (ns : List ℕ) (nbr : Table)
    → mpr_changes ns nbr ≡ true
    → (n : ℕ) × (mem n ns ≡ true) × ((nbr n).was_mpr ≢ (nbr n).is_mpr)
unfolding mpr_changes differ mem
some_mpr_change [] nbr h = cc
some_mpr_change (m ∷ ms) nbr h = elim (Bool-cases (differ (nbr m).was_mpr (nbr m).is_mpr)) [
  | inl here ↦ (m, ground arith, differ_lem (nbr m).was_mpr (nbr m).is_mpr here)
  | inr not_here ↦
      let (n, listed, changed) = some_mpr_change ms nbr (rw not_here at h) in
      (n, ground (arith, listed), changed)
]

copied :
    (nbr : Table) (links : List LinkEntry) (l : LinkEntry)
    → LinkIn l (copy_mpr nbr links)
    → (x : LinkEntry) × LinkIn x links × (l ≡ record x { is_mpr = (nbr x.neighbor).is_mpr })
unfolding copy_mpr
copied nbr [] l h = absurd h
copied nbr (y ∷ ys) l (inl same) = (y, inl refl, same)
copied nbr (y ∷ ys) l (inr later) = let (x, has, same) = copied nbr ys l later in (x, inr has, same)

module _ (now_times : ℕ) (nbr_tree : List ℕ) (mpr_coverage tc_redundancy : ℕ)
    (nbr2_tree : List Nbr2Entry) (s : MprState) (nodup : IsNodup nbr_tree) where
  setting : Setting
  setting = record {
    now_times = now_times;
    links = s.links;
    nbr_tree = nbr_tree;
    mpr_coverage = mpr_coverage;
  }

  after : Table
  after = calculate_lq_mpr2 setting nbr2_tree (for_all_nbr store_old nbr_tree s.nbr)

  -- The old status is kept in `was_mpr`.
  after-was_mpr : (n : ℕ) → mem n nbr_tree ≡ true → (after n).was_mpr ≡ (s.nbr n).is_mpr
  unfolding after calculate_lq_mpr2 setting clear_mpr
  after-was_mpr n listed =
      let stored = for_all_nbr store_old nbr_tree s.nbr in
      (cover_all-Grows setting nbr2_tree (for_all_nbr clear_mpr nbr_tree stored)).was_same n
      ∙ ground (
        arith,
        listed,
        for_all_nbr_lem clear_mpr nbr_tree stored n nodup,
        for_all_nbr_lem store_old nbr_tree s.nbr n nodup,
      )

  -- On a neighbor tree without duplicates, `olsr_calculate_lq_mpr` keeps it so that the links belong
  -- to neighbors of the tree and that each link's `is_mpr` is its neighbor's, though it copies the
  -- flags to the links only when some neighbor's has changed.
  pub calculate_lq_mpr-Agrees :
      Agrees nbr_tree s
      → Agrees nbr_tree (calculate_lq_mpr now_times nbr_tree mpr_coverage tc_redundancy nbr2_tree s)
  unfolding calculate_lq_mpr after setting
  calculate_lq_mpr-Agrees agrees =
      if_cases (Agrees nbr_tree) (not (mpr_changes nbr_tree after)) _ _
        (λ unchanged. record {
          in_tree = agrees.in_tree;
          same = λ l h.
              agrees.same l h
              ∙ (sym (after-was_mpr l.neighbor (agrees.in_tree l h))
                  ∙ no_mpr_changes nbr_tree after l.neighbor (ground arith) (agrees.in_tree l h));
        })
        (λ changed. record {
          in_tree = λ l h.
              let (x, has, same) = copied after s.links l h in rw same (agrees.in_tree x has);
          same = λ l h. let (x, has, same) = copied after s.links l h in rw same refl;
        })

  result : MprState
  result = calculate_lq_mpr now_times nbr_tree mpr_coverage tc_redundancy nbr2_tree s

  result_nbr : result.nbr ≡ after
  unfolding result calculate_lq_mpr after setting
  result_nbr =
      if_cases (λ (t : MprState). t.nbr ≡ after) (not (mpr_changes nbr_tree after)) _ _ (λ _. refl)
        (λ _. refl)

  result_link_changes :
      result.link_changes
      ≡ (if mpr_changes nbr_tree after && ltb 0 tc_redundancy then true else s.link_changes)
  unfolding result calculate_lq_mpr after setting
  result_link_changes =
      if_cases
        (λ (t : MprState).
          t.link_changes
          ≡ (if mpr_changes nbr_tree after && ltb 0 tc_redundancy then true else s.link_changes))
        (not (mpr_changes nbr_tree after)) _ _ (λ h. ground (arith, h)) (λ h. ground (arith, h))

  -- On a neighbor tree without duplicates, `olsr_calculate_lq_mpr` signals a change of the links, where
  -- none was signalled yet, exactly if `tc_redundancy` is not 0 and some neighbor of the tree has
  -- become a relay or ceased to be one.
  pub calculate_lq_mpr-link_changes :
      s.link_changes ≡ false
      → ((calculate_lq_mpr now_times nbr_tree mpr_coverage tc_redundancy nbr2_tree s).link_changes
          ≡ true)
        ↔ ((0 < tc_redundancy)
            × (n : ℕ) × (mem n nbr_tree ≡ true)
            × ((s.nbr n).is_mpr
                ≢ ((calculate_lq_mpr now_times nbr_tree mpr_coverage tc_redundancy nbr2_tree s).nbr
                    n).is_mpr))
  unfolding result
  calculate_lq_mpr-link_changes quiet = (
    (λ signalled.
        let (n, listed, changed) =
          some_mpr_change nbr_tree after (ground (arith, result_link_changes, quiet, signalled)) in
        (
          ground (arith, result_link_changes, quiet, signalled),
          n,
          listed,
          rw (result_nbr, sym (after-was_mpr n listed)) changed,
        )),
    (λ (redundant, n, listed, changed).
        let table : (result.nbr n).is_mpr ≡ (after n).is_mpr = rw result_nbr refl in
        ground (
          arith,
          result_link_changes,
          no_mpr_changes nbr_tree after n,
          redundant,
          listed,
          table,
          after-was_mpr n listed,
          changed,
        )),
  )
