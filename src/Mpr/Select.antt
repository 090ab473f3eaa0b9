-- ===== src/Mpr/Select.antt =====
-- The selection for one two-hop neighbor: each neighbor that leads there is a relay, or enough others
-- are that do it at no higher cost.
use olsr.Prelude.{
  ℕ, zero, suc, ◌≤◌, ◌<◌, ◌≡◌, refl, ap, ◌==◌, true, false, none, List, [], ◌∷◌, ◌⊎◌, inl, inr,
  arith, length, Option-cases, Bool-cases, ◌∙◌,
}
use olsr.Spf.Nodes.{mem, update, IsNodup}
use olsr.Mpr.{Table, NbrCon, is_eligible, pick, choose, select}
use olsr.Mpr.Pick.{ConIn, Picked, pick-Picked}

-- `count` neighbors are relays and lead on at no higher cost than `c`.
pub record Replaced (count : ℕ) (con : List NbrCon) (nbr : Table) (c : NbrCon) : Type 0 where
  pub chosen : List ℕ
  pub enough : length chosen ≡ count
  pub distinct : IsNodup chosen
  pub relays : (n : ℕ) → mem n chosen ≡ true → (nbr n).is_mpr ≡ true
  pub ways :
      (n : ℕ)
      → mem n chosen ≡ true
      → (d : NbrCon) × ConIn d con × (d.nbr ≡ n) × (d.path_linkcost ≤ c.path_linkcost)

abbrev pub Covered : ℕ → List NbrCon → Table → NbrCon → Type 0
Covered count con nbr c = ((nbr c.nbr).is_mpr ≡ true) ⊎ Replaced count con nbr c

-- From one table to the next, neighbors only become relays, and what describes them stays.
pub record Grows (nbr after : Table) : Type 0 where
  pub relay : (n : ℕ) → (nbr n).is_mpr ≡ true → (after n).is_mpr ≡ true
  pub sym_same : (n : ℕ) → (after n).is_sym ≡ (nbr n).is_sym
  pub was_same : (n : ℕ) → (after n).was_mpr ≡ (nbr n).was_mpr

pub Grows-refl : (nbr : Table) → Grows nbr nbr
Grows-refl nbr = record { relay = λ n h. h; sym_same = λ n. refl; was_same = λ n. refl }

pub Grows-trans : {a b c : Table} → Grows a b → Grows b c → Grows a c
Grows-trans g h = record {
  relay = λ n r. h.relay n (g.relay n r);
  sym_same = λ n. h.sym_same n ∙ g.sym_same n;
  was_same = λ n. h.was_same n ∙ g.was_same n;
}

choose-Grows : (nbr : Table) (m : ℕ) → Grows nbr (update m (choose (nbr m)) nbr)
choose-Grows nbr m = record {
  relay = λ n h. ground arith;
  sym_same = λ n. ground arith;
  was_same = λ n. ground arith;
}

pub select-Grows :
    (k : ℕ) (con : List NbrCon) (bound : ℕ) (nbr : Table) → Grows nbr (select k con bound nbr)
unfolding select
select-Grows zero con bound nbr = Grows-refl nbr
select-Grows (suc k) con bound nbr = elim (Option-cases (pick nbr con none bound)) [
  | inl nothing ↦ rw (nothing, select) (Grows-refl nbr)
  | inr (m, found) ↦
      rw (found, select)
        (Grows-trans (choose-Grows nbr m)
          (select-Grows k con bound (update m (choose (nbr m)) nbr)))
]

module _ (con : List NbrCon) (bound : ℕ) where
  -- Beside being replaced: those that were chosen had not been.
  Fresh : ℕ → Table → Table → NbrCon → Type 0
  Fresh k nbr after c =
      (r : Replaced k con after c) × ((n : ℕ) → mem n r.chosen ≡ true → (nbr n).skip ≡ false)

  Replaced-more :
      (k : ℕ) (nbr after : Table) (c best : NbrCon)
      → ConIn best con
      → (nbr best.nbr).skip ≡ false
      → (after best.nbr).is_mpr ≡ true
      → best.path_linkcost ≤ c.path_linkcost
      → Fresh k (update best.nbr (choose (nbr best.nbr)) nbr) after c
      → Fresh (suc k) nbr after c
  unfolding Fresh mem
  Replaced-more k nbr after c best has free relay low (r, fresh) = (
    record {
      chosen = best.nbr ∷ r.chosen;
      enough = ap suc r.enough;
      distinct = (ground (arith, fresh best.nbr), r.distinct);
      relays = λ n h. ground (arith, r.relays n, h);
      ways = λ n h. elim (Bool-cases (n == best.nbr)) [
        | inl same ↦ (best, has, ground arith, low)
        | inr other ↦ r.ways n (ground (arith, h))
      ];
    },
    λ n h. ground (arith, fresh n, h),
  )

  select-Fresh :
      (k : ℕ) (nbr : Table) (c : NbrCon)
      → ConIn c con
      → is_eligible nbr c ≡ true
      → c.path_linkcost < bound
      → ((select k con bound nbr c.nbr).is_mpr ≡ true) ⊎ Fresh k nbr (select k con bound nbr) c
  unfolding select Picked Fresh mem is_eligible
  select-Fresh zero nbr c has eligible low = inr (
    record { chosen = []; enough = refl; distinct = tt; relays = λ n h. cc; ways = λ n h. cc },
    λ n h. cc,
  )
  select-Fresh (suc k) nbr c has eligible low = elim (pick-Picked nbr con none bound) [
    | inl (nothing, all) ↦ absurd (let over = all c has eligible in omega arith)
    | inr (best, found, has_best, eligible_best, _, all) ↦
        let after = update best.nbr (choose (nbr best.nbr)) nbr in
        let relay = (select-Grows k con bound after).relay best.nbr (ground arith) in
        rw (found, select)
          (elim (Bool-cases (c.nbr == best.nbr)) [
            | inl same ↦ let e : c.nbr ≡ best.nbr = ground arith in inl (rw e relay)
            | inr other ↦ elim (select-Fresh k after c has (ground arith) low) [
              | inl mpr ↦ inl mpr
              | inr fresh ↦ inr (
                  Replaced-more k nbr (select k con bound after) c best has_best (ground arith)
                    relay (all c has eligible) fresh)
            ]
          ])
  ]

  -- Only symmetric neighbors become relays.
  pub select-sym :
      (k : ℕ) (nbr : Table) (n : ℕ)
      → (select k con bound nbr n).is_mpr ≡ true
      → ((nbr n).is_mpr ≡ true) ⊎ ((nbr n).is_sym ≡ true)
  unfolding select Picked is_eligible
  select-sym zero nbr n h = inl h
  select-sym (suc k) nbr n h = elim (pick-Picked nbr con none bound) [
    | inl (nothing, _) ↦ inl (rw (nothing, select) at h)
    | inr (best, found, _, eligible, _, _) ↦ ground (
      arith,
      select-sym k (update best.nbr (choose (nbr best.nbr)) nbr) n (rw (found, select) at h),
    )
  ]

  -- What the loop over `k` does for a connector that it may take.
  pub select-Covered :
      (k : ℕ) (nbr : Table) (c : NbrCon)
      → ConIn c con
      → is_eligible nbr c ≡ true
      → c.path_linkcost < bound
      → Covered k con (select k con bound nbr) c
  unfolding Fresh
  select-Covered k nbr c has eligible low = elim (select-Fresh k nbr c has eligible low) [
    | inl mpr ↦ inl mpr
    | inr (r, _) ↦ inr r
  ]
