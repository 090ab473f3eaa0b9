-- ===== src/Mpr/Tests.antt =====
-- A selection of relays, and the theorems there.
use olsr.Prelude.{
  ℕ, ◌≡◌, ◌≢◌, refl, arith, ◌==◌, if◌then◌else◌, true, false, not, none, some, List, [], ◌∷◌, inl,
  inr,
}
use olsr.Spf.Nodes.{mem, IsNodup}
use olsr.Link.{LinkEntry, sym_link}
use olsr.Mpr.{
  Table, NbrCon, Nbr2Entry, Setting, MprState, direct_cost, calculate_lq_mpr2, calculate_lq_mpr,
  cover_all, cover, select, pick, is_eligible, found_better_path, clear_skip, clear_mpr,
  for_all_nbr, mpr_changes, copy_mpr, differ, will_always,
}
use olsr.Mpr.Select.{Covered}
use olsr.Mpr.Calculate.{
  calculate_lq_mpr2-Covered, calculate_lq_mpr2_relays, Agrees, calculate_lq_mpr-Agrees,
}

-- Neighbors 1 and 2 are symmetric and always willing, 3 is not symmetric, 4 is as willing as usual.
abbrev nbr : Table
nbr n = record {
  willingness = if n == 4 then 3 else 7;
  is_sym = not (n == 3);
  is_mpr = false;
  was_mpr = false;
  skip = false;
}

abbrev con : ℕ → ℕ → NbrCon
con n cost = record { nbr = n; second_hop_linkcost = 10; path_linkcost = cost }

abbrev two_hops : List Nbr2Entry
two_hops = record { nbr2_addr = 10; con_tree = con 1 50 ∷ con 2 40 ∷ con 3 30 ∷ [] } ∷ []

abbrev tree : List ℕ
tree = 1 ∷ 2 ∷ 3 ∷ 4 ∷ []

abbrev link : LinkEntry
link = record {
  local_iface_addr = 1;
  neighbor_iface_addr = 22;
  link_timer = none;
  link_sym_timer = none;
  asym_time = 8000;
  vtime = 3000;
  neighbor = 2;
  status = sym_link;
  is_mpr = false;
  linkcost = 30;
}

abbrev setting : Setting
setting = record { now_times = 5000; links = link ∷ []; nbr_tree = tree; mpr_coverage = 1 }

-- 2 is the cheapest symmetric neighbor on the way; 4 is a relay without being of use.
relays :
    (calculate_lq_mpr2 setting two_hops nbr 1).is_mpr ≡ false
    × ((calculate_lq_mpr2 setting two_hops nbr 2).is_mpr ≡ true)
    × ((calculate_lq_mpr2 setting two_hops nbr 3).is_mpr ≡ false)
    × ((calculate_lq_mpr2 setting two_hops nbr 4).is_mpr ≡ true)
unfolding calculate_lq_mpr2 cover_all cover direct_cost select pick is_eligible found_better_path
    clear_skip clear_mpr for_all_nbr mem
relays = (refl, refl, refl, refl)

abbrev state : MprState
state = record { nbr = nbr; links = link ∷ []; link_changes = false }

signalled : (calculate_lq_mpr 5000 tree 1 1 two_hops state).link_changes ≡ true
unfolding calculate_lq_mpr calculate_lq_mpr2 cover_all cover direct_cost select pick is_eligible
    found_better_path clear_skip clear_mpr for_all_nbr mem mpr_changes differ copy_mpr
signalled = refl

tree-IsNodup : IsNodup tree
unfolding mem
tree-IsNodup = (refl, (refl, (refl, (refl, tt))))

no_direct_link : direct_cost setting nbr 10 ≡ some 0xffff_ffff
unfolding direct_cost mem
no_direct_link = refl

state-Agrees : Agrees tree state
unfolding mem
state-Agrees = record {
  in_tree = λ l h. elim h [ inl same ↦ rw same refl | inr nowhere ↦ absurd nowhere ];
  same = λ l h. elim h [ inl same ↦ rw same refl | inr nowhere ↦ absurd nowhere ];
}

calculate_lq_mpr2-Covered_example :
    Covered 1
      (con 1 50 ∷ con 2 40 ∷ con 3 30 ∷ [])
      (calculate_lq_mpr2 setting two_hops nbr)
      (con 1 50)
calculate_lq_mpr2-Covered_example =
    calculate_lq_mpr2-Covered setting tree-IsNodup two_hops nbr
      (record { nbr2_addr = 10; con_tree = con 1 50 ∷ con 2 40 ∷ con 3 30 ∷ [] }) (con 1 50)
      0xffff_ffff (inl refl) no_direct_link (inl refl) refl (omega arith) (omega arith)

listed_4 : mem 4 tree ≡ true
unfolding mem
listed_4 = refl

calculate_lq_mpr2_relays_example :
    ((calculate_lq_mpr2 setting two_hops nbr 4).is_mpr ≡ true → (nbr 4).is_sym ≡ true)
    × ((nbr 4).is_sym ≡ true
        → (nbr 4).willingness ≢ will_always
        → (calculate_lq_mpr2 setting two_hops nbr 4).is_mpr ≡ true)
calculate_lq_mpr2_relays_example =
    calculate_lq_mpr2_relays setting tree-IsNodup two_hops nbr 4 listed_4

calculate_lq_mpr-Agrees_example : Agrees tree (calculate_lq_mpr 5000 tree 1 1 two_hops state)
calculate_lq_mpr-Agrees_example =
    calculate_lq_mpr-Agrees 5000 tree 1 1 two_hops state tree-IsNodup state-Agrees
