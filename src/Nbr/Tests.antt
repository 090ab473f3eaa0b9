-- ===== src/Nbr/Tests.antt =====
-- A neighbor with two two-hop neighbors, and the theorems there.
use olsr.Prelude.{ℕ, ◌<◌, ◌≡◌, ◌≢◌, ◌↔◌, ◌⊎◌, refl, ◌==◌, true, false, none, [], ◌∷◌, arith}
use olsr.Spf.Nodes.{mem, remove}
use olsr.Timer.{Env}
use olsr.Link.{get_best_link_to_neighbor, best_link_loop}
use olsr.Nbr.{
  Connector, NbrTable, StatusInput, has_con, lookup_con, delete_con, delete_nbr2_entry,
  delete_nbr_con, link_nbr_nbr2, add_nbr2_entry, insert_nbr2, update_nbr_status, become_not_sym,
}
use olsr.Nbr.Table.{IsTable, operations-IsTable}
use olsr.Nbr.Status.{HasSymLink, update_nbr_status_iff}

abbrev env : Env
env = record { now_times = 5000; rand_max = 2147483647; random = 5 }

abbrev con : ℕ → ℕ → Connector
con nbr nbr2 = record {
  nbr = nbr;
  nbr2 = nbr2;
  nbr2_con_timer = none;
  second_hop_linkcost = 20;
  path_linkcost = 70;
}

abbrev table : NbrTable
table = record {
  nbr2_tree = 7 ∷ 9 ∷ [];
  connectors = con 1 7 ∷ con 2 9 ∷ con 1 9 ∷ [];
  is_sym = λ n. n == 2;
  is_mpr = λ n. n == 2;
  changes_neighborhood = false;
  changes_topology = false;
  link_changes = false;
}

abbrev input : StatusInput
input = record { now_times = 5000; links = []; tc_redundancy = 0 }

-- The last connector takes its two-hop neighbor along.
last_connector : (delete_nbr_con 1 7 table).nbr2_tree ≡ 9 ∷ []
unfolding delete_nbr_con delete_con has_con delete_nbr2_entry remove
last_connector = refl

one_of_two : (delete_nbr_con 1 9 table).nbr2_tree ≡ 7 ∷ 9 ∷ []
unfolding delete_nbr_con delete_con has_con delete_nbr2_entry remove
one_of_two = refl

new_two_hop : (link_nbr_nbr2 env 2 8 3000 table).nbr2_tree ≡ 7 ∷ 8 ∷ 9 ∷ []
unfolding link_nbr_nbr2 lookup_con add_nbr2_entry insert_nbr2 mem
new_two_hop = refl

-- Neighbor 2 is a relay and has lost its links.
lost : (update_nbr_status input 2 table).link_changes ≡ true
unfolding update_nbr_status get_best_link_to_neighbor best_link_loop become_not_sym
lost = refl

table-IsTable : IsTable table
unfolding mem has_con lookup_con
table-IsTable = record {
  agree = λ n. ground arith;
  nodup = (refl, (refl, tt));
  unique = (refl, (refl, (refl, tt)));
}

operations-IsTable_example :
    IsTable (link_nbr_nbr2 env 1 7 3000 table)
    × IsTable (delete_nbr_con 1 7 table)
    × IsTable (delete_nbr2_entry 7 table)
    × IsTable (update_nbr_status input 1 table)
operations-IsTable_example = operations-IsTable table env input 1 7 3000 table-IsTable

update_nbr_status_iff_example :
    (((update_nbr_status input 2 table).is_sym 2 ≡ true) ↔ HasSymLink input 2)
    × ((n : ℕ) → n ≢ 2 → (update_nbr_status input 2 table).is_sym n ≡ (n == 2))
    × (((update_nbr_status input 2 table).link_changes ≡ true)
        ↔ ((update_nbr_status input 2 table).is_sym 2 ≢ true × ((1 < 0) ⊎ (true ≡ true))))
update_nbr_status_iff_example = update_nbr_status_iff input 2 table refl
