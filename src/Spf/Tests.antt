-- ===== src/Spf/Tests.antt =====
-- A run of the shortest path computation, and the theorems at this network.
use olsr.Prelude.{
  ℕ, ◌≤◌, ◌≡◌, ◌≢◌, refl, ltb, ◌==◌, if◌then◌else◌, if_cases, true, false, arith, inl, inr, List,
  [], ◌∷◌, Option, none, some, length, map,
}
use olsr.Spf.Nodes.{mem, remove, IsNodup}
use olsr.Spf.Cand.{IsSorted}
use olsr.Spf.Walk.{Graph, Walk, Contains, IsUsable}
use olsr.Spf.Correct.{IsNetwork, compute_paths_shortest, compute_paths-path_list}
use olsr.Spf.NextHop.{Via}
use olsr.Spf.Routed.{preset_hop, compute_paths_next_hop}
use olsr.Spf.{
  Edge, Spf, Neighbor, cost_of, insert_cand, better, improve, relax_edge, relax, settle, run_loop,
  run_full, set_next_hops, blank, initial, compute_paths, route_cost_broken,
}

abbrev real : ℕ → ℕ → Edge
real cost dest = record { virtual = false; cost = cost; inv_cost = 0; dest = dest }

-- Node 1 is cheaper over node 2 than by its own link; the link from 2 to 4 is broken; the edge from
-- 1 to 3 is a virtual one.
abbrev links : Graph
links u =
    if u == 0
    then real 5 1 ∷ real 2 2 ∷ []
    else (if u == 1
        then record { virtual = true; cost = 0; inv_cost = 4; dest = 3 } ∷ []
        else (if u == 2 then real 1 1 ∷ real 0xff_ffff 4 ∷ [] else []))

abbrev all_nodes : List ℕ
all_nodes = 0 ∷ 1 ∷ 2 ∷ 3 ∷ 4 ∷ []

abbrev near : List Neighbor
near =
    record { is_sym = true; dest = 1; best_link = some 11 }
    ∷ record { is_sym = true; dest = 2; best_link = some 12 }
    ∷ record { is_sym = false; dest = 3; best_link = some 13 }
    ∷ []

-- The path list, with the cost, the hops and the next hop of each vertex.
abbrev table : Option Spf → List (ℕ × ℕ × ℕ × Option ℕ)
table none = []
table (some t) = map (λ v. (v, cost_of t v, (t.vertex v).hops, (t.vertex v).next_hop)) t.path_list

five_nodes :
    table (compute_paths links 5 0 near)
    ≡ (0, 0, 0, none) ∷ (2, 2, 1, some 12) ∷ (1, 3, 2, some 12) ∷ (3, 7, 3, some 12) ∷ []
unfolding compute_paths run_full run_loop initial set_next_hops blank relax relax_edge improve
    better settle insert_cand mem remove
five_nodes = refl

-- A round for each reachable node and one more look at the candidates: less fuel runs out.
too_little_fuel : compute_paths links 3 0 near ≡ none
unfolding compute_paths run_full run_loop initial set_next_hops blank relax relax_edge improve
    better settle insert_cand mem remove
too_little_fuel = refl

links-IsNetwork : IsNetwork links 0 all_nodes
unfolding mem
links-IsNetwork = record {
  myself_in = refl;
  small = omega arith;
  inside = λ u e.
      if_cases (λ es. Contains e es → mem e.dest all_nodes ≡ true) (u == 0) _ _
        (λ _ h. elim h [
          | inl same ↦ rw same refl
          | inr (inl same) ↦ rw same refl
          | inr (inr nowhere) ↦ absurd nowhere
        ])
        (λ _.
          if_cases (λ es. Contains e es → mem e.dest all_nodes ≡ true) (u == 1) _ _
            (λ _ h. elim h [ inl same ↦ rw same refl | inr nowhere ↦ absurd nowhere ])
            (λ _.
              if_cases (λ es. Contains e es → mem e.dest all_nodes ≡ true) (u == 2) _ _
                (λ _ h. elim h [
                  | inl same ↦ rw same refl
                  | inr (inl same) ↦ rw same refl
                  | inr (inr nowhere) ↦ absurd nowhere
                ])
                (λ _ h. absurd h)));
}

enough : length all_nodes ≤ 5
enough = omega arith

compute_paths_shortest_example :
    (t : Spf) × (compute_paths links 5 0 near ≡ some t)
    × ((v : ℕ) → mem v t.path_list ≡ ltb (cost_of t v) route_cost_broken)
    × ((v : ℕ) → mem v t.path_list ≡ true → Walk links 0 v (cost_of t v) (t.vertex v).hops)
    × ((v cost hops : ℕ)
        → Walk links 0 v cost hops
        → (mem v t.path_list ≡ true) × (cost_of t v ≤ cost))
compute_paths_shortest_example =
    compute_paths_shortest links 0 all_nodes links-IsNetwork 5 enough near

compute_paths-path_list_example :
    (t : Spf) × (compute_paths links 5 0 near ≡ some t)
    × IsNodup t.path_list
    × IsSorted (cost_of t) t.path_list
    × (t.path_count ≡ length t.path_list)
compute_paths-path_list_example =
    compute_paths-path_list links 0 all_nodes links-IsNetwork 5 enough near

no_hop_for_myself : preset_hop 0 near 0 ≡ none
unfolding preset_hop initial set_next_hops blank
no_hop_for_myself = refl

hop_for_links : (e : Edge) → IsUsable links 0 e → (h : ℕ) × (preset_hop 0 near e.dest ≡ some h)
unfolding preset_hop initial set_next_hops blank
hop_for_links e (has, _) = elim has [
  | inl same ↦ (11, rw same refl)
  | inr (inl same) ↦ (12, rw same refl)
  | inr (inr nowhere) ↦ absurd nowhere
]

compute_paths_next_hop_example :
    (t : Spf) × (compute_paths links 5 0 near ≡ some t)
    × ((v : ℕ)
        → mem v t.path_list ≡ true
        → v ≢ 0
        → (n : ℕ) × (h : ℕ) × (preset_hop 0 near n ≡ some h)
          × ((t.vertex v).next_hop ≡ some h)
          × Via links 0 n v (cost_of t v) (t.vertex v).hops)
compute_paths_next_hop_example =
    compute_paths_next_hop links 0 all_nodes near 5 links-IsNetwork enough no_hop_for_myself
      hop_for_links
