-- ===== src/Route/Tests.antt =====
-- Runs of the routing table of src/routing_table.c and src/process_routes.c, and the theorems at
-- them.
use olsr.Prelude.{
  ◌≢◌, ltb, if_cases, ℕ, ◌+◌, ◌*◌, ◌≡◌, refl, inl, inr, true, false, ◌==◌, if◌then◌else◌,
  Bool-cases, List, [], ◌∷◌, Option, none, some, arith, All,
}
use olsr.Prelude.Int.{pos}
use olsr.Spf.Nodes.{mem}
use olsr.Route.{
  prefix_len, Nexthop, RtPath, RtEntry, Rib, RtConfig, Reached, find_entry,
  bump_routingtree_version, update_rt_path, insert_entry, comp_prefix, write_path, path_tree,
  rt_best, best_loop, cmp_rtp_opt, cmp_rtp, nat_cost, find_path, write_entry, remove_path,
}
use olsr.Route.Prefixes.{
  delete_rt_path, insert_routing_table, delete_routing_table, route_path_list, route_prefixes,
  route_prefix, insert_rt_path, ensure_entry, elect_without,
}
use olsr.Route.Kernel.{
  Kernel, has_interface, update_rib_routes, update_entries, delete_outdated, nh_change, enqueue_rt,
  get_nh, update_kernel_routes, chg_kernel_routes, change_route, add_route, del_route,
  update_routes, delete_all_kernel_routes, calculate_routes,
}
use olsr.Route.Kernel.Reliable.{IsReliable}
use olsr.Route.Kernel.Election.{IsBest}
use olsr.Route.Kernel.Synced.{IsSynced, IsSettled}
use olsr.Route.Kernel.Stores.{keys}
use olsr.Spf.{Spf, compute_paths, Edge, initial, set_next_hops, blank}
use olsr.Spf.Walk.{Contains, IsUsable, Walk}
use olsr.Spf.Correct.{IsNetwork}
use olsr.Spf.Routed.{preset_hop}
use olsr.Route.Compute.{Topology, calculate_routing_table}
use olsr.Route.Compute.Shortest.{
  refreshed_table, IsShortest, LeadsOver, calculate_routing_table_lem,
}
use olsr.Route.Kernel.Flush.{delete_all_kernel_routes_lem}
use olsr.Route.Kernel.Operations.{IsIdle, operations-IsIdle}
use olsr.Route.Kernel.Walk.{IsReached}
use olsr.Route.Kernel.Served.{Served}
use olsr.Route.Kernel.Calculate.{ReachedBy, calculate_routes_lem}

abbrev Table : Type 0
Table = ℕ → Option Nexthop

-- A kernel that does what it is told.
abbrev kernel : Kernel Table
kernel = record {
  del_route_function = λ rt k. ((λ a. if a == rt.dst then none else k a), true);
  add_route_function = λ rt rtp k. ((λ a. if a == rt.dst then some rtp.nexthop else k a), true);
}

abbrev look : Table → ℕ → Option Nexthop
look k = k

kernel-IsReliable : IsReliable kernel look
kernel-IsReliable = record {
  del_success = λ rt k. refl;
  del_fib = λ rt k a. refl;
  add_success = λ rt rtp k. refl;
  add_fib = λ rt rtp k a. refl;
}

abbrev cfg : RtConfig
cfg = record { ipsize = 4; lq_nat_thresh = 1000; fibm_correct = false; ntohl = λ a. a }

-- The prefix of one address.
abbrev host : ℕ → ℕ
host a = a * 256 + 32

abbrev over_ten : Nexthop
over_ten = record { gateway = 10; interface = some 1 }

-- The path to the address 10, which is routed, and one to 11, which is not.
abbrev to_ten : RtPath
to_ten = record {
  id = 1;
  originator = 10;
  origin = 1;
  dst = host 10;
  rtp_rt = true;
  nexthop = over_ten;
  cost = 100;
  hops = 1;
  version = 7;
}

abbrev to_eleven : RtPath
to_eleven = record {
  id = 2;
  originator = 11;
  origin = 1;
  dst = host 11;
  rtp_rt = false;
  nexthop = record { gateway = 0; interface = none };
  cost = 0;
  hops = 0;
  version = 0;
}

abbrev entry_ten : RtEntry
entry_ten = record {
  dst = host 10;
  best = some 1;
  nexthop = over_ten;
  cost = 100;
  hops = 1;
  failure_count = pos 0;
}

abbrev rib : Rib
rib = record {
  paths = to_ten ∷ to_eleven ∷ [];
  entries = entry_ten ∷ [];
  version = 7;
  current_inetgw = none;
  chg_kernel_list = [];
  changes_hna = false;
}

abbrev routes : Table
routes a = if host 10 == a then some over_ten else none

rib-IsSynced : IsSynced look rib routes
unfolding mem find_entry has_interface
rib-IsSynced = record {
  distinct = (refl, (refl, tt));
  interfaces = ((λ h. refl), ((λ h. absurd (ground (arith, h))), tt));
  in_rib = ((λ h. refl), ((λ h. absurd (ground (arith, h))), tt));
  entries_distinct = (refl, tt);
  empty_queue = refl;
  synced =
      λ dst. elim (Bool-cases (host 10 == dst)) [ inl at ↦ rw at refl | inr off ↦ rw off refl ];
}

rib-IsSettled : IsSettled rib
rib-IsSettled = ((λ h. refl), ((λ h. absurd (ground (arith, h))), tt))

-- The vertex 11 is reached over 12, and 10 has no next hop.
abbrev over_twelve : Reached
over_twelve = record {
  path_cost = 200;
  hops = 2;
  link = record { gateway = 12; interface = some 1 };
}

abbrev reached : List (ℕ × Option Reached)
reached = (10, none) ∷ (11, some over_twelve) ∷ []

delete_all_kernel_routes_lem_example :
    (k' : Table) × (rib' : Rib) × (delete_all_kernel_routes kernel cfg rib routes ≡ some (k', rib'))
    × IsSynced look rib' k'
    × ((dst : ℕ) → k' dst ≡ none)
delete_all_kernel_routes_lem_example =
    delete_all_kernel_routes_lem kernel look cfg kernel-IsReliable rib routes rib-IsSynced
      rib-IsSettled

calculate_routes_lem_example :
    (let table = route_path_list cfg reached (bump_routingtree_version rib) in
      (k' : Table) × (rib' : Rib) × (calculate_routes kernel cfg reached rib routes
        ≡ some (k', rib'))
      × IsSynced look rib' k'
      × IsSettled rib'
      × ((dst : ℕ) (nh : Nexthop)
          → k' dst ≡ some nh
          → (b : RtPath) × (b.nexthop ≡ nh)
            × IsBest cfg table.version table.current_inetgw dst table.paths b
            × ReachedBy (IsReached reached) b)
      × All (Served cfg k' rib.paths) reached)
unfolding has_interface
calculate_routes_lem_example =
    calculate_routes_lem kernel look cfg kernel-IsReliable reached rib routes (tt, (refl, tt))
      rib-IsSynced rib-IsSettled

-- This node is 0; 10 is its neighbor, and 11 is behind 10.
abbrev edge_to : ℕ → ℕ → Edge
edge_to cost dest = record { virtual = false; cost = cost; inv_cost = 0; dest = dest }

abbrev chain : Topology
chain = record {
  myself = some 0;
  edges = λ u. if u == 0 then edge_to 5 10 ∷ [] else (if u == 10 then edge_to 3 11 ∷ [] else []);
  neighbors = record { is_sym = true; dest = 10; best_link = some 1 } ∷ [];
  links = λ h. over_ten;
}

abbrev chain_nodes : List ℕ
chain_nodes = 0 ∷ 10 ∷ 11 ∷ []

chain-IsNetwork : IsNetwork chain.edges 0 chain_nodes
unfolding mem
chain-IsNetwork = record {
  myself_in = refl;
  small = omega arith;
  inside = λ u e.
      if_cases (λ es. Contains e es → mem e.dest chain_nodes ≡ true) (u == 0) _ _
        (λ _ h. elim h [ inl same ↦ rw same refl | inr nowhere ↦ absurd nowhere ])
        (λ _.
          if_cases (λ es. Contains e es → mem e.dest chain_nodes ≡ true) (u == 10) _ _
            (λ _ h. elim h [ inl same ↦ rw same refl | inr nowhere ↦ absurd nowhere ])
            (λ _ h. absurd h));
}

chain_hop : preset_hop 0 chain.neighbors 0 ≡ none
unfolding preset_hop initial set_next_hops blank
chain_hop = refl

chain_hops :
    (e : Edge) → IsUsable chain.edges 0 e → (h : ℕ) × (preset_hop 0 chain.neighbors e.dest ≡ some h)
unfolding preset_hop initial set_next_hops blank
chain_hops e (has, usable) = elim has [
  | inl same ↦ (1, rw same refl)
  | inr nowhere ↦ absurd nowhere
]

calculate_routing_table_lem_example :
    (s : Spf) × (compute_paths chain.edges 3 0 chain.neighbors ≡ some s)
    × (let table = refreshed_table cfg chain s rib in
        (keys table.paths ≡ keys rib.paths)
        × (k' : Table) × (rib' : Rib) × (calculate_routing_table kernel cfg chain 3 false false rib
              routes
            ≡ some (k', rib', true))
        × IsSynced look rib' k'
        × IsSettled rib'
        × ((dst : ℕ) (nh : Nexthop)
            → k' dst ≡ some nh
            → (b : RtPath) × IsBest cfg table.version table.current_inetgw dst table.paths b
              × (b.dst ≡ dst)
              × (b.nexthop ≡ nh)
              × IsShortest chain.edges 0 b.originator b.cost b.hops
              × (b.originator ≢ 0 → LeadsOver chain 0 b nh))
        × ((v cost hops : ℕ)
            → Walk chain.edges 0 v cost hops
            → v ≢ 0
            → All
                (λ p.
                  p.originator ≡ v
                  → ltb (8 * cfg.ipsize) (prefix_len p.dst) ≡ false
                  → k' p.dst ≢ none)
                rib.paths))
unfolding has_interface
calculate_routing_table_lem_example =
    calculate_routing_table_lem kernel look cfg kernel-IsReliable chain 0 chain_nodes 3 false false
      rib routes refl refl chain-IsNetwork (omega arith) chain_hop chain_hops (λ h. refl)
      rib-IsSynced rib-IsSettled

operations-IsIdle_example :
    IsIdle look cfg routes (insert_routing_table cfg 3 10 32 10 1 rib)
    × IsIdle look cfg routes (delete_routing_table cfg 10 32 10 1 rib)
unfolding mem
operations-IsIdle_example =
    operations-IsIdle look cfg routes 3 10 32 10 1 rib refl (rib-IsSynced, rib-IsSettled)

-- The computation takes the route to 10 out and puts that to 11 in.
abbrev looked_up : Option (Table × Rib) → ℕ → Option Nexthop
looked_up none dst = none
looked_up (some (k, updated)) dst = k dst

calculate_routes_run :
    (looked_up (calculate_routes kernel cfg reached rib routes) (host 10) ≡ none)
    × (looked_up (calculate_routes kernel cfg reached rib routes) (host 11) ≡ some over_twelve.link)
unfolding calculate_routes bump_routingtree_version route_path_list route_prefixes route_prefix
    insert_rt_path update_rt_path ensure_entry insert_entry comp_prefix find_entry write_path
    update_routes update_rib_routes update_entries delete_outdated path_tree rt_best best_loop
    cmp_rtp_opt find_path nh_change enqueue_rt get_nh mem update_kernel_routes chg_kernel_routes
    change_route add_route del_route has_interface write_entry
calculate_routes_run = (refl, refl)

-- The entry whose best path is deleted has it as its best path still, if no other is better.
abbrev dearer : RtPath
dearer = record to_ten { id = 4; originator = 14; cost = 300; dst = host 10 }

abbrev best_of : Option RtEntry → Option ℕ
best_of none = none
best_of (some rt) = rt.best

delete_rt_path_run :
    best_of (
      find_entry
        (host 10)
        (delete_rt_path cfg 1 (record rib { paths = to_ten ∷ dearer ∷ [] })).entries)
    ≡ some 1
unfolding delete_rt_path elect_without find_path find_entry write_path write_entry path_tree rt_best
    best_loop cmp_rtp_opt cmp_rtp nat_cost remove_path
delete_rt_path_run = refl
