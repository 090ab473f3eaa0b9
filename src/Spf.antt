-- ===== src/Spf.antt =====
-- olsr_spf.c: the shortest path first computation (Dijkstra's algorithm) over the link state
-- database. A `tc_entry` goes by a number; the fields of its `struct tc_entry` that the computation
-- writes are those of `Vertex`. The candidate tree, an AVL tree with duplicate keys, is the list of
-- its nodes in tree order.
pub mod Nodes
pub mod Cand
pub mod Walk
pub mod Mid
pub mod Improve
pub mod Relax
pub mod Run
pub mod Correct
pub mod NextHop
pub mod Routed
mod Tests
use olsr.Prelude.{
  ℕ, zero, suc, ◌+◌, ltb, leb, ◌==◌, if◌then◌else◌, Bool, Option, none, some, List, [], ◌∷◌, ◌++◌,
}
use olsr.Clock.{u8, u32}
use Nodes.{mem, remove, update}

-- `LINK_COST_BROKEN`, `ROUTE_COST_BROKEN` and `ZERO_ROUTE_COST` of lq_plugin.h.
abbrev pub link_cost_broken : ℕ
link_cost_broken = 0x00ff_ffff

abbrev pub route_cost_broken : ℕ
route_cost_broken = 0xffff_ffff

abbrev pub zero_route_cost : ℕ
zero_route_cost = 0

-- `struct tc_edge_entry`: its own cost, the cost of the inverse edge, and the vertex that the
-- inverse edge hangs off, which is where the edge leads.
pub record Edge : Type 0 where
  pub virtual : Bool
  pub cost : ℕ
  pub inv_cost : ℕ
  pub dest : ℕ

-- The part of `struct tc_entry` that the computation writes. A link goes by a number.
pub record Vertex : Type 0 where
  pub path_cost : ℕ
  pub next_hop : Option ℕ
  pub hops : ℕ

pub record Spf : Type 0 where
  pub vertex : ℕ → Vertex
  pub cand_tree : List ℕ
  pub path_list : List ℕ
  pub path_count : ℕ

abbrev pub cost_of : Spf → ℕ → ℕ
cost_of s v = (s.vertex v).path_cost

-- `olsr_spf_add_cand_tree`: `avl_insert` puts a node behind those of the same cost.
unfoldable pub insert_cand : (ℕ → ℕ) → ℕ → List ℕ → List ℕ
insert_cand cost v [] = v ∷ []
insert_cand cost v (w ∷ ws) =
    if ltb (cost v) (cost w) then v ∷ w ∷ ws else w ∷ insert_cand cost v ws

-- The cost of an edge in `olsr_spf_relax`.
abbrev pub edge_cost : Edge → ℕ
edge_cost e = if e.virtual then e.inv_cost else e.cost

-- What a better path of cost `new_cost` over `tc` makes of a vertex: the next hop of `tc` is pulled
-- up if there is one.
unfoldable pub better : Vertex → Vertex → ℕ → Vertex
better tc v new_cost = record {
  path_cost = new_cost;
  next_hop = elim tc.next_hop [ none ↦ v.next_hop | some h ↦ some h ];
  hops = u8 (tc.hops + 1);
}

-- The branch of `olsr_spf_relax` that has found a better path to `v`, over `tc`.
unfoldable pub improve : ℕ → ℕ → ℕ → Spf → Spf
improve tc v new_cost s =
    let cand = if ltb (cost_of s v) route_cost_broken then remove v s.cand_tree else s.cand_tree in
    let path = if mem v s.path_list then remove v s.path_list else s.path_list in
    let vertex = update v (better (s.vertex tc) (s.vertex v) new_cost) s.vertex in
    record s {
      vertex = vertex;
      cand_tree = insert_cand (λ w. (vertex w).path_cost) v cand;
      path_list = path;
    }

-- One round of the loop of `olsr_spf_relax`.
unfoldable pub relax_edge : ℕ → Spf → Edge → Spf
relax_edge tc s e =
    if leb link_cost_broken (edge_cost e)
    then s
    else (let new_cost = u32 (edge_cost e + cost_of s tc) in
        if ltb new_cost (cost_of s e.dest) then improve tc e.dest new_cost s else s)

-- `olsr_spf_relax` over the edges of `tc`.
unfoldable pub relax : ℕ → Spf → List Edge → Spf
relax tc s [] = s
relax tc s (e ∷ es) = relax tc (relax_edge tc s e) es

-- `olsr_spf_del_cand_tree` and `olsr_spf_add_path_list`, at the end of a round.
unfoldable pub settle : ℕ → Spf → Spf
settle tc s = record s {
  cand_tree = remove tc s.cand_tree;
  path_list = s.path_list ++ tc ∷ [];
  path_count = s.path_count + 1;
}

-- `olsr_spf_extract_best`.
abbrev pub extract_best : List ℕ → Option ℕ
extract_best [] = none
extract_best (tc ∷ tree) = some tc

-- The loop of `olsr_spf_run_full` with fuel; `none` means that the fuel ran out.
unfoldable pub run_loop : (ℕ → List Edge) → ℕ → Spf → Option Spf
run_loop edges zero s = elim (extract_best s.cand_tree) [ none ↦ some s | some _ ↦ none ]
run_loop edges (suc fuel) s = elim (extract_best s.cand_tree) [
  | none ↦ some s
  | some tc ↦ run_loop edges fuel (settle tc (relax tc s (edges tc)))
]

unfoldable pub run_full : (ℕ → List Edge) → ℕ → Spf → Option Spf
run_full edges fuel s = run_loop edges fuel (record s { path_count = 0 })

-- What `olsr_calculate_routing_table` reads of a one-hop neighbor: whether it is symmetric, the
-- vertex behind its edge, and the best link to it.
pub record Neighbor : Type 0 where
  pub is_sym : Bool
  pub dest : ℕ
  pub best_link : Option ℕ

-- The initial vertices, with the next hops of the neighbors.
unfoldable pub set_next_hops : List Neighbor → (ℕ → Vertex) → ℕ → Vertex
set_next_hops [] vertex = vertex
set_next_hops (n ∷ ns) vertex = set_next_hops ns (
    if n.is_sym
    then update n.dest (record (vertex n.dest) { next_hop = n.best_link }) vertex
    else vertex)

unfoldable pub blank : ℕ → Vertex
blank v = record { path_cost = route_cost_broken; next_hop = none; hops = 0 }

unfoldable pub initial : ℕ → List Neighbor → Spf
initial myself neighbors = record {
  vertex =
      set_next_hops neighbors
        (update myself (record (blank myself) { path_cost = zero_route_cost }) blank);
  cand_tree = myself ∷ [];
  path_list = [];
  path_count = 0;
}

-- The part of `olsr_calculate_routing_table` up to the end of the computation.
unfoldable pub compute_paths : (ℕ → List Edge) → ℕ → ℕ → List Neighbor → Option Spf
compute_paths edges fuel myself neighbors = run_full edges fuel (initial myself neighbors)
