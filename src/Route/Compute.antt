-- ===== src/Route/Compute.antt =====
-- olsr_calculate_routing_table of src/olsr_spf.c as a whole: the shortest paths over the link state
-- database, and the routes to what they lead to.
pub mod Shortest
use olsr.Prelude.{
  ℕ, ◌*◌, ◌≤◌, ◌≡◌, ◌≢◌, refl, inl, inr, ◌⊎◌, Bool, true, false, not, ◌&&◌, ◌||◌, ◌==◌, ltb,
  if◌then◌else◌, Bool-cases, Option-cases, Option, none, some, arith, List, [], ◌∷◌, map, length,
  ap, subst, sym, ◌∙◌, All,
}
use olsr.Spf.{Edge, Spf, Neighbor, cost_of, compute_paths, route_cost_broken}
use olsr.Spf.Nodes.{mem}
use olsr.Spf.Walk.{Graph, IsUsable, Walk}
use olsr.Spf.Correct.{IsNetwork, compute_paths_shortest}
use olsr.Spf.NextHop.{Via}
use olsr.Spf.Routed.{preset_hop, compute_paths_next_hop}
use olsr.Route.{Nexthop, RtPath, Rib, RtConfig, Reached, prefix_len}
use olsr.Route.Kernel.{Kernel, has_interface, calculate_routes}
use olsr.Route.Kernel.Reliable.{IsReliable}
use olsr.Route.Kernel.Synced.{IsSynced, IsSettled, All-map}
use olsr.Route.Kernel.Walk.{HasLink, IsReached}
use olsr.Route.Kernel.Served.{Served}
use olsr.Route.Kernel.Calculate.{calculate_routes_lem}

-- What the computation reads: this node, the edges, the neighbors, and the next hop that a link
-- leads to. There is no node if there is no main address.
pub record Topology : Type 0 where
  pub myself : Option ℕ
  pub edges : Graph
  pub neighbors : List Neighbor
  pub links : ℕ → Nexthop

-- A vertex of the path list with the link that it was reached over.
abbrev pub reached_by : (ℕ → Nexthop) → Spf → ℕ → Option ℕ → ℕ × Option Reached
reached_by links s v none = (v, none)
reached_by links s v (some h) = (
  v,
  some (record { path_cost = (s.vertex v).path_cost; hops = (s.vertex v).hops; link = links h }),
)

unfoldable pub reached_list : (ℕ → Nexthop) → Spf → List ℕ → List (ℕ × Option Reached)
reached_list links s [] = []
reached_list links s (v ∷ vs) = reached_by links s v (s.vertex v).next_hop ∷ reached_list links s vs

-- `olsr_expire_spf_backoff`, on whether the timer runs.
abbrev pub expire_spf_backoff : Bool → Bool
expire_spf_backoff backoff = false

-- The backoff timer runs behind a computation.
abbrev pub with_backoff {ℓ} : {K : Type ℓ} → Option (K × Rib) → Option (K × Rib × Bool)
with_backoff none = none
with_backoff (some (k, rib)) = some (k, rib, true)

-- `olsr_calculate_routing_table`, with whether the backoff timer runs.
unfoldable pub calculate_routing_table {ℓ} :
    {K : Type ℓ}
    → Kernel K
    → RtConfig
    → Topology
    → ℕ
    → Bool
    → Bool
    → Rib
    → K
    → Option (K × Rib × Bool)
calculate_routing_table os cfg top fuel force backoff rib k =
    if not force && backoff then some (k, rib, backoff) else (elim top.myself [
      | none ↦ with_backoff (calculate_routes os cfg [] rib k)
      | some myself ↦ elim (compute_paths top.edges fuel myself top.neighbors) [
        | none ↦ none
        | some s ↦
            with_backoff (calculate_routes os cfg (reached_list top.links s s.path_list) rib k)
      ]
    ])
