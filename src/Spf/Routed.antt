-- ===== src/Spf/Routed.antt =====
-- `olsr_calculate_routing_table` up to the end of the computation: every vertex is routed over the
-- link to the first vertex of a cheapest walk.
use olsr.Prelude.{
  ℕ, ◌≤◌, ◌≡◌, ◌≢◌, refl, true, List, [], Option, none, some, arith, length, ◌⊎◌, inl, inr,
}
use olsr.Spf.Nodes.{mem, update}
use olsr.Spf.Walk.{Graph, IsUsable}
use olsr.Spf.Run.{Between, run_loop-Between}
use olsr.Spf.Correct.{IsNetwork, initial-Between, set_next_hops_same}
use olsr.Spf.NextHop.{Via, First, Later, FirstAt, LaterAt, round-First, round-Later}
use olsr.Spf.{Edge, Spf, cost_of, run_full, Neighbor, initial, compute_paths, blank}

module _ (edges : Graph) (myself : ℕ) (nodes : List ℕ) (preset : ℕ → Option ℕ)
    (net : IsNetwork edges myself nodes) (none_set : preset myself ≡ none)
    (all_set : (e : Edge) → IsUsable edges myself e → (h : ℕ) × (preset e.dest ≡ some h)) where
  initial-First :
      (neighbors : List Neighbor)
      → ((v : ℕ) → ((initial myself neighbors).vertex v).next_hop ≡ preset v)
      → First edges myself nodes preset (initial myself neighbors)
  unfolding First FirstAt initial blank
  initial-First neighbors set =
      let same =
        set_next_hops_same edges myself nodes neighbors
          (update myself (record (blank myself) { path_cost = 0 }) blank) in
      (
        ground (arith, (same myself).1),
        (λ v. (set v, λ finite other. ground (arith, (same v).0))),
        refl,
      )

  compute_paths-Later :
      (fuel : ℕ) (neighbors : List Neighbor)
      → length nodes ≤ fuel
      → ((v : ℕ) → ((initial myself neighbors).vertex v).next_hop ≡ preset v)
      → (t : Spf) × (compute_paths edges fuel myself neighbors ≡ some t)
        × Between edges myself nodes t
        × (t.cand_tree ≡ [])
        × (First edges myself nodes preset t ⊎ Later edges myself nodes preset t)
  unfolding compute_paths run_full initial
  compute_paths-Later fuel neighbors enough set =
      run_loop-Between edges myself nodes
        {P = λ s. First edges myself nodes preset s ⊎ Later edges myself nodes preset s} fuel
        (initial myself neighbors) net.small net.inside (omega arith)
        (initial-Between edges myself nodes neighbors net.myself_in)
        (inl (initial-First neighbors set))
        (λ s tc rest front b p. elim p [
          | inl f ↦
              inr (round-First edges myself nodes preset net none_set all_set s b tc rest front f)
          | inr l ↦
              inr (round-Later edges myself nodes preset net none_set all_set s b tc rest front l)
        ])

-- The next hop that the neighbors give a vertex before the computation starts.
unfoldable pub preset_hop : ℕ → List Neighbor → ℕ → Option ℕ
preset_hop myself neighbors v = ((initial myself neighbors).vertex v).next_hop

-- On a network of at most 255 nodes, with fuel for a round for each node, when no neighbor gives this
-- node itself a next hop and the neighbors give one to each vertex that a link of this node that is
-- not broken leads to: each vertex on the path list but this node has the next hop that was given to
-- a vertex `n`, and some walk over links that are not broken goes to `n` first and on to the vertex,
-- with just the vertex's path cost and hops.
pub compute_paths_next_hop :
    (edges : Graph) (myself : ℕ) (nodes : List ℕ) (neighbors : List Neighbor) (fuel : ℕ)
    → IsNetwork edges myself nodes
    → length nodes ≤ fuel
    → preset_hop myself neighbors myself ≡ none
    → ((e : Edge)
        → IsUsable edges myself e
        → (h : ℕ) × (preset_hop myself neighbors e.dest ≡ some h))
    → (t : Spf) × (compute_paths edges fuel myself neighbors ≡ some t)
      × ((v : ℕ)
          → mem v t.path_list ≡ true
          → v ≢ myself
          → (n : ℕ) × (h : ℕ) × (preset_hop myself neighbors n ≡ some h)
            × ((t.vertex v).next_hop ≡ some h)
            × Via edges myself n v (cost_of t v) (t.vertex v).hops)
unfolding First Later LaterAt mem preset_hop
compute_paths_next_hop edges myself nodes neighbors fuel net enough none_set all_set =
    let (t, runs, b, done, phase) =
      compute_paths-Later edges myself nodes (preset_hop myself neighbors) net none_set all_set fuel
        neighbors enough (λ v. refl) in
    elim phase [
      | inl (_, _, front) ↦ absurd (ground (arith, front, done))
      | inr (_, l) ↦ (t, runs, λ v h ne. l v (ground (arith, b.inv.finite v, h)) ne)
    ]
