-- ===== src/Spf/Correct.antt =====
-- `olsr_calculate_routing_table` up to the end of the computation: its costs are those of the
-- cheapest walks, and the path list is the reachable vertices in the order of their costs.
use olsr.Prelude.{
  ℕ, ◌≤◌, ◌≡◌, refl, ltb, true, List, [], ◌∷◌, some, if◌then◌else◌, arith, length, ◌∙◌,
}
use olsr.Spf.Nodes.{mem, update, IsNodup}
use olsr.Spf.Cand.{IsSorted}
use olsr.Spf.Walk.{Graph, Walk, here, step, Contains}
use olsr.Spf.Run.{Between, run_loop-Between}
use olsr.Spf.{
  Edge, Vertex, Spf, cost_of, run_full, route_cost_broken, Neighbor, set_next_hops, initial,
  compute_paths, blank,
}

module _ (edges : Graph) (myself : ℕ) (nodes : List ℕ) where
  -- A walk from this node costs at least what the computation has found, when it is over.
  Walk-le :
      (t : Spf)
      → Between edges myself nodes t
      → t.cand_tree ≡ []
      → {v cost hops : ℕ} → Walk edges myself v cost hops
      → (mem v t.path_list ≡ true) × (cost_of t v ≤ cost)
  unfolding mem
  Walk-le t b done (here v c h) = rw v (ground (arith, b.inv.finite myself, b.inv.source, done, c))
  Walk-le t b done (step {u} {v} e walk usable dest c h) =
      let (seen, least) = Walk-le t b done walk in
      rw dest (ground (arith, b.inv.closed u e seen usable, b.inv.finite e.dest, done, c, least))

  pub set_next_hops_same :
      (ns : List Neighbor) (vertex : ℕ → Vertex) (v : ℕ)
      → ((set_next_hops ns vertex v).path_cost ≡ (vertex v).path_cost)
        × ((set_next_hops ns vertex v).hops ≡ (vertex v).hops)
  unfolding set_next_hops
  set_next_hops_same [] vertex v = (refl, refl)
  set_next_hops_same (n ∷ ns) vertex v =
      let (c, h) =
        set_next_hops_same ns
          (if n.is_sym
            then update n.dest (record (vertex n.dest) { next_hop = n.best_link }) vertex
            else vertex)
          v in
      (c ∙ ground arith, h ∙ ground arith)

  pub initial-Between :
      (neighbors : List Neighbor)
      → mem myself nodes ≡ true
      → Between edges myself nodes (initial myself neighbors)
  unfolding initial blank mem
  initial-Between ns here_too =
      let same =
        set_next_hops_same ns (update myself (record (blank myself) { path_cost = 0 }) blank) in
      record {
        inv = record {
          sorted = (tt, tt);
          cand_nodup = (refl, tt);
          path_nodup = tt;
          path_sorted = tt;
          finite = λ v. ground (arith, (same v).0);
          apart = λ v h. ground (arith, h);
          settled = λ u v hu. ground (arith, hu);
          closed = λ u e hu. ground (arith, hu);
          sound = λ v h.
              here (ground (arith, h, (same v).0)) (ground (arith, h, (same v).0))
                (ground (arith, h, (same v).0, (same v).1));
          bounded = λ v h. ground (arith, h, (same v).0, (same v).1);
          known = λ v h. ground (arith, h, (same v).0);
          source = ground (arith, (same myself).0);
        };
        count = refl;
      }

  -- The network that the computation runs on: the edges lead to the nodes, which are 255 at most.
  pub record IsNetwork : Type 0 where
    pub myself_in : mem myself nodes ≡ true
    pub small : length nodes ≤ 255
    pub inside : (u : ℕ) (e : Edge) → Contains e (edges u) → mem e.dest nodes ≡ true

  module _ (net : IsNetwork) (fuel : ℕ) (enough : length nodes ≤ fuel)
      (neighbors : List Neighbor) where
    compute_paths-Between :
        (t : Spf) × (compute_paths edges fuel myself neighbors ≡ some t)
        × Between edges myself nodes t
        × (t.cand_tree ≡ [])
        × Unit {0}
    unfolding compute_paths run_full initial
    compute_paths-Between =
        run_loop-Between edges myself nodes fuel (initial myself neighbors) net.small net.inside
          (omega arith) (initial-Between neighbors net.myself_in) tt (λ s tc rest front b p. p)

    -- On a network of at most 255 nodes, fuel for a round for each node is enough, and then a vertex
    -- is on the path list exactly if its path cost is below `ROUTE_COST_BROKEN`; some walk from this
    -- node over links that are not broken has just the cost and the hops of each such vertex; and
    -- whatever such a walk leads to is on the path list, with a path cost that is no higher than the
    -- cost of the walk.
    pub compute_paths_shortest :
        (t : Spf) × (compute_paths edges fuel myself neighbors ≡ some t)
        × ((v : ℕ) → mem v t.path_list ≡ ltb (cost_of t v) route_cost_broken)
        × ((v : ℕ) → mem v t.path_list ≡ true → Walk edges myself v (cost_of t v) (t.vertex v).hops)
        × ((v cost hops : ℕ)
            → Walk edges myself v cost hops
            → (mem v t.path_list ≡ true) × (cost_of t v ≤ cost))
    unfolding mem
    compute_paths_shortest =
        let (t, runs, b, done, _) = compute_paths-Between in
        (
          t,
          runs,
          (λ v. ground (arith, b.inv.finite v, done)),
          (λ v h. b.inv.sound v (ground (arith, b.inv.finite v, h, done))),
          λ v cost hops walk. Walk-le t b done walk,
        )

    -- On a network of at most 255 nodes and with fuel for a round for each node, the path list holds
    -- no vertex twice, is in the order of the path costs, and is as long as the path count says.
    pub compute_paths-path_list :
        (t : Spf) × (compute_paths edges fuel myself neighbors ≡ some t)
        × IsNodup t.path_list
        × IsSorted (cost_of t) t.path_list
        × (t.path_count ≡ length t.path_list)
    compute_paths-path_list =
        let (t, runs, b, done, _) = compute_paths-Between in
        (t, runs, b.inv.path_nodup, b.inv.path_sorted, b.count)
