-- ===== src/Spf/Mid.antt =====
-- The invariant of the computation, in the course of a round: `tc` is the candidate that is being
-- explored.
use olsr.Prelude.{
  ℕ, ◌+◌, ◌*◌, ◌≤◌, ◌<◌, ◌≡◌, ap, ltb, ◌==◌, if◌then◌else◌, true, false, ◌||◌, List, ◌∷◌, arith,
}
use olsr.Spf.Nodes.{mem, remove, IsNodup, remove_absent}
use olsr.Spf.Cand.{IsSorted, All-mem}
use olsr.Spf.Walk.{Graph, Walk, IsUsable}
use olsr.Spf.{Edge, Spf, cost_of, insert_cand, improve, better, edge_cost, route_cost_broken}

module _ (edges : Graph) (myself : ℕ) (nodes : List ℕ) where
  pub record Inv (limit : ℕ) (s : Spf) : Type 0 where
    pub sorted : IsSorted (cost_of s) s.cand_tree
    pub cand_nodup : IsNodup s.cand_tree
    pub path_nodup : IsNodup s.path_list
    pub path_sorted : IsSorted (cost_of s) s.path_list
    pub finite :
        (v : ℕ) → (mem v s.cand_tree || mem v s.path_list) ≡ ltb (cost_of s v) route_cost_broken
    pub apart : (v : ℕ) → mem v s.path_list ≡ true → mem v s.cand_tree ≡ false
    pub settled :
        (u v : ℕ) → mem u s.path_list ≡ true → mem v s.cand_tree ≡ true → cost_of s u ≤ cost_of s v
    pub closed :
        (u : ℕ) (e : Edge)
        → mem u s.path_list ≡ true
        → IsUsable edges u e
        → (cost_of s e.dest ≤ cost_of s u + edge_cost e) × (cost_of s e.dest < route_cost_broken)
    pub sound :
        (v : ℕ)
        → cost_of s v < route_cost_broken
        → Walk edges myself v (cost_of s v) (s.vertex v).hops
    pub bounded :
        (v : ℕ)
        → cost_of s v < route_cost_broken
        → (cost_of s v ≤ limit) × ((s.vertex v).hops * 0xff_fffe ≤ limit)
    pub known : (v : ℕ) → cost_of s v < route_cost_broken → mem v nodes ≡ true
    pub source : cost_of s myself ≡ 0

  -- Beside the invariant: `tc` is the best candidate.
  pub record Mid (limit tc : ℕ) (s : Spf) : Type 0 where
    pub inv : Inv limit s
    pub rest : List ℕ
    pub front : s.cand_tree ≡ tc ∷ rest

  -- What `improve` does to the parts of the state.
  pub record Improved (tc v new_cost : ℕ) (s t : Spf) : Type 0 where
    pub costs : (w : ℕ) → cost_of t w ≡ (if w == v then new_cost else cost_of s w)
    pub hops :
        (w : ℕ) → (t.vertex w).hops ≡ (if w == v then (s.vertex tc).hops + 1 else (s.vertex w).hops)
    pub cand : t.cand_tree ≡ insert_cand (cost_of t) v (remove v s.cand_tree)
    pub path : t.path_list ≡ s.path_list

  module _ (limit tc : ℕ) (s : Spf) (m : Mid limit tc s) where
    pub best-mem : mem tc s.cand_tree ≡ true
    unfolding mem
    best-mem = rw m.front (ground arith)

    pub best-le : (v : ℕ) → mem v s.cand_tree ≡ true → cost_of s tc ≤ cost_of s v
    unfolding mem
    best-le v h =
        let sorted = rw m.front at m.inv.sorted in
        let h' = rw m.front at h in
        ground (arith, All-mem (cost_of s) (cost_of s tc) v m.rest sorted.0)

    -- A vertex that a better path is found to has not been settled.
    pub improved-not-mem :
        (v new_cost : ℕ)
        → new_cost < cost_of s v
        → cost_of s tc ≤ new_cost
        → mem v s.path_list ≡ false
    improved-not-mem v new_cost low high = ground (arith, m.inv.settled v tc, best-mem)

    pub improve-Improved :
        (v new_cost : ℕ)
        → new_cost < cost_of s v
        → cost_of s tc ≤ new_cost
        → (s.vertex tc).hops + 1 < 256
        → Improved tc v new_cost s (improve tc v new_cost s)
    unfolding improve better
    improve-Improved v new_cost low high few =
        let absent = improved-not-mem v new_cost low high in
        record {
          costs = λ w. ground arith;
          hops = λ w. ground arith;
          cand =
              ap (insert_cand _ v)
                (ground (arith, m.inv.finite v, remove_absent v s.cand_tree, absent));
          path = ground (arith, absent);
        }
