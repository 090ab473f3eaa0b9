-- ===== src/Spf/Improve.antt =====
-- The branch of `olsr_spf_relax` that has found a better path keeps the invariant.
use olsr.Prelude.{
  ℕ, ◌+◌, ◌*◌, ◌≤◌, ◌<◌, ◌≡◌, ap, ◌==◌, true, false, ◌||◌, List, ◌∷◌, arith, Bool-cases, inl, inr,
  ◌∙◌,
}
use olsr.Spf.Nodes.{mem, remove, IsNodup, mem-remove, remove-IsNodup}
use olsr.Spf.Cand.{
  IsSorted, mem-insert_cand, insert_cand-IsNodup, insert_cand-IsSorted, remove-IsSorted,
  insert_cand_behind, IsSorted-agree,
}
use olsr.Spf.Walk.{Graph, Walk, IsUsable, step}
use olsr.Spf.Mid.{Inv, Mid, Improved, best-mem}
use olsr.Spf.{Edge, Spf, cost_of, insert_cand, edge_cost, route_cost_broken}

module _ (edges : Graph) (myself : ℕ) (nodes : List ℕ) where
  -- The edge `e` of `tc` gives a better path.
  module _ (limit tc : ℕ) (s t : Spf) (e : Edge) (m : Mid edges myself nodes limit tc s)
      (usable : IsUsable edges tc e) (low : edge_cost e + cost_of s tc < cost_of s e.dest)
      (small : edge_cost e + cost_of s tc ≤ limit)
      (few : ((s.vertex tc).hops + 1) * 0xff_fffe ≤ limit) (limit_fits : limit < route_cost_broken)
      (is_node : mem e.dest nodes ≡ true) (absent : mem e.dest s.path_list ≡ false)
      (imp : Improved edges myself nodes tc e.dest (edge_cost e + cost_of s tc) s t) where
    mem_cand : (w : ℕ) → mem w t.cand_tree ≡ (w == e.dest || mem w s.cand_tree)
    mem_cand w = rw imp.cand (
        mem-insert_cand (cost_of t) e.dest w (remove e.dest s.cand_tree)
        ∙ ground (arith, mem-remove e.dest w s.cand_tree m.inv.cand_nodup))

    IsSorted-after : IsSorted (cost_of t) t.cand_tree
    IsSorted-after =
        let kept = remove-IsSorted (cost_of s) e.dest s.cand_tree m.inv.sorted in
        let same : (w : ℕ) → mem w (remove e.dest s.cand_tree) ≡ true → cost_of t w ≡ cost_of s w =
          λ w h. ground (arith, imp.costs w, h, mem-remove e.dest w s.cand_tree m.inv.cand_nodup) in
        rw imp.cand (
          insert_cand-IsSorted (cost_of t) e.dest (remove e.dest s.cand_tree)
            (IsSorted-agree (cost_of s) (cost_of t) (remove e.dest s.cand_tree) same kept))

    IsNodup-after : IsNodup t.cand_tree
    IsNodup-after = rw imp.cand (
        insert_cand-IsNodup (cost_of t) e.dest (remove e.dest s.cand_tree)
          (ground (arith, mem-remove e.dest e.dest s.cand_tree m.inv.cand_nodup))
          (remove-IsNodup e.dest s.cand_tree m.inv.cand_nodup))

    sound_after :
        (w : ℕ)
        → cost_of t w < route_cost_broken
        → Walk edges myself w (cost_of t w) (t.vertex w).hops
    sound_after w h = elim (Bool-cases (w == e.dest)) [
      | inl new ↦
          step e (m.inv.sound tc (ground arith)) usable (ground arith) (ground (arith, imp.costs w))
            (ground (arith, imp.hops w))
      | inr old ↦
          let c : cost_of t w ≡ cost_of s w = ground (arith, imp.costs w) in
          let k : (t.vertex w).hops ≡ (s.vertex w).hops = ground (arith, imp.hops w) in
          rw (c, k) (m.inv.sound w (rw c at h))
    ]

    pub Inv-after : Inv edges myself nodes limit t
    Inv-after = record {
      sorted = IsSorted-after;
      cand_nodup = IsNodup-after;
      path_nodup = rw imp.path m.inv.path_nodup;
      path_sorted = rw imp.path (
          IsSorted-agree (cost_of s) (cost_of t) s.path_list
            (λ w h. ground (arith, imp.costs w, h, absent)) m.inv.path_sorted);
      finite = λ w. rw (imp.path, mem_cand w) (ground (arith, imp.costs w, m.inv.finite w));
      apart = λ w h. ground (arith, mem_cand w, imp.path, h, m.inv.apart w);
      settled = λ u w hu hw. ground (
        arith,
        mem_cand w,
        imp.path,
        hu,
        hw,
        imp.costs u,
        imp.costs w,
        m.inv.settled u w,
        m.inv.settled u tc,
        best-mem edges myself nodes limit tc s m,
      );
      closed = λ u x hu usable_x.
          ground (arith, imp.path, hu, imp.costs u, imp.costs x.dest, m.inv.closed u x, usable_x);
      sound = sound_after;
      bounded = λ w h. ground (arith, h, imp.costs w, imp.hops w, m.inv.bounded w);
      known = λ w h. ground (arith, h, imp.costs w, m.inv.known w);
      source = ground (arith, imp.costs myself, m.inv.source);
    }

    pub front_after : t.cand_tree ≡ tc ∷ insert_cand (cost_of t) e.dest (remove e.dest m.rest)
    unfolding remove
    front_after =
        let other : (e.dest == tc) ≡ false = ground arith in
        let cands : remove e.dest s.cand_tree ≡ tc ∷ remove e.dest m.rest =
          rw m.front (ground arith) in
        imp.cand
        ∙ (ap (insert_cand (cost_of t) e.dest) cands
            ∙ insert_cand_behind (cost_of t) e.dest tc (remove e.dest m.rest)
                (ground (arith, imp.costs tc, imp.costs e.dest)))
