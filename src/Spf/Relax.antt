-- ===== src/Spf/Relax.antt =====
-- `olsr_spf_relax` keeps the invariant, and afterwards each usable edge of the explored vertex is
-- accounted for.
use olsr.Prelude.{ℕ, ◌+◌, ◌*◌, ◌≤◌, ◌<◌, ◌≡◌, refl, true, List, [], ◌∷◌, arith, inl, inr, ◌∙◌, ◌⊎◌}
use olsr.Spf.Nodes.{mem}
use olsr.Spf.Improve.{Inv-after, front_after}
use olsr.Spf.Walk.{Graph, IsUsable, Contains}
use olsr.Spf.Mid.{Mid, improved-not-mem, improve-Improved}
use olsr.Spf.{
  Edge, Spf, cost_of, improve, relax_edge, relax, edge_cost, link_cost_broken, route_cost_broken,
}

module _ (edges : Graph) (myself : ℕ) (nodes : List ℕ) where
  -- What exploring the edges `es` of `tc` has done by the time that the state is `t`.
  pub record Progress (limit tc : ℕ) (es : List Edge) (s t : Spf) : Type 0 where
    pub mid : Mid edges myself nodes limit tc t
    pub falls : (w : ℕ) → cost_of t w ≤ cost_of s w
    pub same_cost : cost_of t tc ≡ cost_of s tc
    pub same_hops : (t.vertex tc).hops ≡ (s.vertex tc).hops
    pub path : t.path_list ≡ s.path_list
    pub count : t.path_count ≡ s.path_count
    pub covers :
        (e : Edge)
        → Contains e es
        → edge_cost e < link_cost_broken
        → (cost_of t e.dest ≤ cost_of s tc + edge_cost e) × (cost_of t e.dest < route_cost_broken)

  -- Edges that need no better path leave the state alone.
  idle :
      (limit tc : ℕ) (es : List Edge) (s : Spf)
      → Mid edges myself nodes limit tc s
      → ((e : Edge)
          → Contains e es
          → edge_cost e < link_cost_broken
          → (cost_of s e.dest ≤ cost_of s tc + edge_cost e)
            × (cost_of s e.dest < route_cost_broken))
      → Progress limit tc es s s
  idle limit tc es s m covers = record {
    mid = m;
    falls = λ w. omega arith;
    same_cost = refl;
    same_hops = refl;
    path = refl;
    count = refl;
    covers = covers;
  }

  module _ (base tc : ℕ) (fits : base + 0xff_fffe ≤ 255 * 0xff_fffe)
      (known : (e : Edge) → Contains e (edges tc) → mem e.dest nodes ≡ true) where
    -- The explored vertex is within the bound of the round.
    abbrev pub Near : Spf → Type 0
    Near s = (cost_of s tc ≤ base) × ((s.vertex tc).hops * 0xff_fffe ≤ base)

    improve-Progress :
        (s : Spf) (e : Edge)
        → Mid edges myself nodes (base + 0xff_fffe) tc s
        → Near s
        → IsUsable edges tc e
        → edge_cost e + cost_of s tc < cost_of s e.dest
        → Progress
            (base + 0xff_fffe)
            tc
            (e ∷ [])
            s
            (improve tc e.dest (edge_cost e + cost_of s tc) s)
    unfolding improve
    improve-Progress s e m near usable low =
        let limit = base + 0xff_fffe in
        let t = improve tc e.dest (edge_cost e + cost_of s tc) s in
        let absent = improved-not-mem edges myself nodes limit tc s m e.dest _ low (omega arith) in
        let imp =
          improve-Improved edges myself nodes limit tc s m e.dest _ low (omega (arith))
            (omega (arith, near.1)) in
        let few : ((s.vertex tc).hops + 1) * 0xff_fffe ≤ limit = omega (arith, near.1) in
        let small : edge_cost e + cost_of s tc ≤ limit = omega arith in
        let node = known e usable.0 in
        record {
          mid = record {
            inv =
                Inv-after edges myself nodes limit tc s t e m usable low small few (omega arith)
                  node absent imp;
            rest = _;
            front =
                front_after edges myself nodes limit tc s t e m usable low small few (omega arith)
                  node absent imp;
          };
          falls = λ w. ground (arith, imp.costs w);
          same_cost = ground (arith, imp.costs tc);
          same_hops = ground (arith, imp.hops tc);
          path = imp.path;
          count = refl;
          covers = λ x h b. ground (arith, imp.costs e.dest);
        }

    -- Whether the edge is broken, gives no better path, or gives one.
    pub relax_edge-cases :
        (s : Spf) (e : Edge)
        → Near s
        → (link_cost_broken ≤ edge_cost e × (relax_edge tc s e ≡ s))
          ⊎ ((cost_of s e.dest ≤ edge_cost e + cost_of s tc
                × (edge_cost e < link_cost_broken)
                × (relax_edge tc s e ≡ s))
              ⊎ ((edge_cost e + cost_of s tc < cost_of s e.dest)
                  × (edge_cost e < link_cost_broken)
                  × (relax_edge tc s e ≡ improve tc e.dest (edge_cost e + cost_of s tc) s)))
    unfolding relax_edge
    relax_edge-cases s e near = ground arith

    pub relax_edge-Progress :
        (s : Spf) (e : Edge)
        → Mid edges myself nodes (base + 0xff_fffe) tc s
        → Near s
        → Contains e (edges tc)
        → Progress (base + 0xff_fffe) tc (e ∷ []) s (relax_edge tc s e)
    relax_edge-Progress s e m near has = elim (relax_edge-cases s e near) [
      | inl (broken, same) ↦
          rw same (idle (base + 0xff_fffe) tc (e ∷ []) s m (λ x h b. ground arith))
      | inr (inl (high, usable, same)) ↦
          rw same (idle (base + 0xff_fffe) tc (e ∷ []) s m (λ x h b. ground arith))
      | inr (inr (low, usable, same)) ↦ rw same (improve-Progress s e m near (has, usable) low)
    ]

    join :
        (e : Edge) (es : List Edge) (s t r : Spf)
        → Progress (base + 0xff_fffe) tc (e ∷ []) s t
        → Progress (base + 0xff_fffe) tc es t r
        → Progress (base + 0xff_fffe) tc (e ∷ es) s r
    join e es s t r p q = record {
      mid = q.mid;
      falls = λ w. omega (arith, p.falls w, q.falls w);
      same_cost = q.same_cost ∙ p.same_cost;
      same_hops = q.same_hops ∙ p.same_hops;
      path = q.path ∙ p.path;
      count = q.count ∙ p.count;
      covers = λ x h b. elim h [
        | inl same ↦ ground (arith, p.covers x (inl same) b, q.falls x.dest)
        | inr later ↦ ground (arith, q.covers x later b, p.same_cost)
      ];
    }

    pub relax-Progress :
        (es : List Edge) (s : Spf)
        → ((e : Edge) → Contains e es → Contains e (edges tc))
        → Mid edges myself nodes (base + 0xff_fffe) tc s
        → Near s
        → Progress (base + 0xff_fffe) tc es s (relax tc s es)
    unfolding relax
    relax-Progress [] s within m near = idle (base + 0xff_fffe) tc [] s m (λ e h. absurd h)
    relax-Progress (e ∷ es) s within m near =
        let p = relax_edge-Progress s e m near (within e (inl refl)) in
        join e es s (relax_edge tc s e) _ p (
          relax-Progress es (relax_edge tc s e) (λ x h. within x (inr h)) p.mid
            (omega (arith, p.same_cost, near.0), omega (arith, p.same_hops, near.1)))

    -- What every better path keeps, the exploration keeps.
    pub relax_keeps {ℓ} :
        {P : Spf → Type ℓ}
        → ((s : Spf) (e : Edge)
            → Mid edges myself nodes (base + 0xff_fffe) tc s
            → Near s
            → IsUsable edges tc e
            → edge_cost e + cost_of s tc < cost_of s e.dest
            → P s
            → P (improve tc e.dest (edge_cost e + cost_of s tc) s))
        → (es : List Edge) (s : Spf) → ((e : Edge) → Contains e es → Contains e (edges tc))
        → Mid edges myself nodes (base + 0xff_fffe) tc s
        → Near s
        → P s
        → P (relax tc s es)
    unfolding relax
    relax_keeps keep [] s within m near p = p
    relax_keeps {P} keep (e ∷ es) s within m near p =
        let r = relax_edge-Progress s e m near (within e (inl refl)) in
        let q : P (relax_edge tc s e) = elim (relax_edge-cases s e near) [
          | inl (_, same) ↦ rw same p
          | inr (inl (_, _, same)) ↦ rw same p
          | inr (inr (low, usable, same)) ↦
              rw same (keep s e m near (within e (inl refl), usable) low p)
        ] in
        relax_keeps keep es (relax_edge tc s e) (λ x h. within x (inr h)) r.mid
          (omega (arith, r.same_cost, near.0), omega (arith, r.same_hops, near.1)) q
