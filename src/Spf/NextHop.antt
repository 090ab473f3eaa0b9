-- ===== src/Spf/NextHop.antt =====
-- The next hops that the computation leaves: that of a vertex is the link to the first vertex of a
-- cheapest walk.
use olsr.Prelude.{
  ℕ, ◌+◌, ◌*◌, ◌≤◌, ◌<◌, ◌≡◌, ◌≢◌, ap, sym, ◌==◌, true, List, [], ◌∷◌, Option, none, some, if_cases,
  arith, length, ◌∙◌,
}
use olsr.Spf.Nodes.{mem, mem-append, mem_one}
use olsr.Spf.Walk.{Graph, IsUsable}
use olsr.Spf.Mid.{Mid}
use olsr.Spf.Relax.{relax_keeps}
use olsr.Spf.Run.{Between, fresh, near, raised, room, progress}
use olsr.Spf.Correct.{IsNetwork}
use olsr.Spf.{
  Edge, Vertex, Spf, cost_of, relax, improve, better, settle, edge_cost, route_cost_broken,
}

-- `Via edges myself n v cost hops`: some walk from `myself` to `v` goes to `n` first.
pub data Via (edges : Graph) (myself n : ℕ) : ℕ → ℕ → ℕ → Type 0 where
  first :
      {v cost hops : ℕ} (e : Edge)
      → IsUsable edges myself e
      → n ≡ e.dest
      → v ≡ e.dest
      → cost ≡ edge_cost e
      → hops ≡ 1
      → Via edges myself n v cost hops
  further :
      {u v cost cost' hops hops' : ℕ} (e : Edge)
      → Via edges myself n u cost hops
      → IsUsable edges u e
      → v ≡ e.dest
      → cost' ≡ cost + edge_cost e
      → hops' ≡ hops + 1
      → Via edges myself n v cost' hops'

module _ (edges : Graph) (myself : ℕ) (nodes : List ℕ) (preset : ℕ → Option ℕ) where
  -- In the round that explores this node: the next hops are those that were set, and what has been
  -- found is at the end of an edge.
  unfoldable pub FirstAt : ℕ → Vertex → Type 0
  FirstAt v x =
      (x.next_hop ≡ preset v)
      × (x.path_cost < route_cost_broken
          → v ≢ myself
          → (e : Edge) × IsUsable edges myself e
            × (v ≡ e.dest)
            × (x.path_cost ≡ edge_cost e)
            × (x.hops ≡ 1))

  -- In a later round.
  unfoldable pub LaterAt : ℕ → Vertex → Type 0
  LaterAt v x =
      x.path_cost < route_cost_broken
      → v ≢ myself
      → (n : ℕ) × (h : ℕ) × (preset n ≡ some h)
        × (x.next_hop ≡ some h)
        × Via edges myself n v x.path_cost x.hops

  improve-FirstAt :
      (s : Spf) (tc : ℕ) (e : Edge)
      → tc ≡ myself
      → preset myself ≡ none
      → (cost_of s myself ≡ 0)
      → ((s.vertex myself).hops ≡ 0)
      → IsUsable edges tc e
      → ((v : ℕ) → FirstAt v (s.vertex v))
      → (v : ℕ) → FirstAt v ((improve tc e.dest (edge_cost e + cost_of s tc) s).vertex v)
  unfolding improve better FirstAt
  improve-FirstAt s tc e same none_set zero_cost zero_hops usable f v =
      if_cases (FirstAt v) (v == e.dest) _ _
        (λ new. (
          ground (arith, (f tc).0, (f e.dest).0, none_set, same),
          λ h ne. (e, (rw same at usable), ground arith, ground arith, ground arith),
        ))
        (λ old. f v)

  improve-LaterAt :
      (s : Spf) (tc : ℕ) (e : Edge)
      → tc ≢ myself
      → IsUsable edges tc e
      → cost_of s tc < route_cost_broken
      → (s.vertex tc).hops + 1 < 256
      → ((v : ℕ) → LaterAt v (s.vertex v))
      → (v : ℕ) → LaterAt v ((improve tc e.dest (edge_cost e + cost_of s tc) s).vertex v)
  unfolding improve better LaterAt
  improve-LaterAt s tc e other usable finite few l v =
      let (n, h, set, hop, walk) = l tc finite other in
      if_cases (LaterAt v) (v == e.dest) _ _
        (λ new b ne. (
          n,
          h,
          set,
          ground arith,
          further e walk usable (ground arith) (ground arith) (omega arith),
        ))
        (λ old. l v)

  unfoldable pub First : Spf → Type 0
  First s =
      ((s.vertex myself).hops ≡ 0)
      × ((v : ℕ) → FirstAt v (s.vertex v))
      × (s.cand_tree ≡ myself ∷ [])

  unfoldable pub Later : Spf → Type 0
  Later s = (mem myself s.path_list ≡ true) × ((v : ℕ) → LaterAt v (s.vertex v))

  module _ (net : IsNetwork edges myself nodes) (none_set : preset myself ≡ none)
      (all_set : (e : Edge) → IsUsable edges myself e → (h : ℕ) × (preset e.dest ≡ some h)) where
    pub FirstAt-LaterAt : (v : ℕ) (x : Vertex) → FirstAt v x → LaterAt v x
    unfolding FirstAt LaterAt
    FirstAt-LaterAt v x (hop, found) finite other =
        let (e, usable, dest, cost, hops) = found finite other in
        let (h, set) = all_set e usable in
        (v, h, rw dest set, hop ∙ rw dest set, first e usable dest dest cost hops)

    module _ (s : Spf) (b : Between edges myself nodes s) (tc : ℕ) (rest : List ℕ)
        (front : s.cand_tree ≡ tc ∷ rest) where
      mid : Mid edges myself nodes (length s.path_list * 0xff_fffe + 0xff_fffe) tc s
      mid = record { inv = raised edges myself nodes s b tc rest front; rest = rest; front = front }

      settled : mem tc (settle tc (relax tc s (edges tc))).path_list ≡ true
      unfolding settle
      settled =
          ground (arith, mem-append tc (relax tc s (edges tc)).path_list (tc ∷ []), mem_one tc tc)

      keeps {ℓ} :
          {P : Spf → Type ℓ}
          → ((s' : Spf) (e : Edge)
              → Mid edges myself nodes (length s.path_list * 0xff_fffe + 0xff_fffe) tc s'
              → (cost_of s' tc ≤ length s.path_list * 0xff_fffe)
                × ((s'.vertex tc).hops * 0xff_fffe ≤ length s.path_list * 0xff_fffe)
              → IsUsable edges tc e
              → edge_cost e + cost_of s' tc < cost_of s' e.dest
              → P s'
              → P (improve tc e.dest (edge_cost e + cost_of s' tc) s'))
          → P s
          → P (relax tc s (edges tc))
      keeps keep p =
          relax_keeps edges myself nodes (length s.path_list * 0xff_fffe) tc
            (omega (arith, room edges myself nodes s b tc rest front, net.small)) (net.inside tc)
            keep (edges tc) s (λ e h. h) mid (near edges myself nodes s b tc rest front) p

      pub round-First : First s → Later (settle tc (relax tc s (edges tc)))
      unfolding First Later settle mem improve better
      round-First (zero_hops, f, only) =
          let same : tc ≡ myself = ap (λ ws. elim ws [ [] ↦ 0 | v ∷ _ ↦ v ]) (sym front ∙ only) in
          let (_, after) =
            keeps {P = λ t. ((t.vertex myself).hops ≡ 0) × ((v : ℕ) → FirstAt v (t.vertex v))}
              (λ s' e m near_s usable low (zero_hops, f). (
                ground (arith, m.inv.source),
                improve-FirstAt s' tc e same none_set m.inv.source zero_hops usable f,
              ))
              (zero_hops, f) in
          (rw (sym same) settled, λ v. FirstAt-LaterAt v _ (after v))

      pub round-Later : Later s → Later (settle tc (relax tc s (edges tc)))
      unfolding Later settle
      round-Later (before, l) =
          let other : tc ≢ myself =
            λ same. ground (arith, fresh edges myself nodes s b tc rest front) in
          let p = progress edges myself nodes s b tc rest front net.small net.inside in
          (
            ground (
              arith,
              mem-append myself (relax tc s (edges tc)).path_list (tc ∷ []),
              p.path,
              before,
            ),
            keeps {P = λ t. (v : ℕ) → LaterAt v (t.vertex v)}
                (λ s' e m near_s usable low l.
                  improve-LaterAt s' tc e other usable
                    (omega (arith, near_s, room edges myself nodes s b tc rest front, net.small))
                    (omega (arith, near_s, room edges myself nodes s b tc rest front, net.small)) l)
                l,
          )
