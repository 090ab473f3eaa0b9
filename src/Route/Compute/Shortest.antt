-- ===== src/Route/Compute/Shortest.antt =====
-- olsr_calculate_routing_table of src/olsr_spf.c: the routes in the kernel follow shortest paths.
use olsr.Prelude.{
  ℕ, ◌*◌, ◌≤◌, ◌≡◌, ◌≢◌, refl, inl, inr, Bool, true, false, not, ◌&&◌, ◌==◌, ltb, Bool-cases,
  Option-cases, Option, none, some, arith, List, [], ◌∷◌, length, ap, subst, sym, ◌∙◌, All,
}
use olsr.Spf.{Edge, Spf, cost_of, compute_paths, route_cost_broken}
use olsr.Spf.Nodes.{mem}
use olsr.Spf.Walk.{Graph, IsUsable, Walk}
use olsr.Spf.Correct.{IsNetwork, compute_paths_shortest}
use olsr.Spf.NextHop.{Via}
use olsr.Spf.Routed.{preset_hop, compute_paths_next_hop}
use olsr.Route.{Nexthop, RtPath, Rib, RtConfig, Reached, prefix_len, bump_routingtree_version}
use olsr.Route.Prefixes.{route_path_list}
use olsr.Route.Kernel.Election.{IsBest}
use olsr.Route.Kernel.Stores.{keys}
use olsr.Route.Kernel.{Kernel, has_interface, calculate_routes}
use olsr.Route.Kernel.Reliable.{IsReliable}
use olsr.Route.Kernel.Synced.{IsSynced, IsSettled, All-map}
use olsr.Route.Kernel.Walk.{is_routable, HasLink, IsReached}
use olsr.Route.Kernel.Served.{Served}
use olsr.Route.Kernel.Calculate.{calculate_routes_lem, route_path_list-keys}
use olsr.Route.Compute.{Topology, reached_by, reached_list, calculate_routing_table}

-- The table of paths that a computation makes from the path list of SPF.
abbrev pub refreshed_table : RtConfig → Topology → Spf → Rib → Rib
refreshed_table cfg top s rib =
    route_path_list cfg (reached_list top.links s s.path_list) (bump_routingtree_version rib)

-- A cost and hops that some walk to a vertex has, where none costs less.
abbrev pub IsShortest : Graph → ℕ → ℕ → ℕ → ℕ → Type 0
IsShortest edges myself v cost hops =
    Walk edges myself v cost hops
    × ((cost' hops' : ℕ) → Walk edges myself v cost' hops' → cost ≤ cost')

module _ (links : ℕ → Nexthop) (s : Spf) where
  reached_list-HasLink :
      ((h : ℕ) → has_interface (links h) ≡ true)
      → (vs : List ℕ) → All HasLink (reached_list links s vs)
  unfolding reached_list
  reached_list-HasLink all [] = tt
  reached_list-HasLink all (v ∷ vs) = (
    elim (Option-cases (s.vertex v).next_hop) [
      | inl none_set ↦ subst (λ o. HasLink (reached_by links s v o)) (sym none_set) tt
      | inr (h, set) ↦ subst (λ o. HasLink (reached_by links s v o)) (sym set) (all h)
    ],
    reached_list-HasLink all vs,
  )

  -- What the loop takes from a vertex.
  abbrev Taken : ℕ → Reached → Type 0
  Taken v tc =
      (h : ℕ) × ((s.vertex v).next_hop ≡ some h)
      × (tc.path_cost ≡ (s.vertex v).path_cost)
      × (tc.hops ≡ (s.vertex v).hops)
      × (tc.link ≡ links h)

  reached_list-Taken :
      (vs : List ℕ) (v : ℕ) (tc : Reached)
      → IsReached (reached_list links s vs) v tc
      → (mem v vs ≡ true) × Taken v tc
  unfolding reached_list mem
  reached_list-Taken [] v tc h = absurd h
  reached_list-Taken (w ∷ vs) v tc h =
      let later : IsReached (reached_list links s vs) v tc → (mem v (w ∷ vs) ≡ true) × Taken v tc =
        λ more.
          let (there, taken) = reached_list-Taken vs v tc more in (ground (arith, there), taken) in
      elim (Option-cases (s.vertex w).next_hop) [
        | inl none_set ↦ later (
            subst (λ o. IsReached (reached_by links s w o ∷ reached_list links s vs) v tc) none_set
              h)
        | inr (hop, set) ↦
            elim (subst (λ o. IsReached (reached_by links s w o ∷ reached_list links s vs) v tc) set
              h) [
                | inl (same, taken) ↦ (
                  ground (arith, same),
                  (
                    hop,
                    ap (λ x. (s.vertex x).next_hop) same ∙ set,
                    ap (λ t. t.path_cost) taken ∙ ap (λ x. (s.vertex x).path_cost) (sym same),
                    ap (λ t. t.hops) taken ∙ ap (λ x. (s.vertex x).hops) (sym same),
                    ap (λ t. t.link) taken,
                  ),
                )
                | inr more ↦ later more
              ]
      ]

  reached_list-Served :
      (cfg : RtConfig) (route : ℕ → Option Nexthop) (ps : List RtPath) (vs : List ℕ) (v hop : ℕ)
      → All (Served cfg route ps) (reached_list links s vs)
      → mem v vs ≡ true
      → (s.vertex v).next_hop ≡ some hop
      → Served cfg route ps (reached_by links s v (some hop))
  unfolding reached_list mem
  reached_list-Served cfg route ps [] v hop all there set = absurd (ground (arith, there))
  reached_list-Served cfg route ps (w ∷ vs) v hop all there set = elim (Bool-cases (v == w)) [
    | inl at ↦
        let same : w ≡ v = ground (arith, at) in
        subst (λ o. Served cfg route ps (reached_by links s v o)) set
          (subst (λ x. Served cfg route ps (reached_by links s x (s.vertex x).next_hop)) same all.0)
    | inr other ↦ reached_list-Served cfg route ps vs v hop all.1 (ground (arith, there, other)) set
  ]

-- A route over the link of a neighbor, and a walk that begins with the edge to it.
abbrev pub LeadsOver : Topology → ℕ → RtPath → Nexthop → Type 0
LeadsOver top myself b nh =
    (n : ℕ) × (h : ℕ) × (preset_hop myself top.neighbors n ≡ some h)
    × (nh ≡ top.links h)
    × Via top.edges myself n b.originator b.cost b.hops

-- What the first hops of the path list are.
abbrev Hops : Topology → ℕ → Spf → Type 0
Hops top myself s =
    (v : ℕ)
    → mem v s.path_list ≡ true
    → v ≢ myself
    → (n : ℕ) × (h : ℕ) × (preset_hop myself top.neighbors n ≡ some h)
      × ((s.vertex v).next_hop ≡ some h)
      × Via top.edges myself n v (cost_of s v) (s.vertex v).hops

finite : (cost : ℕ) → ltb cost route_cost_broken ≡ true → (cost == route_cost_broken) ≡ false
finite cost h = ground (arith, h)

module _ (top : Topology) (myself : ℕ) (s : Spf) where
  Taken-IsShortest :
      ((v : ℕ) → mem v s.path_list ≡ true → Walk top.edges myself v (cost_of s v) (s.vertex v).hops)
      → ((v cost hops : ℕ) → Walk top.edges myself v cost hops → cost_of s v ≤ cost)
      → (b : RtPath) (tc : Reached) → mem b.originator s.path_list ≡ true
      → Taken top.links s b.originator tc
      → b.cost ≡ tc.path_cost
      → b.hops ≡ tc.hops
      → IsShortest top.edges myself b.originator b.cost b.hops
  Taken-IsShortest walks least b tc on_list (h, set, cost, hops, link) same_cost same_hops = (
    subst (λ c. Walk top.edges myself b.originator c b.hops) (sym (same_cost ∙ cost))
        (subst (Walk top.edges myself b.originator (cost_of s b.originator))
          (sym (same_hops ∙ hops)) (walks b.originator on_list)),
    λ cost' hops' walk.
        subst (λ c. c ≤ cost') (sym (same_cost ∙ cost)) (least b.originator cost' hops' walk),
  )

  Taken-LeadsOver :
      Hops top myself s
      → (b : RtPath) (tc : Reached) (nh : Nexthop) → mem b.originator s.path_list ≡ true
      → Taken top.links s b.originator tc
      → b.cost ≡ tc.path_cost
      → b.hops ≡ tc.hops
      → nh ≡ tc.link
      → b.originator ≢ myself
      → LeadsOver top myself b nh
  Taken-LeadsOver hops_of b tc nh on_list (h, set, cost, hops, link) same_cost same_hops same_link
        other =
      let (n, hop, pre, set', via) = hops_of b.originator on_list other in
      let same : h ≡ hop = ground (arith, set, set') in
      (
        n,
        hop,
        pre,
        same_link ∙ link ∙ ap top.links same,
        subst (λ c. Via top.edges myself n b.originator c b.hops) (sym (same_cost ∙ cost))
            (subst (Via top.edges myself n b.originator (cost_of s b.originator))
              (sym (same_hops ∙ hops)) via),
      )

module _ {ℓ} {K : Type ℓ} (os : Kernel K) (fib : K → ℕ → Option Nexthop) (cfg : RtConfig)
    (reliable : IsReliable os fib) (top : Topology) (myself : ℕ) (nodes : List ℕ) (fuel : ℕ) where
  calculate_routing_table_step :
      (force backoff : Bool) (rib rib' : Rib) (k k' : K) (s : Spf)
      → (not force && backoff) ≡ false
      → top.myself ≡ some myself
      → compute_paths top.edges fuel myself top.neighbors ≡ some s
      → calculate_routes os cfg (reached_list top.links s s.path_list) rib k ≡ some (k', rib')
      → calculate_routing_table os cfg top fuel force backoff rib k ≡ some (k', rib', true)
  unfolding calculate_routing_table
  calculate_routing_table_step force backoff rib rib' k k' s runs me spf routes =
      rw (runs, me, spf, routes, calculate_routing_table) refl

  -- On a network of at most 255 nodes with fuel for a round for each node, where this node is no
  -- neighbor of its own, its edges lead to neighbors with a link, links have interfaces, and the
  -- functions of the kernel succeed and do what they say: a computation between two others that no
  -- backoff timer holds back never meets a NULL and ends in order. It runs SPF, and over the path list
  -- it refreshes the table, whose paths keep their numbers, originators and prefixes. Then each route
  -- in the kernel is that of a current path of this table to the prefix, to which no current path is
  -- preferred, where the internet gateway, that of before or a current path to a prefix of length 0,
  -- counts for less. The path has the cost and the hops of a walk to its originator that none is
  -- cheaper than, and unless the originator is this node, the walk begins with the edge to a neighbor,
  -- over whose link the route leads. Each prefix of allowed length that another vertex announces has
  -- a route if some walk leads to the vertex.
  pub calculate_routing_table_lem :
      (force backoff : Bool) (rib : Rib) (k : K)
      → (not force && backoff) ≡ false
      → top.myself ≡ some myself
      → IsNetwork top.edges myself nodes
      → length nodes ≤ fuel
      → preset_hop myself top.neighbors myself ≡ none
      → ((e : Edge)
          → IsUsable top.edges myself e
          → (h : ℕ) × (preset_hop myself top.neighbors e.dest ≡ some h))
      → ((h : ℕ) → has_interface (top.links h) ≡ true)
      → IsSynced fib rib k
      → IsSettled rib
      → (s : Spf) × (compute_paths top.edges fuel myself top.neighbors ≡ some s)
        × (let table = refreshed_table cfg top s rib in
            (keys table.paths ≡ keys rib.paths)
            × (k' : K) × (rib' : Rib) × (calculate_routing_table os cfg top fuel force backoff rib k
                ≡ some (k', rib', true))
            × IsSynced fib rib' k'
            × IsSettled rib'
            × ((dst : ℕ) (nh : Nexthop)
                → fib k' dst ≡ some nh
                → (b : RtPath) × IsBest cfg table.version table.current_inetgw dst table.paths b
                  × (b.dst ≡ dst)
                  × (b.nexthop ≡ nh)
                  × IsShortest top.edges myself b.originator b.cost b.hops
                  × (b.originator ≢ myself → LeadsOver top myself b nh))
            × ((v cost hops : ℕ)
                → Walk top.edges myself v cost hops
                → v ≢ myself
                → All
                    (λ p.
                      p.originator ≡ v
                      → ltb (8 * cfg.ipsize) (prefix_len p.dst) ≡ false
                      → fib k' p.dst ≢ none)
                    rib.paths))
  calculate_routing_table_lem force backoff rib k runs me net enough none_set all_set links now
        settled =
      let (s, spf, listed, walks, least) =
        compute_paths_shortest top.edges myself nodes net fuel enough top.neighbors in
      let (t, spf', hops) =
        compute_paths_next_hop top.edges myself nodes top.neighbors fuel net enough none_set
          all_set in
      let same : t ≡ s = ground (arith, spf, spf') in
      let hops' = subst (Hops top myself) same hops in
      let reached = reached_list top.links s s.path_list in
      let (k', rib', run, ends, settled', sound, served) =
        calculate_routes_lem os fib cfg reliable reached rib k
          (reached_list-HasLink top.links s links s.path_list) now settled in
      (
        s,
        spf,
        (
          route_path_list-keys fib k cfg reached rib
              (reached_list-HasLink top.links s links s.path_list) now,
          k',
          rib',
          calculate_routing_table_step force backoff rib rib' k k' s runs me spf run,
          ends,
          settled',
          (λ dst nh there.
              let (b, nexthop, best, (tc, heard, cost, hop_count, link)) = sound dst nh there in
              let (on_list, taken) =
                reached_list-Taken top.links s s.path_list b.originator tc heard in
              (
                b,
                best,
                (ground (arith, best.at.1)),
                nexthop,
                Taken-IsShortest top myself s walks (λ v c h w. (least v c h w).1) b tc on_list
                    taken cost hop_count,
                Taken-LeadsOver top myself s hops' b tc nh on_list taken cost hop_count
                    (sym nexthop ∙ link),
              )),
          (λ v cost hops walk other.
              let (on_list, cheaper) = least v cost hops walk in
              let (n, h, pre, set, via) = hops' v on_list other in
              All-map
                (λ p.
                  p.originator ≡ v
                  → is_routable cfg
                      (record {
                        path_cost = (s.vertex v).path_cost;
                        hops = (s.vertex v).hops;
                        link = top.links h;
                      })
                      p.dst
                    ≡ true
                  → fib k' p.dst ≢ none)
                (λ p.
                  p.originator ≡ v
                  → ltb (8 * cfg.ipsize) (prefix_len p.dst) ≡ false
                  → fib k' p.dst ≢ none)
                rib.paths
                (λ p routed own fits.
                  routed own (
                    ground (arith, fits, finite (s.vertex v).path_cost (sym (listed v) ∙ on_list))))
                (reached_list-Served top.links s cfg (fib k') rib.paths s.path_list v h served
                  on_list set)),
        ),
      )
