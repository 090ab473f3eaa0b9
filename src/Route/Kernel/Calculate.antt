-- ===== src/Route/Kernel/Calculate.antt =====
-- What olsr_calculate_routing_table in src/olsr_spf.c makes of the routes in the kernel.
use olsr.Prelude.{
  ℕ, ◌≡◌, refl, inl, inr, true, ◌==◌, Bool-cases, ==_refl, Option, none, some, arith, List, [], ◌∷◌,
  subst, sym, All,
}
use olsr.Spf.Nodes.{mem}
use olsr.Route.{Nexthop, RtPath, Rib, RtConfig, Reached, bump_routingtree_version, update_rt_path}
use olsr.Route.Prefixes.{route_prefixes, route_path_list}
use olsr.Route.Kernel.{Kernel, has_interface, calculate_routes}
use olsr.Route.Kernel.Reliable.{IsReliable}
use olsr.Route.Kernel.Tree.{ids}
use olsr.Route.Kernel.Update.{All-both}
use olsr.Route.Kernel.Round.{every}
use olsr.Route.Kernel.Election.{IsBest}
use olsr.Route.Kernel.Synced.{IsSynced, IsSettled, IsRouted, find_path-All, All-map, All-own}
use olsr.Route.Kernel.Stores.{All-keys, keys}
use olsr.Route.Kernel.Refresh.{IsKept, current, Refreshed, Refreshed-refl, Refreshed-trans}
use olsr.Route.Kernel.Walk.{
  is_routable, Arrived, HasLink, IsReached, Agrees-All, Due, route_prefixes-Refreshed,
}
use olsr.Route.Kernel.Served.{Served, Arrived-Served, Served-keys}
use olsr.Route.Kernel.Refine.{update_routes-IsSynced}
use olsr.Route.Kernel.Flush.{bumped}

-- A path has the cost, the hops and the link of what has reached its vertex.
abbrev pub ReachedBy : (ℕ → Reached → Type 0) → RtPath → Type 0
ReachedBy heard p =
    (tc : Reached) × heard p.originator tc
    × (p.cost ≡ tc.path_cost)
    × (p.hops ≡ tc.hops)
    × (p.nexthop ≡ tc.link)

IsKept-Arrived :
    (cfg : RtConfig) (version : ℕ) (heard : ℕ → Reached → Type 0) (originator : ℕ) (tc : Reached)
    → IsKept version heard (λ p.
      p.originator ≡ originator → is_routable cfg tc p.dst ≡ true → current version p ≡ true)
unfolding update_rt_path
IsKept-Arrived cfg version heard originator tc p in_tree again mono there due own fits =
    let now : current version p ≡ true = due own fits in
    rw (mono (ground (arith, now)), ==_refl version) refl

ids-All : (ps : List RtPath) → All (λ p. mem p.id (ids ps) ≡ true) ps
unfolding mem
ids-All [] = tt
ids-All (p ∷ ps) = (
  ground arith,
  All-map (λ q. mem q.id (ids ps) ≡ true) (λ q. mem q.id (ids (p ∷ ps)) ≡ true) ps
      (λ q h. ground (arith, h)) (ids-All ps),
)

module _ {ℓ} {K : Type ℓ} (fib : K → ℕ → Option Nexthop) (heard : ℕ → Reached → Type 0) (k : K)
    (cfg : RtConfig) where
  -- The walk over all prefixes of one vertex.
  vertex-Refreshed :
      (originator : ℕ) (tc : Reached) (rib : Rib)
      → has_interface tc.link ≡ true
      → heard originator tc
      → IsSynced fib rib k
      → Refreshed fib heard k rib (route_prefixes cfg originator tc rib.paths rib)
        × Arrived cfg rib.version
            (route_prefixes cfg originator tc rib.paths rib).paths
            (originator, some tc)
  unfolding update_rt_path
  vertex-Refreshed originator tc rib link announced now =
      let rib1 = route_prefixes cfg originator tc rib.paths rib in
      let (walk, due) =
        route_prefixes-Refreshed fib heard k cfg originator tc link announced rib.paths rib now
          (Agrees-All rib.paths now.distinct) in
      let listed : All (λ p. mem p.id (ids rib.paths) ≡ true) rib1.paths =
        All-keys (λ a. mem a.0 (ids rib.paths) ≡ true) rib.paths rib1.paths (sym walk.same_keys)
          (ids-All rib.paths) in
      (
        walk,
        All-both (λ p. mem p.id (ids rib.paths) ≡ true)
            (λ p. mem p.id (ids rib.paths) ≡ true → Due cfg originator tc rib.version p.id p)
            (λ p.
              p.originator ≡ originator
              → is_routable cfg tc p.dst ≡ true
              → current rib.version p ≡ true)
            rib1.paths (λ p there arrives own fits. arrives there (==_refl p.id) own fits) listed
            (All-own (λ i p. mem i (ids rib.paths) ≡ true → Due cfg originator tc rib.version i p)
              (λ p. p.id) rib1.paths
              (λ i. elim (Bool-cases (mem i (ids rib.paths))) [
                | inl there ↦
                    All-map (Due cfg originator tc rib.version i)
                      (λ p. mem i (ids rib.paths) ≡ true → Due cfg originator tc rib.version i p)
                      rib1.paths (λ p d h. d) (due i there)
                | inr out ↦ every (λ p h. absurd (ground (arith, h, out))) rib1.paths
              ])),
      )

  route_path_list-Refreshed :
      (reached : List (ℕ × Option Reached)) (rib : Rib)
      → All HasLink reached
      → ((v : ℕ) (tc : Reached) → IsReached reached v tc → heard v tc)
      → IsSynced fib rib k
      → Refreshed fib heard k rib (route_path_list cfg reached rib)
        × All (Arrived cfg rib.version (route_path_list cfg reached rib).paths) reached
  unfolding route_path_list mem
  route_path_list-Refreshed [] rib links known now = (Refreshed-refl fib heard k rib now, tt)
  route_path_list-Refreshed ((originator, none) ∷ more) rib links known now =
      let (walk, rest) = route_path_list-Refreshed more rib links.1 known now in (walk, (tt, rest))
  route_path_list-Refreshed ((originator, some tc) ∷ more) rib links known now =
      let rib1 = route_prefixes cfg originator tc rib.paths rib in
      let (first, here) =
        vertex-Refreshed originator tc rib links.0 (known originator tc (inl (refl, refl))) now in
      let (walk, rest) =
        route_path_list-Refreshed more rib1 links.1 (λ v t h. known v t (inr h)) first.synced in
      (
        Refreshed-trans fib heard k rib rib1 (route_path_list cfg more rib1) first walk,
        (
          walk.carried
              (λ p.
                p.originator ≡ originator
                → is_routable cfg tc p.dst ≡ true
                → current rib.version p ≡ true)
              (subst
                (λ v. IsKept v heard (λ p.
                  p.originator ≡ originator
                  → is_routable cfg tc p.dst ≡ true
                  → current rib.version p ≡ true))
                (sym first.version) (IsKept-Arrived cfg rib.version heard originator tc))
              here,
          subst (λ v. All (Arrived cfg v (route_path_list cfg more rib1).paths) more) first.version
              rest,
        ),
      )

-- A computation between two others leaves the paths that are there, their keys kept.
pub route_path_list-keys {ℓ} :
    {K : Type ℓ} (fib : K → ℕ → Option Nexthop) (k : K) (cfg : RtConfig)
    (reached : List (ℕ × Option Reached)) (rib : Rib)
    → All HasLink reached
    → IsSynced fib rib k
    → keys (route_path_list cfg reached (bump_routingtree_version rib)).paths ≡ keys rib.paths
unfolding bump_routingtree_version
route_path_list-keys fib k cfg reached rib links now =
    (route_path_list-Refreshed fib (IsReached reached) k cfg reached (bump_routingtree_version rib)
      links (λ v tc h. h)
      (record {
        distinct = now.distinct;
        interfaces = now.interfaces;
        in_rib = now.in_rib;
        entries_distinct = now.entries_distinct;
        empty_queue = now.empty_queue;
        synced = now.synced;
      })).0.same_keys

module _ {ℓ} {K : Type ℓ} (os : Kernel K) (fib : K → ℕ → Option Nexthop) (cfg : RtConfig)
    (reliable : IsReliable os fib) where
  -- With a kernel whose functions succeed and do what they say, between two computations, from a
  -- path list whose links have interfaces: the computation never meets a NULL, and it ends in order
  -- again. Then a route in the kernel is that of a path which a reached vertex announces, with
  -- the cost, the hops and the link of the vertex, and to which no current path is preferred, where the internet gateway, that of before or a current path
  -- to a prefix of length 0, counts for less; and each prefix that a reached vertex announces has a
  -- route, unless the vertex has the broken cost or the prefix is longer than an address.
  pub calculate_routes_lem :
      (reached : List (ℕ × Option Reached)) (rib : Rib) (k : K)
      → All HasLink reached
      → IsSynced fib rib k
      → IsSettled rib
      → (let table = route_path_list cfg reached (bump_routingtree_version rib) in
          (k' : K) × (rib' : Rib) × (calculate_routes os cfg reached rib k ≡ some (k', rib'))
          × IsSynced fib rib' k'
          × IsSettled rib'
          × ((dst : ℕ) (nh : Nexthop)
              → fib k' dst ≡ some nh
              → (b : RtPath) × (b.nexthop ≡ nh)
                × IsBest cfg table.version table.current_inetgw dst table.paths b
                × ReachedBy (IsReached reached) b)
          × All (Served cfg (fib k') rib.paths) reached)
  unfolding calculate_routes bump_routingtree_version update_rt_path
  calculate_routes_lem reached rib k links now settled =
      let next = bump_routingtree_version rib in
      let table = route_path_list cfg reached next in
      let heard = IsReached reached in
      let (walk, arrived) =
        route_path_list-Refreshed fib heard k cfg reached next links (λ v tc h. h)
          (record {
            distinct = now.distinct;
            interfaces = now.interfaces;
            in_rib = now.in_rib;
            entries_distinct = now.entries_distinct;
            empty_queue = now.empty_queue;
            synced = now.synced;
          }) in
      let (k', rib', run, ends, settled', routed) =
        update_routes-IsSynced os fib cfg reliable table k walk.synced in
      let known : All (λ p. current next.version p ≡ true → ReachedBy heard p) table.paths =
        walk.carried (λ p. current next.version p ≡ true → ReachedBy heard p)
          (λ p in_tree tc mono there h again. (tc, there, refl, refl, refl))
          (All-map (λ p. p.rtp_rt ≡ true → (rib.version == p.version) ≡ true)
            (λ p. current next.version p ≡ true → ReachedBy heard p) rib.paths
            (λ p old again.
              absurd
                (bumped rib.version p p.dst (ground (arith, again)) (old (ground (arith, again)))))
            settled) in
      (
        k',
        rib',
        run,
        ends,
        settled',
        (λ dst nh there. elim (routed dst) [
          | IsRouted.unreachable empty all ↦ absurd (ground (arith, there, empty))
          | IsRouted.reachable b to best ↦
              let same : b.nexthop ≡ nh = ground (arith, there, to) in
              (
                b,
                same,
                best,
                find_path-All (λ p. current next.version p ≡ true → ReachedBy heard p) b.id
                    table.paths b best.at.0 known (ground (arith, best.at.1, walk.version)),
              )
        ]),
        Served-keys cfg table.current_inetgw (fib k') table.paths rib.paths walk.same_keys reached (
            Arrived-Served cfg table.current_inetgw table.version table.paths (fib k') routed
              reached
              (subst (λ v. All (Arrived cfg v table.paths) reached) (sym walk.version) arrived)),
      )
