-- ===== src/Route/Kernel.antt =====
-- Routes of the routing table into the kernel: src/process_routes.c.
pub mod Reliable
pub mod Tree
pub mod Election
pub mod Change
pub mod Update
pub mod Round
pub mod Pass
pub mod Synced
pub mod Refine
pub mod Flush
pub mod Served
pub mod Stores
pub mod Operations
pub mod Refresh
pub mod Walk
pub mod Calculate
use olsr.Prelude.{
  ℕ, suc, ◌+◌, ◌-◌, ◌%◌, ◌^◌, Bool, true, false, not, ◌&&◌, ◌||◌, ◌==◌, ltb, if◌then◌else◌, List,
  [], ◌∷◌, ◌++◌, Option, none, some,
}
use olsr.Prelude.Int.{ℤ, pos, negsuc, ◌+ℤ◌, ◌-ℤ◌, ltb_ℤ, leb_ℤ}
use olsr.Spf.Nodes.{mem}
use olsr.Route.{
  Nexthop, RtPath, RtEntry, Rib, RtConfig, address, prefix_len, find_entry, write_entry, deref,
  path_tree, rt_best, Reached, bump_routingtree_version,
}
use olsr.Route.Prefixes.{route_path_list}

-- The two functions of the operating system, or of a plugin, with what they tell: true for success.
-- They get the entry, and the latter also the best path that the entry points to.
pub record Kernel {ℓ} (K : Type ℓ) : Type ℓ where
  pub del_route_function : RtEntry → K → K × Bool
  pub add_route_function : RtEntry → RtPath → K → K × Bool

-- `MAX_FAILURE_COUNT`.
abbrev pub max_failure_count : ℕ
max_failure_count = 10000

-- `olsr_nh_change`.
unfoldable pub nh_change : Nexthop → Nexthop → Bool
nh_change nh1 nh2 =
    not (nh1.gateway == nh2.gateway)
    || not (elim nh1.interface [
      | none ↦ elim nh2.interface [ none ↦ true | some j ↦ false ]
      | some i ↦ elim nh2.interface [ none ↦ false | some j ↦ i == j ]
    ])

unfoldable pub has_interface : Nexthop → Bool
has_interface nh = elim nh.interface [ none ↦ false | some i ↦ true ]

-- `olsr_get_nh`.
unfoldable pub get_nh : List RtPath → RtEntry → Nexthop
get_nh paths rt = elim (deref paths rt.best) [ none ↦ rt.nexthop | some p ↦ p.nexthop ]

-- `olsr_enqueue_rt`: routes to next hops go to the head of the queue.
unfoldable pub enqueue_rt : List RtPath → RtEntry → List ℕ → List ℕ
enqueue_rt paths rt queue =
    if mem rt.dst queue
    then queue
    else if address rt.dst == (get_nh paths rt).gateway
    then rt.dst ∷ queue
    else queue ++ rt.dst ∷ []

module _ {ℓ} {K : Type ℓ} (os : Kernel K) where
  -- `olsr_del_route`, which returns the count of failures of the entry.
  unfoldable pub del_route : RtEntry → K → K × RtEntry × ℤ
  del_route rt k =
      if not (has_interface rt.nexthop)
      then (k, rt, pos 0)
      else (let (k', success) = os.del_route_function rt k in
          let failures = rt.failure_count -ℤ pos 1 in
          let count : ℤ =
            if success
            then pos 0
            else if ltb_ℤ (pos 0) rt.failure_count
            then pos 0
            else if leb_ℤ failures (negsuc (max_failure_count - 1))
            then pos 0
            else failures in
          (k', record rt { failure_count = count }, count))

  -- `olsr_add_route`; none is a NULL for the best path.
  unfoldable pub add_route : List RtPath → RtEntry → K → Option (K × RtEntry)
  add_route paths rt k = elim (deref paths rt.best) [
    | none ↦ none
    | some rtp ↦
        let failures = rt.failure_count +ℤ pos 1 in
        let (k', success) = os.add_route_function (record rt { failure_count = failures }) rtp k in
        if success
        then some (
          k',
          record rt {
            nexthop = rtp.nexthop;
            cost = rtp.cost;
            hops = rtp.hops;
            failure_count = pos 0;
          },
        )
        else some (
          k',
          record rt {
            failure_count = if leb_ℤ (pos max_failure_count) failures then pos 0 else failures;
          },
        )
  ]

  -- A round of the loop of `olsr_chg_kernel_routes`.
  unfoldable pub change_route : List RtPath → RtEntry → K → Option (K × RtEntry)
  change_route paths rt k =
      if has_interface rt.nexthop
      then (let del = del_route rt k in add_route paths del.1 del.0)
      else add_route paths rt k

  -- `olsr_chg_kernel_routes`, which leaves an empty queue.
  unfoldable pub chg_kernel_routes :
      List RtPath → List ℕ → List RtEntry → K → Option (K × List RtEntry)
  chg_kernel_routes paths [] entries k = some (k, entries)
  chg_kernel_routes paths (dst ∷ queue) entries k = elim (find_entry dst entries) [
    | none ↦ none
    | some rt ↦ elim (change_route paths rt k) [
      | none ↦ none
      | some (k', rt') ↦ chg_kernel_routes paths queue (write_entry dst (λ e. rt') entries) k'
    ]
  ]

  -- `olsr_update_kernel_routes`.
  unfoldable pub update_kernel_routes : Rib → K → Option (K × Rib)
  update_kernel_routes rib k =
      elim (chg_kernel_routes rib.paths rib.chg_kernel_list rib.entries k) [
        | none ↦ none
        | some (k', entries) ↦ some (k', record rib { entries = entries; chg_kernel_list = [] })
      ]

-- The loop of `olsr_delete_outdated_routes`, which takes paths out of the tree of an entry.
abbrev pub outdate : ℕ → ℕ → RtPath → RtPath
outdate version dst p =
    if p.rtp_rt && p.dst == dst && not (version == p.version)
    then record p { rtp_rt = false }
    else p

unfoldable pub delete_outdated : ℕ → ℕ → List RtPath → List RtPath
delete_outdated version dst [] = []
delete_outdated version dst (p ∷ ps) = outdate version dst p ∷ delete_outdated version dst ps

module _ {ℓ} {K : Type ℓ} (os : Kernel K) (cfg : RtConfig) where
  -- The loop of `olsr_update_rib_routes`: the entries that it has not seen yet, the table without
  -- entries, and what becomes of it.
  unfoldable pub update_entries : List RtEntry → Rib → K → K × Rib
  update_entries [] rib k = (k, record rib { entries = [] })
  update_entries (rt ∷ more) rib k =
      let paths = delete_outdated rib.version rt.dst rib.paths in
      let fresh = record rt { best = none } in
      elim (path_tree rt.dst paths) [
        | [] ↦
            let del = del_route os fresh k in
            let rest = update_entries more (record rib { paths = paths }) del.0 in
            (
              rest.0,
              if leb_ℤ (pos 0) del.2 && leb_ℤ del.2 (pos 0)
                  then rest.1
                  else record rest.1 { entries = del.1 ∷ rest.1.entries },
            )
        | p ∷ ps ↦
            let (best, inetgw) = rt_best cfg rib.current_inetgw paths fresh in
            let changed : Bool = elim (deref paths best.best) [
              | none ↦ false
              | some rtp ↦
                  nh_change rtp.nexthop rt.nexthop
                  || (cfg.fibm_correct && not (rtp.hops == rt.hops))
            ] in
            let rest =
              update_entries more
                (record rib {
                  paths = paths;
                  current_inetgw = inetgw;
                  chg_kernel_list =
                      if changed
                      then enqueue_rt paths best rib.chg_kernel_list
                      else rib.chg_kernel_list;
                })
                k in
            (rest.0, record rest.1 { entries = best ∷ rest.1.entries })
      ]

  -- `olsr_update_rib_routes`.
  unfoldable pub update_rib_routes : Rib → K → K × Rib
  update_rib_routes rib k = update_entries rib.entries rib k

  -- The end of `olsr_calculate_routing_table`.
  unfoldable pub update_routes : Rib → K → Option (K × Rib)
  update_routes rib k = let r = update_rib_routes rib k in update_kernel_routes os r.1 r.0

  -- `olsr_delete_all_kernel_routes`.
  unfoldable pub delete_all_kernel_routes : Rib → K → Option (K × Rib)
  delete_all_kernel_routes rib k = update_routes (bump_routingtree_version rib) k

  -- What `olsr_calculate_routing_table` does with the routes, from the vertices of the path list.
  unfoldable pub calculate_routes : List (ℕ × Option Reached) → Rib → K → Option (K × Rib)
  calculate_routes reached rib k =
      update_routes (route_path_list cfg reached (bump_routingtree_version rib)) k
