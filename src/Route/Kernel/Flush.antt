-- ===== src/Route/Kernel/Flush.antt =====
-- olsr_delete_all_kernel_routes in src/process_routes.c.
use olsr.Prelude.{ℕ, ◌+◌, ◌%◌, ◌^◌, ◌≡◌, true, ◌==◌, Option, none, some, arith}
use olsr.Route.{Nexthop, RtPath, Rib, RtConfig, bump_routingtree_version}
use olsr.Route.Kernel.{Kernel, delete_all_kernel_routes}
use olsr.Route.Kernel.Reliable.{IsReliable}
use olsr.Route.Kernel.Tree.{is_current}
use olsr.Route.Kernel.Synced.{IsSynced, IsSettled, IsRouted, find_path-All}
use olsr.Route.Kernel.Refine.{update_routes-IsSynced}

-- The next version is another one, also where the counter wraps around.
pub bumped :
    (version : ℕ) (b : RtPath) (dst : ℕ)
    → is_current ((version + 1) % 2 ^ 32) dst b ≡ true
    → (version == b.version) ≡ true
    → ⊥
bumped version b dst now old =
    let same : version ≡ b.version = ground (arith, old) in
    let next : (version + 1) % 2 ^ 32 ≡ b.version = ground (arith, now) in omega arith

module _ {ℓ} {K : Type ℓ} (os : Kernel K) (fib : K → ℕ → Option Nexthop) (cfg : RtConfig)
    (reliable : IsReliable os fib) where
  -- With a kernel whose functions succeed and do what they say, between two computations: to delete
  -- all routes never meets a NULL, and the kernel has no route to any prefix afterwards.
  pub delete_all_kernel_routes_lem :
      (rib : Rib) (k : K)
      → IsSynced fib rib k
      → IsSettled rib
      → (k' : K) × (rib' : Rib) × (delete_all_kernel_routes os cfg rib k ≡ some (k', rib'))
        × IsSynced fib rib' k'
        × ((dst : ℕ) → fib k' dst ≡ none)
  unfolding delete_all_kernel_routes bump_routingtree_version
  delete_all_kernel_routes_lem rib k now settled =
      let next = bump_routingtree_version rib in
      let (k', rib', run, ends, settled', routed) =
        update_routes-IsSynced os fib cfg reliable next k (record {
          distinct = now.distinct;
          interfaces = now.interfaces;
          in_rib = now.in_rib;
          entries_distinct = now.entries_distinct;
          empty_queue = now.empty_queue;
          synced = now.synced;
        }) in
      (
        k',
        rib',
        run,
        ends,
        (λ dst. elim (routed dst) [
          | IsRouted.unreachable empty all ↦ empty
          | IsRouted.reachable b route best ↦
              let old =
                find_path-All (λ p. p.rtp_rt ≡ true → (rib.version == p.version) ≡ true) b.id
                  rib.paths b best.at.0 settled (ground (arith, best.at.1)) in
              absurd (bumped rib.version b dst best.at.1 old)
        ]),
      )
