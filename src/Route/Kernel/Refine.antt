-- ===== src/Route/Kernel/Refine.antt =====
-- olsr_update_rib_routes and then olsr_update_kernel_routes in src/process_routes.c: the kernel has
-- the routes to the next hops of the best paths.
use olsr.Prelude.{
  ℕ, ◌≡◌, refl, inl, inr, true, false, ◌==◌, Bool-cases, Option, some, arith, List, [], ap, subst,
  sym, ◌∙◌, All,
}
use olsr.Spf.Nodes.{mem, IsNodup}
use olsr.Route.{Nexthop, RtPath, RtEntry, Rib, RtConfig, find_entry, find_path}
use olsr.Route.Kernel.{
  Kernel, has_interface, update_entries, update_rib_routes, chg_kernel_routes, update_kernel_routes,
  update_routes,
}
use olsr.Route.Kernel.Reliable.{IsReliable, installed, dsts, best_nexthop, nexthop_of-deref}
use olsr.Route.Kernel.Tree.{is_current}
use olsr.Route.Kernel.Election.{IsGateway, IsBest, NoneCurrent}
use olsr.Route.Kernel.Change.{IsChangeable, Changed, chg_kernel_routes-Changed}
use olsr.Route.Kernel.Update.{Outcome, All-both}
use olsr.Route.Kernel.Round.{Passed, every}
use olsr.Route.Kernel.Pass.{update_entries-Passed}
use olsr.Route.Kernel.Synced.{
  IsSynced, IsSettled, IsRouted, find_path-All, All-map, All-own, found_mem, missing_mem,
}

module _ {ℓ} {K : Type ℓ} (os : Kernel K) (fib : K → ℕ → Option Nexthop) (cfg : RtConfig)
    (rib : Rib) (k : K) (now : IsSynced fib rib k) (r : K × Rib)
    (passed : Passed os fib cfg rib.current_inetgw rib.entries rib k r) where
  queue_before : (dst : ℕ) → mem dst rib.chg_kernel_list ≡ false
  unfolding mem
  queue_before dst = rw now.empty_queue refl

  -- An elected path has an interface.
  elected_interface :
      (dst : ℕ) (b : RtPath)
      → IsBest cfg rib.version rib.current_inetgw dst rib.paths b
      → has_interface b.nexthop ≡ true
  elected_interface dst b best =
      find_path-All (λ p. p.rtp_rt ≡ true → has_interface p.nexthop ≡ true) b.id rib.paths b
        best.at.0 now.interfaces (ground (arith, best.at.1))

  elected_found :
      (dst : ℕ) (b : RtPath)
      → IsBest cfg rib.version rib.current_inetgw dst rib.paths b
      → find_path b.id r.1.paths ≡ some b
  elected_found dst b best = passed.kept.found dst b best.at.1 best.at.0

  pass-synced : (dst : ℕ) → fib r.0 dst ≡ installed (find_entry dst r.1.entries)
  pass-synced dst = elim (passed.outcome dst) [
    | Outcome.absent o n f q ↦ f ∙ now.synced dst ∙ ap installed (o ∙ sym n)
    | Outcome.gone rt o empty n f q ↦ f ∙ sym (ap installed n)
    | Outcome.elected rt b o best n f q ↦ f ∙ now.synced dst ∙ ap installed o ∙ sym (ap installed n)
  ]

  pass-IsChangeable :
      (dst : ℕ) → mem dst r.1.chg_kernel_list ≡ true → IsChangeable r.1.paths r.1.entries dst
  pass-IsChangeable dst h = elim (passed.outcome dst) [
    | Outcome.absent o n f q ↦ absurd (ground (arith, h, q, queue_before dst))
    | Outcome.gone rt o empty n f q ↦ absurd (ground (arith, h, q, queue_before dst))
    | Outcome.elected rt b o best n f q ↦ record {
      entry = record rt { best = some b.id };
      best = b;
      found = n;
      points = elected_found dst b best;
      some_interface = elected_interface dst b best;
    }
  ]

  none_to : (dst : ℕ) → mem dst (dsts rib.entries) ≡ false → NoneCurrent rib.version dst rib.paths
  none_to dst out =
      All-map (λ p. p.rtp_rt ≡ true → mem p.dst (dsts rib.entries) ≡ true)
        (λ p. is_current rib.version dst p ≡ true → ⊥) rib.paths
        (λ p there current.
          let at : p.dst ≡ dst = ground (arith, current) in
          let in_entries = there (ground (arith, current)) in
          absurd (ground (arith, out, subst (λ d. mem d (dsts rib.entries) ≡ true) at in_entries)))
        now.in_rib

  Changed-IsRouted :
      (es' : List RtEntry) (k' : K)
      → Changed fib r.1.paths r.1.chg_kernel_list r.1.entries es' r.0 k'
      → (dst : ℕ) → IsRouted cfg rib.version rib.current_inetgw dst rib.paths (fib k' dst)
  Changed-IsRouted es' k' done dst = elim (passed.outcome dst) [
    | Outcome.absent o n f q ↦
        IsRouted.unreachable
          (done.elsewhere dst (q ∙ queue_before dst) ∙ f ∙ now.synced dst ∙ ap installed o)
          (none_to dst (missing_mem dst rib.entries o))
    | Outcome.gone rt o empty n f q ↦
        IsRouted.unreachable (done.elsewhere dst (q ∙ queue_before dst) ∙ f) empty
    | Outcome.elected rt b o best n f q ↦
        let some_interface = elected_interface dst b best in
        IsRouted.reachable b
          (elim (Bool-cases (mem dst r.1.chg_kernel_list)) [
            | inl queued ↦
                done.in_queue dst queued
                ∙ ap (best_nexthop r.1.paths) n
                ∙ nexthop_of-deref r.1.paths (some b.id) b (elected_found dst b best)
            | inr off ↦ elim q [
              | inl queued ↦ absurd (ground (arith, off, queued))
              | inr (same, still) ↦
                  done.elsewhere dst off
                  ∙ f
                  ∙ now.synced dst
                  ∙ ap installed o
                  ∙ rw (same, some_interface) refl
            ]
          ])
          best
  ]

  abbrev Entered : ℕ → RtPath → Type 0
  Entered dst p =
      p.rtp_rt ≡ true
      → (p.dst == dst) ≡ true
      → mem dst (dsts rib.entries) ≡ true
      → (rib.version == p.version) ≡ true
      → mem dst (dsts r.1.entries) ≡ true

  pass-Entered : (dst : ℕ) → All (Entered dst) r.1.paths
  pass-Entered dst = elim (passed.outcome dst) [
    | Outcome.absent o n f q ↦
        every (λ p r at m v. absurd (ground (arith, m, missing_mem dst rib.entries o))) r.1.paths
    | Outcome.gone rt o empty n f q ↦
        passed.kept.carried
          (λ p.
            (p.dst == dst) ≡ true
            → mem dst (dsts rib.entries) ≡ true
            → (rib.version == p.version) ≡ true
            → mem dst (dsts r.1.entries) ≡ true)
          (All-map (λ p. is_current rib.version dst p ≡ true → ⊥) (Entered dst) rib.paths
            (λ p not_current h at m v. absurd (not_current (ground (arith, h, at, v)))) empty)
    | Outcome.elected rt b o best n f q ↦
        every (λ p r1 at m v. found_mem dst (record rt { best = some b.id }) r.1.entries n)
          r.1.paths
  ]

  pass-IsSettled : All (λ p. p.rtp_rt ≡ true → (rib.version == p.version) ≡ true) r.1.paths
  pass-IsSettled =
      All-both
        (λ p.
          p.rtp_rt ≡ true → mem p.dst (dsts rib.entries) ≡ true → (rib.version == p.version) ≡ true)
        (λ p. p.rtp_rt ≡ true → mem p.dst (dsts rib.entries) ≡ true)
        (λ p. p.rtp_rt ≡ true → (rib.version == p.version) ≡ true) r.1.paths
        (λ p swept there h. swept h (there h)) passed.kept.swept
        (passed.kept.carried (λ p. mem p.dst (dsts rib.entries) ≡ true) now.in_rib)

  pass-in_rib : All (λ p. p.rtp_rt ≡ true → mem p.dst (dsts r.1.entries) ≡ true) r.1.paths
  pass-in_rib =
      All-both (λ p. p.rtp_rt ≡ true → (rib.version == p.version) ≡ true)
        (λ p. Entered p.dst p × (p.rtp_rt ≡ true → mem p.dst (dsts rib.entries) ≡ true))
        (λ p. p.rtp_rt ≡ true → mem p.dst (dsts r.1.entries) ≡ true) r.1.paths
        (λ p version (entered, there) h. entered h (ground arith) (there h) (version h))
        pass-IsSettled
        (All-both (λ p. Entered p.dst p)
          (λ p. p.rtp_rt ≡ true → mem p.dst (dsts rib.entries) ≡ true)
          (λ p. Entered p.dst p × (p.rtp_rt ≡ true → mem p.dst (dsts rib.entries) ≡ true)) r.1.paths
          (λ p e t. (e, t)) (All-own Entered (λ p. p.dst) r.1.paths pass-Entered)
          (passed.kept.carried (λ p. mem p.dst (dsts rib.entries) ≡ true) now.in_rib))

  Changed-IsSynced :
      (es' : List RtEntry) (k' : K)
      → Changed fib r.1.paths r.1.chg_kernel_list r.1.entries es' r.0 k'
      → IsSynced fib (record r.1 { entries = es'; chg_kernel_list = [] }) k'
  Changed-IsSynced es' k' done = record {
    distinct = subst IsNodup (sym passed.kept.same_ids) now.distinct;
    interfaces = passed.kept.carried (λ p. has_interface p.nexthop ≡ true) now.interfaces;
    in_rib =
        subst (λ ds. All (λ p. p.rtp_rt ≡ true → mem p.dst ds ≡ true) r.1.paths)
          (sym done.same_dsts) pass-in_rib;
    entries_distinct = subst IsNodup (sym done.same_dsts) passed.distinct;
    empty_queue = refl;
    synced = done.synced;
  }

module _ {ℓ} {K : Type ℓ} (os : Kernel K) (fib : K → ℕ → Option Nexthop) (cfg : RtConfig)
    (reliable : IsReliable os fib) where
  update_kernel_routes_step :
      (rib : Rib) (k k' : K) (es' : List RtEntry)
      → chg_kernel_routes os rib.paths rib.chg_kernel_list rib.entries k ≡ some (k', es')
      → update_kernel_routes os rib k
        ≡ some (k', record rib { entries = es'; chg_kernel_list = [] })
  unfolding update_kernel_routes
  update_kernel_routes_step rib k k' es' run = rw (run, update_kernel_routes) refl

  -- With a kernel whose functions succeed and do what they say, and from a state where it has the
  -- routes of the entries: the update of the routes never meets a NULL, it ends in such a state
  -- again where all paths in trees are current, and then each prefix has in the kernel the next hop
  -- of a current path to which no current one is preferred, where the internet gateway, that of
  -- before or a current path to a prefix of length 0, counts for less, or it has no route and no
  -- current path.
  pub update_routes-IsSynced :
      (rib : Rib) (k : K)
      → IsSynced fib rib k
      → (k' : K) × (rib' : Rib) × (update_routes os cfg rib k ≡ some (k', rib'))
        × IsSynced fib rib' k'
        × IsSettled rib'
        × ((dst : ℕ) → IsRouted cfg rib.version rib.current_inetgw dst rib.paths (fib k' dst))
  unfolding update_routes update_rib_routes
  update_routes-IsSynced rib k now =
      let r = update_entries os cfg rib.entries rib k in
      let passed =
        update_entries-Passed os fib cfg rib.current_inetgw reliable rib.entries rib k
          now.entries_distinct now.distinct (IsGateway.before refl) (λ a h. now.synced a) in
      let (k', es', run, done) =
        chg_kernel_routes-Changed os fib reliable r.1.paths r.1.chg_kernel_list r.1.entries r.0
          (pass-IsChangeable os fib cfg rib k now r passed)
          (pass-synced os fib cfg rib k now r passed) in
      (
        k',
        record r.1 { entries = es'; chg_kernel_list = [] },
        update_kernel_routes_step r.1 r.0 k' es' run,
        Changed-IsSynced os fib cfg rib k now r passed es' k' done,
        subst (λ v. All (λ p. p.rtp_rt ≡ true → (v == p.version) ≡ true) r.1.paths)
            (sym passed.same_version) (pass-IsSettled os fib cfg rib k now r passed),
        Changed-IsRouted os fib cfg rib k now r passed es' k' done,
      )
