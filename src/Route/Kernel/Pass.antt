-- ===== src/Route/Kernel/Pass.antt =====
-- olsr_update_rib_routes in src/process_routes.c, round by round.
use olsr.Prelude.{
  Bool-cases, arith, if◌then◌else◌, ℕ, ◌≡◌, refl, inl, inr, true, false, ◌==◌, ==_refl, Option,
  none, some, List, [], ◌∷◌, subst, sym, ◌∙◌,
}
use olsr.Spf.Nodes.{mem, IsNodup}
use olsr.Route.{
  prefix_len, find_path, RtPath, Nexthop, RtEntry, Rib, RtConfig, find_entry, path_tree, rt_best,
}
use olsr.Route.Kernel.{Kernel, delete_outdated, del_route, update_entries}
use olsr.Route.Kernel.Reliable.{IsReliable, installed, dsts, del_route_lem}
use olsr.Route.Kernel.Tree.{is_current, ids, ids-delete_outdated, find_path-after}
use olsr.Route.Kernel.Election.{IsGateway, default, tree_empty, rt_best-IsBest}
use olsr.Route.Kernel.Update.{IsGateway-after}
use olsr.Route.Kernel.Round.{
  Passed, uncons, elsewhere, flip_eq, update_entries_gone, queue_with, update_entries_elected,
  nothing_to_do, round_gone, round_elected, queue_with_others, queue_with_own,
}

module _ {ℓ} {K : Type ℓ} (os : Kernel K) (fib : K → ℕ → Option Nexthop) (cfg : RtConfig)
    (start : Option ℕ) (reliable : IsReliable os fib) where
  -- The gateway behind the election of a path.
  IsGateway-next :
      (version : ℕ) (ps : List RtPath) (dst : ℕ) (b : RtPath) (inetgw next : Option ℕ)
      → find_path b.id ps ≡ some b
      → is_current version dst b ≡ true
      → next ≡ (if prefix_len dst == 0 then some b.id else inetgw)
      → IsGateway version start ps inetgw
      → IsGateway version start ps next
  IsGateway-next version ps dst b inetgw next at now same gateway =
      elim (Bool-cases (prefix_len dst == 0)) [
        | inl zero_length ↦
            default dst b (ground (arith, zero_length)) (at, now) (same ∙ rw zero_length refl)
        | inr other ↦ subst (IsGateway version start ps) (sym (same ∙ rw other refl)) gateway
      ]

  update_entries-round :
      (rt : RtEntry) (more : List RtEntry) (rib : Rib) (k : K)
      → IsNodup (dsts (rt ∷ more))
      → IsNodup (ids rib.paths)
      → IsGateway rib.version start rib.paths rib.current_inetgw
      → ((a : ℕ) → mem a (dsts (rt ∷ more)) ≡ true → fib k a ≡ installed (find_entry a (rt ∷ more)))
      → ((rib1 : Rib) (k1 : K)
          → IsNodup (ids rib1.paths)
          → IsGateway rib1.version start rib1.paths rib1.current_inetgw
          → ((a : ℕ) → mem a (dsts more) ≡ true → fib k1 a ≡ installed (find_entry a more))
          → Passed os fib cfg start more rib1 k1 (update_entries os cfg more rib1 k1))
      → Passed os fib cfg start (rt ∷ more) rib k (update_entries os cfg (rt ∷ more) rib k)
  unfolding mem find_entry
  update_entries-round rt more rib k n distinct gateway synced ih =
      let paths = delete_outdated rib.version rt.dst rib.paths in
      let distinct1 : IsNodup (ids paths) =
        subst IsNodup (sym (ids-delete_outdated rib.version rt.dst rib.paths)) distinct in
      let gateway1 = IsGateway-after rt.dst gateway in
      let others : (a : ℕ) → mem a (dsts more) ≡ true → (a == rt.dst) ≡ false =
        λ a h. elsewhere a rt.dst (dsts more) n.0 h in
      let still : (a : ℕ) → mem a (dsts more) ≡ true → fib k a ≡ installed (find_entry a more) =
        λ a h. let off = others a h in synced a (rw off h) ∙ rw (flip_eq a rt.dst off) refl in
      elim (uncons (path_tree rt.dst paths)) [
        | inl empty ↦
            let fresh : RtEntry = record rt { best = none } in
            let here : fib k rt.dst ≡ installed (some rt) =
              synced rt.dst (rw (==_refl rt.dst) refl) ∙ rw (==_refl rt.dst) refl in
            let (zero, put, dst, same) = del_route_lem os fib reliable fresh k (sym here) in
            let k1 = (del_route os fresh k).0 in
            subst (Passed os fib cfg start (rt ∷ more) rib k)
              (sym (update_entries_gone os fib cfg start rt more rib k empty zero))
              (round_gone os fib cfg start rt more rib k k1
                (update_entries os cfg more (record rib { paths = paths }) k1) n.0
                (tree_empty rib.version rt.dst rib.paths empty) put
                (ih (record rib { paths = paths }) k1 distinct1 gateway1
                  (λ a h. put a ∙ rw (others a h) (still a h))))
        | inr (p, ps, tree) ↦
            let (b, elect, best, next) =
              rt_best-IsBest cfg start rib.current_inetgw rib.version rib.paths rt p ps distinct
                gateway tree in
            let at = find_path-after rib.version rt.dst rt.dst rib.paths b best.at.1 best.at.0 in
            let top : RtEntry = record rt { best = some b.id } in
            let inetgw = (rt_best cfg rib.current_inetgw paths (record rt { best = none })).1 in
            let queue = queue_with os fib cfg start rt top b rib in
            let rib1 = record rib {
              paths = paths;
              current_inetgw = inetgw;
              chg_kernel_list = queue;
            } in
            subst (Passed os fib cfg start (rt ∷ more) rib k)
              (sym (update_entries_elected os fib cfg start rt more rib k p ps b tree elect at))
              (round_elected os fib cfg start rt more rib queue inetgw k b
                (update_entries os cfg more rib1 k) n.0 best
                (λ a off. queue_with_others os fib cfg start rt top b rib a off)
                (queue_with_own os fib cfg start rt top b rib)
                (ih rib1 k distinct1
                  (IsGateway-next rib.version paths rt.dst b rib.current_inetgw inetgw at best.at.1
                    next gateway1)
                  still))
      ]

  pub update_entries-Passed :
      (entries : List RtEntry) (rib : Rib) (k : K)
      → IsNodup (dsts entries)
      → IsNodup (ids rib.paths)
      → IsGateway rib.version start rib.paths rib.current_inetgw
      → ((a : ℕ) → mem a (dsts entries) ≡ true → fib k a ≡ installed (find_entry a entries))
      → Passed os fib cfg start entries rib k (update_entries os cfg entries rib k)
  update_entries-Passed [] rib k n distinct gateway synced = nothing_to_do os fib cfg start rib k
  update_entries-Passed (rt ∷ more) rib k n distinct gateway synced =
      update_entries-round rt more rib k n distinct gateway synced
        (λ rib1 k1. update_entries-Passed more rib1 k1 n.1)
