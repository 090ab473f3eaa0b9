-- ===== src/Route/Kernel/Operations.antt =====
-- The paths that src/routing_table.c inserts and deletes between two computations of the routes.
use olsr.Prelude.{
  ℕ, ◌≡◌, refl, inl, inr, true, false, ◌*◌, ◌+◌, ◌&&◌, ◌==◌, ltb, Bool-cases, Option-cases, Option,
  none, arith, List, subst, sym, ◌∙◌, All,
}
use olsr.Spf.Nodes.{mem, IsNodup}
use olsr.Route.{
  Nexthop, RtPath, RtEntry, Rib, RtConfig, find_entry, find_path, write_entry, write_path,
  remove_path, path_tree, rt_best, is_at, alloc_rt_path, init_routing_table,
}
use olsr.Route.Prefixes.{
  find_prefix, elect_without, insert_routing_table, delete_rt_path, delete_routing_table,
}
use olsr.Route.Kernel.{has_interface}
use olsr.Route.Kernel.Reliable.{installed, dsts}
use olsr.Route.Kernel.Tree.{ids}
use olsr.Route.Kernel.Round.{uncons}
use olsr.Route.Kernel.Synced.{IsSynced, IsSettled}
use olsr.Route.Kernel.Stores.{
  insert_path-All, insert_path-IsNodup, dsts_best, installed_best, ids-write_path, write_path_at,
  remove_path-All, remove_path-IsNodup,
}

-- What the election leaves of the entries.
abbrev SameRoutes : List RtEntry → List RtEntry → Type 0
SameRoutes es es' =
    (dsts es' ≡ dsts es) × ((a : ℕ) → installed (find_entry a es') ≡ installed (find_entry a es))

best-SameRoutes :
    (dst : ℕ) (best : Option ℕ) (es : List RtEntry)
    → SameRoutes es (write_entry dst (λ e. record e { best = best }) es)
best-SameRoutes dst best es = (dsts_best dst best es, λ a. installed_best a dst best es)

elect_without-SameRoutes :
    (cfg : RtConfig) (rtp : RtPath) (rest : List RtPath) (rib : Rib)
    → SameRoutes rib.entries (elect_without cfg rtp rest rib).0
unfolding elect_without
elect_without-SameRoutes cfg rtp rest rib = elim (Option-cases (find_entry rtp.dst rib.entries)) [
  | inl absent ↦ rw (absent, elect_without) (refl, λ a. refl)
  | inr (rt, found) ↦ elim (Bool-cases (rtp.rtp_rt && is_at rt.best rtp.id)) [
    | inl best ↦ elim (uncons (path_tree rtp.dst rest)) [
      | inl empty ↦
          rw (found, best, empty, elect_without) (best-SameRoutes rtp.dst none rib.entries)
      | inr (p, ps, tree) ↦
          rw (found, best, tree, elect_without)
            (best-SameRoutes rtp.dst (rt_best cfg rib.current_inetgw rest rt).0.best rib.entries)
    ]
    | inr other ↦ rw (found, other, elect_without) (refl, λ a. refl)
  ]
]

module _ {ℓ} {K : Type ℓ} (fib : K → ℕ → Option Nexthop) (cfg : RtConfig) (k : K) where
  -- The state between two computations.
  abbrev pub IsIdle : Rib → Type 0
  IsIdle rib = IsSynced fib rib k × IsSettled rib

  insert_routing_table-IsIdle :
      (id dst plen originator origin : ℕ) (rib : Rib)
      → mem id (ids rib.paths) ≡ false
      → IsIdle rib
      → IsIdle (insert_routing_table cfg id dst plen originator origin rib)
  unfolding insert_routing_table
  insert_routing_table-IsIdle id dst plen originator origin rib apart (now, settled) =
      let new = alloc_rt_path id originator (dst * 256 + plen) origin in
      elim (Bool-cases (ltb (8 * cfg.ipsize) plen)) [
        | inl long ↦ rw long (now, settled)
        | inr fits ↦
            elim (Option-cases (find_prefix originator (dst * 256 + plen) origin rib.paths)) [
              | inr (rtp, found) ↦ rw (fits, found) (now, settled)
              | inl absent ↦
                  rw (fits, absent)
                    (
                      record {
                        distinct = insert_path-IsNodup cfg new rib.paths apart now.distinct;
                        interfaces =
                            insert_path-All (λ p. p.rtp_rt ≡ true → has_interface p.nexthop ≡ true)
                              cfg new rib.paths (λ h. absurd (ground (arith, h))) now.interfaces;
                        in_rib =
                            insert_path-All
                              (λ p. p.rtp_rt ≡ true → mem p.dst (dsts rib.entries) ≡ true) cfg new
                              rib.paths (λ h. absurd (ground (arith, h))) now.in_rib;
                        entries_distinct = now.entries_distinct;
                        empty_queue = now.empty_queue;
                        synced = now.synced;
                      },
                      insert_path-All (λ p. p.rtp_rt ≡ true → (rib.version == p.version) ≡ true) cfg
                          new rib.paths (λ h. absurd (ground (arith, h))) settled,
                    )
            ]
      ]

  removed-All :
      (Q : RtPath → Type 0) (id : ℕ) (ps : List RtPath)
      → All (λ p. p.rtp_rt ≡ true → Q p) ps
      → All
          (λ p. p.rtp_rt ≡ true → Q p)
          (remove_path id (write_path id (λ p. record p { rtp_rt = false }) ps))
  removed-All Q id ps all =
      remove_path-All (λ p. p.rtp_rt ≡ true → Q p) id
        (write_path id (λ p. record p { rtp_rt = false }) ps)
        (write_path_at (λ p. p.rtp_rt ≡ true → Q p) (λ p. p.rtp_rt ≡ true → Q p) id
          (λ p. record p { rtp_rt = false }) ps (λ p at q h. absurd (ground (arith, h))) all all)

  delete_rt_path-IsIdle : (id : ℕ) (rib : Rib) → IsIdle rib → IsIdle (delete_rt_path cfg id rib)
  unfolding delete_rt_path
  delete_rt_path-IsIdle id rib (now, settled) =
      let rest = write_path id (λ p. record p { rtp_rt = false }) rib.paths in
      elim (Option-cases (find_path id rib.paths)) [
        | inl absent ↦ rw (absent, delete_rt_path) (now, settled)
        | inr (rtp, found) ↦
            let (same_dsts, same_routes) = elect_without-SameRoutes cfg rtp rest rib in
            rw (found, delete_rt_path)
              (
                record {
                  distinct = remove_path-IsNodup id rest (
                      subst IsNodup
                        (sym (
                          ids-write_path id (λ p. record p { rtp_rt = false }) rib.paths
                            (λ p. refl)))
                        now.distinct);
                  interfaces =
                      removed-All (λ p. has_interface p.nexthop ≡ true) id rib.paths now.interfaces;
                  in_rib =
                      subst
                        (λ ds.
                          All (λ p. p.rtp_rt ≡ true → mem p.dst ds ≡ true) (remove_path id rest))
                        (sym same_dsts)
                        (removed-All (λ p. mem p.dst (dsts rib.entries) ≡ true) id rib.paths
                          now.in_rib);
                  entries_distinct = subst IsNodup (sym same_dsts) now.entries_distinct;
                  empty_queue = now.empty_queue;
                  synced = λ a. now.synced a ∙ sym (same_routes a);
                },
                removed-All (λ p. (rib.version == p.version) ≡ true) id rib.paths settled,
              )
      ]

  delete_routing_table-IsIdle :
      (dst plen originator origin : ℕ) (rib : Rib)
      → IsIdle rib
      → IsIdle (delete_routing_table cfg dst plen originator origin rib)
  unfolding delete_routing_table
  delete_routing_table-IsIdle dst plen originator origin rib idle =
      elim (Bool-cases (ltb (8 * cfg.ipsize) plen)) [
        | inl long ↦ rw long idle
        | inr fits ↦
            elim (Option-cases (find_prefix originator (dst * 256 + plen) origin rib.paths)) [
              | inl absent ↦ rw (fits, absent) idle
              | inr (rtp, found) ↦
                  let (now, settled) = delete_rt_path-IsIdle rtp.id rib idle in
                  rw (fits, found)
                    (
                      record {
                        distinct = now.distinct;
                        interfaces = now.interfaces;
                        in_rib = now.in_rib;
                        entries_distinct = now.entries_distinct;
                        empty_queue = now.empty_queue;
                        synced = now.synced;
                      },
                      settled,
                    )
            ]
      ]

  -- The start leaves the state in order if the kernel has no routes.
  pub init_routing_table-IsIdle : ((dst : ℕ) → fib k dst ≡ none) → IsIdle init_routing_table
  unfolding find_entry
  init_routing_table-IsIdle empty = (
    record {
      distinct = tt;
      interfaces = tt;
      in_rib = tt;
      entries_distinct = tt;
      empty_queue = refl;
      synced = empty;
    },
    tt,
  )

  -- Between two computations, in a state where the kernel has the routes of the entries and all
  -- paths in trees are current: a prefix that a vertex starts to announce, at memory that no path
  -- has, and one that it no longer announces leave such a state.
  pub operations-IsIdle :
      (id dst plen originator origin : ℕ) (rib : Rib)
      → mem id (ids rib.paths) ≡ false
      → IsIdle rib
      → IsIdle (insert_routing_table cfg id dst plen originator origin rib)
        × IsIdle (delete_routing_table cfg dst plen originator origin rib)
  operations-IsIdle id dst plen originator origin rib apart idle = (
    insert_routing_table-IsIdle id dst plen originator origin rib apart idle,
    delete_routing_table-IsIdle dst plen originator origin rib idle,
  )
