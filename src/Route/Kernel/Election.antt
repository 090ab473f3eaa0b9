-- ===== src/Route/Kernel/Election.antt =====
-- A round of the loop of olsr_update_rib_routes in src/process_routes.c.
use olsr.Prelude.{
  ℕ, ◌≡◌, refl, true, false, ◌||◌, ◌==◌, if◌then◌else◌, Option, none, some, arith, List, [], ◌∷◌,
  subst, sym, All,
}
use olsr.Spf.Nodes.{mem, mem-append, mem_one, IsNodup}
use olsr.Route.{RtPath, RtEntry, RtConfig, prefix_len, path_tree, rt_best}
use olsr.Route.Compare.{prefers, best_loop_lem}
use olsr.Route.Kernel.{enqueue_rt, delete_outdated}
use olsr.Route.Kernel.Tree.{is_current, ids, IsAt, path_tree-IsAt, path_tree-All}

-- The internet gateway of an election: that from before the update, or a current path to a prefix of
-- length 0.
pub data IsGateway (version : ℕ) (start : Option ℕ) (ps : List RtPath) (inetgw : Option ℕ)
    : Type 0 where
  before : inetgw ≡ start → IsGateway version start ps inetgw
  default :
      (dst : ℕ) (b : RtPath)
      → prefix_len dst ≡ 0
      → IsAt version dst ps b
      → inetgw ≡ some b.id
      → IsGateway version start ps inetgw

-- The best of the current paths to a prefix: it is where its pointer leads, it is current, and no
-- current path is preferred to it.
pub record IsBest (cfg : RtConfig) (version : ℕ) (start : Option ℕ) (dst : ℕ) (ps : List RtPath)
    (b : RtPath) : Type 0 where
  pub inetgw : Option ℕ
  pub gateway : IsGateway version start ps inetgw
  pub at : IsAt version dst ps b
  pub least : All (λ q. is_current version dst q ≡ true → prefers cfg inetgw q b ≡ false) ps

abbrev pub NoneCurrent : ℕ → ℕ → List RtPath → Type 0
NoneCurrent version dst ps = All (λ q. is_current version dst q ≡ true → ⊥) ps

pub mem-enqueue_rt :
    (paths : List RtPath) (rt : RtEntry) (queue : List ℕ) (a : ℕ)
    → mem a (enqueue_rt paths rt queue) ≡ (a == rt.dst || mem a queue)
unfolding enqueue_rt mem
mem-enqueue_rt paths rt queue a = ground (arith, mem-append a queue (rt.dst ∷ []), mem_one a rt.dst)

-- The election of an entry whose tree is empty, and of one whose tree is not.
pub tree_empty :
    (version dst : ℕ) (ps : List RtPath)
    → path_tree dst (delete_outdated version dst ps) ≡ []
    → NoneCurrent version dst ps
tree_empty version dst ps none_left = path_tree-All (λ q. ⊥) version dst ps (rw none_left tt)

pub rt_best-IsBest :
    (cfg : RtConfig) (start inetgw : Option ℕ) (version : ℕ) (ps : List RtPath) (rt : RtEntry)
    (p : RtPath) (more : List RtPath)
    → IsNodup (ids ps)
    → IsGateway version start ps inetgw
    → path_tree rt.dst (delete_outdated version rt.dst ps) ≡ p ∷ more
    → (b : RtPath) × ((rt_best cfg inetgw
          (delete_outdated version rt.dst ps)
          (record rt { best = none })).0
        ≡ record rt { best = some b.id })
      × IsBest cfg version start rt.dst ps b
      × ((rt_best cfg inetgw (delete_outdated version rt.dst ps) (record rt { best = none })).1
          ≡ (if prefix_len rt.dst == 0 then some b.id else inetgw))
unfolding rt_best
rt_best-IsBest cfg start inetgw version ps rt p more distinct gateway tree =
    let (b, run, at, least) =
      best_loop_lem cfg inetgw (IsAt version rt.dst ps) p more
        (subst (All (IsAt version rt.dst ps)) tree (path_tree-IsAt version rt.dst ps distinct)) in
    (
      b,
      rw (tree, run) refl,
      record {
        inetgw = inetgw;
        gateway = gateway;
        at = at;
        least =
            path_tree-All (λ q. prefers cfg inetgw q b ≡ false) version rt.dst ps
              (subst (All (λ q. prefers cfg inetgw q b ≡ false)) (sym tree) least);
      },
      rw (tree, run) refl,
    )
