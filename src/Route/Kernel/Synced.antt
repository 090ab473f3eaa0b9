-- ===== src/Route/Kernel/Synced.antt =====
-- The state of the routes between two computations, of src/routing_table.c and
-- src/process_routes.c.
use olsr.Prelude.{
  ℕ, ◌≡◌, inl, inr, true, false, ◌==◌, Bool-cases, Option, none, some, arith, List, [], ◌∷◌, subst,
  All,
}
use olsr.Spf.Nodes.{mem, IsNodup}
use olsr.Route.{Nexthop, RtPath, RtEntry, Rib, RtConfig, find_entry, find_path}
use olsr.Route.Kernel.{has_interface}
use olsr.Route.Kernel.Reliable.{installed, dsts, find_entry-cases}
use olsr.Route.Kernel.Tree.{ids}
use olsr.Route.Kernel.Election.{IsBest, NoneCurrent}

-- Between two computations: the memory of paths and the prefixes of entries are distinct, a path in
-- a tree has an interface and an entry, no change waits, and the kernel has what the entries say.
pub record IsSynced {ℓ} {K : Type ℓ} (fib : K → ℕ → Option Nexthop) (rib : Rib) (k : K)
    : Type 0 where
  pub distinct : IsNodup (ids rib.paths)
  pub interfaces : All (λ p. p.rtp_rt ≡ true → has_interface p.nexthop ≡ true) rib.paths
  pub in_rib : All (λ p. p.rtp_rt ≡ true → mem p.dst (dsts rib.entries) ≡ true) rib.paths
  pub entries_distinct : IsNodup (dsts rib.entries)
  pub empty_queue : rib.chg_kernel_list ≡ []
  pub synced : (dst : ℕ) → fib k dst ≡ installed (find_entry dst rib.entries)

-- A path in a tree has the version of the last computation.
abbrev pub IsSettled : Rib → Type 0
IsSettled rib = All (λ p. p.rtp_rt ≡ true → (rib.version == p.version) ≡ true) rib.paths

-- The route to a prefix is that of the best path, or there is none and no path.
pub data IsRouted (cfg : RtConfig) (version : ℕ) (start : Option ℕ) (dst : ℕ) (ps : List RtPath)
    (route : Option Nexthop) : Type 0 where
  unreachable : route ≡ none → NoneCurrent version dst ps → IsRouted cfg version start dst ps route
  reachable :
      (b : RtPath)
      → route ≡ some b.nexthop
      → IsBest cfg version start dst ps b
      → IsRouted cfg version start dst ps route

pub find_path-All {κ} :
    (Q : RtPath → Type κ) (id : ℕ) (ps : List RtPath) (b : RtPath)
    → find_path id ps ≡ some b
    → All Q ps
    → Q b
unfolding find_path
find_path-All Q id [] b h all = absurd (ground (arith, h))
find_path-All Q id (p ∷ ps) b h all = elim (Bool-cases (p.id == id)) [
  | inl at ↦ let same : p ≡ b = ground (arith, h, at) in subst Q same all.0
  | inr on ↦ find_path-All Q id ps b (ground (arith, h, on)) all.1
]

pub All-map {κ μ} :
    (P : RtPath → Type κ) (Q : RtPath → Type μ) (ps : List RtPath)
    → ((p : RtPath) → P p → Q p)
    → All P ps
    → All Q ps
All-map P Q [] f all = tt
All-map P Q (p ∷ ps) f all = (f p all.0, All-map P Q ps f all.1)

pub All-own {κ} :
    (R : ℕ → RtPath → Type κ) (f : RtPath → ℕ) (ps : List RtPath)
    → ((a : ℕ) → All (R a) ps)
    → All (λ p. R (f p) p) ps
All-own R f [] all = tt
All-own R f (p ∷ ps) all = ((all (f p)).0, All-own R f ps (λ a. (all a).1))

pub found_mem :
    (dst : ℕ) (rt : RtEntry) (es : List RtEntry)
    → find_entry dst es ≡ some rt
    → mem dst (dsts es) ≡ true
found_mem dst rt es h = elim (find_entry-cases dst es) [
  | inl (out, missing) ↦ absurd (ground (arith, h, missing))
  | inr (in_rest, there, found) ↦ in_rest
]

pub missing_mem :
    (dst : ℕ) (es : List RtEntry) → find_entry dst es ≡ none → mem dst (dsts es) ≡ false
missing_mem dst es h = elim (find_entry-cases dst es) [
  | inl (out, missing) ↦ out
  | inr (in_rest, rt, found) ↦ absurd (ground (arith, h, found))
]
