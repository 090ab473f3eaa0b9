-- ===== src/Route/Kernel/Refresh.antt =====
-- The walk over the prefixes of a reached vertex in olsr_calculate_routing_table of src/olsr_spf.c,
-- with olsr_update_rt_path and olsr_insert_rt_path of src/routing_table.c.
use olsr.Prelude.{
  ℕ, ◌≡◌, refl, inl, inr, Bool, true, false, ◌*◌, ◌&&◌, ◌||◌, ◌==◌, ltb, if_rule, ==_refl,
  Option-cases, Option, arith, List, subst, sym, ◌∙◌, All,
}
use olsr.Spf.{route_cost_broken}
use olsr.Spf.Nodes.{mem, IsNodup}
use olsr.Route.{
  Nexthop, RtPath, RtEntry, Rib, RtConfig, Reached, prefix_len, find_entry, write_path,
  alloc_rt_entry, update_rt_path,
}
use olsr.Route.Prefixes.{ensure_entry, insert_rt_path}
use olsr.Route.Kernel.{has_interface}
use olsr.Route.Kernel.Reliable.{installed, dsts}
use olsr.Route.Kernel.Synced.{IsSynced, All-map, missing_mem, found_mem}
use olsr.Route.Kernel.Update.{All-both}
use olsr.Route.Kernel.Stores.{
  mem-insert_entry, insert_entry-IsNodup, installed-insert_entry, keys, ids-write_path,
  keys-write_path, write_path_at, write_path_hit,
}

-- A property that a path keeps when it is reached again, by what has reached its vertex.
abbrev pub IsKept : ℕ → (ℕ → Reached → Type 0) → (RtPath → Type 0) → Type 0
IsKept version heard Q =
    (p : RtPath) (in_tree : Bool) (tc : Reached)
    → (p.rtp_rt ≡ true → in_tree ≡ true)
    → heard p.originator tc
    → Q p
    → Q (update_rt_path version tc (record p { rtp_rt = in_tree }))

-- The path at a pointer, as the walk has read it before.
pub record IsSame (q p : RtPath) : Type 0 where
  pub dst : p.dst ≡ q.dst
  pub originator : p.originator ≡ q.originator
  pub in_tree : q.rtp_rt ≡ true → p.rtp_rt ≡ true

abbrev pub Agrees : RtPath → RtPath → Type 0
Agrees q p = (p.id == q.id) ≡ true → IsSame q p

pub IsKept-Agrees :
    (version : ℕ) (heard : ℕ → Reached → Type 0) (q : RtPath) → IsKept version heard (Agrees q)
unfolding update_rt_path
IsKept-Agrees version heard q p in_tree tc mono there agrees at = record {
  dst = (agrees at).dst;
  originator = (agrees at).originator;
  in_tree = λ h. mono ((agrees at).in_tree h);
}

abbrev pub current : ℕ → RtPath → Bool
current version p = p.rtp_rt && version == p.version

pub record Refreshed {ℓ} {K : Type ℓ} (fib : K → ℕ → Option Nexthop) (heard : ℕ → Reached → Type 0)
    (k : K) (rib rib' : Rib) : Type 1 where
  pub synced : IsSynced fib rib' k
  pub version : rib'.version ≡ rib.version
  pub same_keys : keys rib'.paths ≡ keys rib.paths
  pub carried :
      (Q : RtPath → Type 0) → IsKept rib.version heard Q → All Q rib.paths → All Q rib'.paths

ensure_entry-mem : (dst : ℕ) (es : List RtEntry) → mem dst (dsts (ensure_entry dst es)) ≡ true
unfolding ensure_entry
ensure_entry-mem dst es = elim (Option-cases (find_entry dst es)) [
  | inl absent ↦
      rw (absent, ensure_entry)
        (mem-insert_entry dst (alloc_rt_entry dst) es ∙ rw (==_refl dst) refl)
  | inr (rt, found) ↦ rw (found, ensure_entry) (found_mem dst rt es found)
]

ensure_entry_kept :
    (dst a : ℕ) (es : List RtEntry)
    → mem a (dsts es) ≡ true
    → mem a (dsts (ensure_entry dst es)) ≡ true
unfolding ensure_entry
ensure_entry_kept dst a es h = elim (Option-cases (find_entry dst es)) [
  | inl absent ↦
      rw (absent, ensure_entry) (mem-insert_entry a (alloc_rt_entry dst) es ∙ ground (arith, h))
  | inr (rt, found) ↦ rw (found, ensure_entry) h
]

ensure_entry-IsNodup :
    (dst : ℕ) (es : List RtEntry) → IsNodup (dsts es) → IsNodup (dsts (ensure_entry dst es))
unfolding ensure_entry
ensure_entry-IsNodup dst es n = elim (Option-cases (find_entry dst es)) [
  | inl absent ↦
      rw (absent, ensure_entry)
        (insert_entry-IsNodup (alloc_rt_entry dst) es (missing_mem dst es absent) n)
  | inr (rt, found) ↦ rw (found, ensure_entry) n
]

installed-ensure_entry :
    (a dst : ℕ) (es : List RtEntry)
    → installed (find_entry a (ensure_entry dst es)) ≡ installed (find_entry a es)
unfolding ensure_entry
installed-ensure_entry a dst es = elim (Option-cases (find_entry dst es)) [
  | inl absent ↦ rw (absent, ensure_entry) (installed-insert_entry a dst es absent)
  | inr (rt, found) ↦ rw (found, ensure_entry) refl
]

module _ {ℓ} {K : Type ℓ} (fib : K → ℕ → Option Nexthop) (heard : ℕ → Reached → Type 0)
    (k : K) where
  pub Refreshed-refl : (rib : Rib) → IsSynced fib rib k → Refreshed fib heard k rib rib
  Refreshed-refl rib now = record {
    synced = now;
    version = refl;
    same_keys = refl;
    carried = λ Q kept all. all;
  }

  pub Refreshed-trans :
      (rib0 rib1 rib2 : Rib)
      → Refreshed fib heard k rib0 rib1
      → Refreshed fib heard k rib1 rib2
      → Refreshed fib heard k rib0 rib2
  Refreshed-trans rib0 rib1 rib2 first second = record {
    synced = second.synced;
    version = second.version ∙ first.version;
    same_keys = second.same_keys ∙ first.same_keys;
    carried = λ Q kept all.
        second.carried Q (subst (λ v. IsKept v heard Q) (sym first.version) kept)
          (first.carried Q kept all);
  }

  module _ (cfg : RtConfig) (tc : Reached) (link : has_interface tc.link ≡ true) (rtp : RtPath)
      (announced : heard rtp.originator tc) (rib : Rib) (now : IsSynced fib rib k)
      (agrees : All (Agrees rtp) rib.paths) where
    pub update_rt_path-Refreshed :
        Refreshed fib heard k rib
          (record rib { paths = write_path rtp.id (update_rt_path rib.version tc) rib.paths })
    unfolding update_rt_path
    update_rt_path-Refreshed = record {
      synced = record {
        distinct =
            subst IsNodup
              (sym (ids-write_path rtp.id (update_rt_path rib.version tc) rib.paths (λ p. refl)))
              now.distinct;
        interfaces =
            write_path_at (Agrees rtp) (λ p. p.rtp_rt ≡ true → has_interface p.nexthop ≡ true)
              rtp.id (update_rt_path rib.version tc) rib.paths (λ p at a h. link) agrees
              now.interfaces;
        in_rib =
            write_path_at (λ p. p.rtp_rt ≡ true → mem p.dst (dsts rib.entries) ≡ true)
              (λ p. p.rtp_rt ≡ true → mem p.dst (dsts rib.entries) ≡ true) rtp.id
              (update_rt_path rib.version tc) rib.paths (λ p at q. q) now.in_rib now.in_rib;
        entries_distinct = now.entries_distinct;
        empty_queue = now.empty_queue;
        synced = now.synced;
      };
      version = refl;
      same_keys = keys-write_path rtp.id (update_rt_path rib.version tc) rib.paths (λ p. refl);
      carried = λ Q kept all.
          write_path_at (λ p. Agrees rtp p × Q p) Q rtp.id (update_rt_path rib.version tc) rib.paths
            (λ p at both.
              kept p p.rtp_rt tc (λ h. h)
                (subst (λ o. heard o tc) (sym (both.0 at).originator) announced) both.1)
            (All-both (Agrees rtp) Q (λ p. Agrees rtp p × Q p) rib.paths (λ p a q. (a, q)) agrees
              all)
            all;
    }

    -- The paths at the pointer are current then.
    pub update_rt_path-current :
        rtp.rtp_rt ≡ true
        → All
            (λ p. (p.id == rtp.id) ≡ true → current rib.version p ≡ true)
            (write_path rtp.id (update_rt_path rib.version tc) rib.paths)
    unfolding update_rt_path
    update_rt_path-current in_tree =
        write_path_hit (Agrees rtp) (λ p. current rib.version p ≡ true) rtp.id
          (update_rt_path rib.version tc) rib.paths now.distinct
          (λ p at agree.
            let there = (agree at).in_tree in_tree in rw (there, ==_refl rib.version) refl)
          agrees

    abbrev entered : RtPath → RtPath
    entered p = update_rt_path rib.version tc (record p { rtp_rt = true })

    abbrev with_entry : Rib
    with_entry = record rib {
      entries = ensure_entry rtp.dst rib.entries;
      paths = write_path rtp.id entered rib.paths;
    }

    with_entry-Refreshed : Refreshed fib heard k rib with_entry
    unfolding update_rt_path
    with_entry-Refreshed = record {
      synced = record {
        distinct =
            subst IsNodup (sym (ids-write_path rtp.id entered rib.paths (λ p. refl))) now.distinct;
        interfaces =
            write_path_at (Agrees rtp) (λ p. p.rtp_rt ≡ true → has_interface p.nexthop ≡ true)
              rtp.id entered rib.paths (λ p at a h. link) agrees now.interfaces;
        in_rib =
            write_path_at (Agrees rtp)
              (λ p. p.rtp_rt ≡ true → mem p.dst (dsts (ensure_entry rtp.dst rib.entries)) ≡ true)
              rtp.id entered rib.paths
              (λ p at a h.
                subst (λ d. mem d (dsts (ensure_entry rtp.dst rib.entries)) ≡ true) (sym (a at).dst)
                  (ensure_entry-mem rtp.dst rib.entries))
              agrees
              (All-map (λ p. p.rtp_rt ≡ true → mem p.dst (dsts rib.entries) ≡ true)
                (λ p. p.rtp_rt ≡ true → mem p.dst (dsts (ensure_entry rtp.dst rib.entries)) ≡ true)
                rib.paths (λ p there h. ensure_entry_kept rtp.dst p.dst rib.entries (there h))
                now.in_rib);
        entries_distinct = ensure_entry-IsNodup rtp.dst rib.entries now.entries_distinct;
        empty_queue = now.empty_queue;
        synced = λ a. now.synced a ∙ sym (installed-ensure_entry a rtp.dst rib.entries);
      };
      version = refl;
      same_keys = keys-write_path rtp.id entered rib.paths (λ p. refl);
      carried = λ Q kept all.
          write_path_at (λ p. Agrees rtp p × Q p) Q rtp.id entered rib.paths
            (λ p at both.
              kept p true tc (λ h. refl)
                (subst (λ o. heard o tc) (sym (both.0 at).originator) announced) both.1)
            (All-both (Agrees rtp) Q (λ p. Agrees rtp p × Q p) rib.paths (λ p a q. (a, q)) agrees
              all)
            all;
    }

    pub insert_rt_path-Refreshed : Refreshed fib heard k rib (insert_rt_path cfg rtp tc rib)
    unfolding insert_rt_path
    insert_rt_path-Refreshed =
        if_rule (Refreshed fib heard k rib)
          (tc.path_cost == route_cost_broken || ltb (8 * cfg.ipsize) (prefix_len rtp.dst)) rib
          with_entry (Refreshed-refl rib now) with_entry-Refreshed

    pub insert_rt_path-current :
        (tc.path_cost == route_cost_broken || ltb (8 * cfg.ipsize) (prefix_len rtp.dst)) ≡ false
        → All
            (λ p. (p.id == rtp.id) ≡ true → current rib.version p ≡ true)
            (insert_rt_path cfg rtp tc rib).paths
    unfolding insert_rt_path update_rt_path
    insert_rt_path-current valid = rw valid (
        write_path_hit (Agrees rtp) (λ p. current rib.version p ≡ true) rtp.id entered rib.paths
          now.distinct (λ p at agree. rw (==_refl rib.version) refl) agrees)
