-- ===== src/Route/Kernel/Round.antt =====
-- A round of the loop of olsr_update_rib_routes in src/process_routes.c over the entries.
use olsr.Prelude.{
  ℕ, ◌≡◌, refl, inl, inr, Bool, true, false, not, ◌&&◌, ◌||◌, ◌==◌, if◌then◌else◌, Bool-cases,
  ==_refl, if_rule, ◌⊎◌, Option, none, some, arith, List, [], ◌∷◌, subst, sym, ◌∙◌, All,
}
use olsr.Prelude.Int.{pos}
use olsr.Spf.Nodes.{mem, IsNodup}
use olsr.Route.{Nexthop, RtPath, RtEntry, Rib, RtConfig, find_entry, find_path, path_tree, rt_best}
use olsr.Route.Kernel.{Kernel, enqueue_rt, delete_outdated, nh_change, del_route, update_entries}
use olsr.Route.Kernel.Reliable.{dsts, find_entry-cases, nh_change_lem}
use olsr.Route.Kernel.Election.{IsBest, NoneCurrent, mem-enqueue_rt}
use olsr.Route.Kernel.Update.{Outcome, Outcome-before, PathsKept, PathsKept-step}

Outcome-absent :
    {cfg : RtConfig} {version : ℕ} {start : Option ℕ} {dst : ℕ} {ps : List RtPath}
    {old new : Option RtEntry} {before after : Option Nexthop} {queued queued' : Bool}
    → Outcome cfg version start ps dst old new before after queued queued'
    → old ≡ none
    → (new ≡ none) × (after ≡ before) × (queued' ≡ queued)
Outcome-absent (Outcome.absent o n f q) h = (n, f, q)
Outcome-absent (Outcome.gone rt o empty n f q) h = absurd (ground (arith, o, h))
Outcome-absent (Outcome.elected rt b o best n f q) h = absurd (ground (arith, o, h))

not_there : (a : ℕ) (es : List RtEntry) → mem a (dsts es) ≡ false → find_entry a es ≡ none
not_there a es h = elim (find_entry-cases a es) [
  | inl (out, missing) ↦ missing
  | inr (in_rest, rt, found) ↦ absurd (ground (arith, h, in_rest))
]

pub every : {Q : RtPath → Type 0} → ((p : RtPath) → Q p) → (ps : List RtPath) → All Q ps
every f [] = tt
every f (p ∷ ps) = (f p, every f ps)

pub uncons :
    (ps : List RtPath) → (ps ≡ []) ⊎ ((p : RtPath) × (more : List RtPath) × (ps ≡ p ∷ more))
uncons [] = inl refl
uncons (p ∷ ps) = inr (p, ps, refl)

pub elsewhere : (a d : ℕ) (ds : List ℕ) → mem d ds ≡ false → mem a ds ≡ true → (a == d) ≡ false
elsewhere a d ds out h = elim (Bool-cases (a == d)) [
  | inl at ↦
      let same : a ≡ d = ground (arith, at) in
      absurd (ground (arith, subst (λ x. mem x ds ≡ true) same h, out))
  | inr off ↦ off
]

pub flip_eq : (a d : ℕ) → (a == d) ≡ false → (d == a) ≡ false
flip_eq a d h = ground (arith, h)

module _ {ℓ} {K : Type ℓ} (os : Kernel K) (fib : K → ℕ → Option Nexthop) (cfg : RtConfig)
    (start : Option ℕ) where
  pub record Passed (entries : List RtEntry) (rib : Rib) (k : K) (r : K × Rib) : Type 1 where
    pub outcome :
        (dst : ℕ)
        → Outcome cfg rib.version start rib.paths dst
            (find_entry dst entries)
            (find_entry dst r.1.entries)
            (fib k dst)
            (fib r.0 dst)
            (mem dst rib.chg_kernel_list)
            (mem dst r.1.chg_kernel_list)
    pub kept : PathsKept rib.version entries rib.paths r.1.paths
    pub fewer : (a : ℕ) → mem a (dsts entries) ≡ false → mem a (dsts r.1.entries) ≡ false
    pub distinct : IsNodup (dsts r.1.entries)
    pub same_version : r.1.version ≡ rib.version

  pub update_entries_gone :
      (rt : RtEntry) (more : List RtEntry) (rib : Rib) (k : K)
      → path_tree rt.dst (delete_outdated rib.version rt.dst rib.paths) ≡ []
      → (del_route os (record rt { best = none }) k).2 ≡ pos 0
      → update_entries os cfg (rt ∷ more) rib k
        ≡ update_entries os cfg more
            (record rib { paths = delete_outdated rib.version rt.dst rib.paths })
            (del_route os (record rt { best = none }) k).0
  unfolding update_entries
  update_entries_gone rt more rib k empty zero = rw (empty, zero, update_entries) refl

  -- The queue behind the election of a path.
  pub queue_with : RtEntry → RtEntry → RtPath → Rib → List ℕ
  queue_with rt best b rib =
      if nh_change b.nexthop rt.nexthop || (cfg.fibm_correct && not (b.hops == rt.hops))
      then enqueue_rt (delete_outdated rib.version rt.dst rib.paths) best rib.chg_kernel_list
      else rib.chg_kernel_list

  pub update_entries_elected :
      (rt : RtEntry) (more : List RtEntry) (rib : Rib) (k : K) (p : RtPath) (ps : List RtPath)
      (b : RtPath)
      → path_tree rt.dst (delete_outdated rib.version rt.dst rib.paths) ≡ p ∷ ps
      → (rt_best cfg rib.current_inetgw
          (delete_outdated rib.version rt.dst rib.paths)
          (record rt { best = none })).0
        ≡ record rt { best = some b.id }
      → find_path b.id (delete_outdated rib.version rt.dst rib.paths) ≡ some b
      → (let rest =
            update_entries os cfg more
              (record rib {
                paths = delete_outdated rib.version rt.dst rib.paths;
                current_inetgw =
                    (rt_best cfg rib.current_inetgw
                      (delete_outdated rib.version rt.dst rib.paths)
                      (record rt { best = none })).1;
                chg_kernel_list = queue_with rt (record rt { best = some b.id }) b rib;
              })
              k in
          update_entries os cfg (rt ∷ more) rib k
          ≡ (rest.0, record rest.1 { entries = record rt { best = some b.id } ∷ rest.1.entries }))
  unfolding update_entries queue_with
  update_entries_elected rt more rib k p ps b tree best at =
      rw (tree, best, at, update_entries) refl

  pub nothing_to_do : (rib : Rib) (k : K) → Passed [] rib k (update_entries os cfg [] rib k)
  unfolding update_entries mem find_entry
  nothing_to_do rib k = record {
    outcome = λ dst. Outcome.absent refl refl refl refl;
    kept = record {
      found = λ dst b now at. at;
      carried = λ Q all. all;
      swept = every (λ p r m. absurd (ground (arith, m))) rib.paths;
      same_ids = refl;
    };
    fewer = λ a h. h;
    distinct = tt;
    same_version = refl;
  }

  pub round_gone :
      (rt : RtEntry) (more : List RtEntry) (rib : Rib) (k k1 : K) (r : K × Rib)
      → mem rt.dst (dsts more) ≡ false
      → NoneCurrent rib.version rt.dst rib.paths
      → ((a : ℕ) → fib k1 a ≡ (if a == rt.dst then none else fib k a))
      → Passed more (record rib { paths = delete_outdated rib.version rt.dst rib.paths }) k1 r
      → Passed (rt ∷ more) rib k r
  unfolding find_entry mem
  round_gone rt more rib k k1 r apart empty put passed = record {
    outcome = λ dst. elim (Bool-cases (rt.dst == dst)) [
      | inl at ↦
          let same : rt.dst ≡ dst = ground (arith, at) in
          let (n, f, q) = Outcome-absent (passed.outcome rt.dst) (not_there rt.dst more apart) in
          subst
            (λ d.
              Outcome cfg rib.version start rib.paths d (find_entry d (rt ∷ more))
                (find_entry d r.1.entries) (fib k d) (fib r.0 d) (mem d rib.chg_kernel_list)
                (mem d r.1.chg_kernel_list))
            same
            (Outcome.gone rt (rw (==_refl rt.dst) refl) empty n
              (f ∙ put rt.dst ∙ rw (==_refl rt.dst) refl) q)
      | inr on ↦
          let other : (dst == rt.dst) ≡ false = ground (arith, on) in
          rw on (
            subst
              (λ before.
                Outcome cfg rib.version start rib.paths dst (find_entry dst more)
                  (find_entry dst r.1.entries) before (fib r.0 dst) (mem dst rib.chg_kernel_list)
                  (mem dst r.1.chg_kernel_list))
              (put dst ∙ rw other refl) (Outcome-before rt.dst (passed.outcome dst)))
    ];
    kept = PathsKept-step rib.version rt more rib.paths r.1.paths passed.kept;
    fewer = λ a h. passed.fewer a (ground (arith, h));
    distinct = passed.distinct;
    same_version = passed.same_version;
  }

  pub round_elected :
      (rt : RtEntry) (more : List RtEntry) (rib : Rib) (queue : List ℕ) (inetgw : Option ℕ) (k : K)
      (b : RtPath) (r : K × Rib)
      → mem rt.dst (dsts more) ≡ false
      → IsBest cfg rib.version start rt.dst rib.paths b
      → ((a : ℕ) → (a == rt.dst) ≡ false → mem a queue ≡ mem a rib.chg_kernel_list)
      → (mem rt.dst queue ≡ true)
        ⊎ ((rt.nexthop ≡ b.nexthop) × (mem rt.dst queue ≡ mem rt.dst rib.chg_kernel_list))
      → Passed more
          (record rib {
            paths = delete_outdated rib.version rt.dst rib.paths;
            current_inetgw = inetgw;
            chg_kernel_list = queue;
          })
          k
          r
      → Passed
          (rt ∷ more)
          rib
          k
          (r.0, record r.1 { entries = record rt { best = some b.id } ∷ r.1.entries })
  unfolding find_entry mem
  round_elected rt more rib queue inetgw k b r apart best others changed passed = record {
    outcome = λ dst. elim (Bool-cases (rt.dst == dst)) [
      | inl at ↦
          let same : rt.dst ≡ dst = ground (arith, at) in
          let (n, f, q) = Outcome-absent (passed.outcome rt.dst) (not_there rt.dst more apart) in
          subst
            (λ d.
              Outcome cfg rib.version start rib.paths d (find_entry d (rt ∷ more))
                (find_entry d (record rt { best = some b.id } ∷ r.1.entries)) (fib k d) (fib r.0 d)
                (mem d rib.chg_kernel_list) (mem d r.1.chg_kernel_list))
            same
            (Outcome.elected rt b (rw (==_refl rt.dst) refl) best (rw (==_refl rt.dst) refl) f
              (elim changed [
                | inl now ↦ inl (q ∙ now)
                | inr (nexthop, still) ↦ inr (nexthop, q ∙ still)
              ]))
      | inr on ↦
          let other : (dst == rt.dst) ≡ false = ground (arith, on) in
          rw on (
            subst
              (λ queued.
                Outcome cfg rib.version start rib.paths dst (find_entry dst more)
                  (find_entry dst r.1.entries) (fib k dst) (fib r.0 dst) queued
                  (mem dst r.1.chg_kernel_list))
              (others dst other) (Outcome-before rt.dst (passed.outcome dst)))
    ];
    kept = PathsKept-step rib.version rt more rib.paths r.1.paths passed.kept;
    fewer = λ a h. ground (arith, h, passed.fewer a);
    distinct = (passed.fewer rt.dst apart, passed.distinct);
    same_version = passed.same_version;
  }

  pub queue_with_others :
      (rt best : RtEntry) (b : RtPath) (rib : Rib) (a : ℕ)
      → (a == best.dst) ≡ false
      → mem a (queue_with rt best b rib) ≡ mem a rib.chg_kernel_list
  unfolding queue_with
  queue_with_others rt best b rib a other =
      if_rule (λ q. mem a q ≡ mem a rib.chg_kernel_list)
        (nh_change b.nexthop rt.nexthop || (cfg.fibm_correct && not (b.hops == rt.hops)))
        (enqueue_rt (delete_outdated rib.version rt.dst rib.paths) best rib.chg_kernel_list)
        rib.chg_kernel_list
        (mem-enqueue_rt (delete_outdated rib.version rt.dst rib.paths) best rib.chg_kernel_list a
          ∙ rw other refl)
        refl

  pub queue_with_own :
      (rt best : RtEntry) (b : RtPath) (rib : Rib)
      → (mem best.dst (queue_with rt best b rib) ≡ true)
        ⊎ ((rt.nexthop ≡ b.nexthop)
            × (mem best.dst (queue_with rt best b rib) ≡ mem best.dst rib.chg_kernel_list))
  unfolding queue_with
  queue_with_own rt best b rib =
      let paths = delete_outdated rib.version rt.dst rib.paths in
      let test = nh_change b.nexthop rt.nexthop || (cfg.fibm_correct && not (b.hops == rt.hops)) in
      elim (Bool-cases test) [
        | inl changed ↦ inl (
            rw changed
              (mem-enqueue_rt paths best rib.chg_kernel_list best.dst ∙ rw (==_refl best.dst) refl))
        | inr same ↦
            inr (sym (nh_change_lem b.nexthop rt.nexthop (ground (arith, same))), rw same refl)
      ]
