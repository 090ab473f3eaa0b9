-- ===== src/Route/Kernel/Change.antt =====
-- `olsr_chg_kernel_routes` of src/process_routes.c over the queue.
use olsr.Prelude.{
  ℕ, ◌≡◌, refl, inl, inr, true, false, ◌==◌, if◌then◌else◌, Bool-cases, Option, some, arith, List,
  [], ◌∷◌, ap, subst, sym, ◌∙◌,
}
use olsr.Spf.Nodes.{mem}
use olsr.Route.{Nexthop, RtPath, RtEntry, find_entry, write_entry, deref}
use olsr.Route.Kernel.{Kernel, has_interface, change_route, chg_kernel_routes}
use olsr.Route.Kernel.Reliable.{
  IsReliable, dsts, write_entry-dsts, installed, best_nexthop, nexthop_of, nexthop_of-deref,
  find_entry-write_entry, find_entry-dst, change_route_lem,
}

-- An entry of the queue: it is there, and its best path is there and has an interface.
pub record IsChangeable (paths : List RtPath) (es : List RtEntry) (dst : ℕ) : Type 0 where
  pub entry : RtEntry
  pub best : RtPath
  pub found : find_entry dst es ≡ some entry
  pub points : deref paths entry.best ≡ some best
  pub some_interface : has_interface best.nexthop ≡ true

-- What the loop makes of the entries and of the routes of the kernel.
pub record Changed {ℓ} {K : Type ℓ} (fib : K → ℕ → Option Nexthop) (paths : List RtPath)
    (queue : List ℕ) (es es' : List RtEntry) (k k' : K) : Type 0 where
  pub same_best :
      (a : ℕ) → best_nexthop paths (find_entry a es') ≡ best_nexthop paths (find_entry a es)
  pub in_queue : (a : ℕ) → mem a queue ≡ true → fib k' a ≡ best_nexthop paths (find_entry a es)
  pub elsewhere : (a : ℕ) → mem a queue ≡ false → fib k' a ≡ fib k a
  pub same_dsts : dsts es' ≡ dsts es
  pub synced : (a : ℕ) → fib k' a ≡ installed (find_entry a es')

module _ {ℓ} {K : Type ℓ} (fib : K → ℕ → Option Nexthop) (paths : List RtPath) where
  round-Changed :
      {dst : ℕ} {es es1 : List RtEntry} (c : IsChangeable paths es dst) (new : RtEntry) (k k1 : K)
      → new.best ≡ c.entry.best
      → new.nexthop ≡ c.best.nexthop
      → ((a : ℕ) → find_entry a es1 ≡ (if a == dst then some new else find_entry a es))
      → ((a : ℕ) → fib k1 a ≡ (if a == dst then some c.best.nexthop else fib k a))
      → ((a : ℕ) → fib k a ≡ installed (find_entry a es))
      → dsts es1 ≡ dsts es
      → Changed fib paths (dst ∷ []) es es1 k k1
  unfolding mem
  round-Changed {dst} {es} {es1} c new k k1 same_best nexthop look put synced same_dsts = record {
    same_dsts = same_dsts;
    same_best = λ a. ap (best_nexthop paths) (look a) ∙ elim (Bool-cases (a == dst)) [
      | inl at ↦
          let same : a ≡ dst = ground (arith, at) in
          rw at (
            ap (nexthop_of paths) same_best
            ∙ sym (ap (best_nexthop paths) (ap (λ d. find_entry d es) same ∙ c.found)))
      | inr off ↦ rw off refl
    ];
    in_queue = λ a h.
        let at : (a == dst) ≡ true = ground (arith, h) in
        let same : a ≡ dst = ground (arith, at) in
        put a
        ∙ rw at (
            sym (
              ap (best_nexthop paths) (ap (λ d. find_entry d es) same ∙ c.found)
              ∙ nexthop_of-deref paths c.entry.best c.best c.points));
    elsewhere = λ a h. let off : (a == dst) ≡ false = ground (arith, h) in put a ∙ rw off refl;
    synced = λ a. put a ∙ elim (Bool-cases (a == dst)) [
      | inl at ↦ rw at (sym (ap installed (look a) ∙ rw (at, nexthop, c.some_interface) refl))
      | inr off ↦ rw off (synced a ∙ sym (ap installed (look a) ∙ rw off refl))
    ];
  }

  later_changes :
      {dst : ℕ} {es es1 : List RtEntry} (c : IsChangeable paths es dst) (new : RtEntry)
      → new.best ≡ c.entry.best
      → ((a : ℕ) → find_entry a es1 ≡ (if a == dst then some new else find_entry a es))
      → (a : ℕ) (queue : List ℕ) → (mem a (dst ∷ queue) ≡ true → IsChangeable paths es a)
      → mem a queue ≡ true
      → IsChangeable paths es1 a
  unfolding mem
  later_changes {dst} c new same_best look a queue before h = elim (Bool-cases (a == dst)) [
    | inl at ↦ record {
      entry = new;
      best = c.best;
      found = look a ∙ rw at refl;
      points = rw same_best c.points;
      some_interface = c.some_interface;
    }
    | inr off ↦
        let b = before (ground (arith, h)) in
        record {
          entry = b.entry;
          best = b.best;
          found = look a ∙ rw off b.found;
          points = b.points;
          some_interface = b.some_interface;
        }
  ]

module _ {ℓ} {K : Type ℓ} (os : Kernel K) (fib : K → ℕ → Option Nexthop)
    (reliable : IsReliable os fib) (paths : List RtPath) where
  chg_kernel_routes_step :
      (dst : ℕ) (queue : List ℕ) (es : List RtEntry) (k k1 : K) (rt new : RtEntry)
      → find_entry dst es ≡ some rt
      → change_route os paths rt k ≡ some (k1, new)
      → chg_kernel_routes os paths (dst ∷ queue) es k
        ≡ chg_kernel_routes os paths queue (write_entry dst (λ e. new) es) k1
  unfolding chg_kernel_routes
  chg_kernel_routes_step dst queue es k k1 rt new found run =
      rw (found, run, chg_kernel_routes) refl

  abbrev Ends : List ℕ → List RtEntry → K → Type ℓ
  Ends queue es k =
      (k' : K) × (es' : List RtEntry) × (chg_kernel_routes os paths queue es k ≡ some (k', es'))
      × Changed fib paths queue es es' k k'

  chg_kernel_routes-round :
      (dst : ℕ) (queue : List ℕ) (es : List RtEntry) (k : K) (c : IsChangeable paths es dst)
      → ((a : ℕ) → mem a (dst ∷ queue) ≡ true → IsChangeable paths es a)
      → ((a : ℕ) → fib k a ≡ installed (find_entry a es))
      → ((es1 : List RtEntry) (k1 : K)
          → ((a : ℕ) → mem a queue ≡ true → IsChangeable paths es1 a)
          → ((a : ℕ) → fib k1 a ≡ installed (find_entry a es1))
          → Ends queue es1 k1)
      → Ends (dst ∷ queue) es k
  unfolding mem
  chg_kernel_routes-round dst queue es k c change synced ih =
      let at_dst = find_entry-dst dst c.entry es c.found in
      let (k1, new, run, same_dst, same_best, nexthop, put) =
        change_route_lem os fib reliable paths c.entry c.best k c.points
          (sym (ap installed c.found) ∙ sym (synced dst) ∙ ap (fib k) (sym at_dst)) in
      let put1 : (a : ℕ) → fib k1 a ≡ (if a == dst then some c.best.nexthop else fib k a) =
        subst (λ d. (a : ℕ) → fib k1 a ≡ (if a == d then some c.best.nexthop else fib k a)) at_dst
          put in
      let es1 = write_entry dst (λ e. new) es in
      let look : (a : ℕ) → find_entry a es1 ≡ (if a == dst then some new else find_entry a es) =
        λ a. find_entry-write_entry dst a c.entry new es (same_dst ∙ at_dst) c.found in
      let round =
        round-Changed fib paths c new k k1 same_best nexthop look put1 synced
          (write_entry-dsts dst new es (same_dst ∙ at_dst)) in
      let (k', es', rest, done) =
        ih es1 k1 (λ a h. later_changes fib paths c new same_best look a queue (change a) h)
          round.synced in
      (
        k',
        es',
        chg_kernel_routes_step dst queue es k k1 c.entry new c.found run ∙ rest,
        record {
          same_dsts = done.same_dsts ∙ round.same_dsts;
          same_best = λ a. done.same_best a ∙ round.same_best a;
          in_queue = λ a h. elim (Bool-cases (mem a queue)) [
            | inl more ↦ done.in_queue a more ∙ round.same_best a
            | inr last ↦ done.elsewhere a last ∙ round.in_queue a (ground (arith, h, last))
          ];
          elsewhere =
              λ a h. done.elsewhere a (ground (arith, h)) ∙ round.elsewhere a (ground (arith, h));
          synced = done.synced;
        },
      )

  pub chg_kernel_routes-Changed :
      (queue : List ℕ) (es : List RtEntry) (k : K)
      → ((a : ℕ) → mem a queue ≡ true → IsChangeable paths es a)
      → ((a : ℕ) → fib k a ≡ installed (find_entry a es))
      → Ends queue es k
  unfolding chg_kernel_routes mem
  chg_kernel_routes-Changed [] es k change synced = (
    k,
    es,
    refl,
    record {
      same_best = λ a. refl;
      same_dsts = refl;
      in_queue = λ a h. absurd (ground (arith, h));
      elsewhere = λ a h. refl;
      synced = synced;
    },
  )
  chg_kernel_routes-Changed (dst ∷ queue) es k change synced =
      chg_kernel_routes-round dst queue es k (change dst (ground arith)) change synced
        (λ es1 k1. chg_kernel_routes-Changed queue es1 k1)
