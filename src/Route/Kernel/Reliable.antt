-- ===== src/Route/Kernel/Reliable.antt =====
-- What src/process_routes.c relies on of the functions that change the kernel, and a route as the
-- kernel has it.
use olsr.Prelude.{
  ℕ, ◌≡◌, refl, inl, inr, ◌⊎◌, true, false, ◌==◌, if◌then◌else◌, Bool-cases, Option-cases, Option,
  none, some, arith, List, [], ◌∷◌, ap, subst, sym, ◌∙◌,
}
use olsr.Prelude.Int.{pos, ◌+ℤ◌}
use olsr.Spf.Nodes.{mem}
use olsr.Route.{Nexthop, RtPath, RtEntry, find_entry, write_entry, deref}
use olsr.Route.Kernel.{Kernel, nh_change, has_interface, del_route, add_route, change_route}

-- The two functions succeed, and they take a route out of the table of the kernel and put it in.
pub record IsReliable {ℓ} {K : Type ℓ} (os : Kernel K) (fib : K → ℕ → Option Nexthop) : Type ℓ where
  pub del_success : (rt : RtEntry) (k : K) → (os.del_route_function rt k).1 ≡ true
  pub del_fib :
      (rt : RtEntry) (k : K) (a : ℕ)
      → fib (os.del_route_function rt k).0 a ≡ (if a == rt.dst then none else fib k a)
  pub add_success :
      (rt : RtEntry) (rtp : RtPath) (k : K) → (os.add_route_function rt rtp k).1 ≡ true
  pub add_fib :
      (rt : RtEntry) (rtp : RtPath) (k : K) (a : ℕ)
      → fib (os.add_route_function rt rtp k).0 a
        ≡ (if a == rt.dst then some rtp.nexthop else fib k a)

-- The route of an entry that the kernel should have: none if it is not there or fresh.
abbrev pub installed : Option RtEntry → Option Nexthop
installed none = none
installed (some rt) = if has_interface rt.nexthop then some rt.nexthop else none

abbrev pub dsts : List RtEntry → List ℕ
dsts [] = []
dsts (e ∷ es) = e.dst ∷ dsts es

pub find_entry-cases :
    (a : ℕ) (es : List RtEntry)
    → ((mem a (dsts es) ≡ false) × (find_entry a es ≡ none))
      ⊎ ((mem a (dsts es) ≡ true) × (rt : RtEntry) × (find_entry a es ≡ some rt))
unfolding mem find_entry
find_entry-cases a [] = inl (refl, refl)
find_entry-cases a (e ∷ es) = elim (Bool-cases (e.dst == a)) [
  | inl at ↦ inr (ground (arith, at), e, rw at refl)
  | inr on ↦ elim (find_entry-cases a es) [
    | inl (out, missing) ↦ inl (ground (arith, on, out), rw on missing)
    | inr (in_rest, rt, found) ↦ inr (ground (arith, in_rest), rt, rw on found)
  ]
]

pub write_entry-dsts :
    (dst : ℕ) (new : RtEntry) (es : List RtEntry)
    → new.dst ≡ dst
    → dsts (write_entry dst (λ e. new) es) ≡ dsts es
unfolding write_entry
write_entry-dsts dst new [] same = refl
write_entry-dsts dst new (e ∷ es) same = elim (Bool-cases (e.dst == dst)) [
  | inl at ↦
      let here : e.dst ≡ dst = ground (arith, at) in rw at (ap (λ d. d ∷ dsts es) (same ∙ sym here))
  | inr on ↦ rw on (ap (λ ds. e.dst ∷ ds) (write_entry-dsts dst new es same))
]

-- The next hop of a path by its pointer, and of the best path of an entry.
abbrev pub nexthop_of : List RtPath → Option ℕ → Option Nexthop
nexthop_of paths best = elim (deref paths best) [ none ↦ none | some p ↦ some p.nexthop ]

abbrev pub best_nexthop : List RtPath → Option RtEntry → Option Nexthop
best_nexthop paths none = none
best_nexthop paths (some rt) = nexthop_of paths rt.best

pub nexthop_of-deref :
    (paths : List RtPath) (best : Option ℕ) (p : RtPath)
    → deref paths best ≡ some p
    → nexthop_of paths best ≡ some p.nexthop
nexthop_of-deref paths best p h =
    ap
      (λ (o : Option RtPath). elim o as (λ o. Option Nexthop) [
        | none ↦ none
        | some q ↦ some q.nexthop
      ])
      h

pub nh_change_lem : (a b : Nexthop) → nh_change a b ≡ false → a ≡ b
unfolding nh_change
nh_change_lem a b h =
    let gateways : a.gateway ≡ b.gateway = ground (arith, h) in
    let interfaces : a.interface ≡ b.interface = elim (Option-cases a.interface) [
      | inl none_a ↦ elim (Option-cases b.interface) [
        | inl none_b ↦ none_a ∙ sym none_b
        | inr (j, some_b) ↦ absurd (ground (arith, h, none_a, some_b))
      ]
      | inr (i, some_a) ↦ elim (Option-cases b.interface) [
        | inl none_b ↦ absurd (ground (arith, h, some_a, none_b))
        | inr (j, some_b) ↦
            let same : i ≡ j = ground (arith, h, some_a, some_b) in
            some_a ∙ ap some same ∙ sym some_b
      ]
    ] in
    λ x. record { gateway = gateways x; interface = interfaces x }

pub find_entry-write_entry :
    (dst a : ℕ) (rt new : RtEntry) (es : List RtEntry)
    → new.dst ≡ dst
    → find_entry dst es ≡ some rt
    → find_entry a (write_entry dst (λ e. new) es)
      ≡ (if a == dst then some new else find_entry a es)
unfolding find_entry write_entry
find_entry-write_entry dst a rt new [] same there = absurd (ground (arith, there))
find_entry-write_entry dst a rt new (e ∷ es) same there = elim (Bool-cases (e.dst == dst)) [
  | inl at ↦ rw at (ground (arith, same, at))
  | inr on ↦ rw on (ground (arith, same, on, there, find_entry-write_entry dst a rt new es same))
]

pub find_entry-dst :
    (dst : ℕ) (rt : RtEntry) (es : List RtEntry) → find_entry dst es ≡ some rt → rt.dst ≡ dst
unfolding find_entry
find_entry-dst dst rt [] h = absurd (ground (arith, h))
find_entry-dst dst rt (e ∷ es) h = elim (Bool-cases (e.dst == dst)) [
  | inl at ↦
      let same : e ≡ rt = ground (arith, h, at) in
      subst (λ x. x.dst ≡ dst) same (ground (arith, at))
  | inr on ↦ find_entry-dst dst rt es (ground (arith, h, on))
]

module _ {ℓ} {K : Type ℓ} (os : Kernel K) (fib : K → ℕ → Option Nexthop)
    (reliable : IsReliable os fib) where
  -- A deletion leaves no route, and an entry that can go.
  pub del_route_lem :
      (rt : RtEntry) (k : K)
      → installed (some rt) ≡ fib k rt.dst
      → ((del_route os rt k).2 ≡ pos 0)
        × ((a : ℕ) → fib (del_route os rt k).0 a ≡ (if a == rt.dst then none else fib k a))
        × ((del_route os rt k).1.dst ≡ rt.dst)
        × ((del_route os rt k).1.best ≡ rt.best)
  unfolding del_route
  del_route_lem rt k there = elim (Bool-cases (has_interface rt.nexthop)) [
    | inl some_if ↦
        let ok = reliable.del_success rt k in
        let law = reliable.del_fib rt k in
        (
          rw (some_if, ok, del_route) refl,
          (λ a. rw (some_if, del_route) (law a)),
          rw (some_if, del_route) refl,
          rw (some_if, del_route) refl,
        )
    | inr fresh ↦
        let absent : fib k rt.dst ≡ none = sym there ∙ rw fresh refl in
        (
          rw (fresh, del_route) refl,
          (λ a.
              rw (fresh, del_route)
                (elim (Bool-cases (a == rt.dst)) [
                  | inl at ↦ let same : a ≡ rt.dst = ground (arith, at) in rw (at, same) absent
                  | inr off ↦ rw off refl
                ])),
          rw (fresh, del_route) refl,
          rw (fresh, del_route) refl,
        )
  ]

  add_route_lem :
      (paths : List RtPath) (rt : RtEntry) (b : RtPath) (k : K)
      → deref paths rt.best ≡ some b
      → (k' : K) × (new : RtEntry) × (add_route os paths rt k ≡ some (k', new))
        × (new.dst ≡ rt.dst)
        × (new.best ≡ rt.best)
        × (new.nexthop ≡ b.nexthop)
        × ((a : ℕ) → fib k' a ≡ (if a == rt.dst then some b.nexthop else fib k a))
  unfolding add_route
  add_route_lem paths rt b k best =
      let asked = record rt { failure_count = rt.failure_count +ℤ pos 1 } in
      let ok = reliable.add_success asked b k in
      (
        (os.add_route_function asked b k).0,
        record rt { nexthop = b.nexthop; cost = b.cost; hops = b.hops; failure_count = pos 0 },
        rw (best, ok, add_route) refl,
        refl,
        refl,
        refl,
        reliable.add_fib asked b k,
      )

  pub change_route_lem :
      (paths : List RtPath) (rt : RtEntry) (b : RtPath) (k : K)
      → deref paths rt.best ≡ some b
      → installed (some rt) ≡ fib k rt.dst
      → (k' : K) × (new : RtEntry) × (change_route os paths rt k ≡ some (k', new))
        × (new.dst ≡ rt.dst)
        × (new.best ≡ rt.best)
        × (new.nexthop ≡ b.nexthop)
        × ((a : ℕ) → fib k' a ≡ (if a == rt.dst then some b.nexthop else fib k a))
  unfolding change_route
  change_route_lem paths rt b k best there = elim (Bool-cases (has_interface rt.nexthop)) [
    | inl some_if ↦
        let (zero, gone, dst, same) = del_route_lem rt k there in
        let del = del_route os rt k in
        let (k', new, run, new_dst, new_best, nexthop, put) =
          add_route_lem paths del.1 b del.0 (rw same best) in
        (
          k',
          new,
          rw some_if run,
          new_dst ∙ dst,
          new_best ∙ same,
          nexthop,
          (λ a.
              put a
              ∙ rw dst (elim (Bool-cases (a == rt.dst)) [
                | inl at ↦ rw at refl
                | inr off ↦ rw off (gone a ∙ rw off refl)
              ])),
        )
    | inr fresh ↦
        let (k', new, run, d, n, nh, put) = add_route_lem paths rt b k best in
        (k', new, rw fresh run, d, n, nh, put)
  ]
