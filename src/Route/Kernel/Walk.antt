-- ===== src/Route/Kernel/Walk.antt =====
-- The loop of olsr_calculate_routing_table in src/olsr_spf.c over the path list.
use olsr.Prelude.{
  ◌⊎◌, ℕ, ◌≡◌, refl, inl, inr, Bool, true, false, not, ◌*◌, ◌&&◌, ◌||◌, ◌==◌, ltb, Bool-cases,
  ==_refl, Option, none, some, arith, List, [], ◌∷◌, subst, sym, ◌∙◌, All,
}
use olsr.Spf.{route_cost_broken}
use olsr.Spf.Nodes.{mem, IsNodup}
use olsr.Route.{Nexthop, RtPath, Rib, RtConfig, Reached, prefix_len, update_rt_path}
use olsr.Route.Prefixes.{insert_rt_path, route_prefix, route_prefixes}
use olsr.Route.Kernel.{has_interface}
use olsr.Route.Kernel.Tree.{ids}
use olsr.Route.Kernel.Update.{All-both}
use olsr.Route.Kernel.Synced.{IsSynced, All-map}
use olsr.Route.Kernel.Stores.{apart-All}
use olsr.Route.Kernel.Refresh.{
  IsKept, Agrees, IsKept-Agrees, current, Refreshed, Refreshed-refl, Refreshed-trans,
  update_rt_path-Refreshed, update_rt_path-current, insert_rt_path-Refreshed,
  insert_rt_path-current,
}

-- A path that `olsr_insert_rt_path` takes: its cost is not broken, and its prefix is not too long.
abbrev pub is_routable : RtConfig → Reached → ℕ → Bool
is_routable cfg tc dst =
    not (tc.path_cost == route_cost_broken || ltb (8 * cfg.ipsize) (prefix_len dst))

-- All paths of a vertex are current.
abbrev pub Arrived : RtConfig → ℕ → List RtPath → ℕ × Option Reached → Type 0
Arrived cfg version ps (originator, none) = Unit {0}
Arrived cfg version ps (originator, some tc) =
    All
      (λ p. p.originator ≡ originator → is_routable cfg tc p.dst ≡ true → current version p ≡ true)
      ps

abbrev pub HasLink : ℕ × Option Reached → Type 0
HasLink (originator, none) = Unit {0}
HasLink (originator, some tc) = has_interface tc.link ≡ true

-- What a vertex with a next hop was reached by.
abbrev pub IsReached : List (ℕ × Option Reached) → ℕ → Reached → Type 0
IsReached [] v tc = ⊥
IsReached ((originator, none) ∷ more) v tc = IsReached more v tc
IsReached ((originator, some t) ∷ more) v tc = ((v ≡ originator) × (tc ≡ t)) ⊎ IsReached more v tc

Agrees-apart :
    (q : RtPath) (ps : List RtPath) → All (λ p. (p.id == q.id) ≡ false) ps → All (Agrees q) ps
Agrees-apart q ps off =
    All-map (λ p. (p.id == q.id) ≡ false) (Agrees q) ps
      (λ p off at. absurd (ground (arith, off, at))) off

apart-Agrees :
    (p : RtPath) (qs : List RtPath)
    → All (λ q. (q.id == p.id) ≡ false) qs
    → All (λ q. Agrees q p) qs
apart-Agrees p qs off =
    All-map (λ q. (q.id == p.id) ≡ false) (λ q. Agrees q p) qs
      (λ q off at. absurd (ground (arith, off, at))) off

-- At distinct memory, a path is all there is at its pointer.
pub Agrees-All : (ps : List RtPath) → IsNodup (ids ps) → All (λ q. All (Agrees q) ps) ps
Agrees-All [] n = tt
Agrees-All (p ∷ ps) n =
    let off = apart-All p.id ps n.0 in
    (
      ((λ at. record { dst = refl; originator = refl; in_tree = λ h. h }), Agrees-apart p ps off),
      All-both (λ q. Agrees q p) (λ q. All (Agrees q) ps) (λ q. All (Agrees q) (p ∷ ps)) ps
          (λ q here later. (here, later)) (apart-Agrees p ps off) (Agrees-All ps n.1),
    )

-- The paths of a vertex at a pointer are current.
abbrev pub Due : RtConfig → ℕ → Reached → ℕ → ℕ → RtPath → Type 0
Due cfg originator tc version i p =
    (p.id == i) ≡ true
    → p.originator ≡ originator
    → is_routable cfg tc p.dst ≡ true
    → current version p ≡ true

module _ {ℓ} {K : Type ℓ} (fib : K → ℕ → Option Nexthop) (heard : ℕ → Reached → Type 0) (k : K)
    (cfg : RtConfig) where
  module _ (originator : ℕ) (tc : Reached) (link : has_interface tc.link ≡ true)
      (announced : heard originator tc) where
    route_prefix-Refreshed :
        (rtp : RtPath) (rib : Rib)
        → IsSynced fib rib k
        → All (Agrees rtp) rib.paths
        → Refreshed fib heard k rib (route_prefix cfg originator tc rtp rib)
          × (rtp.originator ≡ originator
              → is_routable cfg tc rtp.dst ≡ true
              → All
                  (λ p. (p.id == rtp.id) ≡ true → current rib.version p ≡ true)
                  (route_prefix cfg originator tc rtp rib).paths)
    unfolding route_prefix insert_rt_path
    route_prefix-Refreshed rtp rib now agrees = elim (Bool-cases (rtp.originator == originator)) [
      | inr other ↦
          rw (other, route_prefix)
            (Refreshed-refl fib heard k rib now, λ same. absurd (ground (arith, other, same)))
      | inl own ↦
          let here : rtp.originator ≡ originator = ground (arith, own) in
          let announced1 : heard rtp.originator tc = subst (λ o. heard o tc) (sym here) announced in
          elim (Bool-cases rtp.rtp_rt) [
            | inl in_tree ↦
                rw (own, in_tree, route_prefix)
                  (
                    update_rt_path-Refreshed fib heard k cfg tc link rtp announced1 rib now agrees,
                    λ same fits.
                        update_rt_path-current fib heard k cfg tc link rtp announced1 rib now agrees
                          in_tree,
                  )
            | inr fresh ↦
                rw (own, fresh, route_prefix)
                  (
                    insert_rt_path-Refreshed fib heard k cfg tc link rtp announced1 rib now agrees,
                    λ same fits.
                        insert_rt_path-current fib heard k cfg tc link rtp announced1 rib now agrees
                          (ground (arith, fits)),
                  )
          ]
    ]

    IsKept-Due : (version i : ℕ) → IsKept version heard (Due cfg originator tc version i)
    unfolding update_rt_path
    IsKept-Due version i p in_tree again mono there due at own fits =
        let now : current version p ≡ true = due at own fits in
        rw (mono (ground (arith, now)), ==_refl version) refl

    Due-here :
        (version : ℕ) (rtp : RtPath) (ps : List RtPath)
        → All (Agrees rtp) ps
        → (rtp.originator ≡ originator
            → is_routable cfg tc rtp.dst ≡ true
            → All (λ p. (p.id == rtp.id) ≡ true → current version p ≡ true) ps)
        → All (Due cfg originator tc version rtp.id) ps
    Due-here version rtp ps agrees arrived =
        elim (Bool-cases (rtp.originator == originator && is_routable cfg tc rtp.dst)) [
          | inl both ↦
              All-map (λ p. (p.id == rtp.id) ≡ true → current version p ≡ true)
                (Due cfg originator tc version rtp.id) ps (λ p now at own fits. now at)
                (arrived (ground (arith, both)) (ground (arith, both)))
          | inr not_both ↦
              All-map (Agrees rtp) (Due cfg originator tc version rtp.id) ps
                (λ p agree at own fits.
                  let same_dst = (agree at).dst in
                  let same_originator : rtp.originator ≡ originator =
                    sym (agree at).originator ∙ own in
                  let fits' : is_routable cfg tc rtp.dst ≡ true =
                    subst (λ d. is_routable cfg tc d ≡ true) same_dst fits in
                  absurd (ground (arith, not_both, same_originator, fits')))
                agrees
        ]

    pub route_prefixes-Refreshed :
        (qs : List RtPath) (rib : Rib)
        → IsSynced fib rib k
        → All (λ q. All (Agrees q) rib.paths) qs
        → Refreshed fib heard k rib (route_prefixes cfg originator tc qs rib)
          × ((i : ℕ)
              → mem i (ids qs) ≡ true
              → All
                  (Due cfg originator tc rib.version i)
                  (route_prefixes cfg originator tc qs rib).paths)
    unfolding route_prefixes mem
    route_prefixes-Refreshed [] rib now agrees =
        (Refreshed-refl fib heard k rib now, λ i h. absurd (ground (arith, h)))
    route_prefixes-Refreshed (rtp ∷ more) rib now agrees =
        let rib1 = route_prefix cfg originator tc rtp rib in
        let (first, arrived) = route_prefix-Refreshed rtp rib now agrees.0 in
        let agrees1 : All (λ q. All (Agrees q) rib1.paths) more =
          All-map (λ q. All (Agrees q) rib.paths) (λ q. All (Agrees q) rib1.paths) more
            (λ q all. first.carried (Agrees q) (IsKept-Agrees rib.version heard q) all) agrees.1 in
        let (rest, due) = route_prefixes-Refreshed more rib1 first.synced agrees1 in
        let here : All (Due cfg originator tc rib.version rtp.id) rib1.paths =
          Due-here rib.version rtp rib1.paths
            (first.carried (Agrees rtp) (IsKept-Agrees rib.version heard rtp) agrees.0) arrived in
        (
          Refreshed-trans fib heard k rib rib1 (route_prefixes cfg originator tc more rib1) first
              rest,
          λ i h. elim (Bool-cases (mem i (ids more))) [
            | inl later ↦
                subst
                  (λ v.
                    All (Due cfg originator tc v i)
                      (route_prefixes cfg originator tc more rib1).paths)
                  first.version (due i later)
            | inr last ↦
                let at : rtp.id ≡ i = ground (arith, h, last) in
                subst
                  (λ j.
                    All (Due cfg originator tc rib.version j)
                      (route_prefixes cfg originator tc more rib1).paths)
                  at
                  (rest.carried (Due cfg originator tc rib.version rtp.id)
                    (subst (λ v. IsKept v heard (Due cfg originator tc rib.version rtp.id))
                      (sym first.version) (IsKept-Due rib.version rtp.id))
                    here)
          ],
        )
