-- ===== src/Route/Kernel/Served.antt =====
-- The prefixes that have routes behind olsr_calculate_routing_table in src/olsr_spf.c.
use olsr.Prelude.{ℕ, ◌≡◌, ◌≢◌, true, ◌==◌, ==_refl, Option, none, some, arith, List, [], ◌∷◌, All}
use olsr.Route.{Nexthop, RtPath, RtConfig, Reached}
use olsr.Route.Kernel.Tree.{is_current}
use olsr.Route.Kernel.Update.{All-both}
use olsr.Route.Kernel.Round.{every}
use olsr.Route.Kernel.Synced.{IsRouted, All-map, All-own}
use olsr.Route.Kernel.Stores.{keys, All-keys}
use olsr.Route.Kernel.Refresh.{current}
use olsr.Route.Kernel.Walk.{is_routable, Arrived}

-- The prefixes of a vertex have routes.
abbrev pub Served : RtConfig → (ℕ → Option Nexthop) → List RtPath → ℕ × Option Reached → Type 0
Served cfg route ps (originator, none) = Unit {0}
Served cfg route ps (originator, some tc) =
    All (λ p. p.originator ≡ originator → is_routable cfg tc p.dst ≡ true → route p.dst ≢ none) ps

module _ (cfg : RtConfig) (start : Option ℕ) where
  -- Where the routes are those of best current paths, a current path has a route.
  current-routed :
      (version : ℕ) (ps : List RtPath) (route : ℕ → Option Nexthop)
      → ((dst : ℕ) → IsRouted cfg version start dst ps (route dst))
      → All (λ p. current version p ≡ true → route p.dst ≢ none) ps
  current-routed version ps route routed =
      All-map (λ p. (p.dst == p.dst) ≡ true → current version p ≡ true → route p.dst ≢ none)
        (λ p. current version p ≡ true → route p.dst ≢ none) ps
        (λ p holds now. holds (==_refl p.dst) now)
        (All-own (λ dst p. (p.dst == dst) ≡ true → current version p ≡ true → route dst ≢ none)
          (λ p. p.dst) ps
          (λ dst. elim (routed dst) [
            | IsRouted.unreachable none_to empty ↦
                All-map (λ p. is_current version dst p ≡ true → ⊥)
                  (λ p. (p.dst == dst) ≡ true → current version p ≡ true → route dst ≢ none) ps
                  (λ p never at now. absurd (never (ground (arith, at, now)))) empty
            | IsRouted.reachable b to best ↦ every (λ p at now h. absurd (ground (arith, to, h))) ps
          ]))

  pub Arrived-Served :
      (version : ℕ) (ps : List RtPath) (route : ℕ → Option Nexthop)
      → ((dst : ℕ) → IsRouted cfg version start dst ps (route dst))
      → (reached : List (ℕ × Option Reached)) → All (Arrived cfg version ps) reached
      → All (Served cfg route ps) reached
  Arrived-Served version ps route routed [] all = tt
  Arrived-Served version ps route routed ((originator, none) ∷ more) all =
      (tt, Arrived-Served version ps route routed more all.1)
  Arrived-Served version ps route routed ((originator, some tc) ∷ more) all = (
    All-both
        (λ p.
          p.originator ≡ originator → is_routable cfg tc p.dst ≡ true → current version p ≡ true)
        (λ p. current version p ≡ true → route p.dst ≢ none)
        (λ p. p.originator ≡ originator → is_routable cfg tc p.dst ≡ true → route p.dst ≢ none) ps
        (λ p arrives routed own fits. routed (arrives own fits)) all.0
        (current-routed version ps route routed),
    Arrived-Served version ps route routed more all.1,
  )

  pub Served-keys :
      (route : ℕ → Option Nexthop) (ps qs : List RtPath)
      → keys ps ≡ keys qs
      → (reached : List (ℕ × Option Reached)) → All (Served cfg route ps) reached
      → All (Served cfg route qs) reached
  Served-keys route ps qs same [] all = tt
  Served-keys route ps qs same ((originator, none) ∷ more) all =
      (tt, Served-keys route ps qs same more all.1)
  Served-keys route ps qs same ((originator, some tc) ∷ more) all = (
    All-keys (λ a. a.1 ≡ originator → is_routable cfg tc a.2 ≡ true → route a.2 ≢ none) ps qs same
        all.0,
    Served-keys route ps qs same more all.1,
  )
