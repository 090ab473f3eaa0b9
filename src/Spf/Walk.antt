-- ===== src/Spf/Walk.antt =====
-- The walks from this node over links that are not broken: the specification of the computation.
use olsr.Prelude.{ℕ, ◌+◌, ◌<◌, ◌≡◌, ◌⊎◌, List, [], ◌∷◌}
use olsr.Spf.{Edge, edge_cost, link_cost_broken}

abbrev pub Contains : Edge → List Edge → Type 0
Contains e [] = ⊥
Contains e (x ∷ xs) = (e ≡ x) ⊎ Contains e xs

abbrev pub Graph : Type 0
Graph = ℕ → List Edge

abbrev pub IsUsable : Graph → ℕ → Edge → Type 0
IsUsable edges u e = Contains e (edges u) × (edge_cost e < link_cost_broken)

-- `Walk edges myself v cost hops`: some walk leads to `v`, at this cost and with this many hops.
pub data Walk (edges : Graph) (myself : ℕ) : ℕ → ℕ → ℕ → Type 0 where
  here : {v cost hops : ℕ} → v ≡ myself → cost ≡ 0 → hops ≡ 0 → Walk edges myself v cost hops
  step :
      {u v cost cost' hops hops' : ℕ} (e : Edge)
      → Walk edges myself u cost hops
      → IsUsable edges u e
      → v ≡ e.dest
      → cost' ≡ cost + edge_cost e
      → hops' ≡ hops + 1
      → Walk edges myself v cost' hops'
