-- ===== src/Link/Best.antt =====
-- `get_best_link_to_neighbor` finds a cheapest symmetric link.
use olsr.Prelude.{
  ℕ, ◌≤◌, ◌<◌, ◌≡◌, refl, ltb, ◌==◌, if_cases, true, not, ◌||◌, Option, none, some, List, [], ◌∷◌,
  ◌⊎◌, inl, inr, arith,
}
use olsr.Link.{
  LinkEntry, lookup_link_status, is_sym_link, best_link_loop, get_best_link_to_neighbor,
}
use olsr.Spf.{link_cost_broken}

abbrev pub LinkIn : LinkEntry → List LinkEntry → Type 0
LinkIn l [] = ⊥
LinkIn l (x ∷ xs) = (l ≡ x) ⊎ LinkIn l xs

-- A symmetric link to the neighbor.
abbrev pub IsSymTo : ℕ → ℕ → LinkEntry → Type 0
IsSymTo now nbr l = (l.neighbor ≡ nbr) × (is_sym_link (lookup_link_status now l) ≡ true)

-- The links `links`, of which none beats `bound`, or one that does not lose to any.
Outcome : ℕ → ℕ → List LinkEntry → ℕ → Option LinkEntry → Option LinkEntry → Type 0
Outcome now nbr links bound before result =
    ((result ≡ before)
      × ((l : LinkEntry) → LinkIn l links → IsSymTo now nbr l → bound ≤ l.linkcost))
    ⊎ ((best : LinkEntry) × (result ≡ some best)
        × LinkIn best links
        × IsSymTo now nbr best
        × (best.linkcost < bound)
        × ((l : LinkEntry) → LinkIn l links → IsSymTo now nbr l → best.linkcost ≤ l.linkcost))

-- A link that is not symmetric or not better changes nothing.
Outcome-keep :
    (now nbr : ℕ) (w : LinkEntry) (ws : List LinkEntry) (bound : ℕ)
    (before result : Option LinkEntry)
    → (IsSymTo now nbr w → bound ≤ w.linkcost)
    → Outcome now nbr ws bound before result
    → Outcome now nbr (w ∷ ws) bound before result
unfolding Outcome
Outcome-keep now nbr w ws bound before result worse (inl (same, all)) = inl (
  same,
  λ l h sym_l. elim h [ inl e ↦ rw e (worse (rw e at sym_l)) | inr later ↦ all l later sym_l ],
)
Outcome-keep now nbr w ws bound before result worse (inr (best, found, has, sym_b, low, all)) =
    inr (
      best,
      found,
      inr has,
      sym_b,
      low,
      λ l h sym_l. elim h [
        | inl e ↦ let above = worse (rw e at sym_l) in rw e (omega arith)
        | inr later ↦ all l later sym_l
      ],
    )

-- A better one takes the place of the best so far.
Outcome-take :
    (now nbr : ℕ) (w : LinkEntry) (ws : List LinkEntry) (bound : ℕ)
    (before result : Option LinkEntry)
    → IsSymTo now nbr w
    → w.linkcost < bound
    → Outcome now nbr ws w.linkcost (some w) result
    → Outcome now nbr (w ∷ ws) bound before result
unfolding Outcome
Outcome-take now nbr w ws bound before result sym_w better (inl (same, all)) = inr (
  w,
  same,
  inl refl,
  sym_w,
  better,
  λ l h sym_l. elim h [ inl e ↦ rw e (omega arith) | inr later ↦ all l later sym_l ],
)
Outcome-take now nbr w ws bound before result sym_w better
      (inr (best, found, has, sym_b, low, all)) =
    inr (
      best,
      found,
      inr has,
      sym_b,
      omega arith,
      λ l h sym_l. elim h [ inl e ↦ rw e (omega arith) | inr later ↦ all l later sym_l ],
    )

best_link_loop_lem :
    (now nbr : ℕ) (links : List LinkEntry) (bound : ℕ) (before : Option LinkEntry)
    → Outcome now nbr links bound before (best_link_loop now nbr links bound before)
unfolding best_link_loop Outcome
best_link_loop_lem now nbr [] bound before = inl (refl, λ l h. absurd h)
best_link_loop_lem now nbr (w ∷ ws) bound before =
    let same = best_link_loop_lem now nbr ws bound before in
    let better = best_link_loop_lem now nbr ws w.linkcost (some w) in
    if_cases (Outcome now nbr (w ∷ ws) bound before)
      (not (w.neighbor == nbr) || not (is_sym_link (lookup_link_status now w))) _ _
      (λ other. Outcome-keep now nbr w ws bound before _ (λ h. absurd (ground arith)) same)
      (λ fits.
        if_cases (Outcome now nbr (w ∷ ws) bound before) (ltb w.linkcost bound) _ _
          (λ low. Outcome-take now nbr w ws bound before _ (ground arith) (ground arith) better)
          (λ high. Outcome-keep now nbr w ws bound before _ (λ h. ground arith) same))

-- Either there is no result and no symmetric link to the neighbor has a cost below
-- `LINK_COST_BROKEN`, or the result is one of the links, a symmetric one to the neighbor, with a cost
-- below that and no higher than that of any symmetric link to the neighbor. An asymmetric link is
-- never the result.
pub get_best_link_to_neighbor_lem :
    (now : ℕ) (links : List LinkEntry) (nbr : ℕ)
    → ((get_best_link_to_neighbor now links nbr ≡ none)
        × ((l : LinkEntry) → LinkIn l links → IsSymTo now nbr l → link_cost_broken ≤ l.linkcost))
      ⊎ ((best : LinkEntry) × (get_best_link_to_neighbor now links nbr ≡ some best)
          × LinkIn best links
          × IsSymTo now nbr best
          × (best.linkcost < link_cost_broken)
          × ((l : LinkEntry) → LinkIn l links → IsSymTo now nbr l → best.linkcost ≤ l.linkcost))
unfolding get_best_link_to_neighbor Outcome
get_best_link_to_neighbor_lem now links nbr = best_link_loop_lem now nbr links link_cost_broken none
