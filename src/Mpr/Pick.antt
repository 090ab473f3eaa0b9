-- ===== src/Mpr/Pick.antt =====
-- The search for the best neighbor that has not been selected yet.
use olsr.Prelude.{
  ℕ, ◌≤◌, ◌<◌, ◌≡◌, refl, ltb, if_cases, true, ◌&&◌, Option, some, List, [], ◌∷◌, ◌⊎◌, inl, inr,
  arith,
}
use olsr.Mpr.{Table, NbrCon, is_eligible, pick}

abbrev pub ConIn : NbrCon → List NbrCon → Type 0
ConIn c [] = ⊥
ConIn c (x ∷ xs) = (c ≡ x) ⊎ ConIn c xs

-- What the search finds: nothing that beats the bound, or a connector that loses to no other.
unfoldable pub Picked : Table → List NbrCon → ℕ → Option ℕ → Option ℕ → Type 0
Picked nbr con bound before result =
    ((result ≡ before)
      × ((c : NbrCon) → ConIn c con → is_eligible nbr c ≡ true → bound ≤ c.path_linkcost))
    ⊎ ((best : NbrCon) × (result ≡ some best.nbr)
        × ConIn best con
        × (is_eligible nbr best ≡ true)
        × (best.path_linkcost < bound)
        × ((c : NbrCon)
            → ConIn c con
            → is_eligible nbr c ≡ true
            → best.path_linkcost ≤ c.path_linkcost))

Picked-keep :
    (nbr : Table) (w : NbrCon) (ws : List NbrCon) (bound : ℕ) (before result : Option ℕ)
    → (is_eligible nbr w ≡ true → bound ≤ w.path_linkcost)
    → Picked nbr ws bound before result
    → Picked nbr (w ∷ ws) bound before result
unfolding Picked
Picked-keep nbr w ws bound before result worse (inl (same, all)) = inl (
  same,
  λ c h e. elim h [ inl at_w ↦ rw at_w (worse (rw at_w at e)) | inr later ↦ all c later e ],
)
Picked-keep nbr w ws bound before result worse (inr (best, found, has, eligible, low, all)) = inr (
  best,
  found,
  inr has,
  eligible,
  low,
  λ c h e. elim h [
    | inl at_w ↦ let above = worse (rw at_w at e) in rw at_w (omega arith)
    | inr later ↦ all c later e
  ],
)

Picked-take :
    (nbr : Table) (w : NbrCon) (ws : List NbrCon) (bound : ℕ) (before result : Option ℕ)
    → is_eligible nbr w ≡ true
    → w.path_linkcost < bound
    → Picked nbr ws w.path_linkcost (some w.nbr) result
    → Picked nbr (w ∷ ws) bound before result
unfolding Picked
Picked-take nbr w ws bound before result eligible_w better (inl (same, all)) = inr (
  w,
  same,
  inl refl,
  eligible_w,
  better,
  λ c h e. elim h [ inl at_w ↦ rw at_w (omega arith) | inr later ↦ all c later e ],
)
Picked-take nbr w ws bound before result eligible_w better
      (inr (best, found, has, eligible, low, all)) =
    inr (
      best,
      found,
      inr has,
      eligible,
      omega arith,
      λ c h e. elim h [ inl at_w ↦ rw at_w (omega arith) | inr later ↦ all c later e ],
    )

pub pick-Picked :
    (nbr : Table) (con : List NbrCon) (before : Option ℕ) (bound : ℕ)
    → Picked nbr con bound before (pick nbr con before bound)
unfolding pick Picked
pick-Picked nbr [] before bound = inl (refl, λ c h. absurd h)
pick-Picked nbr (w ∷ ws) before bound =
    if_cases (Picked nbr (w ∷ ws) bound before) (is_eligible nbr w && ltb w.path_linkcost bound) _ _
      (λ better.
        Picked-take nbr w ws bound before _ (ground arith) (ground arith)
          (pick-Picked nbr ws (some w.nbr) w.path_linkcost))
      (λ worse.
        Picked-keep nbr w ws bound before _ (λ e. ground arith) (pick-Picked nbr ws before bound))
