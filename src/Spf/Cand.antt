-- ===== src/Spf/Cand.antt =====
-- The candidates stay sorted by their cost.
use olsr.Prelude.{ℕ, ◌≤◌, ◌≡◌, refl, ◌==◌, true, false, ◌||◌, List, [], ◌∷◌, ◌++◌, All, arith}
use olsr.Spf.Nodes.{mem, remove, IsNodup}
use olsr.Spf.{insert_cand}

abbrev pub IsSorted : (ℕ → ℕ) → List ℕ → Type 0
IsSorted cost [] = Unit {0}
IsSorted cost (v ∷ vs) = All (λ w. cost v ≤ cost w) vs × IsSorted cost vs

module _ (cost : ℕ → ℕ) where
  pub mem-insert_cand :
      (v w : ℕ) (ws : List ℕ) → mem w (insert_cand cost v ws) ≡ (w == v || mem w ws)
  unfolding mem insert_cand
  mem-insert_cand v w [] = refl
  mem-insert_cand v w (x ∷ ws) = ground (arith, mem-insert_cand v w ws)

  pub insert_cand-IsNodup :
      (v : ℕ) (ws : List ℕ) → mem v ws ≡ false → IsNodup ws → IsNodup (insert_cand cost v ws)
  unfolding mem insert_cand
  insert_cand-IsNodup v [] h n = (refl, tt)
  insert_cand-IsNodup v (x ∷ ws) h n =
      ground (arith, insert_cand-IsNodup v ws, mem-insert_cand v x ws)

  All-le_trans :
      (a b : ℕ) (ws : List ℕ) → a ≤ b → All (λ w. b ≤ cost w) ws → All (λ w. a ≤ cost w) ws
  All-le_trans a b [] h l = tt
  All-le_trans a b (w ∷ ws) h l = (omega arith, All-le_trans a b ws h l.1)

  All-insert_cand :
      (a v : ℕ) (ws : List ℕ)
      → a ≤ cost v
      → All (λ w. a ≤ cost w) ws
      → All (λ w. a ≤ cost w) (insert_cand cost v ws)
  unfolding insert_cand
  All-insert_cand a v [] h l = (h, tt)
  All-insert_cand a v (w ∷ ws) h l = ground (arith, All-insert_cand a v ws h l.1)

  pub insert_cand-IsSorted :
      (v : ℕ) (ws : List ℕ) → IsSorted cost ws → IsSorted cost (insert_cand cost v ws)
  unfolding insert_cand
  insert_cand-IsSorted v [] s = (tt, tt)
  insert_cand-IsSorted v (w ∷ ws) s = ground (
    arith,
    insert_cand-IsSorted v ws s.1,
    All-insert_cand (cost w) v ws,
    All-le_trans (cost v) (cost w) ws,
  )

  All-remove :
      (a v : ℕ) (ws : List ℕ) → All (λ w. a ≤ cost w) ws → All (λ w. a ≤ cost w) (remove v ws)
  unfolding remove
  All-remove a v [] l = tt
  All-remove a v (w ∷ ws) l = ground (arith, All-remove a v ws l.1)

  pub remove-IsSorted : (v : ℕ) (ws : List ℕ) → IsSorted cost ws → IsSorted cost (remove v ws)
  unfolding remove
  remove-IsSorted v [] s = tt
  remove-IsSorted v (w ∷ ws) s = ground (arith, remove-IsSorted v ws s.1, All-remove (cost w) v ws)

  pub All-mem : (a w : ℕ) (ws : List ℕ) → All (λ w. a ≤ cost w) ws → mem w ws ≡ true → a ≤ cost w
  unfolding mem
  All-mem a w [] l h = cc
  All-mem a w (x ∷ ws) l h = ground (arith, All-mem a w ws l.1)

  All-append :
      (a v : ℕ) (ws : List ℕ)
      → All (λ w. a ≤ cost w) ws
      → a ≤ cost v
      → All (λ w. a ≤ cost w) (ws ++ v ∷ [])
  All-append a v [] l h = (h, tt)
  All-append a v (w ∷ ws) l h = (l.0, All-append a v ws l.1 h)

  pub IsSorted-append :
      (v : ℕ) (ws : List ℕ)
      → IsSorted cost ws
      → ((w : ℕ) → mem w ws ≡ true → cost w ≤ cost v)
      → IsSorted cost (ws ++ v ∷ [])
  unfolding mem
  IsSorted-append v [] s h = (tt, tt)
  IsSorted-append v (w ∷ ws) s h = (
    All-append (cost w) v ws s.0 (h w (ground arith)),
    IsSorted-append v ws s.1 (λ x m. h x (ground (arith, m))),
  )

  -- The best candidate stays in front of one that costs as much.
  pub insert_cand_behind :
      (v x : ℕ) (ws : List ℕ)
      → cost x ≤ cost v
      → insert_cand cost v (x ∷ ws) ≡ x ∷ insert_cand cost v ws
  unfolding insert_cand
  insert_cand_behind v x ws h = ground arith

All-agree :
    (a : ℕ) (cost cost' : ℕ → ℕ) (ws : List ℕ)
    → ((w : ℕ) → mem w ws ≡ true → cost' w ≡ cost w)
    → All (λ w. a ≤ cost w) ws
    → All (λ w. a ≤ cost' w) ws
unfolding mem
All-agree a cost cost' [] same l = tt
All-agree a cost cost' (w ∷ ws) same l = (
  omega (arith, same w (ground arith)),
  All-agree a cost cost' ws (λ x m. same x (ground (arith, m))) l.1,
)

-- Being sorted looks at the costs of the listed nodes only.
pub IsSorted-agree :
    (cost cost' : ℕ → ℕ) (ws : List ℕ)
    → ((w : ℕ) → mem w ws ≡ true → cost' w ≡ cost w)
    → IsSorted cost ws
    → IsSorted cost' ws
unfolding mem
IsSorted-agree cost cost' [] same s = tt
IsSorted-agree cost cost' (w ∷ ws) same s =
    let same' = λ (x : ℕ) (m : mem x ws ≡ true). same x (ground (arith, m)) in
    (
      rw (same w (ground arith)) (All-agree (cost w) cost cost' ws same' s.0),
      IsSorted-agree cost cost' ws same' s.1,
    )
