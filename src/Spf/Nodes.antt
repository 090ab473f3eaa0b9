-- ===== src/Spf/Nodes.antt =====
-- Lists of nodes without repetition, and maps from nodes.
use olsr.Prelude.{
  ℕ, suc, ◌≤◌, ◌≡◌, refl, ◌==◌, if◌then◌else◌, Bool, true, false, not, ◌&&◌, ◌||◌, List, [], ◌∷◌,
  ◌++◌, arith, length,
}

unfoldable pub mem : ℕ → List ℕ → Bool
mem v [] = false
mem v (w ∷ ws) = v == w || mem v ws

-- Takes out the first occurrence.
unfoldable pub remove : ℕ → List ℕ → List ℕ
remove v [] = []
remove v (w ∷ ws) = if v == w then ws else w ∷ remove v ws

abbrev pub update {ℓ} : {A : Type ℓ} → ℕ → A → (ℕ → A) → ℕ → A
update v a f w = if w == v then a else f w

abbrev pub IsNodup : List ℕ → Type 0
IsNodup [] = Unit {0}
IsNodup (v ∷ vs) = (mem v vs ≡ false) × IsNodup vs

pub mem-remove :
    (v w : ℕ) (ws : List ℕ) → IsNodup ws → mem w (remove v ws) ≡ (mem w ws && not (w == v))
unfolding mem remove
mem-remove v w [] n = refl
mem-remove v w (x ∷ ws) n = ground (arith, mem-remove v w ws n.1)

pub remove-IsNodup : (v : ℕ) (ws : List ℕ) → IsNodup ws → IsNodup (remove v ws)
unfolding remove
remove-IsNodup v [] n = tt
remove-IsNodup v (x ∷ ws) n = ground (arith, remove-IsNodup v ws n.1, mem-remove v x ws n.1)

pub remove_absent : (v : ℕ) (ws : List ℕ) → mem v ws ≡ false → remove v ws ≡ ws
unfolding mem remove
remove_absent v [] h = refl
remove_absent v (x ∷ ws) h = ground (arith, remove_absent v ws)

pub mem-append : (w : ℕ) (vs ws : List ℕ) → mem w (vs ++ ws) ≡ (mem w vs || mem w ws)
unfolding mem
mem-append w [] ws = refl
mem-append w (v ∷ vs) ws = ground (arith, mem-append w vs ws)

pub mem_one : (w v : ℕ) → mem w (v ∷ []) ≡ (w == v)
unfolding mem
mem_one w v = ground arith

pub IsNodup-concat : (vs : List ℕ) (v : ℕ) → IsNodup vs → mem v vs ≡ false → IsNodup (vs ++ v ∷ [])
unfolding mem
IsNodup-concat [] v n h = (refl, tt)
IsNodup-concat (w ∷ vs) v n h =
    ground (arith, IsNodup-concat vs v n.1, mem-append w vs (v ∷ []), mem_one w v)

pub length-remove : (v : ℕ) (ws : List ℕ) → mem v ws ≡ true → suc (length (remove v ws)) ≡ length ws
unfolding mem remove
length-remove v [] h = cc
length-remove v (w ∷ ws) h = ground (arith, length-remove v ws)

mem-remove_ne :
    (v w : ℕ) (ws : List ℕ) → (w == v) ≡ false → mem w ws ≡ true → mem w (remove v ws) ≡ true
unfolding mem remove
mem-remove_ne v w [] n h = cc
mem-remove_ne v w (x ∷ ws) n h = ground (arith, mem-remove_ne v w ws n)

-- A list without repetition is no longer than one that holds all its nodes.
pub length-le :
    (vs ws : List ℕ)
    → IsNodup vs
    → ((v : ℕ) → mem v vs ≡ true → mem v ws ≡ true)
    → length vs ≤ length ws
unfolding mem
length-le [] ws n h = omega arith
length-le (v ∷ vs) ws n h =
    let here : mem v ws ≡ true = h v (ground arith) in
    let rest : length vs ≤ length (remove v ws) =
      length-le vs (remove v ws) n.1
        λ w m. mem-remove_ne v w ws (ground (arith, m, n.0)) (h w (ground (arith, m))) in
    omega (arith, length-remove v ws here, rest)
