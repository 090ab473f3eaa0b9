-- ===== src/Nbr/Connectors.antt =====
-- Lists of connectors under the changes of the neighbor table.
use olsr.Prelude.{ℕ, ◌≡◌, refl, ◌==◌, true, false, not, ◌&&◌, ◌||◌, none, List, [], ◌∷◌, arith}
use olsr.Spf.Nodes.{mem, IsNodup}
use olsr.Timer.{Env}
use olsr.Nbr.{Connector, lookup_con, has_con, insert_nbr2, delete_con, delete_all_con, renew_con}

-- No two connectors join the same neighbors.
abbrev pub IsUnique : List Connector → Type 0
IsUnique [] = Unit {0}
IsUnique (c ∷ cs) = (lookup_con cs c.nbr c.nbr2 ≡ none) × IsUnique cs

pub mem-insert_nbr2 : (v w : ℕ) (ws : List ℕ) → mem w (insert_nbr2 v ws) ≡ (w == v || mem w ws)
unfolding mem insert_nbr2
mem-insert_nbr2 v w [] = refl
mem-insert_nbr2 v w (x ∷ ws) = ground (arith, mem-insert_nbr2 v w ws)

pub insert_nbr2-IsNodup :
    (v : ℕ) (ws : List ℕ) → mem v ws ≡ false → IsNodup ws → IsNodup (insert_nbr2 v ws)
unfolding mem insert_nbr2
insert_nbr2-IsNodup v [] h n = (refl, tt)
insert_nbr2-IsNodup v (x ∷ ws) h n =
    ground (arith, insert_nbr2-IsNodup v ws, mem-insert_nbr2 v x ws)

pub lookup_con-delete_con :
    (nbr nbr2 a b : ℕ) (cs : List Connector)
    → lookup_con cs a b ≡ none
    → lookup_con (delete_con nbr nbr2 cs) a b ≡ none
unfolding lookup_con delete_con
lookup_con-delete_con nbr nbr2 a b [] h = refl
lookup_con-delete_con nbr nbr2 a b (c ∷ cs) h =
    ground (arith, lookup_con-delete_con nbr nbr2 a b cs)

pub delete_con-IsUnique :
    (nbr nbr2 : ℕ) (cs : List Connector) → IsUnique cs → IsUnique (delete_con nbr nbr2 cs)
unfolding delete_con
delete_con-IsUnique nbr nbr2 [] u = tt
delete_con-IsUnique nbr nbr2 (c ∷ cs) u =
    ground
      (arith, delete_con-IsUnique nbr nbr2 cs u.1, lookup_con-delete_con nbr nbr2 c.nbr c.nbr2 cs)

pub has_con-delete_con :
    (nbr nbr2 n : ℕ) (cs : List Connector)
    → (n == nbr2) ≡ false
    → has_con n (delete_con nbr nbr2 cs) ≡ has_con n cs
unfolding has_con delete_con
has_con-delete_con nbr nbr2 n [] other = refl
has_con-delete_con nbr nbr2 n (c ∷ cs) other = ground (arith, has_con-delete_con nbr nbr2 n cs)

pub has_con-delete_con_mono :
    (nbr nbr2 n : ℕ) (cs : List Connector)
    → has_con n (delete_con nbr nbr2 cs) ≡ true
    → has_con n cs ≡ true
unfolding has_con delete_con
has_con-delete_con_mono nbr nbr2 n [] h = h
has_con-delete_con_mono nbr nbr2 n (c ∷ cs) h =
    ground (arith, has_con-delete_con_mono nbr nbr2 n cs)

pub lookup_con-delete_all_con :
    (nbr2 a b : ℕ) (cs : List Connector)
    → lookup_con cs a b ≡ none
    → lookup_con (delete_all_con nbr2 cs) a b ≡ none
unfolding lookup_con delete_all_con
lookup_con-delete_all_con nbr2 a b [] h = refl
lookup_con-delete_all_con nbr2 a b (c ∷ cs) h =
    ground (arith, lookup_con-delete_all_con nbr2 a b cs)

pub delete_all_con-IsUnique :
    (nbr2 : ℕ) (cs : List Connector) → IsUnique cs → IsUnique (delete_all_con nbr2 cs)
unfolding delete_all_con
delete_all_con-IsUnique nbr2 [] u = tt
delete_all_con-IsUnique nbr2 (c ∷ cs) u =
    ground
      (arith, delete_all_con-IsUnique nbr2 cs u.1, lookup_con-delete_all_con nbr2 c.nbr c.nbr2 cs)

pub has_con-delete_all_con :
    (nbr2 n : ℕ) (cs : List Connector)
    → has_con n (delete_all_con nbr2 cs) ≡ (not (n == nbr2) && has_con n cs)
unfolding has_con delete_all_con
has_con-delete_all_con nbr2 n [] = ground arith
has_con-delete_all_con nbr2 n (c ∷ cs) = ground (arith, has_con-delete_all_con nbr2 n cs)

pub lookup_con-renew_con :
    (env : Env) (vtime nbr nbr2 a b : ℕ) (cs : List Connector)
    → lookup_con cs a b ≡ none
    → lookup_con (renew_con env vtime nbr nbr2 cs) a b ≡ none
unfolding lookup_con renew_con
lookup_con-renew_con env vtime nbr nbr2 a b [] h = refl
lookup_con-renew_con env vtime nbr nbr2 a b (c ∷ cs) h =
    ground (arith, lookup_con-renew_con env vtime nbr nbr2 a b cs)

pub renew_con-IsUnique :
    (env : Env) (vtime nbr nbr2 : ℕ) (cs : List Connector)
    → IsUnique cs
    → IsUnique (renew_con env vtime nbr nbr2 cs)
unfolding renew_con
renew_con-IsUnique env vtime nbr nbr2 [] u = tt
renew_con-IsUnique env vtime nbr nbr2 (c ∷ cs) u = ground (
  arith,
  renew_con-IsUnique env vtime nbr nbr2 cs u.1,
  lookup_con-renew_con env vtime nbr nbr2 c.nbr c.nbr2 cs,
)

pub has_con-renew_con :
    (env : Env) (vtime nbr nbr2 n : ℕ) (cs : List Connector)
    → has_con n (renew_con env vtime nbr nbr2 cs) ≡ has_con n cs
unfolding has_con renew_con
has_con-renew_con env vtime nbr nbr2 n [] = refl
has_con-renew_con env vtime nbr nbr2 n (c ∷ cs) =
    ground (arith, has_con-renew_con env vtime nbr nbr2 n cs)
