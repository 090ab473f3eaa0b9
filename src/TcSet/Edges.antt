-- ===== src/TcSet/Edges.antt =====
-- Lookups in an edge tree of src/tc_set.c after each change of it.
use olsr.Prelude.{ℕ, ◌≡◌, refl, false, ◌==◌, if◌then◌else◌, List, [], ◌∷◌, map, none, some, arith}
use olsr.Spf.Nodes.{mem, IsNodup}
use olsr.TcSet.{TcEdge, lookup_edge, insert_edge, remove_edge, update_edge}

abbrev pub dests : List TcEdge → List ℕ
dests es = map (λ e. e.dest) es

pub lookup_edge-mem :
    (d : ℕ) (es : List TcEdge) → lookup_edge d es ≡ none → mem d (dests es) ≡ false
unfolding lookup_edge mem
lookup_edge-mem d [] h = refl
lookup_edge-mem d (e ∷ es) h = ground (arith, lookup_edge-mem d es)

pub mem-lookup_edge :
    (d : ℕ) (es : List TcEdge) → mem d (dests es) ≡ false → lookup_edge d es ≡ none
unfolding lookup_edge mem
mem-lookup_edge d [] h = refl
mem-lookup_edge d (e ∷ es) h = ground (arith, mem-lookup_edge d es)

pub lookup_edge-dest :
    (d : ℕ) (es : List TcEdge) (e : TcEdge) → lookup_edge d es ≡ some e → e.dest ≡ d
unfolding lookup_edge
lookup_edge-dest d [] e h = cc
lookup_edge-dest d (x ∷ xs) e h = ground (arith, lookup_edge-dest d xs e)

pub lookup_edge-insert_edge :
    (d : ℕ) (new : TcEdge) (es : List TcEdge)
    → lookup_edge new.dest es ≡ none
    → lookup_edge d (insert_edge new es) ≡ (if new.dest == d then some new else lookup_edge d es)
unfolding lookup_edge insert_edge
lookup_edge-insert_edge d new [] h = refl
lookup_edge-insert_edge d new (e ∷ es) h = ground (arith, lookup_edge-insert_edge d new es)

pub lookup_edge-remove_edge :
    (d dest : ℕ) (es : List TcEdge)
    → IsNodup (dests es)
    → lookup_edge d (remove_edge dest es) ≡ (if dest == d then none else lookup_edge d es)
unfolding lookup_edge remove_edge
lookup_edge-remove_edge d dest [] n = ground arith
lookup_edge-remove_edge d dest (e ∷ es) n =
    ground (arith, lookup_edge-remove_edge d dest es n.1, mem-lookup_edge e.dest es n.0)

pub lookup_edge-update_edge :
    (d dest : ℕ) (write : TcEdge → TcEdge) (es : List TcEdge)
    → ((e : TcEdge) → (write e).dest ≡ e.dest)
    → lookup_edge d (update_edge dest write es)
      ≡ (elim (lookup_edge d es) [ none ↦ none | some e ↦ some (if dest == d then write e else e) ])
unfolding lookup_edge update_edge
lookup_edge-update_edge d dest write [] same = refl
lookup_edge-update_edge d dest write (e ∷ es) same =
    ground (arith, lookup_edge-update_edge d dest write es same, same e)

mem-insert_edge :
    (d : ℕ) (new : TcEdge) (es : List TcEdge)
    → mem d (dests es) ≡ false
    → (d == new.dest) ≡ false
    → mem d (dests (insert_edge new es)) ≡ false
unfolding mem insert_edge
mem-insert_edge d new [] h other = ground (arith, other)
mem-insert_edge d new (e ∷ es) h other = ground (arith, mem-insert_edge d new es, other)

pub insert_edge-IsNodup :
    (new : TcEdge) (es : List TcEdge)
    → mem new.dest (dests es) ≡ false
    → IsNodup (dests es)
    → IsNodup (dests (insert_edge new es))
unfolding mem insert_edge
insert_edge-IsNodup new [] h n = (refl, tt)
insert_edge-IsNodup new (e ∷ es) h n =
    ground (arith, insert_edge-IsNodup new es, mem-insert_edge e.dest new es n.0)

mem-remove_edge :
    (d dest : ℕ) (es : List TcEdge)
    → mem d (dests es) ≡ false
    → mem d (dests (remove_edge dest es)) ≡ false
unfolding mem remove_edge
mem-remove_edge d dest [] h = refl
mem-remove_edge d dest (e ∷ es) h = ground (arith, mem-remove_edge d dest es)

pub remove_edge-IsNodup :
    (dest : ℕ) (es : List TcEdge) → IsNodup (dests es) → IsNodup (dests (remove_edge dest es))
unfolding mem remove_edge
remove_edge-IsNodup dest [] n = tt
remove_edge-IsNodup dest (e ∷ es) n =
    ground (arith, remove_edge-IsNodup dest es n.1, mem-remove_edge e.dest dest es n.0)

pub dests-update_edge :
    (dest : ℕ) (write : TcEdge → TcEdge) (es : List TcEdge)
    → ((e : TcEdge) → (write e).dest ≡ e.dest)
    → dests (update_edge dest write es) ≡ dests es
unfolding update_edge
dests-update_edge dest write [] same = refl
dests-update_edge dest write (e ∷ es) same =
    ground (arith, dests-update_edge dest write es same, same e)
