-- ===== src/TcSet/Delete.antt =====
-- `olsr_delete_tc_edge_entry` of src/tc_set.c.
use olsr.Prelude.{
  ℕ, ◌≡◌, inl, inr, refl, sym, subst, true, ◌&&◌, ◌||◌, ◌==◌, if◌then◌else◌, Option, none, some,
  arith, Bool-cases,
}
use olsr.Spf.Nodes.{IsNodup}
use olsr.TcSet.{
  TcEdge, TcSet, remove_edge, on_edges, lookup_tc_edge, set_virtual, internal_delete, is_held,
  delete_tc_edge_entry,
}
use olsr.TcSet.Edges.{dests, remove_edge-IsNodup}
use olsr.TcSet.Valid.{
  IsTcSet, changes_topology-IsTcSet, lookup_tc_edge-update_edge, lookup_tc_edge-remove_edge,
  on_edges-IsNodup, update_edge-IsTcSet, lookup_tc_edge-distinct,
}

-- An edge after another one is marked virtual.
abbrev pub marked : ℕ → ℕ → ℕ → ℕ → Option TcEdge → Option TcEdge
marked tc dest a b none = none
marked tc dest a b (some e) = some (if a == tc && dest == b then record e { virtual = true } else e)

pub lookup_tc_edge-set_virtual :
    (tc dest : ℕ) (db : TcSet) (a b : ℕ)
    → lookup_tc_edge (set_virtual tc dest db) a b ≡ marked tc dest a b (lookup_tc_edge db a b)
unfolding set_virtual
lookup_tc_edge-set_virtual tc dest db a b = ground (
  arith,
  lookup_tc_edge-update_edge tc dest (λ e. record e { virtual = true }) db a b (λ e. refl),
)

set_virtual-IsTcSet :
    (tc dest : ℕ) (f : TcEdge) (db : TcSet)
    → IsTcSet db
    → lookup_tc_edge db dest tc ≡ some f
    → is_held f ≡ true
    → IsTcSet (set_virtual tc dest db)
unfolding set_virtual
set_virtual-IsTcSet tc dest f db v inv held =
    update_edge-IsTcSet tc dest (λ e. record e { virtual = true }) db v (λ e. refl) (λ e h. h)
      (λ x y there back.
        let same : y ≡ f = ground (arith, back, inv) in
        let up = subst (λ z. is_held z ≡ true) (sym same) held in ground (arith, up))

-- The two edges of a pair are gone, and all others are there.
abbrev pub without : ℕ → ℕ → ℕ → ℕ → Option TcEdge → Option TcEdge
without tc dest a b e = if a == tc && dest == b || a == dest && tc == b then none else e

abbrev split : ℕ → ℕ → TcSet → TcSet
split tc dest db = on_edges dest (remove_edge tc) (on_edges tc (remove_edge dest) db)

split-IsNodup :
    (tc dest : ℕ) (db : TcSet) (a : ℕ)
    → IsTcSet db
    → IsNodup (dests ((on_edges tc (remove_edge dest) db).edge_tree a))
split-IsNodup tc dest db a v =
    on_edges-IsNodup tc (remove_edge dest) db a
      (λ es eq. remove_edge-IsNodup dest es (rw eq (v.unique tc))) (v.unique a)

lookup_tc_edge-split :
    (tc dest : ℕ) (db : TcSet) (a b : ℕ)
    → IsTcSet db
    → lookup_tc_edge (split tc dest db) a b ≡ without tc dest a b (lookup_tc_edge db a b)
lookup_tc_edge-split tc dest db a b v = ground (
  arith,
  lookup_tc_edge-remove_edge dest tc (on_edges tc (remove_edge dest) db) a b
      (split-IsNodup tc dest db a v),
  lookup_tc_edge-remove_edge tc dest db a b (v.unique a),
)

split-IsTcSet : (tc dest : ℕ) (db : TcSet) → IsTcSet db → IsTcSet (split tc dest db)
unfolding on_edges
split-IsTcSet tc dest db v =
    let look = λ (a b : ℕ). lookup_tc_edge-split tc dest db a b v in
    record {
      unique = λ a.
          on_edges-IsNodup dest (remove_edge tc) (on_edges tc (remove_edge dest) db) a
            (λ es eq. remove_edge-IsNodup tc es (rw eq (split-IsNodup tc dest db dest v)))
            (split-IsNodup tc dest db a v);
      paired = λ a b e h.
          let there : lookup_tc_edge db a b ≡ some e = ground (arith, look a b, h) in
          let (inverse, f, back, either) = v.paired a b e there in
          (inverse, f, ground (arith, look a b, look b a, h, back), either);
      loopless = λ a. ground (arith, look a a, v.loopless a);
      owned = λ a b e h. v.owned a b e (ground (arith, look a b, h));
    }

-- What deleting an edge gives: while the inverse edge is real or belongs to a neighbor, the edge
-- is marked virtual; otherwise both edges are gone. All other edges stay, and so does the invariant.
abbrev pub Deleted : ℕ → ℕ → TcEdge → TcSet → TcSet → Type 0
Deleted tc dest f db db' =
    ((a b : ℕ)
      → lookup_tc_edge db' a b ≡ (
          if is_held f
          then marked tc dest a b (lookup_tc_edge db a b)
          else without tc dest a b (lookup_tc_edge db a b)))
    × IsTcSet db'
    × ((a : ℕ) → db'.tc_tree a ≡ db.tc_tree a)

internal_delete_both :
    (tc dest : ℕ) (e f : TcEdge) (db : TcSet)
    → IsTcSet db
    → lookup_tc_edge db tc dest ≡ some e
    → lookup_tc_edge db dest tc ≡ some f
    → (elim (internal_delete tc dest db) [ none ↦ none | some one ↦ internal_delete dest tc one ])
      ≡ some (split tc dest db)
unfolding internal_delete
internal_delete_both tc dest e f db v there back =
    let apart = lookup_tc_edge-distinct db tc dest e v there in
    let next : lookup_tc_edge (on_edges tc (remove_edge dest) db) dest tc ≡ some f =
      ground (arith, lookup_tc_edge-remove_edge tc dest db dest tc (v.unique dest), apart, back) in
    rw (there, next, internal_delete) refl

-- Deleting an edge of a valid database always goes through: while the inverse edge is real or
-- belongs to a neighbor, the edge stays as a virtual one, and otherwise both edges are gone; all
-- other edges and the vertices stay as they are, and the database stays valid.
pub delete_tc_edge_entry_lem :
    (tc dest : ℕ) (e : TcEdge) (db : TcSet)
    → IsTcSet db
    → lookup_tc_edge db tc dest ≡ some e
    → (db' : TcSet) × (f : TcEdge) × (delete_tc_edge_entry tc dest db ≡ some db')
      × (lookup_tc_edge db dest tc ≡ some f)
      × Deleted tc dest f db db'
unfolding delete_tc_edge_entry set_virtual on_edges lookup_tc_edge
delete_tc_edge_entry_lem tc dest e db v there =
    let (linked, f, back, either) = v.paired tc dest e there in
    elim (Bool-cases (is_held f)) [
      | inl held ↦ (
        set_virtual tc dest db,
        f,
        rw (there, linked, back, held, delete_tc_edge_entry) refl,
        back,
        (
          (λ a b. rw held (lookup_tc_edge-set_virtual tc dest db a b)),
          set_virtual-IsTcSet tc dest f db v back held,
          (λ a. refl),
        ),
      )
      | inr loose ↦
          let flagged : TcSet = record db { changes_topology = true } in
          let v' = changes_topology-IsTcSet true db v in
          (
            split tc dest flagged,
            f,
            rw (there, linked, back, loose, delete_tc_edge_entry)
                (internal_delete_both tc dest e f flagged v' there back),
            back,
            (
              (λ a b. rw loose (lookup_tc_edge-split tc dest flagged a b v')),
              split-IsTcSet tc dest flagged v',
              (λ a. refl),
            ),
          )
    ]
