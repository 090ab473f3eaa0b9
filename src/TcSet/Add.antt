-- ===== src/TcSet/Add.antt =====
-- `olsr_add_tc_edge_entry` of src/tc_set.c, which also makes the inverse edge.
use olsr.Prelude.{
  ℕ, ◌≡◌, ◌≢◌, inl, inr, refl, sym, subst, ==_iff, true, false, ◌&&◌, ◌==◌, if◌then◌else◌, if_cases,
  List, [], none, some, arith, Bool-cases, Option-cases,
}
use olsr.Spf.Nodes.{IsNodup}
use olsr.TcSet.{
  TcEdge, TcSet, lookup_edge, insert_edge, update_edge, on_edges, lookup_tc_edge, new_entry,
  add_tc_entry, locate_tc_entry, connect, is_some,
}
use olsr.TcSet.Edges.{dests, lookup_edge-mem, insert_edge-IsNodup}
use olsr.TcSet.Valid.{lookup_tc_edge-update_edge, on_edges-IsNodup}

-- A database whose edges are unique, and whose edges hang off vertices.
abbrev pub IsTidy : TcSet → Type 0
IsTidy db =
    ((a : ℕ) → IsNodup (dests (db.edge_tree a)))
    × ((a : ℕ) → db.tc_tree a ≡ none → db.edge_tree a ≡ [])

abbrev pub insert : ℕ → TcEdge → TcSet → TcSet
insert tc new db = on_edges tc (insert_edge new) db

pub insert-IsTidy :
    (tc : ℕ) (new : TcEdge) (db : TcSet)
    → IsTidy db
    → is_some (db.tc_tree tc) ≡ true
    → lookup_tc_edge db tc new.dest ≡ none
    → IsTidy (insert tc new db)
unfolding lookup_tc_edge on_edges is_some
insert-IsTidy tc new db v there absent = (
  (λ a.
      on_edges-IsNodup tc (insert_edge new) db a
        (λ es eq. rw eq (
          insert_edge-IsNodup new (db.edge_tree tc)
            (lookup_edge-mem new.dest (db.edge_tree tc) absent) (v.0 tc)))
        (v.0 a)),
  (λ a h. elim (Bool-cases (a == tc)) [
    | inl same ↦
        absurd (ground (arith, subst (λ x. db.tc_tree x ≡ none) ((==_iff a tc).0 same) h, there))
    | inr other ↦ rw other (v.1 a h)
  ]),
)

-- The vertex that an edge leads to is there afterwards, and no edge has changed.
pub locate_tc_entry_lem :
    (router_id adr : ℕ) (db : TcSet)
    → IsTidy db
    → router_id ≢ 0
    → (db' : TcSet) × (locate_tc_entry router_id adr db ≡ some db')
      × IsTidy db'
      × ((a b : ℕ) → lookup_tc_edge db' a b ≡ lookup_tc_edge db a b)
      × (is_some (db'.tc_tree adr) ≡ true)
      × ((a : ℕ) → is_some (db.tc_tree a) ≡ true → is_some (db'.tc_tree a) ≡ true)
unfolding locate_tc_entry add_tc_entry is_some lookup_tc_edge
locate_tc_entry_lem router_id adr db v id = elim (Option-cases (db.tc_tree adr)) [
  | inr (t, there) ↦
      (db, rw (there, locate_tc_entry) refl, v, (λ a b. refl), ground (arith, there), (λ a h. h))
  | inl absent ↦
      let grown : TcSet = record db {
        tc_tree = λ a. if a == adr then some new_entry else db.tc_tree a;
        edge_tree = λ a. if a == adr then [] else db.edge_tree a;
      } in
      (
        grown,
        ground (arith, absent, id),
        (
          (λ a.
              if_cases (λ (es : List TcEdge). IsNodup (dests es)) (a == adr) [] (db.edge_tree a)
                (λ same. tt) (λ other. v.0 a)),
          (λ a h. ground (arith, h, v.1 a)),
        ),
        (λ a b.
            if_cases (λ (es : List TcEdge). lookup_edge b es ≡ lookup_edge b (db.edge_tree a))
              (a == adr) [] (db.edge_tree a)
              (λ same.
                rw (v.1 a (subst (λ x. db.tc_tree x ≡ none) (sym ((==_iff a adr).0 same)) absent))
                  refl)
              (λ other. refl)),
        ground arith,
        (λ a h. ground (arith, h)),
      )
]

abbrev pub linked : TcEdge → TcEdge
linked e = record e { inverse = true }

abbrev pub real : (TcEdge → ℕ) → TcEdge → TcEdge
real calc e =
    let up : TcEdge = record e { inverse = true; virtual = false } in record up { cost = calc up }

pub lookup_tc_edge-connect :
    (calc : TcEdge → ℕ) (tc dest : ℕ) (db : TcSet) (a b : ℕ)
    → lookup_tc_edge (connect calc tc dest db) a b ≡ (elim (lookup_tc_edge db a b) [
      | none ↦ none
      | some e ↦
          let e' = if a == dest && tc == b then linked e else e in
          some (if a == tc && dest == b then real calc e' else e')
    ])
unfolding connect
lookup_tc_edge-connect calc tc dest db a b = ground (
  arith,
  lookup_tc_edge-update_edge dest tc (λ e. record e { inverse = true }) db a b (λ e. refl),
  lookup_tc_edge-update_edge tc dest
      (λ e.
        let up : TcEdge = record e { inverse = true; virtual = false } in
        record up { cost = calc up })
      (on_edges dest (update_edge tc (λ e. record e { inverse = true })) db) a b (λ e. refl),
)
