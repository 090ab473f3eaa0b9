-- ===== src/TcSet/Valid.antt =====
-- The invariant of the link state database of src/tc_set.c, and the lookups after each change.
use olsr.Prelude.{
  ℕ, ◌≡◌, refl, ap, ==_iff, Bool, true, false, ◌&&◌, ◌||◌, ◌==◌, if◌then◌else◌, if_cases, if_rule,
  List, Bool-cases, Option-cases, inl, inr, sym, subst, ◌∙◌, none, some, arith,
}
use mathlib.Core.Path.{subst₂}
use olsr.Spf.Nodes.{IsNodup}
use olsr.TcSet.{
  TcEdge, TcSet, insert_edge, remove_edge, update_edge, on_edges, lookup_tc_edge, is_some, is_held,
}
use olsr.TcSet.Edges.{
  dests, lookup_edge-insert_edge, lookup_edge-remove_edge, lookup_edge-update_edge,
  dests-update_edge,
}

-- Each edge has its inverse edge and is connected with it, one of the two is real or belongs to a
-- neighbor, no edge leads from a vertex to itself, there is at most one edge from a vertex to
-- another, and edges hang off the vertices of the database.
pub record IsTcSet (db : TcSet) : Type 0 where
  pub unique : (a : ℕ) → IsNodup (dests (db.edge_tree a))
  pub paired :
      (a b : ℕ) (e : TcEdge)
      → lookup_tc_edge db a b ≡ some e
      → (e.inverse ≡ true)
        × (f : TcEdge) × (lookup_tc_edge db b a ≡ some f)
        × ((is_held e || is_held f) ≡ true)
  pub loopless : (a : ℕ) → lookup_tc_edge db a a ≡ none
  pub owned :
      (a b : ℕ) (e : TcEdge) → lookup_tc_edge db a b ≡ some e → is_some (db.tc_tree a) ≡ true

-- The flag for the routes does not matter.
pub changes_topology-IsTcSet :
    (c : Bool) (db : TcSet) → IsTcSet db → IsTcSet (record db { changes_topology = c })
unfolding lookup_tc_edge
changes_topology-IsTcSet c db v = record {
  unique = v.unique;
  paired = v.paired;
  loopless = v.loopless;
  owned = v.owned;
}

pub lookup_tc_edge-update_edge :
    (tc dest : ℕ) (write : TcEdge → TcEdge) (db : TcSet) (a b : ℕ)
    → ((e : TcEdge) → (write e).dest ≡ e.dest)
    → lookup_tc_edge (on_edges tc (update_edge dest write) db) a b ≡ (elim (lookup_tc_edge db a b) [
      | none ↦ none
      | some e ↦ some (if a == tc && dest == b then write e else e)
    ])
unfolding lookup_tc_edge on_edges
lookup_tc_edge-update_edge tc dest write db a b same =
    ground (arith, lookup_edge-update_edge b dest write (db.edge_tree a) same)

pub lookup_tc_edge-remove_edge :
    (tc dest : ℕ) (db : TcSet) (a b : ℕ)
    → IsNodup (dests (db.edge_tree a))
    → lookup_tc_edge (on_edges tc (remove_edge dest) db) a b
      ≡ (if a == tc && dest == b then none else lookup_tc_edge db a b)
unfolding lookup_tc_edge on_edges
lookup_tc_edge-remove_edge tc dest db a b n =
    ground (arith, lookup_edge-remove_edge b dest (db.edge_tree a) n)

pub lookup_tc_edge-insert_edge :
    (tc : ℕ) (new : TcEdge) (db : TcSet) (a b : ℕ)
    → lookup_tc_edge db tc new.dest ≡ none
    → lookup_tc_edge (on_edges tc (insert_edge new) db) a b
      ≡ (if a == tc && new.dest == b then some new else lookup_tc_edge db a b)
unfolding lookup_tc_edge on_edges
lookup_tc_edge-insert_edge tc new db a b h =
    ground (arith, lookup_edge-insert_edge b new (db.edge_tree a))

-- Each change keeps the edges unique.
pub on_edges-IsNodup :
    (tc : ℕ) (change : List TcEdge → List TcEdge) (db : TcSet) (a : ℕ)
    → ((es : List TcEdge) → es ≡ db.edge_tree tc → IsNodup (dests (change es)))
    → IsNodup (dests (db.edge_tree a))
    → IsNodup (dests ((on_edges tc change db).edge_tree a))
unfolding on_edges
on_edges-IsNodup tc change db a keep n =
    if_cases (λ (es : List TcEdge). IsNodup (dests es)) (a == tc) (change (db.edge_tree a))
      (db.edge_tree a) (λ same. keep (db.edge_tree a) (ap db.edge_tree ((==_iff a tc).0 same)))
      (λ other. n)

pub update_edge-IsNodup :
    (dest : ℕ) (write : TcEdge → TcEdge) (es : List TcEdge)
    → ((e : TcEdge) → (write e).dest ≡ e.dest)
    → IsNodup (dests es)
    → IsNodup (dests (update_edge dest write es))
update_edge-IsNodup dest write es same n = rw (dests-update_edge dest write es same) n

pub and_split : (p q : Bool) → (p && q) ≡ true → (p ≡ true) × (q ≡ true)
and_split true true h = (refl, refl)
and_split true false h = cc
and_split false q h = cc

or_comm : (p q : Bool) → (p || q) ≡ (q || p)
or_comm true true = refl
or_comm true false = refl
or_comm false true = refl
or_comm false false = refl

-- The two ends of an edge differ.
pub lookup_tc_edge-distinct :
    (db : TcSet) (a b : ℕ) (e : TcEdge)
    → IsTcSet db
    → lookup_tc_edge db a b ≡ some e
    → (a == b) ≡ false
lookup_tc_edge-distinct db a b e v there = elim (Bool-cases (a == b)) [
  | inl same ↦
      let loop = v.loopless a in
      let at = subst (λ z. lookup_tc_edge db a z ≡ some e) (sym ((==_iff a b).0 same)) there in
      absurd (ground (arith, loop, at))
  | inr other ↦ other
]

-- A write to one edge keeps the invariant where one of the edge and its inverse is still held.
module _ (tc dest : ℕ) (write : TcEdge → TcEdge) (db : TcSet) (v : IsTcSet db)
    (same : (e : TcEdge) → (write e).dest ≡ e.dest)
    (linked : (e : TcEdge) → e.inverse ≡ true → (write e).inverse ≡ true)
    (held : (e f : TcEdge)
      → lookup_tc_edge db tc dest ≡ some e
      → lookup_tc_edge db dest tc ≡ some f
      → (is_held (write e) || is_held f) ≡ true) where
  abbrev written : TcSet
  written = on_edges tc (update_edge dest write) db

  abbrev changed : ℕ → ℕ → TcEdge → TcEdge
  changed a b e = if a == tc && dest == b then write e else e

  lookup-written :
      (a b : ℕ) (x : TcEdge)
      → lookup_tc_edge db a b ≡ some x
      → lookup_tc_edge written a b ≡ some (changed a b x)
  lookup-written a b x there = lookup_tc_edge-update_edge tc dest write db a b same ∙ rw there refl

  -- Both ends of a pair after the write.
  held-changed :
      (a b : ℕ) (x y : TcEdge)
      → lookup_tc_edge db a b ≡ some x
      → lookup_tc_edge db b a ≡ some y
      → (is_held x || is_held y) ≡ true
      → (is_held (changed a b x) || is_held (changed b a y)) ≡ true
  held-changed a b x y there back either =
      let apart = lookup_tc_edge-distinct db a b x v there in
      elim (Bool-cases (a == tc && dest == b)) [
        | inl hit ↦
            let (at, to) = and_split (a == tc) (dest == b) hit in
            let away : (b == tc && dest == a) ≡ false = ground (arith, apart, at, to) in
            let h =
              held x y
                (subst₂ (λ p q. lookup_tc_edge db p q ≡ some x) ((==_iff a tc).0 at)
                  (sym ((==_iff dest b).0 to)) there)
                (subst₂ (λ p q. lookup_tc_edge db q p ≡ some y) ((==_iff a tc).0 at)
                  (sym ((==_iff dest b).0 to)) back) in
            rw (hit, away) h
        | inr miss ↦ elim (Bool-cases (b == tc && dest == a)) [
          | inl hit ↦
              let (at, to) = and_split (b == tc) (dest == a) hit in
              let h =
                held y x
                  (subst₂ (λ p q. lookup_tc_edge db p q ≡ some y) ((==_iff b tc).0 at)
                    (sym ((==_iff dest a).0 to)) back)
                  (subst₂ (λ p q. lookup_tc_edge db q p ≡ some x) ((==_iff b tc).0 at)
                    (sym ((==_iff dest a).0 to)) there) in
              rw (miss, hit) (or_comm (is_held x) (is_held (write y)) ∙ h)
          | inr away ↦ rw (miss, away) either
        ]
      ]

  pub update_edge-IsTcSet : IsTcSet written
  unfolding on_edges
  update_edge-IsTcSet = record {
    unique = λ a.
        on_edges-IsNodup tc (update_edge dest write) db a
          (λ es eq. update_edge-IsNodup dest write es same (rw eq (v.unique tc))) (v.unique a);
    paired = λ a b e h. elim (Option-cases (lookup_tc_edge db a b)) [
      | inl absent ↦
          absurd (ground (arith, lookup_tc_edge-update_edge tc dest write db a b same, absent, h))
      | inr (x, there) ↦
          let (inverse, y, back, either) = v.paired a b x there in
          let now : changed a b x ≡ e = ground (arith, lookup-written a b x there, h) in
          (
            subst (λ z. z.inverse ≡ true) now
                (if_rule (λ (z : TcEdge). z.inverse ≡ true) (a == tc && dest == b) (write x) x
                  (linked x inverse) inverse),
            changed b a y,
            lookup-written b a y back,
            subst (λ z. (is_held z || is_held (changed b a y)) ≡ true) now
                (held-changed a b x y there back either),
          )
    ];
    loopless =
        λ a. ground (arith, lookup_tc_edge-update_edge tc dest write db a a same, v.loopless a);
    owned = λ a b e h. elim (Option-cases (lookup_tc_edge db a b)) [
      | inl absent ↦
          absurd (ground (arith, lookup_tc_edge-update_edge tc dest write db a b same, absent, h))
      | inr (x, there) ↦ v.owned a b x there
    ];
  }
