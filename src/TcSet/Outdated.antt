-- ===== src/TcSet/Outdated.antt =====
-- The garbage collection of edges in src/tc_set.c, which follows the answer set number of a vertex.
use olsr.Prelude.{
  ℕ, ◌≡◌, ◌⊎◌, inl, inr, refl, sym, subst, ◌∙◌, ==_iff, Bool, true, false, ◌||◌, ◌==◌, List, [],
  ◌∷◌, Option, none, some, arith, Bool-cases, Option-cases,
}
use olsr.Spf.Nodes.{mem, IsNodup}
use olsr.TcSet.{
  TcEdge, TcEntry, TcSet, lookup_edge, lookup_tc_edge, is_some, is_held, seqno_greater_than,
  delete_edges, delete_outdated_tc_edges,
}
use olsr.TcSet.Edges.{dests, mem-lookup_edge}
use olsr.TcSet.Valid.{IsTcSet, changes_topology-IsTcSet, lookup_tc_edge-distinct}
use olsr.TcSet.Delete.{Deleted, delete_tc_edge_entry_lem}

-- An edge before and after the loop: one that passes the test is gone or virtual, another one stays.
abbrev pub Swept : (TcEdge → Bool) → Option TcEdge → Option TcEdge → Type 0
Swept test none new = new ≡ none
Swept test (some e) new =
    (test e ≡ true → (new ≡ none) ⊎ (new ≡ some (record e { virtual = true })))
    × (test e ≡ false → new ≡ some e)

Swept-same :
    (test : TcEdge → Bool) (old : Option TcEdge)
    → ((e : TcEdge) → old ≡ some e → test e ≡ false)
    → Swept test old old
Swept-same test none h = refl
Swept-same test (some e) h = ((λ gt. cc (h e refl)), (λ le. refl))

-- A deletion changes the edges of a vertex at one destination only.
Deleted-row :
    (tc dest : ℕ) (e f : TcEdge) (db db' : TcSet)
    → IsTcSet db
    → lookup_tc_edge db tc dest ≡ some e
    → Deleted tc dest f db db'
    → ((lookup_tc_edge db' tc dest ≡ none)
        ⊎ (lookup_tc_edge db' tc dest ≡ some (record e { virtual = true })))
      × ((b : ℕ) → (dest == b) ≡ false → lookup_tc_edge db' tc b ≡ lookup_tc_edge db tc b)
Deleted-row tc dest e f db db' v there d =
    let apart = lookup_tc_edge-distinct db tc dest e v there in
    (
      elim (Bool-cases (is_held f)) [
        | inl held ↦ inr (ground (arith, d.0 tc dest, held, there))
        | inr loose ↦ inl (ground (arith, d.0 tc dest, loose, there))
      ],
      (λ b other. elim (Option-cases (lookup_tc_edge db tc b)) [
        | inl absent ↦ ground (arith, d.0 tc b, absent, other, apart)
        | inr (x, here) ↦ ground (arith, d.0 tc b, here, other, apart)
      ]),
    )

-- What the loop gives for the edges of the vertex that it goes through.
abbrev pub Collected : ℕ → (TcEdge → Bool) → List ℕ → TcSet → TcSet → Type 0
Collected tc test ds db db' =
    ((b : ℕ)
      → (mem b ds ≡ true → Swept test (lookup_tc_edge db tc b) (lookup_tc_edge db' tc b))
        × (mem b ds ≡ false → lookup_tc_edge db' tc b ≡ lookup_tc_edge db tc b))
    × IsTcSet db'

mem-distinct : (d x : ℕ) (ds : List ℕ) → mem d ds ≡ false → mem x ds ≡ true → (d == x) ≡ false
mem-distinct d x ds out m = elim (Bool-cases (d == x)) [
  | inl same ↦ absurd (ground (arith, subst (λ z. mem z ds ≡ false) ((==_iff d x).0 same) out, m))
  | inr other ↦ other
]

-- One destination, and then the others.
Collected-step :
    (tc : ℕ) (test : TcEdge → Bool) (d : ℕ) (ds : List ℕ) (db db1 db' : TcSet)
    → mem d ds ≡ false
    → Swept test (lookup_tc_edge db tc d) (lookup_tc_edge db1 tc d)
    → ((b : ℕ) → (d == b) ≡ false → lookup_tc_edge db1 tc b ≡ lookup_tc_edge db tc b)
    → Collected tc test ds db1 db'
    → Collected tc test (d ∷ ds) db db'
unfolding mem
Collected-step tc test d ds db db1 db' new swept same rest = (
  (λ b. elim (Bool-cases (d == b)) [
    | inl here ↦
        let at = (==_iff d b).0 here in
        let out : mem b ds ≡ false = subst (λ x. mem x ds ≡ false) at new in
        let stays = (rest.0 b).1 out in
        (
          (λ m. subst (Swept test (lookup_tc_edge db tc b)) (sym stays) (
              subst (λ x. Swept test (lookup_tc_edge db tc x) (lookup_tc_edge db1 tc x)) at swept)),
          (λ m. absurd (ground (arith, m, here))),
        )
    | inr other ↦ (
      (λ m.
          subst (λ o. Swept test o (lookup_tc_edge db' tc b)) (same b other)
            ((rest.0 b).0 (ground (arith, m, other)))),
      (λ m. (rest.0 b).1 (ground (arith, m, other)) ∙ same b other),
    )
  ]),
  rest.1,
)

pub delete_edges_lem :
    (tc : ℕ) (test : TcEdge → Bool) (ds : List ℕ) (db : TcSet)
    → IsTcSet db
    → IsNodup ds
    → ((d : ℕ) → mem d ds ≡ true → is_some (lookup_tc_edge db tc d) ≡ true)
    → (db' : TcSet) × (retval : Bool) × (delete_edges tc test ds db ≡ some (db', retval))
      × Collected tc test ds db db'
unfolding delete_edges mem is_some
delete_edges_lem tc test [] db v n all = (db, false, refl, ((λ b. ((λ m. cc), (λ m. refl))), v))
delete_edges_lem tc test (d ∷ ds) db v n all = elim (Option-cases (lookup_tc_edge db tc d)) [
  | inl absent ↦ absurd (ground (arith, all d (ground arith), absent))
  | inr (e, there) ↦ elim (Bool-cases (test e)) [
    | inr fresh ↦
        let (db', retval, run, rest) =
          delete_edges_lem tc test ds db v n.1 (λ x m. all x (ground (arith, m))) in
        let stays =
          Swept-same test (lookup_tc_edge db tc d) (λ x h. ground (arith, h, there, fresh)) in
        (
          db',
          retval,
          rw (there, fresh, delete_edges) run,
          Collected-step tc test d ds db db db' n.0 stays (λ b other. refl) rest,
        )
    | inl old ↦
        let (db1, f, deleted, back, gone) = delete_tc_edge_entry_lem tc d e db v there in
        let (at, same) = Deleted-row tc d e f db db1 v there gone in
        let (db', retval, run, rest) =
          delete_edges_lem tc test ds db1 gone.1 n.1 (λ x m.
            ground (arith, all x (ground (arith, m)), same x (mem-distinct d x ds n.0 m))) in
        let swept : Swept test (lookup_tc_edge db tc d) (lookup_tc_edge db1 tc d) =
          rw there ((λ gt. at), (λ le. absurd (ground (arith, old, le)))) in
        (
          db',
          true,
          rw (there, old, deleted, run, delete_edges) refl,
          Collected-step tc test d ds db db1 db' n.0 swept same rest,
        )
  ]
]

pub dests-all :
    (es : List TcEdge) (d : ℕ) → mem d (dests es) ≡ true → is_some (lookup_edge d es) ≡ true
unfolding mem lookup_edge is_some
dests-all [] d m = cc
dests-all (e ∷ es) d m = ground (arith, dests-all es d)

-- The collection of outdated edges of a vertex goes through on a valid database and keeps it valid.
-- Of the edges of the vertex, each whose answer set number the vertex's own has overtaken is gone or
-- virtual, and each other one stays as it was.
pub delete_outdated_tc_edges_lem :
    (tc : ℕ) (entry : TcEntry) (db : TcSet)
    → IsTcSet db
    → db.tc_tree tc ≡ some entry
    → (db' : TcSet) × (retval : Bool) × (delete_outdated_tc_edges tc db ≡ some (db', retval))
      × ((b : ℕ)
          → Swept
              (λ e. seqno_greater_than entry.ansn e.ansn)
              (lookup_tc_edge db tc b)
              (lookup_tc_edge db' tc b))
      × IsTcSet db'
unfolding delete_outdated_tc_edges lookup_tc_edge
delete_outdated_tc_edges_lem tc entry db v there =
    let ds = dests (db.edge_tree tc) in
    let (db', retval, run, rest) =
      delete_edges_lem tc (λ e. seqno_greater_than entry.ansn e.ansn) ds db v (v.unique tc)
        (dests-all (db.edge_tree tc)) in
    (
      record db' { changes_topology = retval || db'.changes_topology },
      retval,
      rw (there, run, delete_outdated_tc_edges) refl,
      (λ b. elim (Bool-cases (mem b ds)) [
        | inl listed ↦ (rest.0 b).0 listed
        | inr absent ↦
            let none_there = mem-lookup_edge b (db.edge_tree tc) absent in
            rw none_there ((rest.0 b).1 absent ∙ none_there)
      ]),
      changes_topology-IsTcSet (retval || db'.changes_topology) db' rest.1,
    )
