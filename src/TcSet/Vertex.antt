-- ===== src/TcSet/Vertex.antt =====
-- `olsr_delete_tc_entry` of src/tc_set.c.
use olsr.Prelude.{
  ℕ, ◌≡◌, ◌⊎◌, ◌↔◌, inl, inr, refl, subst, ◌∙◌, ==_iff, true, ◌==◌, if◌then◌else◌, List, [], ◌∷◌,
  Option, none, some, arith, Bool-cases, Option-cases,
}
use olsr.Spf.Nodes.{mem}
use olsr.TcSet.{
  TcEdge, TcEntry, TcSet, lookup_edge, lookup_tc_edge, is_some, on_entry, stop_timers,
  delete_tc_entry,
}
use olsr.TcSet.Edges.{dests, mem-lookup_edge}
use olsr.TcSet.Valid.{IsTcSet}
use olsr.TcSet.Outdated.{Swept, delete_edges_lem, dests-all}

-- The vertices may change as long as those with edges stay.
pub tc_tree-IsTcSet :
    (tree : ℕ → Option TcEntry) (db : TcSet)
    → IsTcSet db
    → ((a b : ℕ) (e : TcEdge) → lookup_tc_edge db a b ≡ some e → is_some (tree a) ≡ true)
    → IsTcSet (record db { tc_tree = tree })
unfolding lookup_tc_edge
tc_tree-IsTcSet tree db v owned = record {
  unique = v.unique;
  paired = v.paired;
  loopless = v.loopless;
  owned = owned;
}

pub on_entry-some :
    (tc : ℕ) (write : TcEntry → TcEntry) (db : TcSet) (a : ℕ)
    → is_some ((on_entry tc write db).tc_tree a) ≡ is_some (db.tc_tree a)
unfolding on_entry is_some
on_entry-some tc write db a = elim (Option-cases (db.tc_tree a)) [
  | inl absent ↦ rw absent refl
  | inr (t, there) ↦ rw there refl
]

-- What is left of the entry of a vertex that only virtual edges keep.
abbrev vacate : TcEntry → TcEntry
vacate t = record (stop_timers t) { virtual = true; ansn = 0 }

List-cases :
    (es : List TcEdge) → (es ≡ []) ⊎ ((e : TcEdge) × (more : List TcEdge) × (es ≡ e ∷ more))
List-cases [] = inl refl
List-cases (e ∷ es) = inr (e, es, refl)

Swept-virtual :
    (old new : Option TcEdge) (e : TcEdge)
    → Swept (λ x. true) old new
    → new ≡ some e
    → e.virtual ≡ true
Swept-virtual none new e swept h = absurd (ground (arith, swept, h))
Swept-virtual (some x) new e swept h = elim (swept.0 refl) [
  | inl gone ↦ absurd (ground (arith, gone, h))
  | inr kept ↦
      let same : record x { virtual = true } ≡ e = ground (arith, kept, h) in
      subst (λ (z : TcEdge). z.virtual ≡ true) same refl
]

-- Deleting a vertex of a valid database goes through and keeps it valid. Each edge of the vertex that
-- is left is virtual; the vertex is gone exactly if none is left.
pub delete_tc_entry_lem :
    (tc : ℕ) (entry : TcEntry) (db : TcSet)
    → IsTcSet db
    → db.tc_tree tc ≡ some entry
    → (db' : TcSet) × (delete_tc_entry tc db ≡ some db')
      × ((b : ℕ) (e : TcEdge) → lookup_tc_edge db' tc b ≡ some e → e.virtual ≡ true)
      × ((db'.tc_tree tc ≡ none) ↔ (db'.edge_tree tc ≡ []))
      × IsTcSet db'
unfolding delete_tc_entry lookup_tc_edge on_entry is_some lookup_edge
delete_tc_entry_lem tc entry db v there =
    let ds = dests (db.edge_tree tc) in
    let (rest, retval, run, rows) =
      delete_edges_lem tc (λ e. true) ds db v (v.unique tc) (dests-all (db.edge_tree tc)) in
    let left : (b : ℕ) (e : TcEdge) → lookup_tc_edge rest tc b ≡ some e → e.virtual ≡ true =
      λ b e h. elim (Bool-cases (mem b ds)) [
        | inl listed ↦
            Swept-virtual (lookup_tc_edge db tc b) (lookup_tc_edge rest tc b) e
              ((rows.0 b).0 listed) h
        | inr absent ↦
            absurd
              (ground (arith, (rows.0 b).1 absent, mem-lookup_edge b (db.edge_tree tc) absent, h))
      ] in
    elim (List-cases (rest.edge_tree tc)) [
      | inl empty ↦ (
        record rest { tc_tree = λ a. if a == tc then none else rest.tc_tree a },
        rw (run, delete_tc_entry, empty) refl,
        left,
        ((λ h. empty), (λ h. ground arith)),
        tc_tree-IsTcSet (λ a. if a == tc then none else rest.tc_tree a) rest rows.1
            (λ a b e h. elim (Bool-cases (a == tc)) [
              | inl same ↦ absurd (
                  ground (
                    arith,
                    subst (λ x. lookup_tc_edge rest x b ≡ some e) ((==_iff a tc).0 same) h,
                    empty,
                  ))
              | inr other ↦ rw other (rows.1.owned a b e h)
            ]),
      )
      | inr (e, es, more) ↦
          let first : lookup_tc_edge rest tc e.dest ≡ some e = rw more (ground arith) in
          let stays = rows.1.owned tc e.dest e first in
          (
            on_entry tc vacate rest,
            rw (run, delete_tc_entry, more) refl,
            left,
            (
              (λ h. absurd (ground (arith, on_entry-some tc vacate rest tc, stays, h))),
              (λ h. absurd (ground (arith, more, h))),
            ),
            tc_tree-IsTcSet (on_entry tc vacate rest).tc_tree rest rows.1
                (λ a b x h. on_entry-some tc vacate rest a ∙ rows.1.owned a b x h),
          )
    ]
